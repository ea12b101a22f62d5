-- ===== src/Application/Events/Closing.antt =====
-- What a reader still gets from a subscription that is closed.
use bmstu_nirs.Common.{
  nat_key, Bool, List, [], ap, arith, false, length, map, refl, suc, true, zero, ℕ, ◌++◌, ◌∙◌, ◌∷◌,
  ◌≡◌,
}
use bmstu_nirs.Application.Events.{
  DialogEvent, Received, Subscription, close, closed_mark, ended, event, is_full, receive, received,
}

-- The answers to `n` calls of `receive`.
unfoldable pub read_out : ℕ → Subscription → List Received
unfolding receive
read_out zero s = []
read_out (suc n) s = let (answer, s') = receive s in answer ∷ read_out n s'

-- The pending events that closing keeps: `full` tells that the queue is full.
abbrev pub kept : Bool → Bool → List DialogEvent → List DialogEvent
kept true full q = []
kept false true [] = []
kept false true (e ∷ q) = q
kept false false q = q

read_out-marked :
    (q : List DialogEvent) (s : Subscription)
    → s.queue ≡ map event q ++ (closed_mark ∷ [])
    → read_out (suc (length q)) s ≡ map received q ++ (ended ∷ [])
unfolding read_out receive
read_out-marked [] s h = ground arith
read_out-marked (e ∷ q) s h =
    let s' : Subscription = record s { queue = map event q ++ (closed_mark ∷ []) } in
    let first : receive s ≡ (received e, s') = ground arith in
    ap (λ x. x.0 ∷ read_out (suc (length q)) x.1) first
    ∙ ap (◌∷◌ (received e)) (read_out-marked q s' refl)

close-queue :
    (discard_pending : Bool) (q : List DialogEvent) (s : Subscription)
    → s.closed ≡ false
    → s.queue ≡ map event q
    → (close discard_pending s).queue
      ≡ map event (kept discard_pending (is_full s) q) ++ (closed_mark ∷ [])
unfolding close
close-queue true q s open_now pending = ground arith
close-queue false [] s open_now pending = ground arith
close-queue false (e ∷ q) s open_now pending = ground arith

-- The reader of an open subscription that is closed gets the pending events in order, and then the
-- end. Closing that discards them leaves none; closing that keeps them loses the oldest one if the
-- queue is full, and none otherwise.
pub read_out-close :
    (discard_pending : Bool) (q : List DialogEvent) (s : Subscription)
    → s.closed ≡ false
    → s.queue ≡ map event q
    → let rest = kept discard_pending (is_full s) q in
      read_out (suc (length rest)) (close discard_pending s) ≡ map received rest ++ (ended ∷ [])
read_out-close discard_pending q s open_now pending =
    read_out-marked (kept discard_pending (is_full s) q) (close discard_pending s)
      (close-queue discard_pending q s open_now pending)
