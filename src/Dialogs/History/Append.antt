-- ===== src/Dialogs/History/Append.antt =====
-- `append`: what is stored, the numbers of the messages, and the title.
use mathlib.Core.List.{map-append}
use bmstu_nirs.Common.{
  nat_key, List, String, [], ap, arith, length, lookup, lookup-insert_ne, lookup-insert_self, map,
  none, refl, some, subst, sym, ℕ, ◌++◌, ◌+◌, ◌∙◌, ◌∷◌, ◌≡◌, ◌≢◌,
}
use bmstu_nirs.Dialogs.Models.{Message, Time, Uuid, ok}
use bmstu_nirs.Dialogs.History.{
  Dialog, History, answer, append, get, message_of, store_messages, title_after,
}

-- `n, n + 1, ...`, as many as there are messages.
abbrev pub ids_from : ℕ → List Message → List ℕ
ids_from n [] = []
ids_from n (m ∷ ms) = n ∷ ids_from (n + 1) ms

store_messages-ids :
    (n : ℕ) (now : Time) (ms : List Message)
    → map (λ m. m.id) (store_messages n now ms) ≡ ids_from n ms
unfolding store_messages
store_messages-ids n now [] = refl
store_messages-ids n now (m ∷ ms) = ap (◌∷◌ n) (store_messages-ids (n + 1) now ms)

store_messages-messages :
    (n : ℕ) (now : Time) (ms : List Message) → map message_of (store_messages n now ms) ≡ ms
unfolding store_messages
store_messages-messages n now [] = refl
store_messages-messages n now (m ∷ ms) = ap (◌∷◌ m) (store_messages-messages (n + 1) now ms)

-- An append to a stored dialog returns the next free numbers in order, and the owner then reads the
-- old messages followed by the new ones; no other dialog changes.
pub get-append :
    (title_of : String → String) (dialog_id j : Uuid) (ms : List Message) (now : Time) (h : History)
    {d : Dialog}
    → lookup dialog_id h.dialogs ≡ some d
    → let (answer, h') = append title_of dialog_id ms now h in
      (answer ≡ ok (ids_from h.message_ids ms))
      × (get d.owner_id dialog_id h' ≡ ok (map message_of d.messages ++ ms))
      × (h'.message_ids ≡ h.message_ids + length ms)
      × (j ≢ dialog_id → lookup j h'.dialogs ≡ lookup j h.dialogs)
unfolding append get
get-append title_of dialog_id j ms now h {d} stored =
    let new = store_messages h.message_ids now ms in
    let d' : Dialog = record d {
      messages = d.messages ++ new;
      title = title_after title_of d.title ms;
      updated_at = now;
    } in
    let messages : map message_of (d.messages ++ new) ≡ map message_of d.messages ++ ms =
      map-append message_of d.messages new
      ∙ ap (◌++◌ (map message_of d.messages)) (store_messages-messages h.message_ids now ms) in
    (
      ground (arith, store_messages-ids h.message_ids now ms),
      ground (arith, lookup-insert_self dialog_id d' h.dialogs),
      ground arith,
      λ other. ground (arith, lookup-insert_ne j dialog_id d' h.dialogs other),
    )

-- The title is that of the first request among the messages.
abbrev pub IsTitled : (String → String) → Dialog → Type 0
IsTitled title_of d = d.title ≡ title_after title_of none (map message_of d.messages)

title_after-append :
    (title_of : String → String) (ms ns : List Message)
    → title_after title_of (title_after title_of none ms) ns ≡ title_after title_of none (ms ++ ns)
title_after-append title_of [] ns = refl
title_after-append title_of (m ∷ ms) ns = ground (arith, title_after-append title_of ms ns)

-- Whatever is appended to a dialog, its title stays that of its first request, and it has none
-- before the first request.
pub append-IsTitled :
    (title_of : String → String) (dialog_id : Uuid) (ms : List Message) (now : Time) (h : History)
    {d d' : Dialog}
    → lookup dialog_id h.dialogs ≡ some d
    → IsTitled title_of d
    → lookup dialog_id (append title_of dialog_id ms now h).1.dialogs ≡ some d'
    → IsTitled title_of d'
unfolding append
append-IsTitled title_of dialog_id ms now h {d} {d'} stored titled stored' =
    let new = store_messages h.message_ids now ms in
    let e : Dialog = record d {
      messages = d.messages ++ new;
      title = title_after title_of d.title ms;
      updated_at = now;
    } in
    let same : d' ≡ e = ground (arith, lookup-insert_self dialog_id e h.dialogs) in
    let messages : map message_of (d.messages ++ new) ≡ map message_of d.messages ++ ms =
      map-append message_of d.messages new
      ∙ ap (◌++◌ (map message_of d.messages)) (store_messages-messages h.message_ids now ms) in
    subst (IsTitled title_of) (sym same) (
      ap (λ t. title_after title_of t ms) titled
      ∙ title_after-append title_of (map message_of d.messages) ms
      ∙ ap (title_after title_of none) (sym messages))
