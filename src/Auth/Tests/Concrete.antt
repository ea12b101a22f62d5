-- ===== src/Auth/Tests/Concrete.antt =====
-- Concrete functions for what other packages compute, for the tests: texts are written into a
-- token one after the other, each character behind a mark, and numbers as that many marks.
use Prim.Native.Char.{Char, code}
use Prim.Native.Nat.{zero, suc}
use bmstu_nirs.Common.{
  nat_key, text_key, Bool, Option, String, if◌then◌else◌, refl, some, ℕ, ℕ_discrete, ◌==◌, ◌≡◌,
}
use bmstu_nirs.Auth.Tokens.{Externals, Payload, RoundTrips}

abbrev more : Char
more = "1"

abbrev stop : Char
stop = "0"

abbrev is_more : Char → Bool
is_more c = code c == code more

write_text : String → String → String
write_text String.[] rest = String.◌∷◌ stop rest
write_text (String.◌∷◌ c s) rest = String.◌∷◌ more (String.◌∷◌ c (write_text s rest))

write_number : ℕ → String → String
write_number zero rest = String.◌∷◌ stop rest
write_number (suc n) rest = String.◌∷◌ more (write_number n rest)

-- What was written, and the rest.
read_text : String → String × String
read_text String.[] = ("", "")
read_text (String.◌∷◌ m String.[]) = ("", "")
read_text (String.◌∷◌ m (String.◌∷◌ c s)) =
    let (t, rest) = read_text s in
    if is_more m then (String.◌∷◌ c t, rest) else ("", String.◌∷◌ c s)

read_number : String → ℕ × String
read_number String.[] = (0, "")
read_number (String.◌∷◌ m s) =
    let (n, rest) = read_number s in if is_more m then (suc n, rest) else (0, s)

read_text-write_text : (s rest : String) → read_text (write_text s rest) ≡ (s, rest)
unfolding read_text write_text ℕ_discrete
read_text-write_text String.[] String.[] = refl
read_text-write_text String.[] (String.◌∷◌ c rest) = refl
read_text-write_text (String.◌∷◌ c s) rest = rw (read_text-write_text s rest)

read_number-write_number : (n : ℕ) (rest : String) → read_number (write_number n rest) ≡ (n, rest)
unfolding read_number write_number ℕ_discrete
read_number-write_number zero rest = refl
read_number-write_number (suc n) rest = rw (read_number-write_number n rest)

write_payload : Payload → String
write_payload p = write_text p.sub (
    write_text p.role (
      write_text p.jti
        (write_text p.sid (write_text p.fid (write_number p.iat (write_number p.exp ""))))))

read_payload : String → Option Payload
read_payload token =
    let (sub, a) = read_text token in
    let (role, b) = read_text a in
    let (jti, c) = read_text b in
    let (sid, d) = read_text c in
    let (fid, e) = read_text d in
    let (iat, f) = read_number e in
    let (exp, g) = read_number f in
    some (record { sub = sub; role = role; jti = jti; sid = sid; fid = fid; iat = iat; exp = exp })

read_payload-write_payload : (p : Payload) → read_payload (write_payload p) ≡ some p
unfolding read_payload write_payload
read_payload-write_payload p = simp (read_text-write_text, read_number-write_number)

-- A hash shows the text that it is of, and every letter is lower case already.
unfoldable pub externals : Externals
unfolding write_text write_number read_text read_number write_payload read_payload
externals = record {
  lower = λ s. s;
  sha256_hex = λ s. s;
  hash_token = λ s. s;
  hash = λ s. s;
  verify = λ h p. h == p;
  show_uuid = λ u. write_number u "";
  read_uuid = λ s. some (read_number s).0;
  jwt_encode = write_payload;
  jwt_decode = read_payload;
}

pub externals-RoundTrips : RoundTrips externals
unfolding externals
externals-RoundTrips = record {
  jwt = read_payload-write_payload;
  uuid = λ u. rw (read_number-write_number u "");
}
