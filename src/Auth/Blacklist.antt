-- ===== src/Auth/Blacklist.antt =====
-- `InMemoryTokenBlacklist` of backend/src/smeshariki_ai/auth/memory.py.
use bmstu_nirs.Common.{
  text_key, nat_key, Bool, Dict, Option, String, false, if◌then◌else◌, insert, lookup, ltb, none,
  some,
}
use bmstu_nirs.Auth.Models.{Time, Uuid}

pub record Blacklist : Type 0 where
  pub expirations : Dict String Time
  pub family_expirations : Dict Uuid Time

unfoldable pub add : String → Time → Time → Blacklist → Blacklist
add jti expires_at t s =
    if ltb t expires_at then record s { expirations = insert jti expires_at s.expirations } else s

-- `until is not None and until > clock()`
abbrev pub is_later : Option Time → Time → Bool
is_later none t = false
is_later (some until) t = ltb t until

unfoldable pub jti_revoked : String → Time → Blacklist → Bool
jti_revoked jti t s = is_later (lookup jti s.expirations) t

unfoldable pub revoke_family : Uuid → Time → Time → Blacklist → Blacklist
revoke_family family_id until t s =
    if ltb t until
    then record s { family_expirations = insert family_id until s.family_expirations }
    else s

unfoldable pub family_revoked : Uuid → Time → Blacklist → Bool
family_revoked family_id t s = is_later (lookup family_id s.family_expirations) t
