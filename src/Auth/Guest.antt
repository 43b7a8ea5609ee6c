-- ===== src/Auth/Guest.antt =====
-- internal/auth/guest.go: the signed count of a guest's chats.
use be_miawai.Base.{[], ℕ, ◌+◌, Text, List, Option, ◌++◌, if◌then◌else◌, ◌∷◌, ◌||◌}
use be_miawai.Base.Ints.{ℤ, pos, exceeds, is_negative}
use be_miawai.Base.Split.{split}
use be_miawai.Auth.{AuthError, unix, or_undecodable, and_then, if_signed, malformed, expired_token}
use be_miawai.Database.World.{Result, err, ok}

-- `guestClaims`
pub record GuestClaims : Type 0 where
  pub used : ℤ
  pub exp : ℤ

pub record GuestCodec : Type 0 where
  pub mac : Text → Text
  pub encode : Text → Text
  pub decode : Text → Option Text
  pub marshal : GuestClaims → Text
  pub unmarshal : Text → Option GuestClaims

-- `SignUsage`, at the instant `now`
unfoldable pub sign_usage : GuestCodec → ℤ → ℕ → ℕ → Text
sign_usage codec used now ttl =
    let input =
      codec.encode (codec.marshal (record { used = used; exp = pos (unix (now + ttl)) })) in
    input ++ (b'.' ∷ codec.mac input)

abbrev pub check_usage : ℕ → GuestClaims → Result AuthError ℤ
check_usage now claims =
    if is_negative claims.used || exceeds (unix now) claims.exp
    then err expired_token
    else ok claims.used

unfoldable pub parse_usage_parts : GuestCodec → ℕ → List Text → Result AuthError ℤ
parse_usage_parts codec now (payload ∷ signature ∷ []) = if_signed codec.mac payload signature (
    and_then (or_undecodable (codec.decode payload))
      (λ text. and_then (or_undecodable (codec.unmarshal text)) (check_usage now)))
parse_usage_parts codec now _ = err malformed

-- `ParseUsage`, at the instant `now`
unfoldable pub parse_usage : GuestCodec → ℕ → Text → Result AuthError ℤ
unfolding split parse_usage_parts
parse_usage codec now token = parse_usage_parts codec now (split b'.' token)
