-- ===== src/Auth/Session.antt =====
-- internal/auth/session.go: signing a session and reading it.
use be_miawai.Base.{[], ℕ, ◌+◌, Text, List, Option, ◌++◌, if◌then◌else◌, ◌∷◌, is_blank, ◌||◌}
use be_miawai.Base.Ints.{ℤ, pos, exceeds}
use be_miawai.Base.Split.{split}
use be_miawai.Auth.{
  AuthError, unix, or_undecodable, and_then, if_signed, user_id_required, malformed, expired_token,
}
use be_miawai.Database.World.{Result, err, ok}
use be_miawai.Models.{SessionIdentity}

-- `sessionClaims`
pub record SessionClaims : Type 0 where
  pub subject : Text
  pub email : Text
  pub role : Text
  pub access : List Text
  pub issued : ℤ
  pub exp : ℤ

-- How tokens are encoded and signed: `sign` of the session's secret, base64, and JSON of claims;
-- `header` is the encoded header of every token.
pub record SessionCodec : Type 0 where
  pub mac : Text → Text
  pub encode : Text → Text
  pub decode : Text → Option Text
  pub marshal : SessionClaims → Text
  pub unmarshal : Text → Option SessionClaims
  pub header : Text

abbrev pub claims_of : SessionIdentity → ℕ → ℕ → SessionClaims
claims_of identity now ttl = record {
  subject = identity.user_id;
  email = identity.email;
  role = identity.role;
  access = identity.access;
  issued = pos (unix now);
  exp = pos (unix (now + ttl));
}

abbrev pub identity_of : SessionClaims → SessionIdentity
identity_of claims = record {
  user_id = claims.subject;
  email = claims.email;
  role = claims.role;
  access = claims.access;
}

-- `SignSession`, at the instant `now`
unfoldable pub sign_session : SessionCodec → SessionIdentity → ℕ → ℕ → Result AuthError Text
sign_session codec identity now ttl =
    let input =
      codec.encode codec.header
      ++ (b'.' ∷ codec.encode (codec.marshal (claims_of identity now ttl))) in
    if is_blank identity.user_id
    then err user_id_required
    else ok (input ++ (b'.' ∷ codec.mac input))

abbrev pub check_claims : ℕ → SessionClaims → Result AuthError SessionIdentity
check_claims now claims =
    if is_blank claims.subject || exceeds (unix now) claims.exp
    then err expired_token
    else ok (identity_of claims)

unfoldable pub parse_parts : SessionCodec → ℕ → List Text → Result AuthError SessionIdentity
parse_parts codec now (header ∷ payload ∷ signature ∷ []) =
    if_signed codec.mac (header ++ (b'.' ∷ payload)) signature (
      and_then (or_undecodable (codec.decode payload))
        (λ text. and_then (or_undecodable (codec.unmarshal text)) (check_claims now)))
parse_parts codec now _ = err malformed

-- `ParseSession`, at the instant `now`
unfoldable pub parse_session : SessionCodec → ℕ → Text → Result AuthError SessionIdentity
unfolding split parse_parts
parse_session codec now token = parse_parts codec now (split b'.' token)
