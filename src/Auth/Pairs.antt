-- ===== src/Auth/Pairs.antt =====
-- The tokens of two parts: guest counts and OAuth states (internal/auth/guest.go, state.go).
use be_miawai.Base.{
  ℕ, ◌≡◌, [], Text, some, true, Bool, ◌++◌, if◌then◌else◌, ◌∷◌, text_eq, ◌∙◌, ◌||◌, ◌&&◌, ap, ltb,
  leb, ◌+◌, ◌*◌, arith, text_eq_refl,
}
use be_miawai.Base.Split.{lacks, split, split-lacks, split-first}
use be_miawai.Auth.Guest.{GuestCodec, GuestClaims, sign_usage, parse_usage, parse_usage_parts}
use be_miawai.Auth.State.{
  StateCodec, OauthState, sign_oauth_state, verify_oauth_state, verify_state_parts, state_at,
}
use be_miawai.Base.Ints.{exceeds, ℤ, is_negative, pos}
use be_miawai.Auth.{unix, expired_token}
use be_miawai.Database.World.{err, ok}
use be_miawai.Database.WhatsApp.Links.{minute}

-- What is encoded is read back, and neither base64 nor a base64 signature holds a dot.
pub record IsFaithfulGuest (codec : GuestCodec) : Type 0 where
  pub decoded : (s : Text) → codec.decode (codec.encode s) ≡ some s
  pub unmarshalled : (c : GuestClaims) → codec.unmarshal (codec.marshal c) ≡ some c
  pub encoded_dotless : (s : Text) → lacks b'.' (codec.encode s) ≡ true
  pub mac_dotless : (s : Text) → lacks b'.' (codec.mac s) ≡ true

pub record IsFaithfulState (codec : StateCodec) : Type 0 where
  pub decoded : (s : Text) → codec.decode (codec.encode s) ≡ some s
  pub unmarshalled : (c : OauthState) → codec.unmarshal (codec.marshal c) ≡ some c
  pub encoded_dotless : (s : Text) → lacks b'.' (codec.encode s) ≡ true
  pub mac_dotless : (s : Text) → lacks b'.' (codec.mac s) ≡ true

split_two :
    (a b : Text)
    → lacks b'.' a ≡ true
    → lacks b'.' b ≡ true
    → split b'.' (a ++ (b'.' ∷ b)) ≡ a ∷ b ∷ []
split_two a b p q = split-first b'.' a b p ∙ ap (λ t. a ∷ t) (split-lacks b'.' b q)

-- Where the codec reads back what it encodes and writes no dots, a signed guest count is read back
-- while it lasts, and refused as expired later or where it is negative.
pub parse_usage-sign_usage :
    (codec : GuestCodec) (used : ℤ) (now ttl now' : ℕ)
    → IsFaithfulGuest codec
    → parse_usage codec now' (sign_usage codec used now ttl) ≡ (
        if is_negative used || ltb (unix (now + ttl)) (unix now')
        then err expired_token
        else ok used)
unfolding sign_usage parse_usage parse_usage_parts exceeds
parse_usage-sign_usage codec used now ttl now' f =
    let claims : GuestClaims = record { used = used; exp = pos (unix (now + ttl)) } in
    let payload = codec.encode (codec.marshal claims) in
    let parts =
      split_two payload (codec.mac payload) (f.encoded_dotless (codec.marshal claims))
        (f.mac_dotless payload) in
    ground (
      arith,
      parts,
      f.decoded (codec.marshal claims),
      f.unmarshalled claims,
      text_eq_refl (codec.mac payload),
    )

-- Where the codec reads back what it encodes and writes no dots, a signed OAuth state verifies, as
-- it was signed, for its own provider and for ten minutes, and is refused as expired for any other
-- provider or later.
pub verify_oauth_state-sign_oauth_state :
    (codec : StateCodec) (now now' : ℕ) (provider expected_provider : Text) (desktop : Bool)
    → IsFaithfulState codec
    → verify_oauth_state codec now' (sign_oauth_state codec now provider desktop) expected_provider
      ≡ (if text_eq provider expected_provider && leb (unix now') (unix (now + 10 * minute))
          then ok (state_at now provider desktop)
          else err expired_token)
unfolding sign_oauth_state verify_oauth_state verify_state_parts exceeds
verify_oauth_state-sign_oauth_state codec now now' provider expected_provider desktop f =
    let state = state_at now provider desktop in
    let payload = codec.encode (codec.marshal state) in
    let parts =
      split_two payload (codec.mac payload) (f.encoded_dotless (codec.marshal state))
        (f.mac_dotless payload) in
    ground (
      arith,
      parts,
      f.decoded (codec.marshal state),
      f.unmarshalled state,
      text_eq_refl (codec.mac payload),
    )
