-- ===== src/Auth/State.antt =====
-- internal/auth/state.go: the signed state of an OAuth login.
use be_miawai.Base.{
  [], ℕ, ◌+◌, Text, Bool, Option, List, ◌*◌, ◌++◌, if◌then◌else◌, ◌∷◌, not, text_eq, ◌||◌,
}
use be_miawai.Base.Ints.{ℤ, pos, exceeds}
use be_miawai.Base.Split.{split}
use be_miawai.Auth.{AuthError, unix, or_undecodable, and_then, if_signed, malformed, expired_token}
use be_miawai.Database.World.{Result, err, ok}
use be_miawai.Database.WhatsApp.Links.{minute}

-- `oauthState`
pub record OauthState : Type 0 where
  pub provider : Text
  pub desktop : Bool
  pub exp : ℤ

pub record StateCodec : Type 0 where
  pub mac : Text → Text
  pub encode : Text → Text
  pub decode : Text → Option Text
  pub marshal : OauthState → Text
  pub unmarshal : Text → Option OauthState

-- The state that `SignOAuthStateForDesktop` signs at the instant `now`.
abbrev pub state_at : ℕ → Text → Bool → OauthState
state_at now provider desktop = record {
  provider = provider;
  desktop = desktop;
  exp = pos (unix (now + 10 * minute));
}

-- `SignOAuthStateForDesktop`
unfoldable pub sign_oauth_state : StateCodec → ℕ → Text → Bool → Text
sign_oauth_state codec now provider desktop =
    let input = codec.encode (codec.marshal (state_at now provider desktop)) in
    input ++ (b'.' ∷ codec.mac input)

abbrev pub check_state : ℕ → Text → OauthState → Result AuthError OauthState
check_state now expected_provider state =
    if not (text_eq state.provider expected_provider) || exceeds (unix now) state.exp
    then err expired_token
    else ok state

unfoldable pub verify_state_parts : StateCodec → ℕ → Text → List Text → Result AuthError OauthState
verify_state_parts codec now expected_provider (payload ∷ signature ∷ []) =
    if_signed codec.mac payload signature (
      and_then (or_undecodable (codec.decode payload)) (λ text.
        and_then (or_undecodable (codec.unmarshal text)) (check_state now expected_provider)))
verify_state_parts codec now expected_provider _ = err malformed

-- `VerifyOAuthStatePayload`
unfoldable pub verify_oauth_state : StateCodec → ℕ → Text → Text → Result AuthError OauthState
unfolding split verify_state_parts
verify_oauth_state codec now token expected_provider =
    verify_state_parts codec now expected_provider (split b'.' token)
