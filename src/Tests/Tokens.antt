-- ===== src/Tests/Tokens.antt =====
-- The theorems on tokens at concrete inputs.
use be_miawai.Base.{
  ◌+◌, ◌≡◌, [], Text, codes, ◌∷◌, ◌++◌, true, arith, if◌then◌else◌, text_eq, refl, ◌&&◌, leb, ◌*◌,
}
use be_miawai.Tests.Codecs.{
  session_codec, session_codec-IsFaithful, shifted, state_codec, state_codec-IsFaithfulState,
}
use be_miawai.Models.{SessionIdentity}
use be_miawai.Auth.Session.{sign_session, parse_session, claims_of}
use be_miawai.Auth.Laws.{IsSigned, Vouches, parse_session_sound, parse_session-sign_session}
use be_miawai.Auth.State.{verify_oauth_state, sign_oauth_state, state_at}
use be_miawai.Database.World.{ok, err}
use be_miawai.Auth.{unix, expired_token}
use be_miawai.Database.WhatsApp.Links.{minute}
use be_miawai.Auth.Pairs.{verify_oauth_state-sign_oauth_state}
use be_miawai.Base.Split.{split}

abbrev ada_session : SessionIdentity
ada_session = record {
  user_id = codes "ada";
  email = codes "ada@x.io";
  role = codes "member";
  access = codes "chat:read" ∷ codes "chat:write" ∷ [];
}

abbrev ada_input : Text
ada_input =
    shifted (codes "HS256")
    ++ (b'.' ∷ shifted (session_codec.marshal (claims_of ada_session 5000000000 1000000000)))

abbrev ada_token : Text
ada_token = ada_input ++ (b'.' ∷ shifted ada_input)

parse_session-sign_session_example :
    parse_session session_codec 6000000000 ada_token ≡ ok ada_session
unfolding sign_session
parse_session-sign_session_example =
    parse_session-sign_session session_codec ada_session 5000000000 1000000000 6000000000 ada_token
      session_codec-IsFaithful refl (ground arith)

parse_session_sound_example :
    IsSigned session_codec.mac ada_token
    × Vouches session_codec 6000000000 (split b'.' ada_token) ada_session
unfolding sign_session
parse_session_sound_example = parse_session_sound session_codec 6000000000 ada_token ada_session (
    parse_session-sign_session session_codec ada_session 5000000000 1000000000 6000000000 ada_token
      session_codec-IsFaithful refl (ground arith))

verify_oauth_state-sign_oauth_state_example :
    verify_oauth_state state_codec 6000000000
      (sign_oauth_state state_codec 5000000000 (codes "google") true)
      (codes "github")
    ≡ (if text_eq (codes "google") (codes "github")
          && leb (unix 6000000000) (unix (5000000000 + 10 * minute))
        then ok (state_at 5000000000 (codes "google") true)
        else err expired_token)
verify_oauth_state-sign_oauth_state_example =
    verify_oauth_state-sign_oauth_state state_codec 5000000000 6000000000 (codes "google")
      (codes "github") true state_codec-IsFaithfulState
