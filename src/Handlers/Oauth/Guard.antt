-- ===== src/Handlers/Oauth/Guard.antt =====
-- What a callback of a provider needs (internal/handlers/server.go).
use be_miawai.Base.{
  ◌≡◌, ◌⊎◌, refl, inl, inr, none, false, Text, Option, is_blank, true, Option-cases, Bool-cases,
  arith,
}
use be_miawai.Database.World.{err, World}
use be_miawai.Handlers.Oauth.{oauth_callback, CallbackQuery, state_or}
use be_miawai.Auth.Session.{SessionCodec}
use be_miawai.Models.{OAuthProfile}
use be_miawai.Auth.State.{StateCodec, verify_oauth_state}
use be_miawai.Handlers.Reply.{Reply, reply}

-- Where the state of an OAuth callback does not verify for the provider, the provider reports an
-- error, the code is missing, or the provider gives no profile for it, the answer is 400 or 502
-- and the world stays as it is.
pub oauth_callback_guarded :
    (codec : SessionCodec) (exchange : Text → Text → World → Option OAuthProfile)
    (states : StateCodec) (provider : Text) (query : CallbackQuery) (w : World)
    → (state_or (verify_oauth_state states w.now query.state provider) ≡ none)
      ⊎ (is_blank query.error ≡ false)
      ⊎ (is_blank query.code ≡ true)
      ⊎ (exchange provider query.code w ≡ none)
    → (r : Reply) × ((r.code ≡ 400) ⊎ (r.code ≡ 502))
      × (oauth_callback codec exchange states provider query w ≡ (err r, w))
unfolding oauth_callback
oauth_callback_guarded codec exchange states provider query w h =
    elim (Option-cases (state_or (verify_oauth_state states w.now query.state provider))) [
      | inl n ↦ (reply 400 "invalid oauth state", inl refl, rw n refl)
      | inr (state, n) ↦ elim (Bool-cases (is_blank query.error)) [
        | inr e ↦ (reply 502 "oauth provider rejected login", inr refl, rw (n, e) refl)
        | inl e ↦ elim (Bool-cases (is_blank query.code)) [
          | inl c ↦ (reply 400 "missing oauth code", inl refl, rw (n, e, c) refl)
          | inr c ↦
              let x : exchange provider query.code w ≡ none = ground (arith, n, e, c, h) in
              (reply 502 "oauth provider exchange failed", inr refl, rw (n, e, c, x) refl)
        ]
      ]
    ]
