-- ===== src/Handlers/WhatsApp/Guard.antt =====
-- The guards of the calls in internal/handlers/whatsapp.go.
use be_miawai.Base.{
  ℕ, ◌≡◌, refl, Option, true, false, not, ◌||◌, ◌⊎◌, inl, inr, Text, codes, text_eq, is_blank,
  arith, Bool-cases,
}
use be_miawai.Base.Strings.{trim_space, trim_prefix}
use be_miawai.Database.World.{World, err}
use be_miawai.Handlers.Reply.{Reply, reply}
use be_miawai.Handlers.Settings.{ProviderConfig}
use be_miawai.Handlers.Limits.{LimitConfig}
use be_miawai.Handlers.Chat.{ChatService}
use be_miawai.Handlers.WhatsApp.{WhatsAppInboundInput}
use be_miawai.Handlers.WhatsApp.Accounts.{
  require_whatsapp_service, whatsapp_inbound, account_status, StatusBody,
}

-- The token of a header.
abbrev pub bearer : Text → Text
bearer header = trim_space (trim_prefix (trim_space header) (codes "Bearer "))

-- Without a configured token, or with a header that does not carry it, the service's two calls
-- answer 503 or 401 to every body and leave the world as it is.
pub service_calls_guarded :
    (service : ChatService) (providers : ProviderConfig) (limits : LimitConfig)
    (parse_time : Text → Option ℕ) (configured header id : Text)
    (input : Option WhatsAppInboundInput) (status : Option StatusBody) (w : World)
    → (is_blank (trim_space configured) ≡ true)
      ⊎ (text_eq (bearer header) (trim_space configured) ≡ false)
    → (r : Reply) × ((r.code ≡ 503) ⊎ (r.code ≡ 401))
      × (whatsapp_inbound service providers limits parse_time configured header input w
          ≡ (err r, w))
      × (account_status configured header id status w ≡ (err r, w))
unfolding whatsapp_inbound account_status require_whatsapp_service
service_calls_guarded service providers limits parse_time configured header id input status w h =
    elim (Bool-cases (is_blank (trim_space configured))) [
      | inl t ↦
          (reply 503 "whatsapp internal token is not configured", inl refl, rw t refl, rw t refl)
      | inr t ↦
          let wrong : is_blank (bearer header)
                || not (text_eq (bearer header) (trim_space configured))
              ≡ true =
            ground (arith, t, h) in
          (
            reply 401 "invalid whatsapp service token",
            inr refl,
            rw (t, wrong) refl,
            rw (t, wrong) refl,
          )
    ]
