-- ===== src/Handlers/WhatsApp/Gate.antt =====
-- Who is answered on WhatsApp (internal/handlers/whatsapp.go).
use be_miawai.Base.{
  ◌==◌, ℕ, ◌+◌, ◌*◌, ◌≡◌, refl, Option, some, Bool, true, false, ◌&&◌, ◌||◌, ◌⊎◌, inl, inr, Text,
  codes, text_eq, is_blank, arith, Bool-cases, Option-cases, ◌<◌, if◌then◌else◌, text_eq_sound, [],
}
use be_miawai.Base.Strings.{trim_space}
use be_miawai.Models.{WhatsAppAccount, WhatsAppContact}
use be_miawai.Database.World.{World, Result, ok, err, Error, resume}
use be_miawai.Database.Subscriptions.{second}
use be_miawai.Database.WhatsApp.{central_bot, user_linked, incoming}
use be_miawai.Handlers.Settings.{ProviderConfig}
use be_miawai.Handlers.Limits.{LimitConfig}
use be_miawai.Handlers.Chat.{ChatService}
use be_miawai.Handlers.WhatsApp.{
  WhatsAppInboundInput, WhatsAppInboundResult, InboundError, silence, handle_whatsapp_inbound,
  is_recent_whatsapp_inbound, dispatch, is_unlinked, bad_request, whatsapp_contact_allowed,
  answer_linked, foreign_code, noting, within, renamed, event_of, resolve_error,
}
use be_miawai.Handlers.Accounts.{equal_fold}
use be_miawai.Database.WhatsApp.Contacts.{resolve_whatsapp_contact}
use be_miawai.Database.WhatsApp.Accounts.{create_whatsapp_event}

-- A message that says nothing, or to nobody.
abbrev pub is_malformed : WhatsAppInboundInput → Bool
is_malformed input =
    is_blank (trim_space input.account_id)
    || is_blank (trim_space input.contact_jid)
    || (is_blank (trim_space input.text) && input.images == 0)

-- The answer to a message that is not answered.
abbrev pub unanswered : WhatsAppInboundInput → Result InboundError WhatsAppInboundResult
unanswered input = if is_malformed input then err bad_request else ok silence

-- The world in which the sender is resolved: the incoming message is on record.
abbrev pub recorded : WhatsAppInboundInput → World → World
recorded input w =
    (noting
      (create_whatsapp_event (event_of input input.sender_jid incoming [] (trim_space input.text)))
      w).1

module _ (service : ChatService) (providers : ProviderConfig) (limits : LimitConfig)
    (parse_time : Text → Option ℕ) where
  not_recent :
      (input : WhatsAppInboundInput) (w : World)
      → is_recent_whatsapp_inbound service providers limits parse_time input.timestamp w.now ≡ false
      → handle_whatsapp_inbound service providers limits parse_time input w ≡ (unanswered input, w)
  unfolding handle_whatsapp_inbound
  not_recent input w h = elim (Bool-cases (is_malformed input)) [
    | inl t ↦ rw t refl
    | inr t ↦ rw (t, h) refl
  ]

  -- A message whose timestamp is unreadable, more than a minute ahead or more than five minutes
  -- old is left unanswered, or refused where a field is missing, and the world stays as it is.
  pub handle_whatsapp_inbound_stale :
      (input : WhatsAppInboundInput) (w : World)
      → ((sent : ℕ)
          → parse_time (trim_space input.timestamp) ≡ some sent
          → (w.now + 60 * second < sent) ⊎ (sent + 5 * 60 * second < w.now))
      → handle_whatsapp_inbound service providers limits parse_time input w ≡ (unanswered input, w)
  unfolding is_recent_whatsapp_inbound
  handle_whatsapp_inbound_stale input w late =
      elim (Option-cases (parse_time (trim_space input.timestamp))) [
        | inl n ↦ not_recent input w (rw n refl)
        | inr (sent, e) ↦ not_recent input w (rw e (ground (arith, late sent e)))
      ]

-- What keeps a message from the model.
abbrev pub IsKeptOut : WhatsAppAccount → WhatsAppContact → Type 0
IsKeptOut account contact =
    (equal_fold account.status (codes "connected") ≡ false)
    ⊎ (is_unlinked account contact ≡ true)
    ⊎ ((text_eq account.mode user_linked ≡ true)
        × (whatsapp_contact_allowed account contact ≡ false))

modes_apart : (mode : Text) → text_eq mode user_linked ≡ true → text_eq mode central_bot ≡ false
unfolding text_eq
modes_apart mode h = rw (text_eq_sound mode user_linked h) refl

module _ (s s' : ChatService) (providers : ProviderConfig) (limits : LimitConfig)
    (parse_time : Text → Option ℕ) (input : WhatsAppInboundInput) where
  linked_kept_out :
      (account : WhatsAppAccount) (contact : WhatsAppContact) (user_id : Text) (w : World)
      → text_eq account.mode user_linked ≡ true
      → whatsapp_contact_allowed account contact ≡ false
      → answer_linked s providers limits parse_time input account contact user_id w
        ≡ answer_linked s' providers limits parse_time input account contact user_id w
  linked_kept_out account contact user_id w h p =
      rw (foreign_code, modes_apart account.mode h, h, p) refl

  dispatch_kept_out :
      (account : WhatsAppAccount) (contact : WhatsAppContact) (user_id : Text) (w : World)
      → IsKeptOut account contact
      → dispatch s providers limits parse_time input account contact user_id w
        ≡ dispatch s' providers limits parse_time input account contact user_id w
  dispatch_kept_out account contact user_id w (inl off) = rw off refl
  dispatch_kept_out account contact user_id w (inr (inl unlinked)) =
      elim (Bool-cases (equal_fold account.status (codes "connected"))) [
        | inl t ↦ rw (t, unlinked) refl
        | inr t ↦ rw t refl
      ]
  dispatch_kept_out account contact user_id w (inr (inr (h, p))) =
      elim (Bool-cases (equal_fold account.status (codes "connected"))) [
        | inl t ↦ elim (Bool-cases (is_unlinked account contact)) [
          | inl u ↦ rw (t, u) refl
          | inr u ↦ rw (t, u) (linked_kept_out account contact user_id w h p)
        ]
        | inr t ↦ rw t refl
      ]

  -- The rest of the handler, after the sender is resolved.
  resolved_kept_out :
      (r : Result Error (WhatsAppAccount × WhatsAppContact × Text) × World)
      → ((account : WhatsAppAccount) (contact : WhatsAppContact) (user_id : Text)
          → r.0 ≡ ok (account, contact, user_id)
          → IsKeptOut account contact)
      → resume
          (λ resolved.
            dispatch s providers limits parse_time input resolved.0 resolved.1 resolved.2)
          (renamed resolve_error r)
        ≡ resume
            (λ resolved.
              dispatch s' providers limits parse_time input resolved.0 resolved.1 resolved.2)
            (renamed resolve_error r)
  resolved_kept_out (ok (account, contact, user_id), w) h =
      dispatch_kept_out account contact user_id w (h account contact user_id refl)
  resolved_kept_out (err e, w) h = refl

  -- A message whose sender, where it resolves, resolves to an account that is not connected, to an
  -- unlinked number of the central bot, or to a number that the account's policy keeps out, never
  -- reaches the model: the answer and the world are the same, whatever the model and the files
  -- would give.
  pub handle_whatsapp_inbound_kept_out :
      (w : World)
      → ((account : WhatsAppAccount) (contact : WhatsAppContact) (user_id : Text)
          → (resolve_whatsapp_contact input.account_id input.contact_jid input.display_name
              (recorded input w)).0
            ≡ ok (account, contact, user_id)
          → IsKeptOut account contact)
      → handle_whatsapp_inbound s providers limits parse_time input w
        ≡ handle_whatsapp_inbound s' providers limits parse_time input w
  unfolding handle_whatsapp_inbound is_recent_whatsapp_inbound
  handle_whatsapp_inbound_kept_out w h = elim (Bool-cases (is_malformed input)) [
    | inl t ↦ rw t refl
    | inr t ↦ elim (Bool-cases (within w.now (parse_time (trim_space input.timestamp)))) [
      | inl q ↦
          rw (t, q)
            (resolved_kept_out
              (resolve_whatsapp_contact input.account_id input.contact_jid input.display_name
                (recorded input w))
              h)
      | inr q ↦ rw (t, q) refl
    ]
  ]
