-- ===== src/Handlers/WhatsApp/Speaker.antt =====
-- For whom the model is asked (internal/handlers/whatsapp.go).
use be_miawai.Base.{
  ℕ, ◌≡◌, refl, Option, none, true, inl, inr, Text, text_eq, Bool-cases, if◌then◌else◌, codes, ◌||◌,
  ◌&&◌, not, arith, is_blank, text_eq_iff, Option-cases, subst, sym,
}
use be_miawai.Base.Strings.{trim_space}
use be_miawai.Models.{User, WhatsAppAccount, WhatsAppContact}
use be_miawai.Database.World.{
  ◌>>=◌, ◌>>◌, M, World, Result, ok, err, resume, Error, raise_if, contact_jid_required, new_id,
  statement, modify, gets, Query, pure, transaction,
}
use be_miawai.Handlers.Settings.{ProviderConfig}
use be_miawai.Handlers.Limits.{LimitConfig, is_status_command}
use be_miawai.Handlers.Chat.{ChatService, process_chat_reply, ChatReplyInput}
use be_miawai.Handlers.WhatsApp.{
  process_whatsapp_message, prepare_whatsapp_message, answer_prepared, reply_input,
  WhatsAppInboundInput, answer_linked, dispatch, answer_as, foreign_code, renamed, user_failed,
  is_unlinked, whatsapp_contact_allowed, handle_whatsapp_inbound, is_recent_whatsapp_inbound,
  resolve_error, within,
}
use be_miawai.Database.WhatsApp.Contacts.{
  resolve_whatsapp_contact, find_contact, upsert_contact, new_contact, rename,
}
use be_miawai.Database.WhatsApp.Accounts.{get_whatsapp_account_by_id}
use be_miawai.Handlers.Accounts.{equal_fold}
use be_miawai.Database.WhatsApp.{central_bot, user_linked, pending}
use be_miawai.Database.Users.{get_user_by_id, or_no_rows}
use be_miawai.Handlers.Accounts.Laws.{get_user_by_id-id}
use be_miawai.Handlers.WhatsApp.Gate.{recorded, is_malformed}
use be_miawai.Database.Keeps.{Yields, rest-Yields, transaction-Yields, ok_injective}

-- A model that answers nobody but one user, neither with a reply nor with tracker entries.
abbrev pub only_for : Text → ChatService → ChatService
only_for user_id s = record s {
  answer = λ input. if text_eq input.user.id user_id then s.answer input else (λ w. none);
  tracker_answer =
      λ input. if text_eq input.user.id user_id then s.tracker_answer input else (λ w. none);
}

module _ {E A B : Type 0} {f g : A → M E B} where
  resume_same :
      (r : Result E A × World) → ((a : A) (w : World) → f a w ≡ g a w) → resume f r ≡ resume g r
  resume_same (ok a, w) k = k a w
  resume_same (err e, w) k = refl

module _ (s : ChatService) (providers : ProviderConfig) (limits : LimitConfig)
    (parse_time : Text → Option ℕ) where
  chat_alike :
      (user_id : Text) (input : ChatReplyInput) (w : World)
      → text_eq input.user.id user_id ≡ true
      → process_chat_reply (only_for user_id s) input w ≡ process_chat_reply s input w
  unfolding process_chat_reply
  chat_alike user_id input w e = elim (Bool-cases (is_status_command (trim_space input.message))) [
    | inl t ↦ rw t refl
    | inr t ↦ rw (t, e) refl
  ]

  processed_alike :
      (user_id : Text) (user : User) (account : WhatsAppAccount) (contact : WhatsAppContact)
      (text : Text) (images : ℕ) (w : World)
      → text_eq user.id user_id ≡ true
      → process_whatsapp_message
          (only_for user_id s)
          providers
          limits
          parse_time
          user
          account
          contact
          text
          images
          w
        ≡ process_whatsapp_message s providers limits parse_time user account contact text images w
  unfolding process_whatsapp_message prepare_whatsapp_message
  processed_alike user_id user account contact text images w e =
      resume_same
        (prepare_whatsapp_message s providers limits parse_time user account contact text images w)
        λ p v. rw (answer_prepared, chat_alike user_id (reply_input user text images p) v e) refl

  -- After the user is loaded.
  answered_alike :
      (user_id : Text) (input : WhatsAppInboundInput) (account : WhatsAppAccount)
      (contact : WhatsAppContact) (r : Result Error User × World)
      → ((u : User) → r.0 ≡ ok u → u.id ≡ user_id)
      → resume
          (answer_as (only_for user_id s) providers limits parse_time input account contact)
          (renamed (λ e. user_failed) r)
        ≡ resume
            (answer_as s providers limits parse_time input account contact)
            (renamed (λ e. user_failed) r)
  answered_alike user_id input account contact (ok user, w) h =
      let e : text_eq user.id user_id ≡ true =
        ground (arith, h user, text_eq_iff user.id user_id) in
      rw
        (
          answer_as,
          processed_alike user_id user account contact (trim_space input.text) input.images w e,
        )
        refl
  answered_alike user_id input account contact (err x, w) h = refl

  linked_alike :
      (user_id : Text) (input : WhatsAppInboundInput) (account : WhatsAppAccount)
      (contact : WhatsAppContact) (w : World)
      → answer_linked
          (only_for user_id s)
          providers
          limits
          parse_time
          input
          account
          contact
          user_id
          w
        ≡ answer_linked s providers limits parse_time input account contact user_id w
  linked_alike user_id input account contact w =
      resume_same
        (foreign_code s providers limits parse_time account contact (trim_space input.text) w)
        λ foreign v.
          elim (Bool-cases (
            foreign
            || (text_eq account.mode user_linked
                && not (whatsapp_contact_allowed account contact)))) [
                  | inl t ↦ rw t refl
                  | inr t ↦ rw t (
                      answered_alike user_id input account contact (get_user_by_id user_id v)
                        (get_user_by_id-id user_id v))
                ]

  dispatched_alike :
      (user_id : Text) (input : WhatsAppInboundInput) (account : WhatsAppAccount)
      (contact : WhatsAppContact) (w : World)
      → dispatch (only_for user_id s) providers limits parse_time input account contact user_id w
        ≡ dispatch s providers limits parse_time input account contact user_id w
  dispatched_alike user_id input account contact w =
      elim (Bool-cases (equal_fold account.status (codes "connected"))) [
        | inl t ↦ elim (Bool-cases (is_unlinked account contact)) [
          | inl u ↦ rw (t, u) refl
          | inr u ↦ rw (t, u) (linked_alike user_id input account contact w)
        ]
        | inr t ↦ rw t refl
      ]

-- Does a resolved contact speak for the user?
abbrev SpeaksFor : WhatsAppAccount × WhatsAppContact × Text → Type 0
SpeaksFor (account, contact, user_id) = user_id ≡ (
    if text_eq account.mode central_bot && not (is_blank contact.linked_user_id)
    then contact.linked_user_id
    else account.owner_user_id)

-- The statements of `ResolveWhatsAppContact` after its insertion.
abbrev looked_up : WhatsAppAccount → Text → Query (WhatsAppAccount × WhatsAppContact × Text)
looked_up account jid = do
  statement
  contact ← or_no_rows (← gets (λ w. find_contact account.id jid w.wa_contacts))
  pure (
    account,
    contact,
    (if text_eq account.mode central_bot && not (is_blank contact.linked_user_id)
        then contact.linked_user_id
        else account.owner_user_id),
  )

looked_up-SpeaksFor :
    (account : WhatsAppAccount) (jid : Text) → Yields SpeaksFor (looked_up account jid)
looked_up-SpeaksFor account jid w (a, c, u) h =
    elim (Option-cases (find_contact account.id jid w.wa_contacts)) [
      | inl n ↦ ground (arith, n, h)
      | inr (contact, n) ↦ ground (arith, n, h)
    ]

-- Its insertion, and what follows.
abbrev insertion : WhatsAppAccount → Text → Text → Text → Query (Unit {0})
insertion account jid name id = modify (λ w. record w {
  wa_contacts =
      upsert_contact (new_contact id account jid name pending) (rename name) w.wa_contacts;
})

abbrev inserted :
    WhatsAppAccount → Text → Text → Text → Query (WhatsAppAccount × WhatsAppContact × Text)
inserted account jid name id = statement >> (insertion account jid name id >> looked_up account jid)

inserted-SpeaksFor :
    (account : WhatsAppAccount) (jid name id : Text)
    → Yields SpeaksFor (inserted account jid name id)
inserted-SpeaksFor account jid name id =
    rest-Yields SpeaksFor statement (λ u. insertion account jid name id >> looked_up account jid)
      λ u.
        rest-Yields SpeaksFor (insertion account jid name id) (λ v. looked_up account jid)
          λ v. looked_up-SpeaksFor account jid

resolve-SpeaksFor :
    (account_id jid name : Text) → Yields SpeaksFor (resolve_whatsapp_contact account_id jid name)
unfolding resolve_whatsapp_contact
resolve-SpeaksFor account_id jid name =
    let go : WhatsAppAccount → Query (WhatsAppAccount × WhatsAppContact × Text) = λ account.
      new_id (codes "wact") >>= λ id. inserted account (trim_space jid) (trim_space name) id in
    let all : Query (WhatsAppAccount × WhatsAppContact × Text) =
      get_whatsapp_account_by_id account_id >>= go in
    rest-Yields SpeaksFor (raise_if (is_blank (trim_space jid)) contact_jid_required)
      (λ u. transaction all)
      λ u. transaction-Yields SpeaksFor all (
        rest-Yields SpeaksFor (get_whatsapp_account_by_id account_id) go λ account.
          rest-Yields SpeaksFor (new_id (codes "wact"))
            (inserted account (trim_space jid) (trim_space name))
            λ id. inserted-SpeaksFor account (trim_space jid) (trim_space name) id)

-- Where the sender of a message resolves to a contact that speaks for a user, the model is asked
-- for a reply and for tracker entries for no other user: the result and the world are the same
-- with a model that gives those to that user only. On the central bot it is the user to whom the
-- contact is linked, where it is linked, and otherwise the account's owner. The worker of the
-- memories, which a reply may start, is left as it is: it asks for the due jobs of all users.
pub handle_whatsapp_inbound_speaker :
    (s : ChatService) (providers : ProviderConfig) (limits : LimitConfig)
    (parse_time : Text → Option ℕ) (input : WhatsAppInboundInput) (w : World)
    (account : WhatsAppAccount) (contact : WhatsAppContact) (user_id : Text)
    → (resolve_whatsapp_contact input.account_id input.contact_jid input.display_name
        (recorded input w)).0
      ≡ ok (account, contact, user_id)
    → (handle_whatsapp_inbound (only_for user_id s) providers limits parse_time input w
        ≡ handle_whatsapp_inbound s providers limits parse_time input w)
      × (user_id ≡ (
          if text_eq account.mode central_bot && not (is_blank contact.linked_user_id)
          then contact.linked_user_id
          else account.owner_user_id))
unfolding handle_whatsapp_inbound is_recent_whatsapp_inbound
handle_whatsapp_inbound_speaker s providers limits parse_time input w account contact user_id h = (
  elim (Bool-cases (is_malformed input)) [
    | inl t ↦ rw t refl
    | inr t ↦ elim (Bool-cases (within w.now (parse_time (trim_space input.timestamp)))) [
      | inl q ↦
          rw (t, q)
            (after_resolving
              (resolve_whatsapp_contact input.account_id input.contact_jid input.display_name
                (recorded input w))
              h)
      | inr q ↦ rw (t, q) refl
    ]
  ],
  resolve-SpeaksFor input.account_id input.contact_jid input.display_name (recorded input w)
      (account, contact, user_id) h,
)
  where
    after_resolving :
        (r : Result Error (WhatsAppAccount × WhatsAppContact × Text) × World)
        → r.0 ≡ ok (account, contact, user_id)
        → resume
            (λ q. dispatch (only_for user_id s) providers limits parse_time input q.0 q.1 q.2)
            (renamed resolve_error r)
          ≡ resume
              (λ q. dispatch s providers limits parse_time input q.0 q.1 q.2)
              (renamed resolve_error r)
    after_resolving (ok (a, c, u), v) e =
        subst
          (λ q.
            resume
              (λ q. dispatch (only_for user_id s) providers limits parse_time input q.0 q.1 q.2)
              (renamed resolve_error (ok q, v))
            ≡ resume (λ q. dispatch s providers limits parse_time input q.0 q.1 q.2)
                (renamed resolve_error (ok q, v)))
          (sym (ok_injective e))
          (dispatched_alike s providers limits parse_time user_id input account contact v)
    after_resolving (err x, v) e = cc
