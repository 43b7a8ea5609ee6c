-- ===== src/Handlers/Prompt/Trim.antt =====
-- What is left of a prompt's messages (internal/handlers/server.go).
use be_miawai.Base.{
  [], ◌∷◌, ◌++◌, ◌+◌, ◌-◌, ◌≡◌, ◌≤◌, ◌<◌, ◌⊎◌, refl, inl, inr, zero, suc, arith, ℕ, List, ap, subst,
  ◌∙◌, Bool-cases, sym, ltb, leb,
}
use be_miawai.Base.Ints.{ℤ}
use be_miawai.Handlers.Prompt.{
  shrink, skip, trim_prompt_messages_for_context, PromptMessage, prompt_messages_char_count,
  positive_or,
}
use be_miawai.Base.Lists.{length}

-- Why no earlier message is taken: there is none, or there are as many as may be, or the count
-- would be above the limit with the one before.
abbrev pub IsFull : ℕ → ℕ → List PromptMessage → List PromptMessage → Type 0
IsFull most limit front out =
    (front ≡ [])
    ⊎ (length out ≡ most)
    ⊎ ((front' : List PromptMessage) × (m : PromptMessage) × (front ≡ front' ++ (m ∷ []))
        × (limit < prompt_messages_char_count (m ∷ out)))

-- The loop drops messages in front while the count is above the limit.
abbrev Shrunk : ℕ → List PromptMessage → List PromptMessage → Type 0
Shrunk limit ms out =
    (front : List PromptMessage) × (front ++ out ≡ ms)
    × ((front ≡ [])
        ⊎ ((front' : List PromptMessage) × (m : PromptMessage) × (front ≡ front' ++ (m ∷ []))
            × (limit < prompt_messages_char_count (m ∷ out))))
    × ((prompt_messages_char_count out ≤ limit) ⊎ (length out ≤ 1))

shrink-Shrunk : (limit : ℕ) (ms : List PromptMessage) → Shrunk limit ms (shrink limit ms)
unfolding shrink
shrink-Shrunk limit [] = ([], refl, inl refl, inr (omega arith))
shrink-Shrunk limit (m ∷ []) = ([], refl, inl refl, inr (omega arith))
shrink-Shrunk limit (m ∷ n ∷ ms) =
    elim (Bool-cases (ltb limit (prompt_messages_char_count (m ∷ n ∷ ms)))) [
      | inr t ↦ rw t ([], refl, inl refl, inl (ground (arith, t)))
      | inl t ↦
          rw t (one_more (shrink limit (n ∷ ms)) (shrink-Shrunk limit (n ∷ ms)) (ground (arith, t)))
    ]
  where
    one_more :
        (out : List PromptMessage)
        → Shrunk limit (n ∷ ms) out
        → limit < prompt_messages_char_count (m ∷ n ∷ ms)
        → Shrunk limit (m ∷ n ∷ ms) out
    one_more out (front, e, inl none_left, small) above =
        let same : out ≡ n ∷ ms = subst (λ f. f ++ out ≡ n ∷ ms) none_left e in
        (m ∷ front, ap (λ xs. m ∷ xs) e, inr ([], m, rw none_left refl, rw same above), small)
    one_more out (front, e, inr (front', x, f, more), small) above =
        (m ∷ front, ap (λ xs. m ∷ xs) e, inr (m ∷ front', x, ap (λ xs. m ∷ xs) f, more), small)

-- What is skipped, and how many are left.
skipped :
    (n : ℕ) (ms : List PromptMessage)
    → (front : List PromptMessage) × (front ++ skip n ms ≡ ms)
      × ((n ≡ 0) → front ≡ [])
      × (length (skip n ms) ≡ length ms - n)
unfolding skip
skipped zero ms = ([], refl, (λ h. refl), omega arith)
skipped (suc n) [] = ([], refl, (λ h. refl), omega arith)
skipped (suc n) (m ∷ ms) =
    let (front, e, z, l) = skipped n ms in
    (m ∷ front, ap (λ xs. m ∷ xs) e, (λ h. absurd (omega (arith, h))), omega (arith, l))

length-append : (xs ys : List PromptMessage) → length (xs ++ ys) ≡ length xs + length ys
length-append [] ys = omega arith
length-append (x ∷ xs) ys = ground (arith, length-append xs ys)

append_assoc : (xs ys zs : List PromptMessage) → (xs ++ ys) ++ zs ≡ xs ++ (ys ++ zs)
append_assoc [] ys zs = refl
append_assoc (x ∷ xs) ys zs = ap (λ r. x ∷ r) (append_assoc xs ys zs)

-- Where the loop stopped, after what was skipped.
stopped :
    (most limit total : ℕ) (gone front out : List PromptMessage)
    → (total - most ≡ 0 → gone ≡ [])
    → length front + length out ≡ total - (total - most)
    → ((front ≡ [])
        ⊎ ((front' : List PromptMessage) × (m : PromptMessage) × (front ≡ front' ++ (m ∷ []))
            × (limit < prompt_messages_char_count (m ∷ out))))
    → IsFull most limit (gone ++ front) out
stopped most limit total gone front out z size (inl nothing) = elim (Bool-cases (leb total most)) [
  | inl t ↦ inl (rw (z (ground (arith, t)), nothing) refl)
  | inr t ↦
      let empty : length front ≡ 0 = rw nothing refl in inr (inl (ground (arith, t, size, empty)))
]
stopped most limit total gone front out z size (inr (front', m, e, above)) =
    inr (inr (gone ++ front', m, rw e (sym (append_assoc gone front' (m ∷ []))), above))

-- `trimPromptMessagesForContext` gives the last messages, no more than their limit (24 where it is
-- not positive), and with a count within its limit (24000 where it is not positive) but for a
-- single message; and it takes as many: there is no earlier message, or as many as may be are
-- taken, or the count would be above the limit with the one before.
pub trim_prompt_messages_for_context-IsFull :
    (ms : List PromptMessage) (message_limit char_limit : ℤ)
    → let out = trim_prompt_messages_for_context ms message_limit char_limit in
      let most = positive_or 24 message_limit in
      let limit = positive_or 24000 char_limit in
      (length out ≤ most)
      × ((prompt_messages_char_count out ≤ limit) ⊎ (length out ≤ 1))
      × (front : List PromptMessage) × (front ++ out ≡ ms)
      × IsFull most limit front out
unfolding trim_prompt_messages_for_context
trim_prompt_messages_for_context-IsFull ms message_limit char_limit =
    let most : ℕ = positive_or 24 message_limit in
    let limit : ℕ = positive_or 24000 char_limit in
    let rest : List PromptMessage = skip (length ms - most) ms in
    let out : List PromptMessage = shrink limit rest in
    let (gone, e, z, l) = skipped (length ms - most) ms in
    let (front, f, why, small) = shrink-Shrunk limit rest in
    let joined : (gone ++ front) ++ out ≡ ms =
      append_assoc gone front out ∙ ap (λ r. gone ++ r) f ∙ e in
    let size : length front + length out ≡ length rest =
      sym (length-append front out) ∙ ap length f in
    (
      omega (arith, size, l),
      small,
      gone ++ front,
      joined,
      stopped most limit (length ms) gone front out z (size ∙ l) why,
    )
