-- ===== src/Handlers/Prompt.antt =====
-- The messages of a prompt in internal/handlers/server.go: how many of them are sent, and what they
-- are estimated to cost.
pub mod Trim
use be_miawai.Base.{
  [], ◌∷◌, ◌+◌, ◌-◌, ◌/◌, zero, suc, Text, ℕ, List, if◌then◌else◌, ltb, leb, is_blank,
}
use be_miawai.Base.Ints.{pos, negsuc, ℤ}
use be_miawai.Base.Bytes.{byte_length}
use be_miawai.Base.Strings.{trim_space}
use be_miawai.Base.Lists.{length}

-- A part of a message: a text, or the data of an image.
pub data PromptPart : Type 0 where
  text_part image_part : Text → PromptPart

pub data PromptContent : Type 0 where
  plain : Text → PromptContent
  parts : List PromptPart → PromptContent

pub record PromptMessage : Type 0 where
  pub role : Text
  pub content : PromptContent

abbrev pub part_char_count : PromptPart → ℕ
part_char_count (text_part text) = byte_length text
part_char_count (image_part data_url) = 4000

unfoldable pub parts_char_count : List PromptPart → ℕ
parts_char_count [] = 0
parts_char_count (p ∷ ps) = part_char_count p + parts_char_count ps

abbrev pub content_char_count : PromptContent → ℕ
content_char_count (plain text) = byte_length text
content_char_count (parts ps) = parts_char_count ps

-- `promptMessageCharCount`
unfoldable pub prompt_message_char_count : PromptMessage → ℕ
unfolding byte_length parts_char_count
prompt_message_char_count message = byte_length message.role + content_char_count message.content

-- `promptMessagesCharCount`
unfoldable pub prompt_messages_char_count : List PromptMessage → ℕ
prompt_messages_char_count [] = 0
prompt_messages_char_count (m ∷ ms) = prompt_message_char_count m + prompt_messages_char_count ms

-- `if limit <= 0 { limit = … }`
abbrev pub positive_or : ℕ → ℤ → ℕ
positive_or default (pos zero) = default
positive_or default (pos (suc n)) = suc n
positive_or default (negsuc n) = default

-- `messages[start:]`
unfoldable pub skip : ℕ → List PromptMessage → List PromptMessage
skip zero ms = ms
skip (suc n) [] = []
skip (suc n) (m ∷ ms) = skip n ms

-- The loop that drops the first of several messages while their count is above the limit.
unfoldable pub shrink : ℕ → List PromptMessage → List PromptMessage
unfolding prompt_messages_char_count
shrink limit [] = []
shrink limit (m ∷ []) = m ∷ []
shrink limit (m ∷ n ∷ ms) =
    let rest = shrink limit (n ∷ ms) in
    if ltb limit (prompt_messages_char_count (m ∷ n ∷ ms)) then rest else m ∷ n ∷ ms

-- `trimPromptMessagesForContext`; the subtraction stops at 0, where there are no more messages than
-- the limit.
unfoldable pub trim_prompt_messages_for_context : List PromptMessage → ℤ → ℤ → List PromptMessage
unfolding skip shrink
trim_prompt_messages_for_context messages message_limit char_limit =
    shrink (positive_or 24000 char_limit)
      (skip (length messages - positive_or 24 message_limit) messages)

abbrev pub larger : ℕ → ℕ → ℕ
larger a b = if leb a b then b else a

-- `estimateTokensFromText`
unfoldable pub estimate_tokens_from_text : Text → ℕ
unfolding byte_length
estimate_tokens_from_text value =
    let trimmed = trim_space value in
    if is_blank trimmed then 0 else larger 1 ((byte_length trimmed + 3) / 4)

abbrev pub part_tokens : PromptPart → ℕ
part_tokens (text_part text) = estimate_tokens_from_text text
part_tokens (image_part data_url) = 1000

unfoldable pub parts_tokens : List PromptPart → ℕ
parts_tokens [] = 0
parts_tokens (p ∷ ps) = part_tokens p + parts_tokens ps

abbrev pub content_tokens : PromptContent → ℕ
content_tokens (plain text) = estimate_tokens_from_text text
content_tokens (parts ps) = parts_tokens ps

-- `estimateTokensFromPromptMessages`
unfoldable pub estimate_tokens_from_prompt_messages : List PromptMessage → ℕ
unfolding estimate_tokens_from_text parts_tokens
estimate_tokens_from_prompt_messages [] = 0
estimate_tokens_from_prompt_messages (m ∷ ms) =
    estimate_tokens_from_text m.role
    + 4
    + content_tokens m.content
    + estimate_tokens_from_prompt_messages ms
