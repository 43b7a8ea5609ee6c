-- ===== src/Database/Memories.antt =====
-- The memories of internal/database/memory_store.go. The digest (SHA-256, in hexadecimal) and the
-- database's full text search are parameters.
pub mod Keyed
pub mod Own
pub mod Listed
use be_miawai.Base.{
  ℕ, List, [], ◌∷◌, ◌++◌, Option, none, some, Bool, true, false, not, ◌&&◌, ◌||◌, Text, codes,
  text_eq, is_blank, leb, map, if◌then◌else◌,
}
use be_miawai.Base.Strings.{trim_space, folded, to_lower}
use be_miawai.Base.Bytes.{byte_length, first_bytes}
use be_miawai.Base.Fields.{squeezed}
use be_miawai.Base.Ints.{ℤ, pos, negsuc, exceeds, limit_or}
use be_miawai.Models.{MemoryInput, UserMemory}
use be_miawai.Database.World.{
  World, Query, MemoryRow, constraint, no_rows, ok, err, pure, raise, raise_if, gets, modify, ◌>>=◌,
  ◌>>◌, statement, new_id,
}
use be_miawai.Database.Rows.{any_row, first_row, rows_where, touch_rows, take}
use be_miawai.Database.Users.{or_no_rows, is_some}
use be_miawai.Database.ApiKeys.{first_chars}
use be_miawai.Database.Jobs.{encoded}

-- `normalizeMemoryField`
abbrev pub normalize_memory_field : Text → Text → Text
normalize_memory_field value fallback = if is_blank (folded value) then fallback else folded value

abbrev pub with_dots : Option Text → Option Text
with_dots none = none
with_dots (some s) = some (s ++ codes "...")

-- A text of at most `max` bytes, or its first `cut` bytes and three dots.
abbrev pub shortened : ℕ → ℕ → Text → Option Text
shortened max cut s = if leb (byte_length s) max then some s else with_dots (first_bytes cut s)

-- `memoryTitleFromContent`; `none` where the cut falls inside a character.
unfoldable pub memory_title_from_content : Text → Option Text
unfolding squeezed byte_length first_bytes
memory_title_from_content content =
    let trimmed = squeezed (trim_space content) in
    if is_blank trimmed then some (codes "Memory") else shortened 80 77 trimmed

-- `input.Confidence <= 0 || input.Confidence > 1`, in thousandths.
abbrev pub known_confidence : ℤ → ℤ
known_confidence c = if exceeds 1 c || not (exceeds 1001 c) then pos 700 else c

-- `deleted_at IS NULL`
abbrev pub is_kept : MemoryRow → Bool
is_kept r = not (is_some r.deleted_at)

-- `WHERE id = $1 AND user_id = $2 AND deleted_at IS NULL`
abbrev pub is_own : Text → Text → MemoryRow → Bool
is_own user_id id r = text_eq r.memory.id id && (text_eq r.user_id user_id && is_kept r)

-- `WHERE user_id = $1 AND deleted_at IS NULL`
abbrev pub belongs : Text → MemoryRow → Bool
belongs user_id r = text_eq r.user_id user_id && is_kept r

-- The rows that the unique index `(user_id, content_hash) WHERE deleted_at IS NULL` holds apart.
abbrev pub has_key : Text → Text → MemoryRow → Bool
has_key user_id hash r = belongs user_id r && text_eq r.content_hash hash

-- The columns that an upsert or an update sets.
abbrev pub set_memory : MemoryInput → Text → Text → ℕ → MemoryRow → MemoryRow
set_memory input title hash now r = record r {
  memory = record r.memory {
    domain = input.domain;
    kind = input.kind;
    title = title;
    content = input.content;
    source_conversation_id = input.source_conversation_id;
    confidence = input.confidence;
    metadata = input.metadata;
    updated_at = now;
  };
  content_hash = hash;
}

abbrev pub new_memory : Text → Text → MemoryInput → Text → Text → ℕ → MemoryRow
new_memory id user_id input title hash now = record {
  memory = record {
    id = id;
    domain = input.domain;
    kind = input.kind;
    title = title;
    content = input.content;
    source_conversation_id = input.source_conversation_id;
    confidence = input.confidence;
    metadata = input.metadata;
    created_at = now;
    updated_at = now;
  };
  user_id = user_id;
  content_hash = hash;
  deleted_at = none;
}

-- `INSERT … ON CONFLICT (user_id, content_hash) WHERE deleted_at IS NULL DO UPDATE`
unfoldable pub upsert_memory_row :
    MemoryRow → (MemoryRow → MemoryRow) → List MemoryRow → List MemoryRow
unfolding any_row touch_rows
upsert_memory_row n change rs =
    if any_row (has_key n.user_id n.content_hash) rs
    then touch_rows (has_key n.user_id n.content_hash) change rs
    else n ∷ rs

-- What both methods do to their input first.
abbrev pub clean_input : MemoryInput → MemoryInput
clean_input input = record input {
  domain = normalize_memory_field input.domain (codes "chat");
  kind = normalize_memory_field input.kind (codes "fact");
  title = trim_space input.title;
  content = trim_space input.content;
  confidence = known_confidence input.confidence;
}

-- The title, or one made of the content.
abbrev pub title_of : MemoryInput → Option Text
title_of input =
    if is_blank input.title then memory_title_from_content input.content else some input.title

-- The rows of a query, without the columns that it does not select.
abbrev pub scan_memories : List MemoryRow → List UserMemory
scan_memories = map (λ r. r.memory)

unfoldable pub list_memories_by_user : Text → ℤ → Query (List UserMemory)
unfolding rows_where take limit_or
list_memories_by_user user_id limit = do
  statement
  gets (λ w.
      scan_memories
        (take (limit_or 100 50 limit) (rows_where (belongs user_id) w.content.memories)))

unfoldable pub recent_memories : Text → ℕ → Query (List UserMemory)
unfolding rows_where take
recent_memories user_id limit = do
  statement
  gets (λ w. scan_memories (take limit (rows_where (belongs user_id) w.content.memories)))

unfoldable pub delete_memory : Text → Text → Query (Unit {0})
unfolding any_row touch_rows
delete_memory user_id id = do
  statement
  found ← gets (λ w. any_row (is_own user_id id) w.content.memories)
  modify (λ w. record w {
    content = record w.content {
      memories =
          touch_rows (is_own user_id id)
            (λ r. record r {
              deleted_at = some w.now;
              memory = record r.memory { updated_at = w.now };
            })
            w.content.memories;
    };
  })
  raise_if (not found) no_rows

-- `to_tsvector(…) @@ plainto_tsquery(…)`, and `ORDER BY ts_rank(…) DESC, updated_at DESC`.
pub record TextSearch : Type 0 where
  pub matches : Text → UserMemory → Bool
  pub by_rank : Text → List MemoryRow → List MemoryRow

-- The found rows, or else the recent ones.
abbrev pub found_or_recent : Text → ℕ → List UserMemory → Query (List UserMemory)
found_or_recent user_id limit [] = recent_memories user_id limit
found_or_recent user_id limit (m ∷ ms) = pure (m ∷ ms)

unfoldable pub search_memories : TextSearch → Text → Text → ℤ → Query (List UserMemory)
unfolding rows_where take limit_or recent_memories
search_memories search user_id raw limit =
    let query = trim_space raw in
    if is_blank query then pure [] else do
      statement
      found ← gets (λ w. scan_memories (
          take (limit_or 20 8 limit) (
            search.by_rank query (
              rows_where (λ r. belongs user_id r && search.matches query r.memory)
                w.content.memories))))
      found_or_recent user_id (limit_or 20 8 limit) found

module _ (digest : Text → Text) where
  -- `memoryContentHash`
  abbrev pub memory_content_hash : Text → Text → Text → Text
  memory_content_hash domain kind content =
      first_chars 32
        (digest (to_lower (squeezed (domain ++ codes "|" ++ kind ++ codes "|" ++ content))))

  unfoldable pub upsert_memory : Text → MemoryInput → Query UserMemory
  unfolding upsert_memory_row memory_title_from_content first_chars first_row any_row
  upsert_memory user_id raw = do
    let input = clean_input raw
    let hash = memory_content_hash input.domain input.kind input.content
    id ← new_id (codes "mem")
    statement
    title ← encoded (title_of input)
    clash ← gets (λ w. any_row (λ r. text_eq r.memory.id id) w.content.memories)
    raise_if clash constraint
    modify (λ w. record w {
      content = record w.content {
        memories =
            upsert_memory_row (new_memory id user_id input title hash w.now)
              (set_memory input title hash w.now) w.content.memories;
      };
    })
    row ← or_no_rows (← gets (λ w. first_row (has_key user_id hash) w.content.memories))
    pure row.memory

  -- Another live memory of the user with the hash violates the unique index.
  unfoldable pub update_memory : Text → Text → MemoryInput → Query UserMemory
  unfolding memory_title_from_content first_chars first_row any_row touch_rows
  update_memory user_id id raw = do
    let input = clean_input raw
    let hash = memory_content_hash input.domain input.kind input.content
    statement
    title ← encoded (title_of input)
    found ← gets (λ w. any_row (is_own user_id id) w.content.memories)
    raise_if (not found) no_rows
    clash ← gets (λ w.
        any_row (λ r. has_key user_id hash r && not (text_eq r.memory.id id)) w.content.memories)
    raise_if clash constraint
    modify (λ w. record w {
      content = record w.content {
        memories =
            touch_rows (is_own user_id id) (set_memory input title hash w.now) w.content.memories;
      };
    })
    row ← or_no_rows (← gets (λ w. first_row (is_own user_id id) w.content.memories))
    pure row.memory
