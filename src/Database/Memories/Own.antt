-- ===== src/Database/Memories/Own.antt =====
-- Whose memories internal/database/memory_store.go reads and changes.
use be_miawai.Base.{
  ℕ, ◌≡◌, refl, List, [], ◌∷◌, ◌++◌, some, Bool, true, false, inl, inr, Text, codes, text_eq,
  text_eq_iff, arith, Option-cases, Bool-cases, ◌∙◌, if◌then◌else◌, is_blank, ap, sym,
}
use be_miawai.Base.Ints.{ℤ, limit_or}
use be_miawai.Models.{MemoryInput, UserMemory}
use be_miawai.Database.World.{World, MemoryRow, ok, Calm}
use be_miawai.Database.Rows.{any_row, touch_rows, rows_where, take}
use be_miawai.Database.Rows.Apart.{rows_where-touch_rows, rows_where-and}
use be_miawai.Database.Memories.Keyed.{Operation, upsert, update, delete, run_operation}
use be_miawai.Database.Memories.{
  belongs, has_key, is_own, set_memory, new_memory, upsert_memory_row, upsert_memory, update_memory,
  delete_memory, clean_input, memory_content_hash, title_of, TextSearch, search_memories,
  scan_memories, recent_memories,
}
use be_miawai.Base.Strings.{trim_space}
use be_miawai.Base.Lists.{List-cases}

-- The user whose request an operation serves.
abbrev pub actor : Operation → Text
actor (upsert user_id input) = user_id
actor (update user_id id input) = user_id
actor (delete user_id id) = user_id

module _ (v user_id : Text) (apart : text_eq user_id v ≡ false) where
  foreign : (r : MemoryRow) → text_eq r.user_id user_id ≡ true → belongs v r ≡ false
  foreign r h = ground (arith, h, apart, text_eq_iff r.user_id user_id)

  touch_rows-foreign :
      (test : MemoryRow → Bool) (change : MemoryRow → MemoryRow) (rs : List MemoryRow)
      → ((r : MemoryRow) → test r ≡ true → text_eq r.user_id user_id ≡ true)
      → ((r : MemoryRow) → (change r).user_id ≡ r.user_id)
      → rows_where (belongs v) (touch_rows test change rs) ≡ rows_where (belongs v) rs
  touch_rows-foreign test change rs k l =
      rows_where-touch_rows (belongs v) test change rs (λ r h. foreign r (k r h))
        (λ r h. foreign (change r) (rw (l r) (k r h)))

  upsert_memory_row-foreign :
      (id : Text) (input : MemoryInput) (title hash : Text) (now : ℕ) (rs : List MemoryRow)
      → rows_where (belongs v) (
          upsert_memory_row
            (new_memory id user_id input title hash now)
            (set_memory input title hash now)
            rs)
        ≡ rows_where (belongs v) rs
  unfolding upsert_memory_row rows_where
  upsert_memory_row-foreign id input title hash now rs =
      elim (Bool-cases (any_row (has_key user_id hash) rs)) [
        | inl t ↦ rw t (
            touch_rows-foreign (has_key user_id hash) (set_memory input title hash now) rs
              (λ r h. ground (arith, h)) (λ r. refl))
        | inr t ↦ ground (arith, t, foreign (new_memory id user_id input title hash now))
      ]

module _ (digest : Text → Text) (v : Text) where
  upsert_memory-foreign :
      (user_id : Text) (raw : MemoryInput) (w : World)
      → Calm w
      → text_eq user_id v ≡ false
      → let w' = (upsert_memory digest user_id raw w).1 in
        (rows_where (belongs v) w'.content.memories ≡ rows_where (belongs v) w.content.memories)
        × (w'.faults ≡ [])
  unfolding upsert_memory
  upsert_memory-foreign user_id raw w c apart =
      let input = clean_input raw in
      let id : Text = codes "mem" ++ (b'_' ∷ w.random w.draws) in
      elim (Option-cases (title_of input)) [
        | inl n ↦ ground (arith, n, c)
        | inr (title, t) ↦
            elim (Bool-cases (any_row (λ r. text_eq r.memory.id id) w.content.memories)) [
              | inl b ↦ ground (arith, t, b, c)
              | inr b ↦ ground (
                arith,
                t,
                b,
                c,
                upsert_memory_row-foreign v user_id apart id input title
                    (memory_content_hash digest input.domain input.kind input.content) w.now
                    w.content.memories,
              )
            ]
      ]

  update_memory-foreign :
      (user_id id : Text) (raw : MemoryInput) (w : World)
      → Calm w
      → text_eq user_id v ≡ false
      → let w' = (update_memory digest user_id id raw w).1 in
        (rows_where (belongs v) w'.content.memories ≡ rows_where (belongs v) w.content.memories)
        × (w'.faults ≡ [])
  unfolding update_memory
  update_memory-foreign user_id id raw w c apart =
      let input = clean_input raw in
      let hash : Text = memory_content_hash digest input.domain input.kind input.content in
      elim (Option-cases (title_of input)) [
        | inl n ↦ ground (arith, n, c)
        | inr (title, t) ↦ ground (
          arith,
          t,
          c,
          touch_rows-foreign v user_id apart (is_own user_id id) (set_memory input title hash w.now)
              w.content.memories (λ r h. ground (arith, h)) (λ r. refl),
        )
      ]

  delete_memory-foreign :
      (user_id id : Text) (w : World)
      → Calm w
      → text_eq user_id v ≡ false
      → let w' = (delete_memory user_id id w).1 in
        (rows_where (belongs v) w'.content.memories ≡ rows_where (belongs v) w.content.memories)
        × (w'.faults ≡ [])
  unfolding delete_memory
  delete_memory-foreign user_id id w c apart = ground (
    arith,
    c,
    touch_rows-foreign v user_id apart (is_own user_id id)
        (λ r. record r { deleted_at = some w.now; memory = record r.memory { updated_at = w.now } })
        w.content.memories (λ r h. ground (arith, h)) (λ r. refl),
  )

  run_operation-foreign :
      (o : Operation) (w : World)
      → Calm w
      → text_eq (actor o) v ≡ false
      → let w' = run_operation digest o w in
        (rows_where (belongs v) w'.content.memories ≡ rows_where (belongs v) w.content.memories)
        × (w'.faults ≡ [])
  run_operation-foreign (upsert u i) w c a = upsert_memory-foreign u i w c a
  run_operation-foreign (update u k i) w c a = update_memory-foreign u k i w c a
  run_operation-foreign (delete u k) w c a = delete_memory-foreign u k w c a

-- What a search finds among the user's own live memories.
abbrev pub matching : TextSearch → Text → ℕ → List MemoryRow → List UserMemory
matching search query limit own =
    scan_memories
      (take limit (search.by_rank query (rows_where (λ r. search.matches query r.memory) own)))

abbrev pub or_recent : ℕ → List MemoryRow → List UserMemory → List UserMemory
or_recent limit own [] = scan_memories (take limit own)
or_recent limit own (m ∷ ms) = m ∷ ms

-- The answer of a search, from the user's own live memories.
abbrev pub answer : TextSearch → Text → ℤ → List MemoryRow → List UserMemory
answer search raw limit own =
    if is_blank (trim_space raw)
    then []
    else or_recent (limit_or 20 8 limit) own
        (matching search (trim_space raw) (limit_or 20 8 limit) own)

-- Where no statement fails, a search answers from the user's own live memories only: those that
-- match, as the database ranks them, or the recent ones where none does.
pub search_memories-answer :
    (search : TextSearch) (v raw : Text) (limit : ℤ) (w : World)
    → Calm w
    → (search_memories search v raw limit w).0
      ≡ ok (answer search raw limit (rows_where (belongs v) w.content.memories))
unfolding search_memories recent_memories
search_memories-answer search v raw limit w c =
    let own : List MemoryRow = rows_where (belongs v) w.content.memories in
    let e =
      rows_where-and (belongs v) (λ r. search.matches (trim_space raw) r.memory)
        w.content.memories in
    elim (List-cases (matching search (trim_space raw) (limit_or 20 8 limit) own)) [
      | inl n ↦ ground (arith, c, e, n)
      | inr (m, ms, n) ↦ ground (arith, c, e, n)
    ]

-- Where no statement fails, no upsert, update or deletion of a memory by another user changes what
-- a user's search answers, however the database matches and ranks.
pub search_memories-run_operation :
    (digest : Text → Text) (search : TextSearch) (v raw : Text) (limit : ℤ) (o : Operation)
    (w : World)
    → Calm w
    → text_eq (actor o) v ≡ false
    → (search_memories search v raw limit (run_operation digest o w)).0
      ≡ (search_memories search v raw limit w).0
search_memories-run_operation digest search v raw limit o w c a =
    let (same, calm) = run_operation-foreign digest v o w c a in
    search_memories-answer search v raw limit (run_operation digest o w) calm
    ∙ ap (λ own. ok (answer search raw limit own)) same
    ∙ sym (search_memories-answer search v raw limit w c)
