-- ===== src/Database/Memories/Listed.antt =====
-- A memory that was put in is listed (internal/database/memory_store.go).
use be_miawai.Base.{
  ℕ, ◌≡◌, refl, List, ◌∷◌, ◌++◌, true, ◌<◌, inl, inr, Text, codes, text_eq_refl, arith,
  Option-cases, Bool-cases, zero, suc, map,
}
use be_miawai.Base.Ints.{ℤ, limit_or, limit_or_pos}
use be_miawai.Models.{MemoryInput, UserMemory}
use be_miawai.Database.World.{World, MemoryRow, ok, Calm}
use be_miawai.Database.Rows.{any_row, touch_rows, rows_where, delete_rows, first_row, take}
use be_miawai.Database.Rows.Apart.{rows_where-first}
use be_miawai.Database.Memories.{
  belongs, has_key, set_memory, new_memory, upsert_memory_row, upsert_memory, clean_input,
  memory_content_hash, title_of, list_memories_by_user, scan_memories,
}

-- The row that an upsert puts in comes first.
upsert_memory_row-first :
    (id user_id : Text) (input : MemoryInput) (title hash : Text) (now : ℕ) (rs : List MemoryRow)
    → (r : MemoryRow) × (rest : List MemoryRow) × (upsert_memory_row
          (new_memory id user_id input title hash now)
          (set_memory input title hash now)
          rs
        ≡ r ∷ rest)
      × (has_key user_id hash r ≡ true)
unfolding upsert_memory_row touch_rows
upsert_memory_row-first id user_id input title hash now rs =
    elim (Bool-cases (any_row (has_key user_id hash) rs)) [
      | inl t ↦
          let (r, rest, e, p) = rows_where-first (has_key user_id hash) rs t in
          let after : List MemoryRow =
            map (set_memory input title hash now) rest ++ delete_rows (has_key user_id hash) rs in
          (
            set_memory input title hash now r,
            after,
            rw t (rw e refl),
            ground (arith, p, text_eq_refl hash),
          )
      | inr t ↦ (
        new_memory id user_id input title hash now,
        rs,
        rw t refl,
        ground (arith, text_eq_refl user_id, text_eq_refl hash),
      )
    ]

list_first :
    (user_id hash : Text) (limit : ℕ) (r : MemoryRow) (rest : List MemoryRow)
    → 0 < limit
    → has_key user_id hash r ≡ true
    → (ms : List UserMemory) × (scan_memories (take limit (rows_where (belongs user_id) (r ∷ rest)))
        ≡ r.memory ∷ ms)
unfolding take rows_where
list_first user_id hash zero r rest h k = absurd (omega arith)
list_first user_id hash (suc n) r rest h k =
    (scan_memories (take n (rows_where (belongs user_id) rest)), ground (arith, k))

-- Where no statement fails and an upsert succeeds, the memory that it answers with is the first of
-- the user's list, whatever the limit.
pub list_memories_by_user-upsert_memory :
    (digest : Text → Text) (user_id : Text) (raw : MemoryInput) (limit : ℤ) (w : World)
    {m : UserMemory}
    → Calm w
    → (upsert_memory digest user_id raw w).0 ≡ ok m
    → (ms : List UserMemory) × ((list_memories_by_user user_id limit
          (upsert_memory digest user_id raw w).1).0
        ≡ ok (m ∷ ms))
unfolding upsert_memory list_memories_by_user first_row
list_memories_by_user-upsert_memory digest user_id raw limit w c h =
    let input = clean_input raw in
    let id : Text = codes "mem" ++ (b'_' ∷ w.random w.draws) in
    let hash : Text = memory_content_hash digest input.domain input.kind input.content in
    elim (Option-cases (title_of input)) [
      | inl n ↦ ground (arith, n, c, h)
      | inr (title, t) ↦
          let (r, rest, e, k) =
            upsert_memory_row-first id user_id input title hash w.now w.content.memories in
          let (ms, f) =
            list_first user_id hash (limit_or 100 50 limit) r rest
              (limit_or_pos 100 50 limit (omega arith)) k in
          (ms, ground (arith, t, c, h, e, f, k))
    ]
