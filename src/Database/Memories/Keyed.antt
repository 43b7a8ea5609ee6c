-- ===== src/Database/Memories/Keyed.antt =====
-- The unique index of internal/database/memory_store.go under every operation.
use be_miawai.Base.{
  ℕ, ◌≤◌, ◌≡◌, refl, List, [], ◌∷◌, ◌++◌, some, Bool, true, false, not, ◌&&◌, inl, inr, Text, codes,
  text_eq, text_eq_iff, arith, Option-cases, Bool-cases,
}
use be_miawai.Models.{MemoryInput}
use be_miawai.Database.World.{World, MemoryRow}
use be_miawai.Database.Rows.{any_row, touch_rows}
use be_miawai.Database.Rows.Count.{
  count, count-none, count-le, count-touch_rows, count-touch_rows_le,
}
use be_miawai.Database.Memories.{
  has_key, is_own, set_memory, new_memory, upsert_memory_row, upsert_memory, update_memory,
  delete_memory, clean_input, memory_content_hash, title_of,
}

-- No two live memories of a user have the same digest, and no two memories the same id.
pub record IsKeyed (rs : List MemoryRow) : Type 0 where
  pub keys : (user_id hash : Text) → count (has_key user_id hash) rs ≤ 1
  pub ids : (id : Text) → count (λ r. text_eq r.memory.id id) rs ≤ 1

insert-IsKeyed :
    (n : MemoryRow) (rs : List MemoryRow)
    → any_row (has_key n.user_id n.content_hash) rs ≡ false
    → any_row (λ r. text_eq r.memory.id n.memory.id) rs ≡ false
    → IsKeyed rs
    → IsKeyed (n ∷ rs)
unfolding count
insert-IsKeyed n rs apart fresh h = record {
  keys = λ v k. ground (
    arith,
    h.keys v k,
    count-none (has_key n.user_id n.content_hash) rs apart,
    text_eq_iff n.user_id v,
    text_eq_iff n.content_hash k,
  );
  ids = λ i. ground (
    arith,
    h.ids i,
    count-none (λ r. text_eq r.memory.id n.memory.id) rs fresh,
    text_eq_iff n.memory.id i,
  );
}

-- An update that keeps the ids, and the key of every row that it gives one.
touch_rows-IsKeyed :
    (test : MemoryRow → Bool) (change : MemoryRow → MemoryRow) (rs : List MemoryRow)
    → ((r : MemoryRow) → (change r).memory.id ≡ r.memory.id)
    → ((v k : Text) (r : MemoryRow)
        → test r ≡ true
        → has_key v k (change r) ≡ true
        → has_key v k r ≡ true)
    → IsKeyed rs
    → IsKeyed (touch_rows test change rs)
touch_rows-IsKeyed test change rs same kept h = record {
  keys =
      λ v k. omega (arith, h.keys v k, count-touch_rows_le (has_key v k) test change rs (kept v k));
  ids = λ i. omega (
    arith,
    h.ids i,
    count-touch_rows_le (λ r. text_eq r.memory.id i) test change rs (λ r x y. rw (← same r) y),
  );
}

upsert_memory_row-IsKeyed :
    (id user_id : Text) (input : MemoryInput) (title hash : Text) (now : ℕ) (rs : List MemoryRow)
    → any_row (λ r. text_eq r.memory.id id) rs ≡ false
    → IsKeyed rs
    → IsKeyed (
        upsert_memory_row
          (new_memory id user_id input title hash now)
          (set_memory input title hash now)
          rs)
unfolding upsert_memory_row
upsert_memory_row-IsKeyed id user_id input title hash now rs fresh h =
    elim (Bool-cases (any_row (has_key user_id hash) rs)) [
      | inl t ↦ rw t (
          touch_rows-IsKeyed (has_key user_id hash) (set_memory input title hash now) rs (λ r. refl)
            (λ v k r x y. ground (arith, text_eq_iff r.content_hash hash)) h)
      | inr t ↦ rw t (insert-IsKeyed (new_memory id user_id input title hash now) rs t fresh h)
    ]

module _ (user_id id : Text) (input : MemoryInput) (title hash : Text) (now : ℕ)
    (rs : List MemoryRow)
    (free : any_row (λ r. has_key user_id hash r && not (text_eq r.memory.id id)) rs ≡ false)
    (h : IsKeyed rs) where
  updated_key :
      count
        (has_key user_id hash)
        (touch_rows (is_own user_id id) (set_memory input title hash now) rs)
      ≤ 1
  updated_key = omega (
    arith,
    h.ids id,
    count-touch_rows (has_key user_id hash) (is_own user_id id) (set_memory input title hash now)
        rs,
    count-le (λ r. is_own user_id id r && has_key user_id hash (set_memory input title hash now r))
        (λ r. text_eq r.memory.id id) rs (λ r x. ground (arith, x)),
    count-le (λ r. has_key user_id hash r && not (is_own user_id id r))
        (λ r. has_key user_id hash r && not (text_eq r.memory.id id)) rs (λ r x. ground (arith, x)),
    count-none (λ r. has_key user_id hash r && not (text_eq r.memory.id id)) rs free,
  )

  other_key :
      (v k : Text)
      → text_eq user_id v && text_eq hash k ≡ false
      → count (has_key v k) (touch_rows (is_own user_id id) (set_memory input title hash now) rs)
        ≤ 1
  other_key v k d = omega (
    arith,
    h.keys v k,
    count-touch_rows_le (has_key v k) (is_own user_id id) (set_memory input title hash now) rs
        (λ r x y. ground (
          arith,
          x,
          y,
          d,
          text_eq_iff r.user_id user_id,
          text_eq_iff r.user_id v,
          text_eq_iff user_id v,
        )),
  )

  update_memory_rows-IsKeyed :
      IsKeyed (touch_rows (is_own user_id id) (set_memory input title hash now) rs)
  update_memory_rows-IsKeyed = record {
    keys = λ v k. elim (Bool-cases (text_eq user_id v && text_eq hash k)) [
      | inl e ↦ ground (arith, updated_key, text_eq_iff user_id v, text_eq_iff hash k)
      | inr e ↦ other_key v k e
    ];
    ids = λ i. omega (
      arith,
      h.ids i,
      count-touch_rows_le (λ r. text_eq r.memory.id i) (is_own user_id id)
          (set_memory input title hash now) rs (λ r x y. y),
    );
  }

-- The operations that change the memories.
pub data Operation : Type 0 where
  upsert : Text → MemoryInput → Operation
  update : Text → Text → MemoryInput → Operation
  delete : Text → Text → Operation

-- The world after the operations, one after the other, whatever they answer.
abbrev pub run_operation : (Text → Text) → Operation → World → World
run_operation digest (upsert user_id input) w = (upsert_memory digest user_id input w).1
run_operation digest (update user_id id input) w = (update_memory digest user_id id input w).1
run_operation digest (delete user_id id) w = (delete_memory user_id id w).1

unfoldable pub run_operations : (Text → Text) → List Operation → World → World
run_operations digest [] w = w
run_operations digest (o ∷ os) w = run_operations digest os (run_operation digest o w)

module _ (digest : Text → Text) where
  upsert_memory-IsKeyed :
      (user_id : Text) (raw : MemoryInput) (w : World)
      → IsKeyed w.content.memories
      → IsKeyed (upsert_memory digest user_id raw w).1.content.memories
  unfolding upsert_memory
  upsert_memory-IsKeyed user_id raw w h =
      let input = clean_input raw in
      let id : Text = codes "mem" ++ (b'_' ∷ w.random w.draws) in
      elim (Option-cases (title_of input)) [
        | inl n ↦ ground (arith, n)
        | inr (title, t) ↦
            elim (Bool-cases (any_row (λ r. text_eq r.memory.id id) w.content.memories)) [
              | inl c ↦ ground (arith, t, c)
              | inr c ↦ ground (
                arith,
                t,
                c,
                upsert_memory_row-IsKeyed id user_id input title
                    (memory_content_hash digest input.domain input.kind input.content) w.now
                    w.content.memories c h,
              )
            ]
      ]

  update_memory-IsKeyed :
      (user_id id : Text) (raw : MemoryInput) (w : World)
      → IsKeyed w.content.memories
      → IsKeyed (update_memory digest user_id id raw w).1.content.memories
  unfolding update_memory
  update_memory-IsKeyed user_id id raw w h =
      let input = clean_input raw in
      let hash : Text = memory_content_hash digest input.domain input.kind input.content in
      elim (Option-cases (title_of input)) [
        | inl n ↦ ground (arith, n)
        | inr (title, t) ↦
            elim (Bool-cases (
              any_row (λ r. has_key user_id hash r && not (text_eq r.memory.id id))
                w.content.memories)) [
                  | inl c ↦ ground (arith, t, c)
                  | inr c ↦ ground (
                    arith,
                    t,
                    c,
                    update_memory_rows-IsKeyed user_id id input title hash w.now w.content.memories
                        c h,
                  )
                ]
      ]

delete_memory-IsKeyed :
    (user_id id : Text) (w : World)
    → IsKeyed w.content.memories
    → IsKeyed (delete_memory user_id id w).1.content.memories
unfolding delete_memory
delete_memory-IsKeyed user_id id w h = ground (
  arith,
  touch_rows-IsKeyed (is_own user_id id)
      (λ r. record r { deleted_at = some w.now; memory = record r.memory { updated_at = w.now } })
      w.content.memories (λ r. refl) (λ v k r x y. ground (arith, y)) h,
)

-- After any sequence of upserts, updates and deletions, whatever statements fail, the memories'
-- ids are distinct and no user has two live memories with one digest, if so it was before.
pub run_operations-IsKeyed :
    (digest : Text → Text) (os : List Operation) (w : World)
    → IsKeyed w.content.memories
    → IsKeyed (run_operations digest os w).content.memories
unfolding run_operations
run_operations-IsKeyed digest [] w h = h
run_operations-IsKeyed digest (upsert u i ∷ os) w h =
    run_operations-IsKeyed digest os (upsert_memory digest u i w).1
      (upsert_memory-IsKeyed digest u i w h)
run_operations-IsKeyed digest (update u k i ∷ os) w h =
    run_operations-IsKeyed digest os (update_memory digest u k i w).1
      (update_memory-IsKeyed digest u k i w h)
run_operations-IsKeyed digest (delete u k ∷ os) w h =
    run_operations-IsKeyed digest os (delete_memory u k w).1 (delete_memory-IsKeyed u k w h)
