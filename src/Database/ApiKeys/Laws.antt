-- ===== src/Database/ApiKeys/Laws.antt =====
-- An API key opens its own user's account from its creation to its revocation.
use be_miawai.Base.{
  ℕ, ◌+◌, ◌≡◌, ◌≢◌, refl, arith, List, [], ◌∷◌, none, some, Text, text_eq_iff, text_eq_refl, codes,
  ◌++◌, if◌then◌else◌, is_blank,
}
use be_miawai.Base.Strings.{trim_space}
use be_miawai.Models.{User, UserApiKey}
use be_miawai.Database.World.{ApiKeyRow, UserRow, World, ok, Calm, find_user}
use be_miawai.Database.ApiKeys.{
  find_hash, revoke_rows, revoke_user_api_key, active_row, create_user_api_key,
  authenticate_user_api_key, revoked, hash_user_api_key, find_key, first_chars,
}
use be_miawai.Database.Status.{active}
use be_miawai.Database.Users.{scan_user}

-- The hash is UNIQUE.
abbrev pub HasUniqueHashes : List ApiKeyRow → Type 0
HasUniqueHashes [] = Unit
HasUniqueHashes (r ∷ rs) = (find_hash r.key_hash rs ≡ none) × HasUniqueHashes rs

active_row_absent :
    (hash : Text) (us : List UserRow) (rs : List ApiKeyRow)
    → find_hash hash rs ≡ none
    → active_row hash us rs ≡ none
unfolding find_hash active_row
active_row_absent hash us [] h = refl
active_row_absent hash us (r ∷ rs) h = ground (arith, active_row_absent hash us rs)

find_hash-revoke_rows :
    (user_id id : Text) (now : ℕ) (hash : Text) (rs : List ApiKeyRow)
    → find_hash hash rs ≡ none
    → find_hash hash (revoke_rows user_id id now rs) ≡ none
unfolding find_hash revoke_rows
find_hash-revoke_rows user_id id now hash [] h = refl
find_hash-revoke_rows user_id id now hash (r ∷ rs) h =
    ground (arith, find_hash-revoke_rows user_id id now hash rs)

-- After its revocation a key's hash opens nothing.
active_row-revoke_rows :
    (user_id id : Text) (now : ℕ) (hash : Text) (us : List UserRow) (rs : List ApiKeyRow)
    (r : ApiKeyRow)
    → HasUniqueHashes rs
    → find_hash hash rs ≡ some r
    → r.key.id ≡ id
    → r.key.user_id ≡ user_id
    → active_row hash us (revoke_rows user_id id now rs) ≡ none
unfolding find_hash revoke_rows active_row
active_row-revoke_rows user_id id now hash us [] r u f e o = cc
active_row-revoke_rows user_id id now hash us (x ∷ rs) r u f e o = ground (
  arith,
  active_row-revoke_rows user_id id now hash us rs r u.1,
  active_row_absent hash us (revoke_rows user_id id now rs),
  find_hash-revoke_rows user_id id now hash rs,
  text_eq_iff x.key_hash hash,
  text_eq_iff x.key.id id,
  text_eq_iff x.key.user_id user_id,
  text_eq_iff x.key.status revoked,
  text_eq_iff x.key.status active,
)

-- A request that revokes leaves the keys of every other user as they are.
find_hash-revoke_rows_other :
    (user_id id : Text) (now : ℕ) (hash : Text) (rs : List ApiKeyRow) (r : ApiKeyRow)
    → find_hash hash rs ≡ some r
    → r.key.user_id ≢ user_id
    → find_hash hash (revoke_rows user_id id now rs) ≡ some r
unfolding find_hash revoke_rows
find_hash-revoke_rows_other user_id id now hash [] r f n = cc
find_hash-revoke_rows_other user_id id now hash (x ∷ rs) r f n = ground (
  arith,
  find_hash-revoke_rows_other user_id id now hash rs r,
  text_eq_iff x.key_hash hash,
  text_eq_iff x.key.user_id user_id,
)

-- `RevokeUserAPIKey` by one user leaves a key of any other user as it was, whatever statements
-- fail.
pub revoke_user_api_key-others :
    (user_id id hash : Text) (w : World) (r : ApiKeyRow)
    → find_hash hash w.api_keys ≡ some r
    → r.key.user_id ≢ user_id
    → find_hash hash (revoke_user_api_key user_id id w).1.api_keys ≡ some r
unfolding revoke_user_api_key
revoke_user_api_key-others user_id id hash w r f n =
    ground (arith, find_hash-revoke_rows_other user_id id w.now hash w.api_keys r f n)

-- The key that `generate_user_api_key` draws next.
abbrev pub drawn_key : World → Text
drawn_key w = codes "miaw_" ++ w.random w.draws

module _ (digest : Text → Text) where
  -- For any digest, and where key hashes are distinct: after `RevokeUserAPIKey` has succeeded on a
  -- user's key, the plain key authenticates nobody, whatever the other tables hold by then.
  pub authenticate-revoke :
      (user_id id plain_key : Text) (w w' : World) (r : ApiKeyRow) (p : UserApiKey × User)
      → HasUniqueHashes w.api_keys
      → find_hash (hash_user_api_key digest (trim_space plain_key)) w.api_keys ≡ some r
      → r.key.id ≡ id
      → r.key.user_id ≡ user_id
      → (revoke_user_api_key user_id id w).0 ≡ ok tt
      → w'.api_keys ≡ (revoke_user_api_key user_id id w).1.api_keys
      → (authenticate_user_api_key digest plain_key w').0 ≢ ok p
  unfolding revoke_user_api_key authenticate_user_api_key
  authenticate-revoke user_id id plain_key w w' r p unique found e o done later = ground (
    arith,
    active_row-revoke_rows user_id id w.now (hash_user_api_key digest (trim_space plain_key))
        w'.users w.api_keys r unique found e o,
  )

  -- For any digest, where no statement fails, the user exists, the drawn key has no blank at its
  -- ends, and neither its hash nor the key's id is taken: `CreateUserAPIKey` succeeds, and the
  -- plain key that it returns authenticates as that user with that key.
  pub authenticate-create :
      (user_id name : Text) (w : World) (r : UserRow)
      → Calm w
      → find_user user_id w.users ≡ some r
      → trim_space (drawn_key w) ≡ drawn_key w
      → find_hash (digest (drawn_key w)) w.api_keys ≡ none
      → find_key (codes "uapk" ++ (b'_' ∷ w.random (w.draws + 1))) w.api_keys ≡ none
      → (key : UserApiKey) × ((create_user_api_key digest user_id name w).0 ≡ ok (key, drawn_key w))
        × (key.user_id ≡ user_id)
        × ((authenticate_user_api_key digest
              (drawn_key w)
              (create_user_api_key digest user_id name w).1).0
            ≡ ok (key, scan_user r))
  unfolding create_user_api_key authenticate_user_api_key find_hash active_row
  authenticate-create user_id name w r calm found trimmed fresh fresh_id =
      let plain_key = drawn_key w in
      let t = trim_space name in
      (
        record {
          id = codes "uapk" ++ (b'_' ∷ w.random (w.draws + 1));
          user_id = user_id;
          name = if is_blank t then codes "API key" else t;
          key_prefix = first_chars 14 plain_key;
          status = active;
          last_used_at = none;
          created_at = w.now;
          revoked_at = none;
        },
        ground arith,
        refl,
        ground (arith, text_eq_refl (digest plain_key), text_eq_refl active),
      )
