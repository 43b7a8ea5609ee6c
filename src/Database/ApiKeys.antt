-- ===== src/Database/ApiKeys.antt =====
-- internal/database/api_key_store.go: a user's API keys. The SHA-256 digest in hexadecimal is the
-- parameter `digest`; the 32 random bytes in base64 are the next text of the world's supply.
pub mod Laws
use be_miawai.Base.{
  ℕ, suc, zero, ◌+◌, List, [], ◌∷◌, ◌++◌, Option, none, some, Bool, true, false, not, ◌&&◌, ◌||◌,
  Text, codes, text_eq, is_blank, if◌then◌else◌,
}
use be_miawai.Base.Strings.{trim_space}
use be_miawai.Models.{User, UserApiKey}
use be_miawai.Database.World.{
  ApiKeyRow, UserRow, World, Query, Error, no_rows, constraint, api_key_invalid, ok, err, pure,
  raise, raise_if, gets, modify, ◌>>=◌, ◌>>◌, statement, new_id, find_user,
}
use be_miawai.Database.Status.{active}
use be_miawai.Database.Users.{scan_user, is_some}

abbrev pub revoked : Text
revoked = codes "revoked"

-- `prefix[:n]`, where the text is longer.
unfoldable pub first_chars : ℕ → Text → Text
first_chars zero s = []
first_chars (suc n) [] = []
first_chars (suc n) (c ∷ s) = c ∷ first_chars n s

-- `WHERE k.key_hash = $1`
unfoldable pub find_hash : Text → List ApiKeyRow → Option ApiKeyRow
find_hash hash [] = none
find_hash hash (r ∷ rs) = if text_eq r.key_hash hash then some r else find_hash hash rs

unfoldable pub find_key : Text → List ApiKeyRow → Option ApiKeyRow
find_key id [] = none
find_key id (r ∷ rs) = if text_eq r.key.id id then some r else find_key id rs

-- `WHERE id = $1 AND user_id = $2 AND status <> 'revoked'`
abbrev pub revocable : Text → Text → ApiKeyRow → Bool
revocable user_id id r =
    text_eq r.key.id id && text_eq r.key.user_id user_id && not (text_eq r.key.status revoked)

unfoldable pub any_revocable : Text → Text → List ApiKeyRow → Bool
any_revocable user_id id [] = false
any_revocable user_id id (r ∷ rs) = revocable user_id id r || any_revocable user_id id rs

-- `COALESCE(revoked_at, NOW())`
abbrev pub first_time : ℕ → Option ℕ → Option ℕ
first_time now none = some now
first_time now (some t) = some t

abbrev pub revoke_row : ℕ → ApiKeyRow → ApiKeyRow
revoke_row now r = record r {
  key = record r.key { status = revoked; revoked_at = first_time now r.key.revoked_at };
}

unfoldable pub revoke_rows : Text → Text → ℕ → List ApiKeyRow → List ApiKeyRow
revoke_rows user_id id now [] = []
revoke_rows user_id id now (r ∷ rs) =
    (if revocable user_id id r then revoke_row now r else r) ∷ revoke_rows user_id id now rs

unfoldable pub revoke_user_api_key : Text → Text → Query (Unit {0})
revoke_user_api_key user_id id = do
  statement
  found ← gets (λ w. any_revocable user_id id w.api_keys)
  modify (λ w. record w { api_keys = revoke_rows user_id id w.now w.api_keys })
  raise_if (not found) no_rows

-- `k.status = 'active' AND k.revoked_at IS NULL`
abbrev pub is_active : UserApiKey → Bool
is_active k = text_eq k.status active && not (is_some k.revoked_at)

-- The row of the hash, if it is active and its user is there.
unfoldable pub active_row : Text → List UserRow → List ApiKeyRow → Option (UserApiKey × User)
active_row hash users [] = none
active_row hash users (r ∷ rs) =
    let rest = active_row hash users rs in
    if text_eq r.key_hash hash && is_active r.key
    then elim (find_user r.key.user_id users) [ none ↦ rest | some u ↦ some (r.key, scan_user u) ]
    else rest

abbrev pub or_key_invalid : Option (UserApiKey × User) → Query (UserApiKey × User)
or_key_invalid none = raise api_key_invalid
or_key_invalid (some p) = pure p

unfoldable pub use_row : Text → ℕ → List ApiKeyRow → List ApiKeyRow
use_row id now [] = []
use_row id now (r ∷ rs) =
    (if text_eq r.key.id id then record r { key = record r.key { last_used_at = some now } } else r)
    ∷ use_row id now rs

unfoldable pub mark_user_api_key_used : Text → Query (Unit {0})
mark_user_api_key_used id = do
  statement
  modify (λ w. record w { api_keys = use_row id w.now w.api_keys })

module _ (digest : Text → Text) where
  -- `hashUserAPIKey`
  abbrev pub hash_user_api_key : Text → Text
  hash_user_api_key plain_key = digest (trim_space plain_key)

  -- `generateUserAPIKey`: the key, its prefix and its hash.
  unfoldable pub generate_user_api_key : Query (Text × Text × Text)
  generate_user_api_key w =
      let plain_key = codes "miaw_" ++ w.random w.draws in
      (
        ok (plain_key, first_chars 14 plain_key, hash_user_api_key plain_key),
        record w { draws = w.draws + 1 },
      )

  unfoldable pub create_user_api_key : Text → Text → Query (UserApiKey × Text)
  unfolding generate_user_api_key
  create_user_api_key user_id raw_name = do
    (plain_key, prefix, hash) ← generate_user_api_key
    id ← new_id (codes "uapk")
    statement
    clash ← gets (λ w. is_some (find_hash hash w.api_keys) || is_some (find_key id w.api_keys))
    raise_if clash constraint
    now ← gets (λ w. w.now)
    let trimmed = trim_space raw_name
    let key : UserApiKey = record {
      id = id;
      user_id = user_id;
      name = if is_blank trimmed then codes "API key" else trimmed;
      key_prefix = prefix;
      status = active;
      last_used_at = none;
      created_at = now;
      revoked_at = none;
    }
    modify (λ w. record w { api_keys = record { key = key; key_hash = hash } ∷ w.api_keys })
    pure (key, plain_key)

  unfoldable pub authenticate_user_api_key : Text → Query (UserApiKey × User)
  authenticate_user_api_key raw =
      let plain_key = trim_space raw in
      raise_if (is_blank plain_key) api_key_invalid >> do
        statement
        or_key_invalid (← gets (λ w. active_row (hash_user_api_key plain_key) w.users w.api_keys))
