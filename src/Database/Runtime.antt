-- ===== src/Database/Runtime.antt =====
-- The runtime settings of internal/database/runtime_store.go.
pub mod Catalog
use be_miawai.Base.{
  ℕ, List, [], ◌∷◌, ◌++◌, Option, none, some, Bool, Text, codes, text_eq, is_blank, if◌then◌else◌,
}
use be_miawai.Base.Lists.{contains}
use be_miawai.Base.Strings.{trim_space}
use be_miawai.Models.{RuntimeSettings, RuntimeModels}
use be_miawai.Database.World.{
  World, Query, SettingsRow, ok, err, pure, gets, modify, ◌>>=◌, ◌>>◌, statement,
}
use be_miawai.Database.Rows.{any_row, first_row, update_rows}
use be_miawai.Database.Users.{or_no_rows}

abbrev pub is_of : Text → SettingsRow → Bool
is_of user_id r = text_eq r.user_id user_id

unfoldable pub get_runtime_settings : Text → Query RuntimeSettings
unfolding first_row
get_runtime_settings user_id = do
  statement
  row ← or_no_rows (← gets (λ w. first_row (is_of user_id) w.content.runtime_settings))
  pure row.settings

-- The loop of `normalizeModelList`, on the list so far, which is the set of those seen.
unfoldable pub add_models : List Text → List Text → List Text
add_models out [] = out
add_models out (model ∷ models) =
    let trimmed = trim_space model in
    add_models
      (if is_blank trimmed
        then out
        else if contains out trimmed
        then out
        else out ++ (trimmed ∷ []))
      models

abbrev pub or_tuned : List Text → List Text
or_tuned [] = codes "customai-tunning" ∷ []
or_tuned (model ∷ models) = model ∷ models

-- `normalizeModelList`
unfoldable pub normalize_model_list : Text → List Text → List Text
unfolding add_models
normalize_model_list active models =
    let trimmed = trim_space active in
    or_tuned (add_models (if is_blank trimmed then [] else trimmed ∷ []) models)

-- What `UpsertRuntimeSettings` does to the settings first.
abbrev pub clean_settings : RuntimeSettings → RuntimeSettings
clean_settings s = record {
  provider = if is_blank (trim_space s.provider) then codes "openai" else trim_space s.provider;
  base_url = trim_space s.base_url;
  api_key = trim_space s.api_key;
  system_prompt = trim_space s.system_prompt;
  models = record {
    active = trim_space s.models.active;
    all = normalize_model_list (trim_space s.models.active) s.models.all;
  };
}

-- `INSERT … ON CONFLICT (user_id) DO UPDATE`
unfoldable pub upsert_settings_row : SettingsRow → List SettingsRow → List SettingsRow
unfolding any_row update_rows
upsert_settings_row n rs =
    if any_row (is_of n.user_id) rs then update_rows (is_of n.user_id) (λ r. n) rs else n ∷ rs

unfoldable pub upsert_runtime_settings : Text → RuntimeSettings → Query RuntimeSettings
unfolding normalize_model_list upsert_settings_row
upsert_runtime_settings user_id raw = do
  let settings = clean_settings raw
  statement
  modify (λ w. record w {
    content = record w.content {
      runtime_settings =
          upsert_settings_row (record { user_id = user_id; settings = settings })
            w.content.runtime_settings;
    };
  })
  pure settings
