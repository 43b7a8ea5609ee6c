-- ===== src/Database/Runtime/Catalog.antt =====
-- The model list of internal/database/runtime_store.go, and the settings that are read back.
use be_miawai.Base.{
  ◌∙◌, ◌⊎◌, ◌≡◌, refl, List, [], ◌∷◌, ◌++◌, false, ◌||◌, inl, inr, Text, text_eq_iff, is_blank,
  arith, Bool-cases, map, true, if◌then◌else◌, some, text_eq_refl, codes, ap,
}
use be_miawai.Base.Lists.{contains, contains-append}
use be_miawai.Base.Strings.{
  trim_space, trim_space-trim_space, trim_left, trim_right, snoc_trim, is_space,
}
use be_miawai.Database.Runtime.{
  add_models, normalize_model_list, upsert_settings_row, upsert_runtime_settings, or_tuned,
  get_runtime_settings, is_of, clean_settings,
}
use be_miawai.Database.World.{SettingsRow, World, Calm, ok}
use be_miawai.Models.{RuntimeSettings}
use be_miawai.Database.Rows.{any_row, update_rows, first_row}

-- A catalog of models: trimmed names, none of them blank, none twice.
abbrev pub IsCatalog : List Text → Type 0
IsCatalog [] = Unit
IsCatalog (m ∷ ms) =
    (is_blank m ≡ false) × (trim_space m ≡ m) × (contains ms m ≡ false) × IsCatalog ms

snoc-IsCatalog :
    (ms : List Text) (m : Text)
    → is_blank m ≡ false
    → trim_space m ≡ m
    → contains ms m ≡ false
    → IsCatalog ms
    → IsCatalog (ms ++ (m ∷ []))
unfolding contains
snoc-IsCatalog [] m b t c h = (b, t, refl, tt)
snoc-IsCatalog (x ∷ ms) m b t c (xb, xt, xc, h) = (
  xb,
  xt,
  ground (arith, xc, c, contains-append ms (m ∷ []) x, text_eq_iff x m, text_eq_iff m x),
  snoc-IsCatalog ms m b t (ground (arith, c)) h,
)

add_models-IsCatalog : (out models : List Text) → IsCatalog out → IsCatalog (add_models out models)
unfolding add_models
add_models-IsCatalog out [] h = h
add_models-IsCatalog out (m ∷ models) h =
    elim (Bool-cases (is_blank (trim_space m) || contains out (trim_space m))) [
      | inl t ↦ ground (arith, t, add_models-IsCatalog out models h)
      | inr t ↦ ground (
        arith,
        t,
        add_models-IsCatalog (out ++ (trim_space m ∷ [])) models (
            snoc-IsCatalog out (trim_space m) (ground (arith, t)) (trim_space-trim_space m)
              (ground (arith, t)) h),
      )
    ]

contains-add_models :
    (v : Text) (out models : List Text)
    → is_blank v ≡ false
    → contains (add_models out models) v ≡ contains out v || contains (map trim_space models) v
unfolding add_models contains
contains-add_models v out [] b = ground arith
contains-add_models v out (m ∷ models) b =
    elim (Bool-cases (is_blank (trim_space m) || contains out (trim_space m))) [
      | inl t ↦
          ground (arith, t, b, contains-add_models v out models b, text_eq_iff (trim_space m) v)
      | inr t ↦ ground (
        arith,
        t,
        b,
        contains-add_models v (out ++ (trim_space m ∷ [])) models b,
        contains-append out (trim_space m ∷ []) v,
      )
    ]

add_models-prefix :
    (m : Text) (out models : List Text)
    → (rest : List Text) × (add_models (m ∷ out) models ≡ m ∷ rest)
unfolding add_models
add_models-prefix m out [] = (out, refl)
add_models-prefix m out (x ∷ models) =
    elim (Bool-cases (is_blank (trim_space x) || contains (m ∷ out) (trim_space x))) [
      | inl t ↦ let (rest, e) = add_models-prefix m out models in (rest, ground (arith, t, e))
      | inr t ↦
          let (rest, e) = add_models-prefix m (out ++ (trim_space x ∷ [])) models in
          (rest, ground (arith, t, e))
    ]

or_tuned-IsCatalog : (ms : List Text) → IsCatalog ms → IsCatalog (or_tuned ms)
unfolding contains trim_space trim_left trim_right snoc_trim is_space
or_tuned-IsCatalog [] h = (refl, refl, refl, tt)
or_tuned-IsCatalog (m ∷ ms) h = h

contains-or_tuned :
    (v : Text) (ms : List Text) → contains ms v ≡ true → contains (or_tuned ms) v ≡ true
unfolding contains
contains-or_tuned v [] h = cc
contains-or_tuned v (m ∷ ms) h = h

start-IsCatalog :
    (active : Text)
    → IsCatalog (if is_blank (trim_space active) then [] else trim_space active ∷ [])
unfolding contains
start-IsCatalog active = elim (Bool-cases (is_blank (trim_space active))) [
  | inl t ↦ rw t tt
  | inr t ↦ rw t (t, trim_space-trim_space active, refl, tt)
]

-- `normalizeModelList` gives trimmed names, none blank and none twice, among them every name of
-- the list that is not blank, and the active model first where it is not blank.
pub normalize_model_list-IsCatalog :
    (active : Text) (models : List Text)
    → IsCatalog (normalize_model_list active models)
      × ((v : Text)
          → is_blank v ≡ false
          → contains (map trim_space models) v ≡ true
          → contains (normalize_model_list active models) v ≡ true)
      × (is_blank (trim_space active) ≡ false
          → (rest : List Text) × (normalize_model_list active models ≡ trim_space active ∷ rest))
unfolding normalize_model_list
normalize_model_list-IsCatalog active models =
    let start : List Text = if is_blank (trim_space active) then [] else trim_space active ∷ [] in
    (
      or_tuned-IsCatalog (add_models start models)
          (add_models-IsCatalog start models (start-IsCatalog active)),
      (λ v b h.
          contains-or_tuned v (add_models start models)
            (ground (arith, contains-add_models v start models b, h))),
      λ b.
          let (rest, e) = add_models-prefix (trim_space active) [] models in
          (rest, rw b (rw e refl)),
    )

first_row-upsert_settings_row :
    (n : SettingsRow) (rs : List SettingsRow)
    → first_row (is_of n.user_id) (upsert_settings_row n rs) ≡ some n
unfolding upsert_settings_row first_row
first_row-upsert_settings_row n rs = elim (Bool-cases (any_row (is_of n.user_id) rs)) [
  | inl t ↦ rw t (updated rs t)
  | inr t ↦ ground (arith, t, text_eq_refl n.user_id)
]
  where
    updated :
        (rs : List SettingsRow)
        → any_row (is_of n.user_id) rs ≡ true
        → first_row (is_of n.user_id) (update_rows (is_of n.user_id) (λ r. n) rs) ≡ some n
    updated [] h = cc
    updated (r ∷ rs) h = ground (arith, h, updated rs, text_eq_refl n.user_id)

-- The settings are the given ones, with blanks cut off; the provider is OpenAI where none is given;
-- and the models are a catalog with the given ones, the active one first.
abbrev pub IsCleaned : RuntimeSettings → RuntimeSettings → Type 0
IsCleaned raw s =
    ((is_blank (trim_space raw.provider) ≡ true) × (s.provider ≡ codes "openai")
      ⊎ (is_blank (trim_space raw.provider) ≡ false) × (s.provider ≡ trim_space raw.provider))
    × (s.base_url ≡ trim_space raw.base_url)
    × (s.api_key ≡ trim_space raw.api_key)
    × (s.system_prompt ≡ trim_space raw.system_prompt)
    × (s.models.active ≡ trim_space raw.models.active)
    × IsCatalog s.models.all
    × ((v : Text)
        → is_blank v ≡ false
        → contains (map trim_space raw.models.all) v ≡ true
        → contains s.models.all v ≡ true)
    × (is_blank s.models.active ≡ false
        → (rest : List Text) × (s.models.all ≡ s.models.active ∷ rest))

clean_settings-IsCleaned : (raw : RuntimeSettings) → IsCleaned raw (clean_settings raw)
clean_settings-IsCleaned raw =
    let active : Text = trim_space raw.models.active in
    let (catalog, complete, first) = normalize_model_list-IsCatalog active raw.models.all in
    (
      elim (Bool-cases (is_blank (trim_space raw.provider))) [
        | inl t ↦ inl (t, rw t refl)
        | inr t ↦ inr (t, rw t refl)
      ],
      refl,
      refl,
      refl,
      refl,
      catalog,
      complete,
      λ b.
          let (rest, e) = first (rw (trim_space-trim_space raw.models.active) b) in
          (rest, e ∙ ap (λ t. t ∷ rest) (trim_space-trim_space raw.models.active)),
    )

-- Where no statement fails, the settings that a user saves are answered, and read back the same:
-- the base URL, the key, the prompt and the active model are the given ones without blanks around
-- them, the provider too, or else OpenAI, and the models are trimmed names, none blank and none
-- twice, among them every given one that is not blank, with the active one first where there is
-- one.
pub get-upsert_runtime_settings :
    (user_id : Text) (raw : RuntimeSettings) (w : World)
    → Calm w
    → let saved = upsert_runtime_settings user_id raw w in
      (s : RuntimeSettings) × (saved.0 ≡ ok s)
      × ((get_runtime_settings user_id saved.1).0 ≡ ok s)
      × IsCleaned raw s
unfolding upsert_runtime_settings get_runtime_settings
get-upsert_runtime_settings user_id raw w c = (
  clean_settings raw,
  ground (arith, c),
  ground (
    arith,
    c,
    first_row-upsert_settings_row (record { user_id = user_id; settings = clean_settings raw })
        w.content.runtime_settings,
  ),
  clean_settings-IsCleaned raw,
)
