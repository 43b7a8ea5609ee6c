-- ===== src/Handlers/Settings.antt =====
-- The runtime settings in internal/handlers/server.go.
use be_miawai.Base.{List, [], ◌∷◌, Option, not, ◌&&◌, Text, codes, is_blank, if◌then◌else◌}
use be_miawai.Base.Strings.{trim_space}
use be_miawai.Models.{User, RuntimeSettings}
use be_miawai.Database.World.{World, Result, Error, Query, no_rows, ok, err, ◌>>=◌, ◌>>◌}
use be_miawai.Database.Runtime.{get_runtime_settings, upsert_runtime_settings}
use be_miawai.Handlers.Reply.{Handler, reply, deny_if, required, from_store}
use be_miawai.Handlers.Access.{has_access}
use be_miawai.Handlers.Accounts.{equal_fold}

-- The part of `config.Config` that the settings use.
pub record ProviderConfig : Type 0 where
  pub default_provider : Text
  pub default_provider_base_url : Text
  pub default_provider_api_key : Text
  pub default_provider_system : Text
  pub default_provider_models : List Text
  pub managed_ai_api_key : Text

-- `firstModel`
unfoldable pub first_model : List Text → Text
first_model [] = []
first_model (model ∷ models) =
    let rest = first_model models in if is_blank (trim_space model) then rest else trim_space model

-- `firstNonEmpty`
unfoldable pub first_non_empty : List Text → Text
first_non_empty [] = []
first_non_empty (value ∷ values) =
    let rest = first_non_empty values in if is_blank (trim_space value) then rest else value

abbrev pub with_provider : RuntimeSettings → RuntimeSettings
with_provider s =
    if is_blank (trim_space s.provider) then record s { provider = codes "openai" } else s

abbrev pub with_base_url : RuntimeSettings → RuntimeSettings
with_base_url s =
    if equal_fold (trim_space s.provider) (codes "openai") && is_blank (trim_space s.base_url)
    then record s { base_url = codes "https://api.openai.com/v1" }
    else s

-- `applyRuntimeDefaults`
unfoldable pub apply_runtime_defaults : RuntimeSettings → RuntimeSettings
unfolding equal_fold
apply_runtime_defaults s = with_base_url (with_provider s)

unfoldable pub default_runtime_settings : ProviderConfig → RuntimeSettings
unfolding apply_runtime_defaults first_model first_non_empty
default_runtime_settings cfg = apply_runtime_defaults (record {
  provider = first_non_empty (trim_space cfg.default_provider ∷ codes "openai" ∷ []);
  base_url = trim_space cfg.default_provider_base_url;
  api_key = trim_space cfg.default_provider_api_key;
  system_prompt = trim_space cfg.default_provider_system;
  models = record {
    active = first_model cfg.default_provider_models;
    all = cfg.default_provider_models;
  };
})

-- The user's settings, or else the defaults; another error stays.
abbrev pub or_default :
    RuntimeSettings → Result Error RuntimeSettings × World → Result Error RuntimeSettings × World
or_default defaults (ok s, w) = (ok s, w)
or_default defaults (err no_rows, w) = (ok defaults, w)
or_default defaults (err e, w) = (err e, w)

unfoldable pub load_runtime_settings : ProviderConfig → Text → Query RuntimeSettings
unfolding default_runtime_settings
load_runtime_settings cfg user_id w =
    or_default (default_runtime_settings cfg) (get_runtime_settings user_id w)

unfoldable pub runtime_settings : ProviderConfig → User → Handler RuntimeSettings
unfolding load_runtime_settings
runtime_settings cfg user = do
  deny_if (not (has_access user (codes "runtime:read"))) 403
      "runtime access is not allowed for this role"
  from_store (λ e. reply 500 "failed to load runtime settings") (load_runtime_settings cfg user.id)

unfoldable pub update_runtime_settings : User → Option RuntimeSettings → Handler RuntimeSettings
update_runtime_settings user decoded = do
  deny_if (not (has_access user (codes "runtime:write"))) 403
      "runtime editing is not allowed for this role"
  body ← required decoded 400 "invalid json body"
  from_store (λ e. reply 500 "failed to save runtime settings")
      (upsert_runtime_settings user.id body)
