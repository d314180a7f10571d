-- ===== src/Configs.antt =====
-- The config registry of state.go: the check of configs.json when it is loaded, and the reload of a
-- changed file. Which kind of JSON value a raw config is, is an argument.
pub mod Loading
use npvtunnel_creator_server.Base.{
  ℕ, suc, zero, ◌+◌, ◌*◌, Bool, true, false, not, ◌&&◌, ◌||◌, List, [], ◌∷◌, Option, none, some,
  Bytes, Text, text, if◌then◌else◌, str_eq, length, leb, ◌==◌, lookup, insert, ℤ, pos, negsuc,
  neg_part, pos_part, is_pos, ltb_ℤ, to_int64,
}
use npvtunnel_creator_server.Base64.{decode_string}
use npvtunnel_creator_server.Policy.{
  AttestationPolicy, Resolved, no_verifier, verifier, unknown_verifier, valid_attestation_mode,
  lookup_verifier, new_verifier_registry, apple_verifier_name,
}

-- The restrictions that an envelope carries.
pub record EnvelopePolicy : Type 0 where
  pub only_mobile_network : Bool
  pub attestation_level : Text
  pub expires_at : Option Text
  pub display_message : Text
  pub custom_server_message : Text

pub record ConfigEntry : Type 0 where
  pub config_id : Text
  pub config : Bytes
  pub display_name : Text
  pub attestation_policy : Option AttestationPolicy
  pub issued_policy : Option EnvelopePolicy
  pub config_ttl_sec : ℤ

abbrev pub envelope_config_id_len : ℕ
envelope_config_id_len = 16

abbrev pub config_ttl_min_sec : ℕ
config_ttl_min_sec = 60

abbrev pub config_ttl_max_sec : ℕ
config_ttl_max_sec = 7 * 24 * 3_600

-- `resolveConfigTtl` of policy.go, in the 64 bits of a `time.Duration`.
unfoldable pub resolve_config_ttl : Option ConfigEntry → ℤ
resolve_config_ttl none = pos (3_600 * 1_000_000_000)
resolve_config_ttl (some e) =
    if not (is_pos e.config_ttl_sec)
    then pos (3_600 * 1_000_000_000)
    else to_int64 (pos_part e.config_ttl_sec * 1_000_000_000)

abbrev pub Registry : Type 0
Registry = List (Text × ConfigEntry)

-- Why an entry is refused.
pub data ConfigError : Type 0 where
  missing_config_id not_base64url duplicate_config_id missing_config not_json_object : ConfigError
  wrong_id_length : ℕ → ConfigError
  bad_mode : Text → ConfigError
  negative_soft_failure_ttl unresolved_verifier missing_app_id ttl_out_of_range : ConfigError

-- The next check runs if this one finds nothing.
infixr 20 ◌then_check◌
abbrev pub ◌then_check◌ : Option ConfigError → Option ConfigError → Option ConfigError
none then_check next = next
some err then_check next = some err

abbrev pub fail_if : Bool → ConfigError → Option ConfigError
fail_if b err = if b then some err else none

abbrev pub check_decoded : Option Bytes → Option ConfigError
check_decoded none = some not_base64url
check_decoded (some cid) =
    fail_if (not (length cid == envelope_config_id_len)) (wrong_id_length (length cid))

abbrev pub is_known : Option ConfigEntry → Bool
is_known none = false
is_known (some e) = true

abbrev pub is_unresolved : Resolved → Bool
is_unresolved (unknown_verifier name) = true
is_unresolved _ = false

unfoldable pub check_policy : Option AttestationPolicy → Option ConfigError
check_policy none = none
check_policy (some p) =
    fail_if (not (valid_attestation_mode p.mode)) (bad_mode p.mode)
    then_check fail_if (ltb_ℤ p.soft_failure_ttl_sec (pos 0)) negative_soft_failure_ttl
    then_check (if str_eq p.legacy_arm.verifier []
        then none
        else (fail_if (is_unresolved (lookup_verifier new_verifier_registry p.legacy_arm.verifier))
              unresolved_verifier
            then_check fail_if
                (str_eq p.legacy_arm.verifier apple_verifier_name && str_eq p.legacy_arm.app_id [])
                missing_app_id))

abbrev pub is_zero : ℤ → Bool
is_zero (pos n) = n == 0
is_zero (negsuc n) = false

unfoldable pub check_ttl : ℤ → Option ConfigError
check_ttl sec =
    if is_zero sec
    then none
    else fail_if (ltb_ℤ sec (pos config_ttl_min_sec) || ltb_ℤ (pos config_ttl_max_sec) sec)
        ttl_out_of_range

-- What encoding/json takes the bytes of a raw config for.
pub data JsonShape : Type 0 where
  json_object json_null other_json no_json : JsonShape

-- Whether `json.Unmarshal` reads it into a `map[string]any` without an error: null makes it nil.
abbrev pub fits_map : JsonShape → Bool
fits_map json_object = true
fits_map json_null = true
fits_map _ = false

-- The body of the loop of `loadConfigsFile`, up to the last check.
unfoldable pub check_entry : (Bytes → JsonShape) → ConfigEntry → Registry → Option ConfigError
check_entry json_shape e out =
    fail_if (str_eq e.config_id []) missing_config_id
    then_check check_decoded (decode_string e.config_id)
    then_check fail_if (is_known (lookup e.config_id out)) duplicate_config_id
    then_check fail_if (length e.config == 0) missing_config
    then_check fail_if (not (fits_map (json_shape e.config))) not_json_object
    then_check check_policy e.attestation_policy
    then_check check_ttl e.config_ttl_sec

pub data LoadError : Type 0 where
  read_failed parse_failed : LoadError
  bad_entry : ℕ → ConfigError → LoadError

-- The registry; without a file there is none (a nil map).
pub data Loaded : Type 0 where
  no_registry : Loaded
  loaded : Registry → Loaded
  not_loaded : LoadError → Loaded

pub data Contents : Type 0 where
  unreadable not_json : Contents
  json_list : List ConfigEntry → Contents

abbrev pub failing : ℕ → Option ConfigError → Loaded → Loaded
failing i none rest = rest
failing i (some err) rest = not_loaded (bad_entry i err)

unfoldable pub load_entries : (Bytes → JsonShape) → ℕ → List ConfigEntry → Registry → Loaded
load_entries json_shape i [] out = loaded out
load_entries json_shape i (e ∷ list) out =
    let rest = load_entries json_shape (suc i) list (insert e.config_id e out) in
    failing i (check_entry json_shape e out) rest

unfoldable pub load_configs_file : (Bytes → JsonShape) → Option Contents → Loaded
load_configs_file json_shape none = no_registry
load_configs_file json_shape (some unreadable) = not_loaded read_failed
load_configs_file json_shape (some not_json) = not_loaded parse_failed
load_configs_file json_shape (some (json_list list)) = load_entries json_shape 0 list []

-- The fields of `State` for the configs; `has_path` is `configsPath != ""`.
pub record ConfigStore : Type 0 where
  pub configs : Option Registry
  pub has_path : Bool
  pub mtime : ℕ

abbrev in_registry : Text → Option Registry → Option ConfigEntry
in_registry config_id none = none
in_registry config_id (some m) = lookup config_id m

unfoldable pub config_by_id : Text → ConfigStore → Option ConfigEntry
config_by_id config_id s = in_registry config_id s.configs

abbrev a_registry : Option Registry → Bool
a_registry none = false
a_registry (some m) = true

unfoldable pub has_config_registry : ConfigStore → Bool
has_config_registry s = a_registry s.configs

-- What `os.Stat` says of the file.
pub data Stat : Type 0 where
  not_exist stat_error : Stat
  modified : ℕ → Stat

pub data ReloadResult : Type 0 where
  reloaded stat_failed : ReloadResult
  kept_last_good : LoadError → ReloadResult

abbrev pub swap_in : ConfigStore → ℕ → Loaded → ConfigStore × ReloadResult
swap_in s mtime no_registry =
    (record { configs = none; has_path = s.has_path; mtime = mtime }, reloaded)
swap_in s mtime (loaded m) =
    (record { configs = some m; has_path = s.has_path; mtime = mtime }, reloaded)
swap_in s mtime (not_loaded err) =
    (record { configs = s.configs; has_path = s.has_path; mtime = mtime }, kept_last_good err)

abbrev pub reload_at :
    (Bytes → JsonShape) → Stat → Option Contents → ConfigStore → ConfigStore × ReloadResult
reload_at json_shape not_exist file s = (s, reloaded)
reload_at json_shape stat_error file s = (s, stat_failed)
reload_at json_shape (modified mtime) file s =
    if leb mtime s.mtime then (s, reloaded) else swap_in s mtime (load_configs_file json_shape file)

-- `file` is what is read after `os.Stat`: the file may be gone by then.
unfoldable pub reload_configs_if_changed :
    (Bytes → JsonShape) → Stat → Option Contents → ConfigStore → ConfigStore × ReloadResult
reload_configs_if_changed json_shape stat file s =
    if not s.has_path then (s, reloaded) else reload_at json_shape stat file s
