-- ===== src/Editing.antt =====
-- The edits of configs.json that the dashboard makes: `setConfigDisplayName`,
-- `replaceConfigRegistration` and `removeConfig` of configedit.go, `appendConfig` of menu.go, and the
-- helpers of management.go. Whether the atomic write succeeds is an argument. A file stands for its
-- entries: that `json.MarshalIndent` lays a raw config out anew, as the same JSON value, is left out.
pub mod Accepted
pub mod Entries
pub mod Lists
pub mod Keeps
use npvtunnel_creator_server.Base.{
  ℕ, Bool, false, not, ◌&&◌, List, [], ◌∷◌, ◌++◌, Option, none, some, Bytes, Text, text, ◌⊎◌, inl,
  inr, if◌then◌else◌, str_eq, keep, any, pos,
}
use npvtunnel_creator_server.Base64.{encode_to_string}
use npvtunnel_creator_server.Policy.{AttestationPolicy}
use npvtunnel_creator_server.Policy.Device.{strict_device_attestation_policy}
use npvtunnel_creator_server.Configs.{
  ConfigEntry, EnvelopePolicy, Contents, unreadable, not_json, json_list,
}
use npvtunnel_creator_server.Minting.{normalize_display_name}

pub record RegistrationPolicy : Type 0 where
  pub block_rooted : Bool
  pub ios_app_id : Text
  pub only_mobile_network : Bool
  pub expires_at : Text
  pub display_message : Text
  pub custom_server_message : Text

pub data EditError : Type 0 where
  unreadable_file unparsed_file no_random_bytes not_written : EditError
  config_not_found : Text → EditError

unfoldable pub read_config_entries : Option Contents → EditError ⊎ List ConfigEntry
read_config_entries none = inr []
read_config_entries (some unreadable) = inl unreadable_file
read_config_entries (some not_json) = inl unparsed_file
read_config_entries (some (json_list list)) = inr list

-- The file afterwards, and the error, if any. A write that fails leaves the file as it was.
abbrev pub Edited : Type 0
Edited = Option Contents × Option EditError

unfoldable pub write_config_entries : Bool → List ConfigEntry → Option Contents → Edited
write_config_entries writes list file =
    if writes then (some (json_list list), none) else (file, some not_written)

abbrev ptr_or_nil : Text → Option Text
ptr_or_nil t = if str_eq t [] then none else some t

unfoldable pub issued_policy_from : RegistrationPolicy → Option EnvelopePolicy
issued_policy_from policy =
    if not policy.only_mobile_network
      && str_eq policy.expires_at []
      && str_eq policy.display_message []
      && str_eq policy.custom_server_message []
    then none
    else some (record {
      only_mobile_network = policy.only_mobile_network;
      attestation_level = text "NONE";
      expires_at = ptr_or_nil policy.expires_at;
      display_message = policy.display_message;
      custom_server_message = policy.custom_server_message;
    })

abbrev pub device_policy : RegistrationPolicy → Option AttestationPolicy
device_policy policy =
    if policy.block_rooted then some (strict_device_attestation_policy policy.ios_app_id) else none

-- The loop that changes the first entry with the id, if there is one.
unfoldable pub change_first :
    (ConfigEntry → ConfigEntry) → Text → List ConfigEntry → Option (List ConfigEntry)
change_first change id [] = none
change_first change id (e ∷ list) =
    let rest = change_first change id list in
    if str_eq e.config_id id then some (change e ∷ list) else behind e rest
  where
    behind : ConfigEntry → Option (List ConfigEntry) → Option (List ConfigEntry)
    behind e none = none
    behind e (some list) = some (e ∷ list)

abbrev pub write_changed : Bool → Text → Option Contents → Option (List ConfigEntry) → Edited
write_changed writes id file none = (file, some (config_not_found id))
write_changed writes id file (some list) = write_config_entries writes list file

-- An edit begins with the read of the file.
abbrev pub with_entries :
    (List ConfigEntry → Edited) → Option Contents → EditError ⊎ List ConfigEntry → Edited
with_entries next file (inl err) = (file, some err)
with_entries next file (inr list) = next list

abbrev pub renamed : Text → ConfigEntry → ConfigEntry
renamed value e = record e { display_name = normalize_display_name value }

unfoldable pub set_config_display_name : Bool → Text → Text → Option Contents → Edited
set_config_display_name writes id value file =
    with_entries (λ list. write_changed writes id file (change_first (renamed value) id list)) file
      (read_config_entries file)

abbrev pub register_again : Bytes → RegistrationPolicy → ConfigEntry → ConfigEntry
register_again body policy e = record e {
  config = body;
  attestation_policy = device_policy policy;
  issued_policy = issued_policy_from policy;
}

unfoldable pub replace_config_registration :
    Bool → Text → Bytes → RegistrationPolicy → Option Contents → Edited
replace_config_registration writes id body policy file =
    with_entries
      (λ list. write_changed writes id file (change_first (register_again body policy) id list))
      file (read_config_entries file)

abbrev pub has_id : Text → ConfigEntry → Bool
has_id id e = str_eq e.config_id id

abbrev pub without : Text → List ConfigEntry → Option (List ConfigEntry)
without id list = if any (has_id id) list then some (keep (λ e. not (has_id id e)) list) else none

unfoldable pub remove_config : Bool → Text → Option Contents → Edited
remove_config writes id file =
    with_entries (λ list. write_changed writes id file (without id list)) file
      (read_config_entries file)

abbrev pub new_entry : Text → Bytes → RegistrationPolicy → ConfigEntry
new_entry id body rp = record {
  config_id = id;
  config = body;
  display_name = [];
  attestation_policy = device_policy rp;
  issued_policy = issued_policy_from rp;
  config_ttl_sec = pos 0;
}

-- The bytes are what `rand.Read` gives.
unfoldable pub append_config :
    Bool → Option Bytes → Bytes → RegistrationPolicy → Option Contents → Edited
append_config writes none body rp file = (file, some no_random_bytes)
append_config writes (some id_bytes) body rp file =
    with_entries
      (λ list.
        write_config_entries writes (list ++ new_entry (encode_to_string id_bytes) body rp ∷ [])
          file)
      file (read_config_entries file)
