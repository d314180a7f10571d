-- ===== src/Tests/Edits.antt =====
-- Runs of the dashboard's edits of configs.json.
use npvtunnel_creator_server.Base.{
  if◌then◌else◌, ℕ, ◌≡◌, refl, true, false, [], ◌∷◌, Option, some, Bytes, text, arith, str_eq,
  length, leb,
}
use npvtunnel_creator_server.Base64.{encode_to_string, digit}
use npvtunnel_creator_server.Configs.{
  JsonShape, json_object, other_json, Contents, json_list, ConfigEntry,
}
use npvtunnel_creator_server.Editing.{RegistrationPolicy, read_config_entries, new_entry}
use npvtunnel_creator_server.Editing.Accepted.{Loads, Acceptable-Loads}
use npvtunnel_creator_server.Editing.Entries.{new_entry-Passes}
use npvtunnel_creator_server.Editing.Keeps.{apply, append, Fresh, apply-Loads}

abbrev an_object : Bytes → JsonShape
an_object body = if leb 2 (length body) then json_object else other_json

abbrev blocking : RegistrationPolicy
blocking = record {
  block_rooted = true;
  ios_app_id = text "TEAM.app";
  only_mobile_network = false;
  expires_at = [];
  display_message = text "hello";
  custom_server_message = [];
}

abbrev id_of : ℕ → Bytes
id_of n = n ∷ 0 ∷ 0 ∷ 0 ∷ 0 ∷ 0 ∷ 0 ∷ 0 ∷ 0 ∷ 0 ∷ 0 ∷ 0 ∷ 0 ∷ 0 ∷ 0 ∷ 0 ∷ []

abbrev first_config : ConfigEntry
first_config = new_entry (encode_to_string (id_of 1)) (text "{}") blocking

abbrev file : Option Contents
file = some (json_list (first_config ∷ []))

file-Loads : Loads an_object file
file-Loads = Acceptable-Loads an_object (first_config ∷ []) (
  new_entry-Passes an_object (id_of 1) (text "{}") blocking (omega arith) refl ((λ e. cc), refl),
  tt,
  tt,
)

id_2-Fresh : Fresh (encode_to_string (id_of 2)) file
unfolding read_config_entries encode_to_string str_eq digit
id_2-Fresh list h = let same : list ≡ first_config ∷ [] = cc h in rw same refl

apply-Loads_example :
    Loads an_object (apply true (append (some (id_of 2)) (text "{\"a\":1}") blocking) file).0
apply-Loads_example =
    apply-Loads an_object true (append (some (id_of 2)) (text "{\"a\":1}") blocking) file file-Loads
      (omega arith, refl, ((λ e. cc), refl), id_2-Fresh)
