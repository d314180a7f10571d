-- ===== src/Editing/Keeps.antt =====
-- An edit of the dashboard leaves a configs.json that `loadConfigsFile` accepts.
use npvtunnel_creator_server.Base.{
  ◌≡◌, refl, Bool, true, false, List, [], ◌∷◌, ◌++◌, Option, none, some, Bytes, Text, length, any,
  inr,
}
use npvtunnel_creator_server.Base64.{encode_to_string}
use npvtunnel_creator_server.Base64.RoundTrip.{IsBytes}
use npvtunnel_creator_server.Minting.{normalize_display_name}
use npvtunnel_creator_server.Configs.{
  JsonShape, ConfigEntry, Contents, unreadable, not_json, json_list,
}
use npvtunnel_creator_server.Editing.{
  RegistrationPolicy, Edited, read_config_entries, write_config_entries, write_changed,
  with_entries, renamed, set_config_display_name, register_again, replace_config_registration,
  has_id, remove_config, new_entry, append_config,
}
use npvtunnel_creator_server.Editing.Lists.{
  change_first-Acceptable, without-Acceptable, snoc-Acceptable,
}
use npvtunnel_creator_server.Editing.Entries.{
  IsBody, renamed-Passes, register_again-Passes, new_entry-Passes,
}
use npvtunnel_creator_server.Editing.Accepted.{
  Acceptable, Loads, Acceptable-Loads, Loads-Acceptable,
}

-- The edits, as the dashboard's forms give them.
pub data Edit : Type 0 where
  rename : Text → Text → Edit
  replace : Text → Bytes → RegistrationPolicy → Edit
  remove : Text → Edit
  append : Option Bytes → Bytes → RegistrationPolicy → Edit

abbrev pub apply : Bool → Edit → Option Contents → Edited
apply writes (rename id value) file = set_config_display_name writes id value file
apply writes (replace id body policy) file = replace_config_registration writes id body policy file
apply writes (remove id) file = remove_config writes id file
apply writes (append id_bytes body rp) file = append_config writes id_bytes body rp file

abbrev pub Fresh : Text → Option Contents → Type 0
Fresh id file =
    (list : List ConfigEntry) → read_config_entries file ≡ inr list → any (has_id id) list ≡ false

-- A new body is an object or null, and a new id is 16 bytes that no entry has.
abbrev pub Sound : (Bytes → JsonShape) → Edit → Option Contents → Type 0
Sound json_shape (replace id body policy) file = IsBody json_shape body
Sound json_shape (append (some id_bytes) body rp) file =
    IsBytes id_bytes
    × (length id_bytes ≡ 16)
    × IsBody json_shape body
    × Fresh (encode_to_string id_bytes) file
Sound json_shape _ file = Unit

module _ (json_shape : Bytes → JsonShape) where
  write-Loads :
      (writes : Bool) (list : List ConfigEntry) (file : Option Contents)
      → Loads json_shape file
      → Acceptable json_shape list
      → Loads json_shape (write_config_entries writes list file).0
  unfolding write_config_entries
  write-Loads true list file l a = Acceptable-Loads json_shape list a
  write-Loads false list file l a = l

  write_changed-Loads :
      (writes : Bool) (id : Text) (file : Option Contents) (o : Option (List ConfigEntry))
      → Loads json_shape file
      → ((out : List ConfigEntry) → o ≡ some out → Acceptable json_shape out)
      → Loads json_shape (write_changed writes id file o).0
  write_changed-Loads writes id file none l k = l
  write_changed-Loads writes id file (some list) l k = write-Loads writes list file l (k list refl)

  with_entries-Loads :
      (next : List ConfigEntry → Edited) (file : Option Contents)
      → Loads json_shape file
      → ((list : List ConfigEntry)
          → read_config_entries file ≡ inr list
          → Acceptable json_shape list
          → Loads json_shape (next list).0)
      → Loads json_shape (with_entries next file (read_config_entries file)).0
  unfolding read_config_entries
  with_entries-Loads next none l k = k [] refl tt
  with_entries-Loads next (some unreadable) l k = l
  with_entries-Loads next (some not_json) l k = l
  with_entries-Loads next (some (json_list list)) l k =
      k list refl (Loads-Acceptable json_shape list l)

  -- If the server takes configs.json as it is, it takes it after any edit of the dashboard, whether
  -- the write succeeds or not, where a new body is a JSON object or null and a new id is 16 bytes
  -- that no entry has.
  pub apply-Loads :
      (writes : Bool) (edit : Edit) (file : Option Contents)
      → Loads json_shape file
      → Sound json_shape edit file
      → Loads json_shape (apply writes edit file).0
  unfolding set_config_display_name replace_config_registration remove_config append_config
  apply-Loads writes (rename id value) file l s = with_entries-Loads _ file l (λ list r a.
      write_changed-Loads writes id file _ l (λ out h.
        change_first-Acceptable (renamed value) id (λ e. refl) json_shape
          (renamed-Passes json_shape (normalize_display_name value)) list out h a))
  apply-Loads writes (replace id body policy) file l b = with_entries-Loads _ file l (λ list r a.
      write_changed-Loads writes id file _ l (λ out h.
        change_first-Acceptable (register_again body policy) id (λ e. refl) json_shape
          (λ e p. register_again-Passes json_shape body policy e b p) list out h a))
  apply-Loads writes (remove id) file l s = with_entries-Loads _ file l (λ list r a.
      write_changed-Loads writes id file _ l
        (λ out h. without-Acceptable json_shape id list out h a))
  apply-Loads writes (append none body rp) file l s = l
  apply-Loads writes (append (some id_bytes) body rp) file l (is_bytes, len, b, fresh) =
      with_entries-Loads _ file l (λ list r a.
        write-Loads writes (list ++ new_entry (encode_to_string id_bytes) body rp ∷ []) file l (
          snoc-Acceptable json_shape list (new_entry (encode_to_string id_bytes) body rp) a
            (new_entry-Passes json_shape id_bytes body rp is_bytes len b) (fresh list r)))
