-- ===== src/Tokens.antt =====
-- The redemption tokens of state.go: validation, the order they are saved in, and loading.
-- The map's entries are never shared outside it (`LookupRedemptionToken` copies, `AddRedemptionToken`
-- stores a copy, and the id lists are not written to), so they are values here. A file stands for
-- what `json.Unmarshal` reads from it.
pub mod Store
pub mod Status
pub mod Saved
pub mod Runs
pub mod Spent
pub mod Loading
pub mod Invariant
pub mod Order
use npvtunnel_creator_server.Base.Order.{text_less}
use npvtunnel_creator_server.Base.Utf8.{json_text}
use npvtunnel_creator_server.Base.{
  ℕ, suc, zero, ◌≡◌, Text, Bool, true, false, List, [], ◌∷◌, map, Option, none, some, if◌then◌else◌,
  ltb, str_eq, any, length, ◌==◌, lookup, insert, ℤ,
}

pub record RedemptionToken : Type 0 where
  pub token : Text
  pub config_ids : List Text
  pub remaining_redemptions : ℤ
  pub expires_at : Text
  pub created_at : Text
  pub label : Text

-- What `validateRedemptionToken` reports.
pub data TokenError : Type 0 where
  missing_token missing_config_ids empty_config_id : TokenError
  duplicate_config_id : Text → TokenError

abbrev check_config_ids : List Text → List Text → Option TokenError
check_config_ids seen [] = none
check_config_ids seen (id ∷ ids) =
    if str_eq id []
    then some empty_config_id
    else if any (str_eq id) seen
    then some (duplicate_config_id id)
    else check_config_ids (id ∷ seen) ids

unfoldable pub validate_redemption_token : RedemptionToken → Option TokenError
validate_redemption_token entry =
    if str_eq entry.token []
    then some missing_token
    else if length entry.config_ids == 0
    then some missing_config_ids
    else check_config_ids [] entry.config_ids

unfoldable pub redemption_token_less : RedemptionToken → RedemptionToken → Bool
redemption_token_less a b =
    if str_eq a.created_at b.created_at
    then text_less a.token b.token
    else text_less a.created_at b.created_at

-- The inner loop, on the elements before `list[j]` read from right to left.
unfoldable pub sink : RedemptionToken → List RedemptionToken → List RedemptionToken
sink x [] = x ∷ []
sink x (y ∷ before) = if redemption_token_less x y then y ∷ sink x before else x ∷ y ∷ before

-- The outer loop, from the sorted elements read from right to left.
unfoldable pub sort_onto : List RedemptionToken → List RedemptionToken → List RedemptionToken
sort_onto before [] = before
sort_onto before (x ∷ list) = sort_onto (sink x before) list

unfoldable pub reverse_onto : List RedemptionToken → List RedemptionToken → List RedemptionToken
reverse_onto acc [] = acc
reverse_onto acc (x ∷ list) = reverse_onto (x ∷ acc) list

unfoldable pub sort_redemption_tokens : List RedemptionToken → List RedemptionToken
sort_redemption_tokens list = reverse_onto [] (sort_onto [] list)

abbrev pub Tokens : Type 0
Tokens = List (Text × RedemptionToken)

-- `for _, v := range tokens`, in the order the map happens to have.
abbrev pub values : Tokens → List RedemptionToken
values [] = []
values ((k, v) ∷ m) = v ∷ values m

-- What `json.Unmarshal` reads back of the record that `json.MarshalIndent` wrote.
abbrev pub as_json : RedemptionToken → RedemptionToken
as_json entry = record {
  token = json_text entry.token;
  config_ids = map json_text entry.config_ids;
  remaining_redemptions = entry.remaining_redemptions;
  expires_at = json_text entry.expires_at;
  created_at = json_text entry.created_at;
  label = json_text entry.label;
}

-- What `persistRedemptionTokens` writes, as it is read.
abbrev pub saved : Tokens → List RedemptionToken
saved tokens = map as_json (sort_redemption_tokens (values tokens))

-- What reading the file gives, and what loading it gives.
pub data LoadError : Type 0 where
  read_failed : LoadError
  parse_failed : LoadError
  bad_entry : ℕ → TokenError → LoadError
  duplicate_token : ℕ → LoadError

pub data Loaded : Type 0 where
  loaded : Tokens → Loaded
  not_loaded : LoadError → Loaded

pub data Contents : Type 0 where
  unreadable not_json : Contents
  json_list : List RedemptionToken → Contents

abbrev pub is_some : Option RedemptionToken → Bool
is_some none = false
is_some (some _) = true

abbrev pub failing : ℕ → Option TokenError → Loaded → Loaded
failing i none rest = rest
failing i (some err) rest = not_loaded (bad_entry i err)

unfoldable pub load_entries : ℕ → List RedemptionToken → Tokens → Loaded
load_entries i [] out = loaded out
load_entries i (entry ∷ list) out =
    let rest = load_entries (suc i) list (insert entry.token entry out) in
    failing i (validate_redemption_token entry)
      (if is_some (lookup entry.token out) then not_loaded (duplicate_token i) else rest)

-- `loadRedemptionTokensFile`; without a file there are no tokens.
unfoldable pub load_redemption_tokens_file : Option Contents → Loaded
load_redemption_tokens_file none = loaded []
load_redemption_tokens_file (some unreadable) = not_loaded read_failed
load_redemption_tokens_file (some not_json) = not_loaded parse_failed
load_redemption_tokens_file (some (json_list list)) = load_entries 0 list []
