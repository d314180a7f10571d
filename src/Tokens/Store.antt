-- ===== src/Tokens/Store.antt =====
-- The token registry of state.go: what `LookupRedemptionToken`, `ConsumeRedemptionToken`,
-- `AddRedemptionToken`, `RemoveRedemptionToken` and `ReloadRedemptionTokensIfChanged` do to the map
-- in memory and to the file. `time.Parse` is an argument, as is how a write of the file goes.
-- Instants and modification times count from the zero time.
use npvtunnel_creator_server.Base.{
  ℕ, suc, zero, Text, Bool, true, false, [], Option, none, some, if◌then◌else◌, leb, str_eq, not,
  is_pos, ltb_ℤ, lookup, insert, erase, size, ℤ, pos, negsuc, ◌==◌,
}
use npvtunnel_creator_server.Tokens.{
  RedemptionToken, TokenError, Tokens, Contents, json_list, Loaded, loaded, not_loaded, LoadError,
  saved, validate_redemption_token, load_redemption_tokens_file,
}

-- What stands at `redemptionTokensPath`.
pub record TokenFile : Type 0 where
  pub contents : Contents
  pub modified : ℕ

-- The fields of `State` for the tokens, and the file. `has_path` is `redemptionTokensPath != ""`.
pub record Store : Type 0 where
  pub tokens : Tokens
  pub has_path : Bool
  pub mtime : ℕ
  pub file : Option TokenFile

-- How `atomicWriteFile` goes, and `os.Stat` after it: the write fails, or it succeeds and the file
-- has a new modification time, which is then read or not.
pub data WriteResult : Type 0 where
  write_failed : WriteResult
  written written_unseen : ℕ → WriteResult

unfoldable pub lookup_redemption_token : Text → Store → Option RedemptionToken
lookup_redemption_token token s = lookup token s.tokens

abbrev pub with_tokens : Tokens → Store → Store
with_tokens tokens s = record {
  tokens = tokens;
  has_path = s.has_path;
  mtime = s.mtime;
  file = s.file;
}

abbrev write_saved : ℕ → Store → Option TokenFile
write_saved modified s =
    some (record { contents = json_list (saved s.tokens); modified = modified })

unfoldable pub persist_redemption_tokens : WriteResult → Store → Store
persist_redemption_tokens write_failed s = s
persist_redemption_tokens (written modified) s = record {
  tokens = s.tokens;
  has_path = s.has_path;
  mtime = modified;
  file = write_saved modified s;
}
persist_redemption_tokens (written_unseen modified) s = record {
  tokens = s.tokens;
  has_path = s.has_path;
  mtime = s.mtime;
  file = write_saved modified s;
}

-- `if s.redemptionTokensPath != "" { ... }` at the end of each operation.
abbrev pub persist : WriteResult → Store → Store
persist w s = if s.has_path then persist_redemption_tokens w s else s

pub data ConsumeResult : Type 0 where
  consumed token_not_found token_exhausted token_expired : ConsumeResult

abbrev after : ℤ → Option ℤ → Bool
after now none = false
after now (some expires) = ltb_ℤ expires now

-- `entry.ExpiresAt != ""` and it parses and `now.After(expires)`
abbrev pub has_expired : (Text → Option ℤ) → ℤ → RedemptionToken → Bool
has_expired parse_time now entry =
    if str_eq entry.expires_at [] then false else after now (parse_time entry.expires_at)

-- `n - 1` for an `int` above 0.
abbrev pub less_one : ℤ → ℤ
less_one (pos zero) = negsuc 0
less_one (pos (suc n)) = pos n
less_one (negsuc n) = negsuc (suc n)

abbrev pub charged : RedemptionToken → RedemptionToken
charged entry = record {
  token = entry.token;
  config_ids = entry.config_ids;
  remaining_redemptions = less_one entry.remaining_redemptions;
  expires_at = entry.expires_at;
  created_at = entry.created_at;
  label = entry.label;
}

-- `entry.RemainingRedemptions--` through the pointer that the map holds.
abbrev pub charge :
    (Text → Option ℤ)
    → Text
    → ℤ
    → WriteResult
    → Store
    → Option RedemptionToken
    → Store × ConsumeResult
charge parse_time token now w s none = (s, token_not_found)
charge parse_time token now w s (some entry) =
    if not (is_pos entry.remaining_redemptions)
    then (s, token_exhausted)
    else if has_expired parse_time now entry
    then (s, token_expired)
    else (persist w (with_tokens (insert token (charged entry) s.tokens) s), consumed)

unfoldable pub consume_redemption_token :
    (Text → Option ℤ) → Text → ℤ → WriteResult → Store → Store × ConsumeResult
consume_redemption_token parse_time token now w s =
    charge parse_time token now w s (lookup token s.tokens)

pub data AddResult : Type 0 where
  added token_already_exists persist_failed : AddResult
  invalid_token : TokenError → AddResult

abbrev write_error : WriteResult → AddResult
write_error write_failed = persist_failed
write_error _ = added

abbrev put_new : RedemptionToken → WriteResult → Store → Option RedemptionToken → Store × AddResult
put_new entry w s (some other) = (s, token_already_exists)
put_new entry w s none = (
  persist w (with_tokens (insert entry.token entry s.tokens) s),
  if s.has_path then write_error w else added,
)

abbrev add_valid : RedemptionToken → WriteResult → Store → Option TokenError → Store × AddResult
add_valid entry w s (some err) = (s, invalid_token err)
add_valid entry w s none = put_new entry w s (lookup entry.token s.tokens)

unfoldable pub add_redemption_token : RedemptionToken → WriteResult → Store → Store × AddResult
add_redemption_token entry w s = add_valid entry w s (validate_redemption_token entry)

abbrev delete_known : Text → WriteResult → Store → Option RedemptionToken → Store × Bool
delete_known token w s none = (s, false)
delete_known token w s (some entry) = (persist w (with_tokens (erase token s.tokens) s), true)

unfoldable pub remove_redemption_token : Text → WriteResult → Store → Store × Bool
remove_redemption_token token w s = delete_known token w s (lookup token s.tokens)

-- What a reload reports.
pub data ReloadResult : Type 0 where
  reloaded stat_failed : ReloadResult
  reload_failed : LoadError → ReloadResult

abbrev pub cleared : Store → Store
cleared s = record {
  tokens = if size s.tokens == 0 then s.tokens else [];
  has_path = s.has_path;
  mtime = 0;
  file = s.file;
}

abbrev pub swap_in : ℕ → Store → Loaded → Store × ReloadResult
swap_in modified s (not_loaded err) = (s, reload_failed err)
swap_in modified s (loaded fresh) =
    (record { tokens = fresh; has_path = s.has_path; mtime = modified; file = s.file }, reloaded)

abbrev pub reload_file : Bool → Store → Option TokenFile → Store × ReloadResult
reload_file stat_fails s none = (cleared s, reloaded)
reload_file stat_fails s (some f) =
    if stat_fails
    then (s, stat_failed)
    else if leb f.modified s.mtime
    then (s, reloaded)
    else swap_in f.modified s (load_redemption_tokens_file (some f.contents))

-- `stat_fails` says that `os.Stat` fails though the file exists. The file does not change between
-- this call of `os.Stat` and the read.
unfoldable pub reload_redemption_tokens_if_changed : Bool → Store → Store × ReloadResult
reload_redemption_tokens_if_changed stat_fails s =
    if not s.has_path then (s, reloaded) else reload_file stat_fails s s.file
