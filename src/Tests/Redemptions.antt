-- ===== src/Tests/Redemptions.antt =====
-- The registry of state.go with two share links.
use mathlib.Core.List.{Perm}
use npvtunnel_creator_server.Base.{
  if◌then◌else◌, ℕ, ◌+◌, ◌<◌, All, ap, ◌≡◌, inr, refl, Text, text, true, false, List, [], ◌∷◌,
  Option, none, some, str_eq, lookup, ℤ, pos, arith,
}
use npvtunnel_creator_server.Tokens.{
  RedemptionToken, Tokens, values, saved, loaded, json_list, load_redemption_tokens_file, not_json,
  validate_redemption_token, sort_redemption_tokens,
}
use npvtunnel_creator_server.Base64.RoundTrip.{IsBytes}
use npvtunnel_creator_server.Base64.{encode_to_string, digit}
use npvtunnel_creator_server.Challenge.{RandomRead}
use npvtunnel_creator_server.ShareLink.{join_share_link, ShareRequest, token_record, new_share_link}
use npvtunnel_creator_server.ShareLink.Creation.{new_share_link-registers}
use npvtunnel_creator_server.ShareLink.Reading.{join_share_link-injective}
use npvtunnel_creator_server.Tokens.Store.{
  consume_redemption_token, add_redemption_token, Store, write_failed, written,
}
use npvtunnel_creator_server.Tokens.Runs.{Operation, consumes, removes, reloads, run}
use npvtunnel_creator_server.Tokens.Spent.{spent, spent-remaining}
use npvtunnel_creator_server.Tokens.Saved.{IsValid}
use npvtunnel_creator_server.Tokens.Loading.{Utf8Record, load-saved}
use npvtunnel_creator_server.Base.Runes.{rune_len, runes, runes_from, concat}
use npvtunnel_creator_server.Base.Utf8.{IsUtf8, json_text}
use npvtunnel_creator_server.Tokens.Invariant.{run-IsValid}
use npvtunnel_creator_server.Tokens.Status.{
  status_expired, token_status, redeems, token_status-consume,
}
use npvtunnel_creator_server.Tokens.Order.{Ascending, sort-Ascending}

abbrev pub no_times : Text → Option ℤ
no_times t = none

abbrev link : RedemptionToken
link = record {
  token = text "link";
  config_ids = text "a" ∷ text "b" ∷ [];
  remaining_redemptions = pos 2;
  expires_at = [];
  created_at = text "2026-01-02";
  label = [];
}

abbrev other_link : RedemptionToken
other_link = record {
  token = text "other";
  config_ids = text "a" ∷ [];
  remaining_redemptions = pos 1;
  expires_at = [];
  created_at = text "2026-01-01";
  label = [];
}

abbrev links : Tokens
links = (text "link", link) ∷ (text "other", other_link) ∷ []

links-IsValid : IsValid links
unfolding lookup str_eq validate_redemption_token
links-IsValid = ((refl, (refl, tt)), ((refl, refl), ((refl, refl), tt)))

abbrev pub registry : Store
registry = record {
  tokens = links;
  has_path = true;
  mtime = 7;
  file = some (record { contents = not_json; modified = 7 });
}

-- The third redemption of two is refused.
abbrev busy_day : List Operation
busy_day =
    consumes (text "link") (pos 1) (written 8)
    ∷ reloads false
    ∷ consumes (text "link") (pos 2) write_failed
    ∷ removes (text "other") (written 9)
    ∷ consumes (text "link") (pos 3) (written 10)
    ∷ []

spent-remaining_example :
    (e : RedemptionToken) × (m : ℕ) × (lookup (text "link") (run no_times busy_day registry).tokens
      ≡ some e)
    × (e.remaining_redemptions ≡ pos m)
    × (spent no_times (text "link") busy_day registry + m ≡ 2)
spent-remaining_example =
    spent-remaining no_times (text "link") busy_day registry link 2 (unfold lookup str_eq in refl)
      refl (inr (omega arith)) (tt, (tt, (tt, (((λ e. cc e), tt), (tt, tt)))))

ascii-IsUtf8 : (t : Text) → All (λ c. c < 0x80) t → IsUtf8 t
unfolding rune_len concat
ascii-IsUtf8 [] a = ([], tt, refl)
ascii-IsUtf8 (c ∷ t) (h, a) =
    let (rs, runes, is) = ascii-IsUtf8 t a in
    ((c ∷ []) ∷ rs, ((omega arith, ground arith), runes), ap (λ u. c ∷ u) is)

links_utf8 : All Utf8Record (values links)
links_utf8 = (
  (
    ascii-IsUtf8 (text "link") (omega arith),
    (ascii-IsUtf8 (text "a") (omega arith), (ascii-IsUtf8 (text "b") (omega arith), tt)),
    ascii-IsUtf8 [] tt,
    ascii-IsUtf8 (text "2026-01-02") (omega arith),
    ascii-IsUtf8 [] tt,
  ),
  (
    (
      ascii-IsUtf8 (text "other") (omega arith),
      (ascii-IsUtf8 (text "a") (omega arith), tt),
      ascii-IsUtf8 [] tt,
      ascii-IsUtf8 (text "2026-01-01") (omega arith),
      ascii-IsUtf8 [] tt,
    ),
    tt,
  ),
)

load-saved_example :
    (m : Tokens) × (load_redemption_tokens_file (some (json_list (saved links))) ≡ loaded m)
    × ((k : Text) → lookup k m ≡ lookup k links)
load-saved_example = load-saved links links-IsValid links_utf8

run-IsValid_example : IsValid (run no_times busy_day registry).tokens
run-IsValid_example = run-IsValid no_times busy_day registry links-IsValid

sort-Ascending_example :
    Perm (sort_redemption_tokens (link ∷ other_link ∷ [])) (link ∷ other_link ∷ [])
    × Ascending (sort_redemption_tokens (link ∷ other_link ∷ []))
sort-Ascending_example = sort-Ascending (link ∷ other_link ∷ [])

same_link :
    join_share_link (text "https://a") (text "t1") ≡ join_share_link (text "https://a") (text "t1")
same_link = refl

same_link_parts : (text "https://a" ≡ text "https://a") × (text "t1" ≡ text "t1")
same_link_parts =
    join_share_link-injective (text "https://a") (text "https://a") (text "t1") (text "t1")
      url_bytes url_bytes same_link
  where
    url_bytes : IsBytes (text "https://a")
    url_bytes = (
      omega arith,
      (
        omega arith,
        (
          omega arith,
          (
            omega arith,
            (omega arith, (omega arith, (omega arith, (omega arith, (omega arith, tt))))),
          ),
        ),
      ),
    )

abbrev chosen : ShareRequest
chosen = record {
  config_ids = text "a" ∷ [];
  redemption_url = text "https://a";
  redemptions = pos 3;
  expires_at = [];
  label = [];
}

abbrev random_read : RandomRead
random_read = record { buffer = 1 ∷ 2 ∷ 3 ∷ []; failed = false }

made_link :
    (new_share_link random_read chosen (text "2026-01-03") (written 8) registry).1
    ≡ some (text "AQID", join_share_link (text "https://a") (text "AQID"))
unfolding new_share_link add_redemption_token validate_redemption_token lookup str_eq
    encode_to_string digit
made_link = refl

new_share_link-registers_example :
    let s' = (new_share_link random_read chosen (text "2026-01-03") (written 8) registry).0 in
    (lookup (text "AQID") registry.tokens ≡ none)
    × ((k : Text)
        → lookup k s'.tokens ≡ (
            if str_eq (text "AQID") k
            then some (token_record chosen (text "AQID") (text "2026-01-03"))
            else lookup k registry.tokens))
    × (join_share_link (text "https://a") (text "AQID")
        ≡ join_share_link (text "https://a") (text "AQID"))
new_share_link-registers_example =
    new_share_link-registers random_read chosen (text "2026-01-03") (written 8) registry
      (text "AQID") (join_share_link (text "https://a") (text "AQID")) made_link

abbrev at_four : Text → Option ℤ
at_four t = some (pos 4)

abbrev dated_link : RedemptionToken
dated_link = record link { expires_at = text "four" }

abbrev dated : Store
dated = record registry { tokens = (text "link", dated_link) ∷ [] }

token_status-consume_example :
    (consume_redemption_token at_four (text "link") (pos 5) (written 8) dated).1
    ≡ redeems (token_status at_four dated_link (pos 5)).1
token_status-consume_example =
    token_status-consume at_four (text "link") (pos 5) (written 8) dated dated_link
      (unfold lookup str_eq in refl)

expired_link : token_status at_four dated_link (pos 5) ≡ (text "expired", status_expired)
unfolding token_status str_eq
expired_link = refl

-- A byte of no rune comes back as U+FFFD.
mangled_label : json_text (0x61 ∷ 0xFF ∷ []) ≡ 0x61 ∷ 0xEF ∷ 0xBF ∷ 0xBD ∷ []
unfolding json_text runes runes_from rune_len concat
mangled_label = refl
