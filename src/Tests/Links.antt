-- ===== src/Tests/Links.antt =====
-- Configs, client addresses, one redemption and the gate of server.go.
use npvtunnel_creator_server.Base.{
  inl, ◌↔◌, ◌≢◌, ◌≤◌, ◌+◌, ◌*◌, ◌≡◌, ◌⊎◌, inr, refl, Text, text, Bytes, true, false, [], ◌∷◌, ◌++◌,
  none, some, str_eq, lookup, insert, pos, ◌≤ℤ◌, arith,
}
use npvtunnel_creator_server.Base64.{digit, encode_to_string, decode_string, value, values, regroup}
use npvtunnel_creator_server.Configs.{
  has_config_registry, JsonShape, json_object, ConfigEntry, ConfigStore, check_policy, modified,
  json_list, config_by_id, reload_configs_if_changed, load_configs_file, load_entries, check_entry,
  check_ttl, resolve_config_ttl, not_exist,
}
use npvtunnel_creator_server.Configs.Loading.{GoodEntry, reload-Good, resolve_config_ttl-bounds}
use npvtunnel_creator_server.ClientIp.{Addresses, ip_in_any, comma, peer, client_ip}
use npvtunnel_creator_server.ClientIp.Spoofing.{client_ip-direct, client_ip-proxied}
use npvtunnel_creator_server.Tokens.{RedemptionToken}
use npvtunnel_creator_server.Tokens.Store.{
  written, lookup_redemption_token, reload_redemption_tokens_if_changed, consume_redemption_token,
}
use npvtunnel_creator_server.RateLimit.{new_rate_limiter, allow, decide}
use npvtunnel_creator_server.Redeem.{
  redeemed, payload, handle_body, mint_all, RedeemBody, RedeemState, Around, parsed, handle_redeem,
  reload,
}
use npvtunnel_creator_server.Redeem.Charge.{Outcome, handle_redeem-Outcome}
use npvtunnel_creator_server.InFlight.{
  max_in_flight_requests, busy, enter, Reached, start, arrives, Reached-bound,
}
use npvtunnel_creator_server.Tests.Policies.{ops}
use npvtunnel_creator_server.Tests.Redemptions.{registry, no_times}

abbrev any_object : Bytes → JsonShape
any_object config = json_object

abbrev id : Text
id = text "AAAAAAAAAAAAAAAAAAAAAA"

abbrev entry : ConfigEntry
entry = record {
  config_id = id;
  config = text "{}";
  display_name = [];
  attestation_policy = none;
  issued_policy = none;
  config_ttl_sec = pos 120;
}

abbrev empty_store : ConfigStore
empty_store = record { configs = none; has_path = true; mtime = 1 }

found_after_reload :
    config_by_id id
      (reload_configs_if_changed any_object
        (modified 2)
        (some (json_list (entry ∷ [])))
        empty_store).0
    ≡ some entry
unfolding config_by_id reload_configs_if_changed load_configs_file load_entries check_entry
    check_policy check_ttl lookup insert decode_string value values regroup str_eq
found_after_reload = refl

reload-Good_example : (config_by_id id empty_store ≡ some entry) ⊎ GoodEntry any_object id entry
reload-Good_example =
    reload-Good any_object (modified 2) (some (json_list (entry ∷ []))) empty_store id entry
      found_after_reload

good_entry : GoodEntry any_object id entry
unfolding decode_string value values regroup
good_entry = record {
  filed = refl;
  decodes = (_, refl, refl);
  payload = inl refl;
  policy = tt;
  ttl = inr (omega arith, omega arith);
}

day_long :
    (pos (60 * 1_000_000_000) ≤ℤ resolve_config_ttl (some entry))
    × (resolve_config_ttl (some entry) ≤ℤ pos (604_800 * 1_000_000_000))
day_long = resolve_config_ttl-bounds any_object id entry good_entry

-- Addresses are texts, and a network holds one address.
abbrev addresses : Addresses
addresses = record {
  split_host_port = λ t. some t;
  parse_ip = λ t. some t;
  contains = λ n ip. str_eq n ip;
}

direct_caller :
    client_ip ops addresses (text "9.9.9.9") (text "1.1.1.1") (text "10.0.0.1" ∷ [])
    ≡ peer addresses (text "9.9.9.9")
direct_caller =
    client_ip-direct ops addresses (text "9.9.9.9") (text "1.1.1.1") (text "10.0.0.1" ∷ [])
      (unfold ip_in_any str_eq in refl)

client_ip-proxied_example :
    client_ip ops addresses
      (text "10.0.0.1")
      (text "1.1.1.1,2.2.2.2" ++ comma ∷ text "9.9.9.9")
      (text "10.0.0.1" ∷ [])
    ≡ text "9.9.9.9"
client_ip-proxied_example =
    client_ip-proxied ops addresses (text "10.0.0.1") (text "10.0.0.1" ∷ [])
      (text "1.1.1.1,2.2.2.2") (text "9.9.9.9") (λ e. omega (arith, e))
      (unfold ip_in_any str_eq in refl) refl (λ e. cc e) (unfold ip_in_any str_eq in refl)

abbrev around : Around
around = record {
  ops = ops;
  net = addresses;
  parse_time = no_times;
  json_shape = any_object;
  mint = λ e recipient config_id. some recipient;
  public_issuer_url = text "https://issuer";
  trusted_proxies = [];
  remote_addr = text "9.9.9.9";
  forwarded_for = [];
  token_stat_fails = false;
  config_stat = not_exist;
  config_file = none;
  limit_now = 5;
  check_now = pos 5;
  consume_now = pos 5;
  token_write = written 8;
}

abbrev redeemer : RedeemBody
redeemer = parsed (record {
  v = pos 1;
  token = text "other";
  recipient_pubkey = encode_to_string (text "AAAAAAAAAAAAAAAAAAAAAAAAAAAAAAAAA");
})

-- The token is of the config in the registry.
abbrev one_link : RedemptionToken
one_link = record {
  token = text "other";
  config_ids = id ∷ [];
  remaining_redemptions = pos 1;
  expires_at = [];
  created_at = text "2026-01-01";
  label = [];
}

abbrev redeem_state : RedeemState
redeem_state = record {
  tokens = record registry { tokens = (text "other", one_link) ∷ [] };
  configs = record { configs = some ((id, entry) ∷ []); has_path = true; mtime = 1 };
  redemption_limiter = new_rate_limiter;
}

handle_redeem-Outcome_example :
    Outcome around redeemer
      (reload around redeem_state)
      (handle_redeem around redeemer redeem_state).0.tokens
      (handle_redeem around redeemer redeem_state).1
handle_redeem-Outcome_example = handle_redeem-Outcome around redeemer redeem_state

-- The request is granted: one envelope, which is here the recipient's key.
redeemed_once :
    (handle_redeem around redeemer redeem_state).1
    ≡ redeemed (payload (text "AAAAAAAAAAAAAAAAAAAAAAAAAAAAAAAAA" ∷ []))
unfolding handle_redeem handle_body str_eq encode_to_string allow decide lookup decode_string values
    digit value regroup lookup_redemption_token reload_redemption_tokens_if_changed
    has_config_registry reload_configs_if_changed mint_all config_by_id insert client_ip ip_in_any
    consume_redemption_token
redeemed_once = refl

one_request : Reached 1 1 0
unfolding enter str_eq
one_request = arrives (text "/v1/issue") start

Reached-bound_example :
    (1 ≤ max_in_flight_requests)
    × (1 + 0 ≡ 1)
    × (((enter (text "/v1/redeem") 1).1 ≡ busy)
        ↔ ((◌≢◌ {A = Text} (text "/v1/redeem") (text "/healthz")) × (1 ≡ max_in_flight_requests)))
Reached-bound_example = Reached-bound 1 1 0 (text "/v1/redeem") one_request
