-- ===== src/Configs/Loading.antt =====
-- `loadConfigsFile` and `ReloadConfigsIfChanged` of state.go, and `resolveConfigTtl` of policy.go.
use npvtunnel_creator_server.Base.{
  ℕ, suc, ◌*◌, ◌≡◌, ◌≢◌, ◌⊎◌, inl, inr, refl, sym, Bool, true, false, not, List, [], ◌∷◌, Option,
  none, some, Bytes, Text, if◌then◌else◌, str_eq, str_eq_iff, length, leb, lookup, insert, ℤ, pos,
  negsuc, neg_part, pos_part, is_pos, to_int64, to_int64_small, ◌≤ℤ◌, arith, Option-cases,
  Bool-cases, lookup-insert, lt→ltb,
}
use npvtunnel_creator_server.Base64.{decode_string}
use npvtunnel_creator_server.Policy.{
  AttestationPolicy, no_verifier, unknown_verifier, valid_attestation_mode, lookup_verifier,
  new_verifier_registry, apple_verifier_name,
}
use npvtunnel_creator_server.Configs.{
  JsonShape, json_object, json_null, other_json, no_json, fits_map, ConfigEntry, Registry,
  resolve_config_ttl, check_decoded, check_policy, check_ttl, check_entry, load_entries,
  load_configs_file, Loaded, loaded, no_registry, not_loaded, Contents, unreadable, not_json,
  json_list, ConfigStore, config_by_id, Stat, not_exist, stat_error, modified, swap_in, reload_at,
  reload_configs_if_changed, reloaded,
}

-- A policy as the load lets it through: the flat verifier alone is looked up.
pub record GoodPolicy (p : AttestationPolicy) : Type 0 where
  pub mode : valid_attestation_mode p.mode ≡ true
  pub soft_failure : neg_part p.soft_failure_ttl_sec ≡ 0
  pub resolves :
      (n : Text) → lookup_verifier new_verifier_registry p.legacy_arm.verifier ≢ unknown_verifier n
  pub app_id : (p.legacy_arm.verifier ≢ apple_verifier_name) ⊎ (p.legacy_arm.app_id ≢ [])

abbrev pub IfPolicy : Option AttestationPolicy → Type 0
IfPolicy none = Unit
IfPolicy (some p) = GoodPolicy p

-- A config as the load lets it through, under its id.
pub record GoodEntry (json_shape : Bytes → JsonShape) (id : Text) (e : ConfigEntry) : Type 0 where
  pub filed : id ≡ e.config_id
  pub decodes : (cid : Bytes) × (decode_string e.config_id ≡ some cid) × (length cid ≡ 16)
  pub payload : (json_shape e.config ≡ json_object) ⊎ (json_shape e.config ≡ json_null)
  pub policy : IfPolicy e.attestation_policy
  pub ttl :
      (e.config_ttl_sec ≡ pos 0)
      ⊎ ((pos 60 ≤ℤ e.config_ttl_sec) × (e.config_ttl_sec ≤ℤ pos 604_800))

lookup_verifier-none :
    (name : Text) → str_eq name [] ≡ true → lookup_verifier new_verifier_registry name ≡ no_verifier
unfolding lookup_verifier
lookup_verifier-none name h = rw h refl

check_policy-Good : (o : Option AttestationPolicy) → check_policy o ≡ none → IfPolicy o
unfolding check_policy
check_policy-Good none h = tt
check_policy-Good (some p) h = record {
  mode = ground arith;
  soft_failure = ground arith;
  resolves = λ n e. resolved n e;
  app_id = elim (Bool-cases (str_eq p.legacy_arm.app_id [])) [
    | inl bare ↦ inl (other bare)
    | inr named ↦ inr (λ e. ground (arith, str_eq_iff p.legacy_arm.app_id []))
  ];
}
  where
    resolved :
        (n : Text)
        → lookup_verifier new_verifier_registry p.legacy_arm.verifier ≡ unknown_verifier n
        → ⊥
    resolved n e = elim (Bool-cases (str_eq p.legacy_arm.verifier [])) [
      | inl none_named ↦ cc (lookup_verifier-none p.legacy_arm.verifier none_named, e)
      | inr named ↦ ground arith
    ]

    other : str_eq p.legacy_arm.app_id [] ≡ true → p.legacy_arm.verifier ≢ apple_verifier_name
    other bare e =
        let named : str_eq p.legacy_arm.verifier [] ≡ false =
          ground (arith, str_eq_iff p.legacy_arm.verifier []) in
        ground (arith, str_eq_iff p.legacy_arm.verifier apple_verifier_name)

check_ttl-Good :
    (sec : ℤ) → check_ttl sec ≡ none → (sec ≡ pos 0) ⊎ ((pos 60 ≤ℤ sec) × (sec ≤ℤ pos 604_800))
unfolding check_ttl
check_ttl-Good (pos n) h = ground arith
check_ttl-Good (negsuc n) h = ground arith

check_decoded-none :
    (o : Option Bytes) → check_decoded o ≡ none → (cid : Bytes) × (o ≡ some cid) × (length cid ≡ 16)
check_decoded-none none h = absurd (cc h)
check_decoded-none (some cid) h = (cid, refl, ground arith)

fits_map-cases : (v : JsonShape) → fits_map v ≡ true → (v ≡ json_object) ⊎ (v ≡ json_null)
fits_map-cases json_object h = inl refl
fits_map-cases json_null h = inr refl
fits_map-cases other_json h = absurd (cc h)
fits_map-cases no_json h = absurd (cc h)

check_entry-Good :
    (json_shape : Bytes → JsonShape) (e : ConfigEntry) (out : Registry)
    → check_entry json_shape e out ≡ none
    → GoodEntry json_shape e.config_id e × (lookup e.config_id out ≡ none)
unfolding check_entry
check_entry-Good json_shape e out h = (
  record {
    filed = refl;
    decodes = check_decoded-none (decode_string e.config_id) (ground arith);
    payload = fits_map-cases (json_shape e.config) (ground arith);
    policy = check_policy-Good e.attestation_policy (ground arith);
    ttl = check_ttl-Good e.config_ttl_sec (ground arith);
  },
  ground arith,
)

abbrev AllGood : (Bytes → JsonShape) → Registry → Type 0
AllGood json_shape m =
    (id : Text) (e : ConfigEntry) → lookup id m ≡ some e → GoodEntry json_shape id e

insert-Good :
    (json_shape : Bytes → JsonShape) (e : ConfigEntry) (m : Registry)
    → GoodEntry json_shape e.config_id e
    → AllGood json_shape m
    → AllGood json_shape (insert e.config_id e m)
insert-Good json_shape e m g all id e' h = elim (Bool-cases (str_eq e.config_id id)) [
  | inl own ↦
      let same : e' ≡ e = cc (rw own at lookup_it) in
      let name : id ≡ e.config_id = sym ((str_eq_iff e.config_id id).0 own) in rw (same, name) g
  | inr other ↦ all id e' (rw other at lookup_it)
]
  where
    lookup_it : (if str_eq e.config_id id then some e else lookup id m) ≡ some e'
    lookup_it = rw (lookup-insert e.config_id id e m) at h

load_entries-Good :
    (json_shape : Bytes → JsonShape) (i : ℕ) (list : List ConfigEntry) (out m : Registry)
    → load_entries json_shape i list out ≡ loaded m
    → AllGood json_shape out
    → AllGood json_shape m
unfolding load_entries
load_entries-Good json_shape i [] out m h all = let same : m ≡ out = cc h in rw same all
load_entries-Good json_shape i (e ∷ list) out m h all =
    elim (Option-cases (check_entry json_shape e out)) [
      | inl passes ↦
          load_entries-Good json_shape (suc i) list (insert e.config_id e out) m (rw passes at h)
            (insert-Good json_shape e out (check_entry-Good json_shape e out passes).0 all)
      | inr (err, refused) ↦ absurd (cc (rw refused at h))
    ]

load-Good :
    (json_shape : Bytes → JsonShape) (file : Option Contents) (m : Registry)
    → load_configs_file json_shape file ≡ loaded m
    → AllGood json_shape m
unfolding load_configs_file
load-Good json_shape none m h = absurd (cc h)
load-Good json_shape (some unreadable) m h = absurd (cc h)
load-Good json_shape (some not_json) m h = absurd (cc h)
load-Good json_shape (some (json_list list)) m h =
    load_entries-Good json_shape 0 list [] m h (λ id e e'. absurd (unfold lookup in cc e'))

-- Whatever is in the file and whatever `os.Stat` says, each config that the server finds after a
-- reload is one of before, or it passes every check: it stands under its own id, which decodes to
-- 16 bytes, its payload is a JSON object or null, and its policy and lifetime are in their ranges.
pub reload-Good :
    (json_shape : Bytes → JsonShape) (stat : Stat) (file : Option Contents) (s : ConfigStore)
    (id : Text) (e : ConfigEntry)
    → config_by_id id (reload_configs_if_changed json_shape stat file s).0 ≡ some e
    → (config_by_id id s ≡ some e) ⊎ GoodEntry json_shape id e
unfolding config_by_id reload_configs_if_changed
reload-Good json_shape stat file s id e h = on_path s.has_path h
  where
    read :
        (mtime : ℕ) (l : Loaded)
        → load_configs_file json_shape file ≡ l
        → config_by_id id (swap_in s mtime l).0 ≡ some e
        → (config_by_id id s ≡ some e) ⊎ GoodEntry json_shape id e
    read mtime no_registry q h' = absurd (cc h')
    read mtime (loaded m) q h' = inr (load-Good json_shape file m q id e h')
    read mtime (not_loaded err) q h' = inl h'

    at_stat :
        (st : Stat)
        → config_by_id id (reload_at json_shape st file s).0 ≡ some e
        → (config_by_id id s ≡ some e) ⊎ GoodEntry json_shape id e
    at_stat not_exist h' = inl h'
    at_stat stat_error h' = inl h'
    at_stat (modified mtime) h' = elim (Bool-cases (leb mtime s.mtime)) [
      | inl old ↦ inl (rw old at h')
      | inr newer ↦ read mtime (load_configs_file json_shape file) refl (rw newer at h')
    ]

    on_path :
        (b : Bool)
        → config_by_id id (if not b then (s, reloaded) else reload_at json_shape stat file s).0
          ≡ some e
        → (config_by_id id s ≡ some e) ⊎ GoodEntry json_shape id e
    on_path true h' = at_stat stat h'
    on_path false h' = inl h'

to_seconds :
    (sec : ℤ)
    → (sec ≡ pos 0) ⊎ ((pos 60 ≤ℤ sec) × (sec ≤ℤ pos 604_800))
    → let ttl =
        if not (is_pos sec)
        then pos (3_600 * 1_000_000_000)
        else to_int64 (pos_part sec * 1_000_000_000) in
      (pos (60 * 1_000_000_000) ≤ℤ ttl) × (ttl ≤ℤ pos (604_800 * 1_000_000_000))
to_seconds sec (inl zero_sec) = rw zero_sec (omega arith, omega arith)
to_seconds (pos n) (inr (lo, hi)) =
    rw (lt→ltb 0 n (omega (arith, lo)), to_int64_small (n * 1_000_000_000) (omega (arith, hi)))
      (omega (arith, lo), omega (arith, hi))
to_seconds (negsuc n) (inr (lo, hi)) = absurd (omega (arith, lo))

-- A config that passed the checks is handed out for at least a minute and at most a week.
pub resolve_config_ttl-bounds :
    (json_shape : Bytes → JsonShape) (id : Text) (e : ConfigEntry)
    → GoodEntry json_shape id e
    → (pos (60 * 1_000_000_000) ≤ℤ resolve_config_ttl (some e))
      × (resolve_config_ttl (some e) ≤ℤ pos (604_800 * 1_000_000_000))
unfolding resolve_config_ttl
resolve_config_ttl-bounds json_shape id e g = to_seconds e.config_ttl_sec g.ttl
