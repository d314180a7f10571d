-- ===== src/Editing/Accepted.antt =====
-- When `loadConfigsFile` of state.go accepts a list of entries.
use npvtunnel_creator_server.Base.{
  ℕ, suc, ◌≡◌, refl, false, List, [], ◌∷◌, Option, none, some, Bytes, Text, str_eq, lookup, insert,
  lookup-insert, All, arith, Option-cases, Bool-cases, inl, inr,
}
use npvtunnel_creator_server.Configs.{
  JsonShape, ConfigEntry, Registry, check_entry, load_entries, loaded, Contents, json_list,
  load_configs_file,
}

-- The checks of an entry alone.
abbrev pub Passes : (Bytes → JsonShape) → ConfigEntry → Type 0
Passes json_shape e = check_entry json_shape e [] ≡ none

abbrev pub Unseen : Text → List ConfigEntry → Type 0
Unseen id list = All (λ (e : ConfigEntry). str_eq id e.config_id ≡ false) list

-- Each entry passes its checks, and no two have the same id.
abbrev pub Acceptable : (Bytes → JsonShape) → List ConfigEntry → Type 0
Acceptable json_shape [] = Unit
Acceptable json_shape (e ∷ list) =
    Passes json_shape e × Unseen e.config_id list × Acceptable json_shape list

abbrev NotIn : Registry → List ConfigEntry → Type 0
NotIn out list = All (λ (e : ConfigEntry). lookup e.config_id out ≡ none) list

module _ (json_shape : Bytes → JsonShape) where
  check_entry-none :
      (e : ConfigEntry) (out : Registry)
      → check_entry json_shape e out ≡ none
      → Passes json_shape e × (lookup e.config_id out ≡ none)
  unfolding check_entry lookup
  check_entry-none e out h = ground arith

  check_entry-Passes :
      (e : ConfigEntry) (out : Registry)
      → Passes json_shape e
      → lookup e.config_id out ≡ none
      → check_entry json_shape e out ≡ none
  unfolding check_entry lookup
  check_entry-Passes e out p h = rw h p

  NotIn-insert :
      (e : ConfigEntry) (out : Registry) (list : List ConfigEntry)
      → Unseen e.config_id list
      → NotIn out list
      → NotIn (insert e.config_id e out) list
  NotIn-insert e out [] u n = tt
  NotIn-insert e out (e' ∷ list) u n =
      (rw (lookup-insert e.config_id e'.config_id e out, u.0) n.0, NotIn-insert e out list u.1 n.1)

  NotIn-insert_only :
      (e : ConfigEntry) (out : Registry) (list : List ConfigEntry)
      → NotIn (insert e.config_id e out) list
      → Unseen e.config_id list × NotIn out list
  NotIn-insert_only e out [] n = (tt, tt)
  NotIn-insert_only e out (e' ∷ list) n =
      let (u, o) = NotIn-insert_only e out list n.1 in
      let h = rw (lookup-insert e.config_id e'.config_id e out) at n.0 in
      elim (Bool-cases (str_eq e.config_id e'.config_id)) [
        | inl same ↦ absurd (cc (rw same at h))
        | inr other ↦ ((other, u), (rw other at h, o))
      ]

  accepts :
      (i : ℕ) (list : List ConfigEntry) (out : Registry)
      → Acceptable json_shape list
      → NotIn out list
      → (m : Registry) × (load_entries json_shape i list out ≡ loaded m)
  unfolding load_entries
  accepts i [] out a n = (out, refl)
  accepts i (e ∷ list) out a n =
      let passes = check_entry-Passes e out a.0 n.0 in
      let (m, h) =
        accepts (suc i) list (insert e.config_id e out) a.2 (NotIn-insert e out list a.1 n.1) in
      (m, rw passes h)

  accepted_only :
      (i : ℕ) (list : List ConfigEntry) (out m : Registry)
      → load_entries json_shape i list out ≡ loaded m
      → Acceptable json_shape list × NotIn out list
  unfolding load_entries
  accepted_only i [] out m h = (tt, tt)
  accepted_only i (e ∷ list) out m h = elim (Option-cases (check_entry json_shape e out)) [
    | inl passes ↦
        let (p, l) = check_entry-none e out passes in
        let (a, n) = accepted_only (suc i) list (insert e.config_id e out) m (rw passes at h) in
        let (u, o) = NotIn-insert_only e out list n in ((p, u, a), (l, o))
    | inr (err, refused) ↦ absurd (cc (rw refused at h))
  ]

  NotIn-empty : (list : List ConfigEntry) → NotIn [] list
  unfolding lookup
  NotIn-empty [] = tt
  NotIn-empty (e ∷ list) = (refl, NotIn-empty list)

  -- The server takes the file: it is not there, or it loads.
  abbrev pub Loads : Option Contents → Type 0
  Loads none = Unit
  Loads (some contents) = (m : Registry) × (load_configs_file json_shape (some contents) ≡ loaded m)

  pub Acceptable-Loads :
      (list : List ConfigEntry) → Acceptable json_shape list → Loads (some (json_list list))
  unfolding load_configs_file
  Acceptable-Loads list a = accepts 0 list [] a (NotIn-empty list)

  pub Loads-Acceptable :
      (list : List ConfigEntry) → Loads (some (json_list list)) → Acceptable json_shape list
  unfolding load_configs_file
  Loads-Acceptable list (m, h) = (accepted_only 0 list [] m h).0
