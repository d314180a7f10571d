-- ===== src/Tokens/Invariant.antt =====
-- The registry of tokens of state.go under all of its operations.
use npvtunnel_creator_server.Base.{
  ◌≡◌, refl, Text, Bool, List, [], ◌∷◌, Option, none, some, str_eq_iff, lookup, erase, arith, All,
  ℤ, Bool-cases, leb, insert-Distinct, erase-Distinct, inl, inr,
}
use npvtunnel_creator_server.Tokens.{
  RedemptionToken, Tokens, Loaded, loaded, not_loaded, load_redemption_tokens_file,
  validate_redemption_token,
}
use npvtunnel_creator_server.Tokens.Store.{
  TokenFile, Store, WriteResult, persist, with_tokens, charged, reload_file, swap_in,
  reload_redemption_tokens_if_changed,
}
use npvtunnel_creator_server.Tokens.Saved.{Filed, IsValid}
use npvtunnel_creator_server.Tokens.Loading.{insert-Filed, load-IsValid}
use npvtunnel_creator_server.Tokens.Runs.{
  Operation, consumes, adds, removes, reloads, step, run, persist-tokens, consume_cases, add_cases,
  remove_cases,
}

lookup-Filed :
    (k : Text) (v : RedemptionToken) (m : Tokens) → lookup k m ≡ some v → All Filed m → Filed (k, v)
unfolding lookup
lookup-Filed k v [] e a = absurd (cc e)
lookup-Filed k v ((j, w) ∷ m) e a = ground (arith, lookup-Filed k v m, str_eq_iff j k, a.1)

erase-Filed : (k : Text) (m : Tokens) → All Filed m → All Filed (erase k m)
unfolding erase
erase-Filed k [] a = a
erase-Filed k ((j, w) ∷ m) a = ground (arith, erase-Filed k m a.1)

charged-Filed : (k : Text) (v : RedemptionToken) → Filed (k, v) → Filed (k, charged v)
charged-Filed k v f = (f.0, unfold validate_redemption_token in f.1)

persist-IsValid :
    (w : WriteResult) (m : Tokens) (s : Store)
    → IsValid m
    → IsValid (persist w (with_tokens m s)).tokens
persist-IsValid w m s h = rw (persist-tokens w (with_tokens m s)) h

reload_file-IsValid :
    (stat_fails : Bool) (s : Store) (o : Option TokenFile)
    → IsValid s.tokens
    → IsValid (reload_file stat_fails s o).0.tokens
reload_file-IsValid stat_fails s none h = ground (arith, h)
reload_file-IsValid stat_fails s (some f) h = elim (Bool-cases stat_fails) [
  | inl fails ↦ rw fails h
  | inr found ↦ elim (Bool-cases (leb f.modified s.mtime)) [
    | inl old ↦ rw (found, old) h
    | inr newer ↦ rw (found, newer) (read (load_redemption_tokens_file (some f.contents)) refl)
  ]
]
  where
    read :
        (l : Loaded)
        → load_redemption_tokens_file (some f.contents) ≡ l
        → IsValid (swap_in f.modified s l).0.tokens
    read (loaded fresh) e = load-IsValid (some f.contents) fresh e
    read (not_loaded err) e = h

step-IsValid :
    (parse_time : Text → Option ℤ) (o : Operation) (s : Store)
    → IsValid s.tokens
    → IsValid (step parse_time o s).tokens
unfolding step
step-IsValid parse_time (consumes token now w) s h = elim (consume_cases parse_time token now w s) [
  | inl (same, _) ↦ rw same h
  | inr (entry, known, _, _, is, _) ↦ rw is (
      persist-IsValid w _ s (
        insert-Distinct token (charged entry) s.tokens h.0,
        insert-Filed token (charged entry) s.tokens
            (charged-Filed token entry (lookup-Filed token entry s.tokens known h.1)) h.1,
      ))
]
step-IsValid parse_time (adds entry w) s h = elim (add_cases entry w s) [
  | inl same ↦ rw same h
  | inr (valid, unknown, is) ↦ rw is (
      persist-IsValid w _ s (
        insert-Distinct entry.token entry s.tokens h.0,
        insert-Filed entry.token entry s.tokens (refl, valid) h.1,
      ))
]
step-IsValid parse_time (removes token w) s h = elim (remove_cases token w s) [
  | inl same ↦ rw same h
  | inr is ↦
      rw is
        (persist-IsValid w _ s (erase-Distinct token s.tokens h.0, erase-Filed token s.tokens h.1))
]
step-IsValid parse_time (reloads stat_fails) s h =
    unfold reload_redemption_tokens_if_changed in
    ground (arith, reload_file-IsValid stat_fails s s.file h)

-- Whatever operations are called and whatever the file holds, the registry stays valid: no token
-- twice, each record under its own token, and each record such as the validation lets through.
pub run-IsValid :
    (parse_time : Text → Option ℤ) (os : List Operation) (s : Store)
    → IsValid s.tokens
    → IsValid (run parse_time os s).tokens
unfolding run
run-IsValid parse_time [] s h = h
run-IsValid parse_time (o ∷ os) s h =
    run-IsValid parse_time os (step parse_time o s) (step-IsValid parse_time o s h)
