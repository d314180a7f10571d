-- ===== src/Tokens/Spent.antt =====
-- The token operations of state.go over a history of calls.
use npvtunnel_creator_server.Base.{
  ℕ, suc, zero, ◌+◌, ◌≤◌, ◌≡◌, ◌≢◌, ◌⊎◌, inl, inr, refl, ap, Text, Bool, true, false, List, [], ◌∷◌,
  Option, none, some, if◌then◌else◌, str_eq, str_eq_iff, is_pos, pos_part, lookup, insert, erase, ℤ,
  pos, negsuc, arith, lookup-insert, lookup-erase, Bool-cases,
}
use npvtunnel_creator_server.Tokens.{RedemptionToken}
use npvtunnel_creator_server.Tokens.Store.{
  TokenFile, Store, WriteResult, write_failed, written, written_unseen, ConsumeResult, consumed,
  persist, persist_redemption_tokens, with_tokens, reload_file, less_one, charged,
  consume_redemption_token, reload_redemption_tokens_if_changed,
}
use npvtunnel_creator_server.Tokens.Runs.{
  Operation, consumes, adds, removes, reloads, step, run, persist-tokens, consume_cases, add_cases,
  remove_cases,
}

abbrev one_if_consumed : ConsumeResult → ℕ
one_if_consumed consumed = 1
one_if_consumed _ = 0

abbrev spends : (Text → Option ℤ) → Text → Operation → Store → ℕ
spends parse_time t (consumes token now w) s =
    if str_eq token t
    then one_if_consumed (consume_redemption_token parse_time token now w s).1
    else 0
spends parse_time t o s = 0

-- How many of the operations redeem the token.
unfoldable pub spent : (Text → Option ℤ) → Text → List Operation → Store → ℕ
spent parse_time t [] s = 0
spent parse_time t (o ∷ os) s =
    spends parse_time t o s + spent parse_time t os (step parse_time o s)

abbrev Seen : WriteResult → Type 0
Seen write_failed = Unit
Seen (written modified) = Unit
Seen (written_unseen modified) = ⊥

-- The token is not removed, and after each write of the file its modification time is read.
abbrev pub Leaves : Text → Operation → Type 0
Leaves t (consumes token now w) = Seen w
Leaves t (adds entry w) = Seen w
Leaves t (removes token w) = (token ≢ t) × Seen w
Leaves t (reloads stat_fails) = Unit

abbrev pub AllLeave : Text → List Operation → Type 0
AllLeave t [] = Unit
AllLeave t (o ∷ os) = Leaves t o × AllLeave t os

abbrev NotNewer : ℕ → Option TokenFile → Type 0
NotNewer mtime none = ⊥
NotNewer mtime (some f) = f.modified ≤ mtime

-- The file, if the store has one, is there and was not changed since it was last read or written.
abbrev pub InSync : Store → Type 0
InSync s = (s.has_path ≡ false) ⊎ NotNewer s.mtime s.file

abbrev Left : Text → Store → ℕ → Type 0
Left t s n =
    (e : RedemptionToken) × (lookup t s.tokens ≡ some e) × (e.remaining_redemptions ≡ pos n)

persist-InSync : (w : WriteResult) (s : Store) → Seen w → InSync s → InSync (persist w s)
unfolding persist_redemption_tokens
persist-InSync write_failed s seen i = ground arith
persist-InSync (written m) s seen i = ground arith
persist-InSync (written_unseen m) s seen i = absurd seen

reload_file-NotNewer :
    (stat_fails : Bool) (s : Store) (o : Option TokenFile)
    → NotNewer s.mtime o
    → (reload_file stat_fails s o).0 ≡ s
reload_file-NotNewer stat_fails s none h = absurd h
reload_file-NotNewer stat_fails s (some f) h = ground arith

reload-InSync :
    (stat_fails : Bool) (s : Store)
    → InSync s
    → (reload_redemption_tokens_if_changed stat_fails s).0 ≡ s
unfolding reload_redemption_tokens_if_changed
reload-InSync stat_fails s (inl no_path) = rw no_path refl
reload-InSync stat_fails s (inr current) =
    ground (arith, reload_file-NotNewer stat_fails s s.file current)

less_one-pos :
    (r : ℤ) (n : ℕ) → is_pos r ≡ true → r ≡ pos n → (m : ℕ) × (less_one r ≡ pos m) × (suc m ≡ n)
less_one-pos (pos zero) n p e = absurd (ground arith)
less_one-pos (pos (suc k)) n p e = (k, refl, ap pos_part e)
less_one-pos (negsuc k) n p e = absurd (ground arith)

module _ (parse_time : Text → Option ℤ) (t : Text) where
  step-InSync : (o : Operation) (s : Store) → Leaves t o → InSync s → InSync (step parse_time o s)
  unfolding step
  step-InSync (consumes token now w) s l i = elim (consume_cases parse_time token now w s) [
    | inl (same, _) ↦ rw same i
    | inr (entry, known, p, q, is, r) ↦ rw is (persist-InSync w (with_tokens _ s) l i)
  ]
  step-InSync (adds entry w) s l i = elim (add_cases entry w s) [
    | inl same ↦ rw same i
    | inr (_, _, is) ↦ rw is (persist-InSync w (with_tokens _ s) l i)
  ]
  step-InSync (removes token w) s l i = elim (remove_cases token w s) [
    | inl same ↦ rw same i
    | inr is ↦ rw is (persist-InSync w (with_tokens _ s) l.1 i)
  ]
  step-InSync (reloads stat_fails) s l i = rw (reload-InSync stat_fails s i) i

  -- One operation takes from what is left of the token what it redeems.
  step-Left :
      (o : Operation) (s : Store) (n : ℕ)
      → Leaves t o
      → InSync s
      → Left t s n
      → (m : ℕ) × Left t (step parse_time o s) m × (spends parse_time t o s + m ≡ n)
  unfolding step
  step-Left (consumes token now w) s n l i (e, has, is) =
      elim (consume_cases parse_time token now w s) [
        | inl (same, refused) ↦ (n, rw same (e, has, is), ground (arith, refused))
        | inr (entry, known, p, q, is', r) ↦ elim (Bool-cases (str_eq token t)) [
          | inl own ↦
              let same : entry ≡ e = ground (arith, str_eq_iff token t) in
              let (m, after_it, one) = less_one-pos e.remaining_redemptions n (rw same at p) is in
              (
                m,
                rw is' (
                  charged e,
                  rw (persist-tokens w (with_tokens (insert token (charged entry) s.tokens) s))
                      (ground (arith, lookup-insert token t (charged entry) s.tokens)),
                  after_it,
                ),
                rw (own, r) (omega (arith, one)),
              )
          | inr other ↦ (
            n,
            rw is' (
              e,
              rw (persist-tokens w (with_tokens (insert token (charged entry) s.tokens) s))
                  (ground (arith, lookup-insert token t (charged entry) s.tokens)),
              is,
            ),
            rw other (omega arith),
          )
        ]
      ]
  step-Left (adds entry w) s n l i (e, has, is) = elim (add_cases entry w s) [
    | inl same ↦ (n, rw same (e, has, is), omega arith)
    | inr (_, unknown, is') ↦ (
      n,
      rw is' (
        e,
        rw (persist-tokens w (with_tokens (insert entry.token entry s.tokens) s))
            (ground (arith, lookup-insert entry.token t entry s.tokens, str_eq_iff entry.token t)),
        is,
      ),
      omega arith,
    )
  ]
  step-Left (removes token w) s n l i (e, has, is) = elim (remove_cases token w s) [
    | inl same ↦ (n, rw same (e, has, is), omega arith)
    | inr is' ↦ (
      n,
      rw is' (
        e,
        rw (persist-tokens w (with_tokens (erase token s.tokens) s))
            (ground (arith, lookup-erase token t s.tokens, str_eq_iff token t)),
        is,
      ),
      omega arith,
    )
  ]
  step-Left (reloads stat_fails) s n l i h = (n, rw (reload-InSync stat_fails s i) h, omega arith)

  run-Left :
      (os : List Operation) (s : Store) (n : ℕ)
      → AllLeave t os
      → InSync s
      → Left t s n
      → (m : ℕ) × Left t (run parse_time os s) m × (spent parse_time t os s + m ≡ n)
  unfolding run spent
  run-Left [] s n l i h = (n, h, omega arith)
  run-Left (o ∷ os) s n l i h =
      let (m, h', e) = step-Left o s n l.0 i h in
      let (k, h'', e') = run-Left os _ m l.1 (step-InSync o s l.0 i) h' in
      (k, h'', omega (arith, e, e'))

-- A token with n redemptions left is redeemed at most n times, and n is what was redeemed plus what
-- is left, whatever is done in between to this token and to others and whichever of the writes
-- fail, until someone removes the token or changes the file; the modification time of each file
-- written is read back.
pub spent-remaining :
    (parse_time : Text → Option ℤ) (t : Text) (os : List Operation) (s : Store)
    (e : RedemptionToken) (n : ℕ)
    → lookup t s.tokens ≡ some e
    → e.remaining_redemptions ≡ pos n
    → InSync s
    → AllLeave t os
    → (e' : RedemptionToken) × (m : ℕ) × (lookup t (run parse_time os s).tokens ≡ some e')
      × (e'.remaining_redemptions ≡ pos m)
      × (spent parse_time t os s + m ≡ n)
spent-remaining parse_time t os s e n has is i l =
    let (m, (e', has', is'), sum) = run-Left parse_time t os s n l i (e, has, is) in
    (e', m, has', is', sum)
