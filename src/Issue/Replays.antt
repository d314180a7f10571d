-- ===== src/Issue/Replays.antt =====
-- `handleIssue` of server.go and the replay cache of attestation_challenge.go.
use npvtunnel_creator_server.Base.{
  ℕ, ◌+◌, ◌*◌, ◌≤◌, ◌<◌, ◌≡◌, ◌≢◌, ◌⊎◌, ◌∙◌, ap, inl, inr, refl, Bool, true, false, List, [], ◌∷◌,
  Option, none, some, Text, lt→ltb, pos, ltb_ℤ, lookup, arith, Bool-cases,
}
use npvtunnel_creator_server.Base64.{decode_string}
use npvtunnel_creator_server.Replay.{ReplayCache, use_key}
use npvtunnel_creator_server.Replay.Once.{use_key_keeps, use_key-stores}
use npvtunnel_creator_server.Configs.{ConfigEntry, config_by_id}
use npvtunnel_creator_server.Signing.{IssueRequest, IssueBody, read_error, parse_error, parsed}
use npvtunnel_creator_server.Issue.{
  IssueState, Around, issued, hour, check_request, replay_key, is_nonce, if_fresh, check_replay,
  check_binding, after_binding, on_entry, after_replay, after_check, with_replay, handle_body,
  handle_issue, reload,
}
use npvtunnel_creator_server.Issue.Grant.{
  IsFresh, handle_issue-Earned, after_replay-issued, if_fresh-none,
}

if_fresh-cache : (r : ReplayCache × Bool) → (if_fresh r).0 ≡ r.0
if_fresh-cache (cache, true) = refl
if_fresh-cache (cache, false) = refl

check_replay-cache :
    (now : ℕ) (req : IssueRequest) (cache : ReplayCache)
    → let kept = (check_replay now req cache).0 in
      (kept ≡ cache) ⊎ (kept ≡ (use_key (replay_key req) now (25 * hour) cache).0)
unfolding check_replay
check_replay-cache now req cache = elim (Bool-cases (ltb_ℤ (pos 1) req.v)) [
  | inl second ↦ elim (Bool-cases (is_nonce (decode_string req.request_nonce))) [
    | inl sixteen ↦
        rw (second, sixteen) (inr (if_fresh-cache (use_key (replay_key req) now (25 * hour) cache)))
    | inr other ↦ rw (second, other) (inl refl)
  ]
  | inr first ↦ rw first (inl refl)
]

module _ (a : Around) (req : IssueRequest) where
  after_binding-replay :
      (entry : ConfigEntry) (s : IssueState) (o : Option (ℕ × Text))
      → (after_binding a req entry s o).0.request_replay ≡ s.request_replay
  after_binding-replay entry s none = refl
  after_binding-replay entry s (some (status, code)) = refl

  on_entry-replay :
      (s : IssueState) (o : Option ConfigEntry)
      → (on_entry a req s o).0.request_replay ≡ s.request_replay
  on_entry-replay s none = refl
  on_entry-replay s (some entry) =
      after_binding-replay entry s
        (check_binding a.ops a.challenge_now req entry.attestation_policy s.attestation_challenges)

  after_replay-cache :
      (s : IssueState) (r : ReplayCache × Option (ℕ × Text))
      → (after_replay a req s r).0.request_replay ≡ r.0
  after_replay-cache s (cache, none) =
      on_entry-replay (with_replay cache s) (config_by_id req.config_id s.configs)
  after_replay-cache s (cache, some (status, code)) = refl

  after_check-cache :
      (s : IssueState) (o : Option (ℕ × Text))
      → let kept = (after_check a req s o).0.request_replay in
        (kept ≡ s.request_replay)
        ⊎ (kept ≡ (use_key (replay_key req) a.replay_now (25 * hour) s.request_replay).0)
  after_check-cache s (some (status, code)) = inl refl
  after_check-cache s none =
      rw (after_replay-cache s (check_replay a.replay_now req s.request_replay))
        (check_replay-cache a.replay_now req s.request_replay)

-- An entry of the replay cache that has not expired survives any request.
handle_issue_keeps :
    (key : Text) (expires : ℕ) (a : Around) (body : IssueBody) (s : IssueState)
    → lookup key s.request_replay.entries ≡ some expires
    → a.replay_now < expires
    → lookup key (handle_issue a body s).0.request_replay.entries ≡ some expires
unfolding handle_issue handle_body
handle_issue_keeps key expires a read_error s e h = e
handle_issue_keeps key expires a parse_error s e h = e
handle_issue_keeps key expires a (parsed req) s e h =
    elim (after_check-cache a req (reload a s) (check_request a.crypto req)) [
      | inl same ↦ rw same e
      | inr used ↦ rw used (
          use_key_keeps key expires
            (record { key = replay_key req; now = a.replay_now; ttl = 25 * hour }) s.request_replay
            e h)
    ]

-- Requests in the order of their clock readings.
unfoldable pub run : List (Around × IssueBody) → IssueState → IssueState
run [] s = s
run ((a, body) ∷ rest) s = run rest (handle_issue a body s).0

abbrev pub InOrder : ℕ → ℕ → List (Around × IssueBody) → Type 0
InOrder lo hi [] = lo ≤ hi
InOrder lo hi ((a, body) ∷ rest) = (lo ≤ a.replay_now) × InOrder a.replay_now hi rest

InOrder-le : (lo hi : ℕ) (rs : List (Around × IssueBody)) → InOrder lo hi rs → lo ≤ hi
InOrder-le lo hi [] o = o
InOrder-le lo hi ((a, body) ∷ rest) o = omega (arith, InOrder-le a.replay_now hi rest o.1)

run_keeps :
    (key : Text) (expires lo hi : ℕ) (rs : List (Around × IssueBody)) (s : IssueState)
    → lookup key s.request_replay.entries ≡ some expires
    → InOrder lo hi rs
    → hi < expires
    → lookup key (run rs s).request_replay.entries ≡ some expires
unfolding run
run_keeps key expires lo hi [] s e o h = e
run_keeps key expires lo hi ((a, body) ∷ rest) s e o h =
    run_keeps key expires a.replay_now hi rest _
      (handle_issue_keeps key expires a body s e
        (omega (arith, InOrder-le a.replay_now hi rest o.1)))
      o.1 h

live_refused :
    (key : Text) (now ttl expires : ℕ) (cache : ReplayCache)
    → lookup key cache.entries ≡ some expires
    → now < expires
    → (use_key key now ttl cache).1 ≡ false
unfolding use_key
live_refused key now ttl expires cache e h = rw (e, lt→ltb now expires h) refl

check_replay-uses :
    (now : ℕ) (req : IssueRequest) (cache : ReplayCache)
    → req.v ≡ pos 2
    → (check_replay now req cache).1 ≡ none
    → let used = use_key (replay_key req) now (25 * hour) cache in
      (used.1 ≡ true) × ((check_replay now req cache).0 ≡ used.0)
unfolding check_replay
check_replay-uses now req cache two h =
    elim (Bool-cases (is_nonce (decode_string req.request_nonce))) [
      | inl sixteen ↦ (
        if_fresh-none (use_key (replay_key req) now (25 * hour) cache) (rw (two, sixteen) at h),
        rw (two, sixteen) (if_fresh-cache (use_key (replay_key req) now (25 * hour) cache)),
      )
      | inr other ↦ absurd (cc (rw (two, other) at h))
    ]

after_check-stores :
    (a : Around) (req : IssueRequest) (s : IssueState) (o : Option (ℕ × Text)) (c e r : Text)
    → req.v ≡ pos 2
    → (after_check a req s o).1 ≡ issued c e r
    → lookup (replay_key req) (after_check a req s o).0.request_replay.entries
      ≡ some (a.replay_now + 25 * hour)
after_check-stores a req s (some (status, code)) c e r two h = absurd (cc h)
after_check-stores a req s none c e r two h =
    let tried = check_replay a.replay_now req s.request_replay in
    let (unrefused, _) = after_replay-issued a req c e r s tried h in
    let (used, kept) = check_replay-uses a.replay_now req s.request_replay two unrefused in
    ap (λ (cache : ReplayCache). lookup (replay_key req) cache.entries)
      (after_replay-cache a req s tried ∙ kept)
    ∙ use_key-stores (replay_key req) a.replay_now (25 * hour) s.request_replay used

handle_issue-stores :
    (a : Around) (req : IssueRequest) (s : IssueState) (c e r : Text)
    → req.v ≡ pos 2
    → (handle_issue a (parsed req) s).1 ≡ issued c e r
    → lookup (replay_key req) (handle_issue a (parsed req) s).0.request_replay.entries
      ≡ some (a.replay_now + 25 * hour)
unfolding handle_issue handle_body
handle_issue-stores a req s c e r two h =
    after_check-stores a req (reload a s) (check_request a.crypto req) c e r two h

stale :
    (now : ℕ) (req : IssueRequest) (cache : ReplayCache) (expires : ℕ)
    → req.v ≡ pos 2
    → lookup (replay_key req) cache.entries ≡ some expires
    → now < expires
    → IsFresh now req cache
    → ⊥
stale now req cache expires two e h (inl one) = cc (two, one)
stale now req cache expires two e h (inr (nonce, is, len, used)) =
    cc (used, live_refused (replay_key req) now (25 * hour) expires cache e h)

-- A request of version 2 is granted once: after it was, no request of version 2 with the same key,
-- config and nonce is granted for 25 hours, whatever requests come between, as long as the clock
-- that the replay check reads does not run backwards.
pub handle_issue_once :
    (a : Around) (req : IssueRequest) (s : IssueState) (c e r : Text)
    (between : List (Around × IssueBody)) (later : Around) (again : IssueRequest) (c' e' r' : Text)
    → req.v ≡ pos 2
    → (handle_issue a (parsed req) s).1 ≡ issued c e r
    → InOrder a.replay_now later.replay_now between
    → later.replay_now < a.replay_now + 25 * hour
    → again.v ≡ pos 2
    → replay_key again ≡ replay_key req
    → (handle_issue later (parsed again) (run between (handle_issue a (parsed req) s).0)).1
      ≢ issued c' e' r'
handle_issue_once a req s c e r between later again c' e' r' two h order soon two' same granted =
    let rest : IssueState = run between (handle_issue a (parsed req) s).0 in
    let (known, is, earned) = handle_issue-Earned later (parsed again) rest c' e' r' granted in
    let here =
      run_keeps (replay_key req) (a.replay_now + 25 * hour) a.replay_now later.replay_now between
        (handle_issue a (parsed req) s).0 (handle_issue-stores a req s c e r two h) order soon in
    let own : known ≡ again = cc is in
    stale later.replay_now again rest.request_replay (a.replay_now + 25 * hour) two'
      (ap (λ k. lookup k rest.request_replay.entries) same ∙ here) soon (rw own at earned.fresh)
