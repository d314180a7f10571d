-- ===== src/Issue/Unsigned.antt =====
-- `handleIssue` of server.go on a request that no device key has signed.
use npvtunnel_creator_server.Base.{
  ℕ, ◌≡◌, ◌≢◌, ◌≤◌, refl, Bool, true, false, not, ◌&&◌, ◌||◌, [], Option, none, some, Text, text,
  str_eq, arith, Bool-cases, inl, inr,
}
use npvtunnel_creator_server.Signing.{
  Crypto, IssueRequest, IssueBody, read_error, parse_error, parsed, verify_issue_request_signature,
}
use npvtunnel_creator_server.Issue.{
  IssueState, Around, issue_error, check_request, of_signature, is_int, handle_body, handle_issue,
  reload,
}

of_signature-some :
    (o : Option Bool)
    → o ≢ some true
    → (status : ℕ) × (code : Text) × (of_signature o ≡ some (status, code))
      × (400 ≤ status)
      × (status ≤ 401)
of_signature-some none h = (400, text "bad_signature", refl, omega arith, omega arith)
of_signature-some (some false) h = (401, text "bad_signature", refl, omega arith, omega arith)
of_signature-some (some true) h = absurd (h refl)

abbrev is_missing : IssueRequest → Bool
is_missing req =
    str_eq req.device_pk []
    || str_eq req.request_nonce []
    || str_eq req.request_signature []
    || str_eq req.config_id []

check_request-some :
    (c : Crypto) (req : IssueRequest)
    → verify_issue_request_signature c req ≢ some true
    → (status : ℕ) × (code : Text) × (check_request c req ≡ some (status, code))
      × (400 ≤ status)
      × (status ≤ 401)
unfolding check_request
check_request-some c req h = elim (Bool-cases (not (is_int 1 req.v) && not (is_int 2 req.v))) [
  | inl other ↦ rw other (400, text "unsupported_version", refl, omega arith, omega arith)
  | inr spoken ↦ elim (Bool-cases (is_missing req)) [
    | inl bare ↦ rw (spoken, bare) (400, text "bad_request", refl, omega arith, omega arith)
    | inr full ↦ rw (spoken, full) (of_signature-some (verify_issue_request_signature c req) h)
  ]
]

-- A body whose signature does not verify, or that is no request, is refused with the status 400 or
-- 401, and changes nothing: no nonce is used up and no rate limit counts it. A changed config file
-- is loaded all the same.
pub handle_issue-unsigned :
    (a : Around) (body : IssueBody) (s : IssueState)
    → ((req : IssueRequest)
        → body ≡ parsed req
        → verify_issue_request_signature a.crypto req ≢ some true)
    → (status : ℕ) × (code : Text) × (handle_issue a body s ≡ (reload a s, issue_error status code))
      × (400 ≤ status)
      × (status ≤ 401)
unfolding handle_issue handle_body
handle_issue-unsigned a read_error s h = (400, text "bad_request", refl, omega arith, omega arith)
handle_issue-unsigned a parse_error s h = (400, text "bad_request", refl, omega arith, omega arith)
handle_issue-unsigned a (parsed req) s h =
    let (status, code, is, lo, hi) = check_request-some a.crypto req (h req refl) in
    (status, code, rw is refl, lo, hi)
