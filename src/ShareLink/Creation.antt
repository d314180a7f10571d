-- ===== src/ShareLink/Creation.antt =====
-- `newShareLink` of share_link.go over `AddRedemptionToken` of state.go.
use npvtunnel_creator_server.Base.{
  ◌≡◌, refl, sym, ap, ◌∙◌, Text, none, some, lookup, insert, lookup-insert, str_eq, if◌then◌else◌,
  Option-cases, Bool-cases, inl, inr,
}
use npvtunnel_creator_server.Base64.{encode_to_string}
use npvtunnel_creator_server.Challenge.{RandomRead}
use npvtunnel_creator_server.Tokens.{RedemptionToken, validate_redemption_token}
use npvtunnel_creator_server.Tokens.Store.{
  Store, WriteResult, AddResult, added, token_already_exists, persist_failed, invalid_token,
  with_tokens, add_redemption_token,
}
use npvtunnel_creator_server.Tokens.Runs.{persist-tokens}
use npvtunnel_creator_server.ShareLink.{
  ShareRequest, token_record, join_share_link, after_add, new_share_link,
}

add-added :
    (entry : RedemptionToken) (w : WriteResult) (s : Store)
    → (add_redemption_token entry w s).1 ≡ added
    → (lookup entry.token s.tokens ≡ none)
      × ((add_redemption_token entry w s).0.tokens ≡ insert entry.token entry s.tokens)
unfolding add_redemption_token
add-added entry w s e = elim (Option-cases (validate_redemption_token entry)) [
  | inl valid ↦ elim (Option-cases (lookup entry.token s.tokens)) [
    | inl unknown ↦ (
      unknown,
      rw (valid, unknown) (persist-tokens w (with_tokens (insert entry.token entry s.tokens) s)),
    )
    | inr (other, known) ↦ absurd (cc (rw (valid, known) at e))
  ]
  | inr (err, invalid) ↦ absurd (cc (rw invalid at e))
]

-- When a share link is made, its token was not in use, the registry now holds the record that the
-- creator asked for under it, the other tokens are as before, and the link carries the token.
pub new_share_link-registers :
    (random : RandomRead) (q : ShareRequest) (created_at : Text) (w : WriteResult) (s : Store)
    (token link : Text)
    → (new_share_link random q created_at w s).1 ≡ some (token, link)
    → let s' = (new_share_link random q created_at w s).0 in
      (lookup token s.tokens ≡ none)
      × ((k : Text)
          → lookup k s'.tokens ≡ (
              if str_eq token k then some (token_record q token created_at) else lookup k s.tokens))
      × (link ≡ join_share_link q.redemption_url token)
unfolding new_share_link
new_share_link-registers random q created_at w s token link e = elim (Bool-cases random.failed) [
  | inl fails ↦ absurd (cc (rw fails at e))
  | inr works ↦
      rw works
        (of_add (add_redemption_token (token_record q made created_at) w s) refl (rw works at e))
]
  where
    made : Text
    made = encode_to_string random.buffer

    of_add :
        (r : Store × AddResult)
        → add_redemption_token (token_record q made created_at) w s ≡ r
        → (after_add q made r).1 ≡ some (token, link)
        → let s' = (after_add q made r).0 in
          (lookup token s.tokens ≡ none)
          × ((k : Text)
              → lookup k s'.tokens ≡ (
                  if str_eq token k
                  then some (token_record q token created_at)
                  else lookup k s.tokens))
          × (link ≡ join_share_link q.redemption_url token)
    of_add (s', added) is h =
        let own : token ≡ made = cc h in
        let (unknown, put) = add-added (token_record q made created_at) w s (ap (λ r. r.1) is) in
        let put' = ap (λ (r : Store × AddResult). r.0.tokens) (sym is) ∙ put in
        rw own (
          unknown,
          λ k. ap (lookup k) put' ∙ lookup-insert made k (token_record q made created_at) s.tokens,
          cc h,
        )
    of_add (s', token_already_exists) is h = absurd (cc h)
    of_add (s', persist_failed) is h = absurd (cc h)
    of_add (s', invalid_token err) is h = absurd (cc h)
