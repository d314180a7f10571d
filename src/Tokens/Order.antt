-- ===== src/Tokens/Order.antt =====
-- `sortRedemptionTokens` of state.go.
use mathlib.Core.List.{Perm, perm_middle, append-nil}
use mathlib.Core.List.Perm
use npvtunnel_creator_server.Base.{
  ◌≡◌, sym, ◌⊎◌, true, false, List, str_eq, [], ◌∷◌, ◌++◌, str_eq_iff, arith, Bool-cases, inl, inr,
}
use npvtunnel_creator_server.Base.Order.{text_less_asymm, Precedes, text_less-not}
use npvtunnel_creator_server.Tokens.{
  RedemptionToken, redemption_token_less, sink, sort_onto, reverse_onto, sort_redemption_tokens,
}

less-asymm :
    (a b : RedemptionToken) → redemption_token_less a b ≡ true → redemption_token_less b a ≡ false
unfolding redemption_token_less
less-asymm a b e = ground (
  arith,
  str_eq_iff a.created_at b.created_at,
  str_eq_iff b.created_at a.created_at,
  text_less_asymm a.created_at b.created_at,
  text_less_asymm a.token b.token,
)

-- The record created earlier comes first, and of two created at one time that of the lower token.
abbrev pub InOrder : RedemptionToken → RedemptionToken → Type 0
InOrder x y =
    Precedes x.created_at y.created_at
    ⊎ ((x.created_at ≡ y.created_at) × ((x.token ≡ y.token) ⊎ Precedes x.token y.token))

abbrev Before : RedemptionToken → List RedemptionToken → Type 0
Before x [] = Unit
Before x (y ∷ l) = InOrder x y

-- Each record and the next are in order.
abbrev pub Ascending : List RedemptionToken → Type 0
Ascending [] = Unit
Ascending (x ∷ l) = Before x l × Ascending l

less-InOrder : (x y : RedemptionToken) → redemption_token_less y x ≡ false → InOrder x y
unfolding redemption_token_less
less-InOrder x y e = elim (Bool-cases (str_eq y.created_at x.created_at)) [
  | inl same ↦
      let together = sym ((str_eq_iff y.created_at x.created_at).0 same) in
      elim (text_less-not y.token x.token (rw same at e)) [
        | inl own ↦ inr (together, inl (sym own))
        | inr behind ↦ inr (together, inr behind)
      ]
  | inr other ↦ elim (text_less-not y.created_at x.created_at (rw other at e)) [
    | inl same ↦ absurd (ground (arith, str_eq_iff y.created_at x.created_at))
    | inr earlier ↦ inl earlier
  ]
]

abbrev NotBelow : RedemptionToken → List RedemptionToken → Type 0
NotBelow x [] = Unit
NotBelow x (y ∷ l) = redemption_token_less x y ≡ false

abbrev Descending : List RedemptionToken → Type 0
Descending [] = Unit
Descending (x ∷ l) = NotBelow x l × Descending l

sink-NotBelow :
    (y x : RedemptionToken) (l : List RedemptionToken)
    → redemption_token_less x y ≡ true
    → NotBelow y l
    → NotBelow y (sink x l)
unfolding sink
sink-NotBelow y x [] e h = less-asymm x y e
sink-NotBelow y x (z ∷ l) e h = ground (arith, less-asymm x y e)

sink-Descending :
    (x : RedemptionToken) (l : List RedemptionToken) → Descending l → Descending (sink x l)
unfolding sink
sink-Descending x [] h = (tt, tt)
sink-Descending x (y ∷ l) h = elim (Bool-cases (redemption_token_less x y)) [
  | inl below ↦ rw below (sink-NotBelow y x l below h.0, sink-Descending x l h.1)
  | inr above ↦ rw above (above, h)
]

sort_onto-Descending : (l xs : List RedemptionToken) → Descending l → Descending (sort_onto l xs)
unfolding sort_onto
sort_onto-Descending l [] h = h
sort_onto-Descending l (x ∷ xs) h = sort_onto-Descending (sink x l) xs (sink-Descending x l h)

abbrev Meet : List RedemptionToken → List RedemptionToken → Type 0
Meet [] acc = Unit
Meet (x ∷ l) acc = Before x acc

reverse_onto-Ascending :
    (acc l : List RedemptionToken)
    → Meet l acc
    → Descending l
    → Ascending acc
    → Ascending (reverse_onto acc l)
unfolding reverse_onto
reverse_onto-Ascending acc [] m d a = a
reverse_onto-Ascending acc (x ∷ []) m d a = (m, a)
reverse_onto-Ascending acc (x ∷ y ∷ l) m d a =
    reverse_onto-Ascending (x ∷ acc) (y ∷ l) (less-InOrder y x d.0) d.1 (m, a)

sink-Perm : (x : RedemptionToken) (l : List RedemptionToken) → Perm (sink x l) (x ∷ l)
unfolding sink
sink-Perm x [] = Perm.rfl
sink-Perm x (y ∷ l) = elim (Bool-cases (redemption_token_less x y)) [
  | inl below ↦ rw below (Perm.trans (Perm.cons y (sink-Perm x l)) (Perm.swap x y l))
  | inr above ↦ rw above Perm.rfl
]

sort_onto-Perm : (l xs : List RedemptionToken) → Perm (sort_onto l xs) (xs ++ l)
unfolding sort_onto
sort_onto-Perm l [] = Perm.rfl
sort_onto-Perm l (x ∷ xs) =
    Perm.trans (sort_onto-Perm (sink x l) xs)
      (Perm.trans (Perm.append_left xs (sink-Perm x l)) (perm_middle xs l))

reverse_onto-Perm : (acc xs : List RedemptionToken) → Perm (reverse_onto acc xs) (xs ++ acc)
unfolding reverse_onto
reverse_onto-Perm acc [] = Perm.rfl
reverse_onto-Perm acc (x ∷ xs) = Perm.trans (reverse_onto-Perm (x ∷ acc) xs) (perm_middle xs acc)

-- The sort loses and invents no record, and of each two neighbours of the result the first was created
-- earlier, or at the same time and its token does not come behind the other's, texts being compared
-- by their bytes.
pub sort-Ascending :
    (list : List RedemptionToken)
    → Perm (sort_redemption_tokens list) list × Ascending (sort_redemption_tokens list)
unfolding sort_redemption_tokens
sort-Ascending list = (
  Perm.trans (onto_nil (sort_onto [] list) (reverse_onto-Perm [] (sort_onto [] list)))
      (onto_nil list (sort_onto-Perm [] list)),
  reverse_onto-Ascending [] (sort_onto [] list) (start (sort_onto [] list))
      (sort_onto-Descending [] list tt) tt,
)
  where
    onto_nil : {l : List RedemptionToken} (r : List RedemptionToken) → Perm l (r ++ []) → Perm l r
    onto_nil r p = rw (append-nil r) at p

    start : (l : List RedemptionToken) → Meet l []
    start [] = tt
    start (x ∷ l) = tt
