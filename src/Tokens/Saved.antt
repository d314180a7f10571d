-- ===== src/Tokens/Saved.antt =====
-- `persistRedemptionTokens` of state.go: the records of a token in the list that is saved.
use npvtunnel_creator_server.Base.{
  ◌≡◌, refl, sym, ap, ◌∙◌, Text, false, List, [], ◌∷◌, Option, none, some, if◌then◌else◌, str_eq,
  str_eq_iff, lookup, Distinct, arith, All,
}
use npvtunnel_creator_server.Tokens.{
  RedemptionToken, Tokens, values, sink, sort_onto, reverse_onto, sort_redemption_tokens,
  validate_redemption_token,
}

-- The record of a token in a list.
unfoldable pub find : Text → List RedemptionToken → Option RedemptionToken
find k [] = none
find k (x ∷ xs) = if str_eq x.token k then some x else find k xs

abbrev pub Unique : List RedemptionToken → Type 0
Unique [] = Unit
Unique (x ∷ xs) = (find x.token xs ≡ none) × Unique xs

-- No token of the second list is in the first.
abbrev Apart : List RedemptionToken → List RedemptionToken → Type 0
Apart acc xs = All (λ (x : RedemptionToken). find x.token acc ≡ none) xs

abbrev pub or_else : Option RedemptionToken → Option RedemptionToken → Option RedemptionToken
or_else none b = b
or_else (some x) b = some x

find-sink :
    (k : Text) (x : RedemptionToken) (l : List RedemptionToken)
    → find x.token l ≡ none
    → find k (sink x l) ≡ (if str_eq x.token k then some x else find k l)
unfolding sink find
find-sink k x [] e = refl
find-sink k x (y ∷ l) e =
    ground (
      arith,
      find-sink k x l,
      str_eq_iff x.token k,
      str_eq_iff y.token k,
      str_eq_iff y.token x.token,
    )

pub find-cons_none :
    (k : Text) (y : RedemptionToken) (l : List RedemptionToken)
    → find k (y ∷ l) ≡ none
    → (str_eq y.token k ≡ false) × (find k l ≡ none)
unfolding find
find-cons_none k y l e = ground arith

-- Both loops put one element after the other into a list, at its end or where it sorts.
module _ (put : RedemptionToken → List RedemptionToken → List RedemptionToken)
    (find-put : (k : Text) (x : RedemptionToken) (l : List RedemptionToken)
      → find x.token l ≡ none
      → find k (put x l) ≡ (if str_eq x.token k then some x else find k l)) where
  abbrev put_all : List RedemptionToken → List RedemptionToken → List RedemptionToken
  put_all l [] = l
  put_all l (x ∷ xs) = put_all (put x l) xs

  put-Apart :
      (x : RedemptionToken) (l xs : List RedemptionToken)
      → find x.token l ≡ none
      → find x.token xs ≡ none
      → Apart l xs
      → Apart (put x l) xs
  put-Apart x l [] e f a = tt
  put-Apart x l (y ∷ xs) e f a =
      let (other, rest) = find-cons_none x.token y xs f in
      (
        ground
            (arith, find-put y.token x l e, str_eq_iff x.token y.token, str_eq_iff y.token x.token),
        put-Apart x l xs e rest a.1,
      )

  find-put_all :
      (k : Text) (l xs : List RedemptionToken)
      → Apart l xs
      → Unique xs
      → find k (put_all l xs) ≡ or_else (find k xs) (find k l)
  unfolding find
  find-put_all k l [] a u = refl
  find-put_all k l (x ∷ xs) a u =
      let rest = find-put_all k (put x l) xs (put-Apart x l xs a.0 u.0 a.1) u.1 in
      ground (arith, rest, find-put k x l a.0, u.0, str_eq_iff x.token k)

  module _
      (put-Unique : (x : RedemptionToken) (l : List RedemptionToken)
        → find x.token l ≡ none
        → Unique l
        → Unique (put x l)) where
    put_all-Unique :
        (l xs : List RedemptionToken) → Apart l xs → Unique xs → Unique l → Unique (put_all l xs)
    put_all-Unique l [] a u v = v
    put_all-Unique l (x ∷ xs) a u v =
        put_all-Unique (put x l) xs (put-Apart x l xs a.0 u.0 a.1) u.1 (put-Unique x l a.0 v)

sink-Unique :
    (x : RedemptionToken) (l : List RedemptionToken)
    → find x.token l ≡ none
    → Unique l
    → Unique (sink x l)
unfolding sink
sink-Unique x [] e u = (unfold find in refl, tt)
sink-Unique x (y ∷ l) e u =
    let (other, rest) = find-cons_none x.token y l e in
    ground (
      arith,
      find-sink y.token x l rest,
      sink-Unique x l rest u.1,
      str_eq_iff x.token y.token,
      str_eq_iff y.token x.token,
      e,
    )

sort_onto-put_all : (l xs : List RedemptionToken) → sort_onto l xs ≡ put_all sink find-sink l xs
unfolding sort_onto
sort_onto-put_all l [] = refl
sort_onto-put_all l (x ∷ xs) = sort_onto-put_all (sink x l) xs

abbrev cons : RedemptionToken → List RedemptionToken → List RedemptionToken
cons x l = x ∷ l

find-cons :
    (k : Text) (x : RedemptionToken) (l : List RedemptionToken)
    → find x.token l ≡ none
    → find k (cons x l) ≡ (if str_eq x.token k then some x else find k l)
unfolding find
find-cons k x l e = refl

reverse_onto-put_all :
    (l xs : List RedemptionToken) → reverse_onto l xs ≡ put_all cons find-cons l xs
unfolding reverse_onto
reverse_onto-put_all l [] = refl
reverse_onto-put_all l (x ∷ xs) = reverse_onto-put_all (x ∷ l) xs

Apart-nil : (xs : List RedemptionToken) → Apart [] xs
Apart-nil [] = tt
Apart-nil (x ∷ xs) = (unfold find in refl, Apart-nil xs)

pub or_else-none : (o : Option RedemptionToken) → or_else o none ≡ o
or_else-none none = refl
or_else-none (some x) = refl

pub sort-Unique : (xs : List RedemptionToken) → Unique xs → Unique (sort_redemption_tokens xs)
unfolding sort_redemption_tokens
sort-Unique xs u = rw (sort_onto-put_all [] xs) (
    rw (reverse_onto-put_all [] (put_all sink find-sink [] xs)) (
      put_all-Unique cons find-cons (λ x l e v. (e, v)) [] _ (Apart-nil _)
        (put_all-Unique sink find-sink sink-Unique [] xs (Apart-nil xs) u tt) tt))

pub find-sort :
    (k : Text) (xs : List RedemptionToken)
    → Unique xs
    → find k (sort_redemption_tokens xs) ≡ find k xs
unfolding sort_redemption_tokens find
find-sort k xs u = rw (sort_onto-put_all [] xs) (
    rw (reverse_onto-put_all [] (put_all sink find-sink [] xs)) (
      find-put_all cons find-cons k [] _ (Apart-nil _)
        (put_all-Unique sink find-sink sink-Unique [] xs (Apart-nil xs) u tt)
      ∙ or_else-none _
      ∙ find-put_all sink find-sink k [] xs (Apart-nil xs) u
      ∙ or_else-none _))

-- Every record is filed under its token and passes the validation.
abbrev pub Filed : Text × RedemptionToken → Type 0
Filed (k, v) = (k ≡ v.token) × (validate_redemption_token v ≡ none)

-- A map as the server keeps it.
abbrev pub IsValid : Tokens → Type 0
IsValid m = Distinct m × All Filed m

abbrev pub Valid : RedemptionToken → Type 0
Valid v = validate_redemption_token v ≡ none

pub find-values : (k : Text) (m : Tokens) → All Filed m → find k (values m) ≡ lookup k m
unfolding find lookup
find-values k [] a = refl
find-values k ((j, v) ∷ m) a = ground (arith, find-values k m a.1)

pub values-Unique : (m : Tokens) → IsValid m → Unique (values m)
values-Unique [] h = tt
values-Unique ((j, v) ∷ m) ((d, ds), (f, fs)) =
    (find-values v.token m fs ∙ ap (λ k. lookup k m) (sym f.0) ∙ d, values-Unique m (ds, fs))

pub values-Valid : (m : Tokens) → All Filed m → All Valid (values m)
values-Valid [] a = tt
values-Valid ((j, v) ∷ m) (f, fs) = (f.1, values-Valid m fs)

-- What holds of each record holds of each that is sorted.
module _ (P : RedemptionToken → Type 0) where
  sink-All : (x : RedemptionToken) (l : List RedemptionToken) → P x → All P l → All P (sink x l)
  unfolding sink
  sink-All x [] h a = (h, tt)
  sink-All x (y ∷ l) h a = ground (arith, sink-All x l h a.1)

  sort_onto-All : (l xs : List RedemptionToken) → All P l → All P xs → All P (sort_onto l xs)
  unfolding sort_onto
  sort_onto-All l [] a b = a
  sort_onto-All l (x ∷ xs) a b = sort_onto-All (sink x l) xs (sink-All x l b.0 a) b.1

  reverse_onto-All : (l xs : List RedemptionToken) → All P l → All P xs → All P (reverse_onto l xs)
  unfolding reverse_onto
  reverse_onto-All l [] a b = a
  reverse_onto-All l (x ∷ xs) a b = reverse_onto-All (x ∷ l) xs (b.0, a) b.1

  pub sort-All : (xs : List RedemptionToken) → All P xs → All P (sort_redemption_tokens xs)
  unfolding sort_redemption_tokens
  sort-All xs a = reverse_onto-All [] (sort_onto [] xs) tt (sort_onto-All [] xs tt a)
