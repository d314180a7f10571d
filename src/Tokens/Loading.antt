-- ===== src/Tokens/Loading.antt =====
-- `loadRedemptionTokensFile` of state.go.
use npvtunnel_creator_server.Base.{
  ℕ, suc, ◌≡◌, refl, ◌∙◌, Text, List, [], ◌∷◌, map, Option, none, some, str_eq_iff, lookup, insert,
  lookup-insert, arith, All, insert-Distinct, Option-cases, inl, inr,
}
use npvtunnel_creator_server.Base.Utf8.{json_text, IsUtf8, json_text-utf8}
use npvtunnel_creator_server.Tokens.{
  as_json, sort_redemption_tokens, RedemptionToken, Tokens, values, saved, loaded, load_entries,
  load_redemption_tokens_file, json_list, unreadable, not_json, Contents, validate_redemption_token,
}
use npvtunnel_creator_server.Tokens.Saved.{
  find, Unique, or_else, Filed, IsValid, Valid, or_else-none, sort-Unique, find-sort, find-values,
  values-Unique, values-Valid, sort-All, find-cons_none,
}

pub insert-Filed :
    (k : Text) (v : RedemptionToken) (m : Tokens)
    → Filed (k, v)
    → All Filed m
    → All Filed (insert k v m)
unfolding insert
insert-Filed k v [] f a = (f, tt)
insert-Filed k v ((j, w) ∷ m) f a = ground (arith, insert-Filed k v m f a.1)

-- No token of the list is in the map.
abbrev Fresh : Tokens → List RedemptionToken → Type 0
Fresh out xs = All (λ (x : RedemptionToken). lookup x.token out ≡ none) xs

insert-Fresh :
    (x : RedemptionToken) (out : Tokens) (xs : List RedemptionToken)
    → find x.token xs ≡ none
    → Fresh out xs
    → Fresh (insert x.token x out) xs
insert-Fresh x out [] f a = tt
insert-Fresh x out (y ∷ xs) f a =
    let (other, rest) = find-cons_none x.token y xs f in
    (
      ground (
        arith,
        lookup-insert x.token y.token x out,
        str_eq_iff x.token y.token,
        str_eq_iff y.token x.token,
      ),
      insert-Fresh x out xs rest a.1,
    )

load_entries-loaded :
    (i : ℕ) (xs : List RedemptionToken) (out : Tokens)
    → Unique xs
    → All Valid xs
    → Fresh out xs
    → (m : Tokens) × (load_entries i xs out ≡ loaded m)
      × ((k : Text) → lookup k m ≡ or_else (find k xs) (lookup k out))
unfolding load_entries find
load_entries-loaded i [] out u a f = (out, refl, λ k. refl)
load_entries-loaded i (x ∷ xs) out u a f =
    let (m, is, finds) =
      load_entries-loaded (suc i) xs (insert x.token x out) u.1 a.1
        (insert-Fresh x out xs u.0 f.1) in
    (
      m,
      rw (a.0, f.0) is,
      λ k. ground (arith, finds k, lookup-insert x.token k x out, u.0, str_eq_iff x.token k),
    )

-- Every text of the record is UTF-8.
abbrev pub Utf8Record : RedemptionToken → Type 0
Utf8Record entry =
    IsUtf8 entry.token
    × All IsUtf8 entry.config_ids
    × IsUtf8 entry.expires_at
    × IsUtf8 entry.created_at
    × IsUtf8 entry.label

map-json_text : (ts : List Text) → All IsUtf8 ts → map json_text ts ≡ ts
map-json_text [] a = refl
map-json_text (t ∷ ts) (h, a) = rw (json_text-utf8 t h, map-json_text ts a) refl

as_json-utf8 : (entry : RedemptionToken) → Utf8Record entry → as_json entry ≡ entry
as_json-utf8 entry (token, ids, expires, created, label) =
    rw
      (
        json_text-utf8 entry.token token,
        map-json_text entry.config_ids ids,
        json_text-utf8 entry.expires_at expires,
        json_text-utf8 entry.created_at created,
        json_text-utf8 entry.label label,
      )
      refl

map-as_json : (xs : List RedemptionToken) → All Utf8Record xs → map as_json xs ≡ xs
map-as_json [] a = refl
map-as_json (x ∷ xs) (h, a) = rw (as_json-utf8 x h, map-as_json xs a) refl

-- What the server saves it loads again, where every text is UTF-8: a file written for a valid map
-- loads without an error, as a map with the same record for every token.
pub load-saved :
    (tokens : Tokens)
    → IsValid tokens
    → All Utf8Record (values tokens)
    → (m : Tokens) × (load_redemption_tokens_file (some (json_list (saved tokens))) ≡ loaded m)
      × ((k : Text) → lookup k m ≡ lookup k tokens)
unfolding load_redemption_tokens_file
load-saved tokens h utf8 =
    let listed = values-Unique tokens h in
    let sorted = sort_redemption_tokens (values tokens) in
    let (m, is, finds) =
      load_entries-loaded 0 sorted [] (sort-Unique (values tokens) listed)
        (sort-All Valid (values tokens) (values-Valid tokens h.1)) (Fresh-nil sorted) in
    (
      m,
      rw (map-as_json sorted (sort-All Utf8Record (values tokens) utf8)) is,
      λ k. finds k ∙ back k listed,
    )
  where
    Fresh-nil : (xs : List RedemptionToken) → Fresh [] xs
    Fresh-nil [] = tt
    Fresh-nil (x ∷ xs) = (unfold lookup in refl, Fresh-nil xs)

    back :
        (k : Text)
        → Unique (values tokens)
        → or_else (find k (sort_redemption_tokens (values tokens))) (lookup k []) ≡ lookup k tokens
    back k listed =
        unfold lookup in
        (or_else-none _ ∙ find-sort k (values tokens) listed ∙ find-values k tokens h.1)

load_entries-IsValid :
    (i : ℕ) (xs : List RedemptionToken) (out m : Tokens)
    → load_entries i xs out ≡ loaded m
    → IsValid out
    → IsValid m
unfolding load_entries
load_entries-IsValid i [] out m e h = let same : m ≡ out = cc e in rw same h
load_entries-IsValid i (x ∷ xs) out m e h = elim (Option-cases (validate_redemption_token x)) [
  | inl valid ↦ elim (Option-cases (lookup x.token out)) [
    | inl unknown ↦
        load_entries-IsValid (suc i) xs (insert x.token x out) m (rw (valid, unknown) at e)
          (insert-Distinct x.token x out h.0, insert-Filed x.token x out (refl, valid) h.1)
    | inr (other, known) ↦ absurd (cc (rw (valid, known) at e))
  ]
  | inr (err, invalid) ↦ absurd (cc (rw invalid at e))
]

-- Whatever the file holds, what is loaded from it is valid.
pub load-IsValid :
    (file : Option Contents) (m : Tokens) → load_redemption_tokens_file file ≡ loaded m → IsValid m
unfolding load_redemption_tokens_file
load-IsValid none m e = let same : m ≡ [] = cc e in rw same (tt, tt)
load-IsValid (some unreadable) m e = absurd (cc e)
load-IsValid (some not_json) m e = absurd (cc e)
load-IsValid (some (json_list list)) m e = load_entries-IsValid 0 list [] m e (tt, tt)
