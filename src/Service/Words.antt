-- ===== src/Service/Words.antt =====
-- Command lines of service.go that are plain words: how package strings takes them apart.
use mathlib.Core.List.{append-nil, append_assoc}
use npvtunnel_creator_server.Base.{
  ℕ, ◌≤◌, ◌≡◌, ◌≢◌, refl, ap, ◌∙◌, false, List, [], ◌∷◌, ◌++◌, none, Text, All, arith, str_eq,
  str_eq_iff,
}
use npvtunnel_creator_server.Base.Strings.{
  space_len, fields_from, fields, trim_left, trim_right, trim_space, before_last, split_lines,
  unwords,
}

-- A character of a plain word: printable ASCII, no space and no backslash.
abbrev pub Graphic : ℕ → Type 0
Graphic c = (33 ≤ c) × (c ≤ 126) × (c ≢ b'\\')

abbrev pub Word : Text → Type 0
Word w = (w ≢ []) × All Graphic w

-- Words and spaces, a word at the end.
abbrev pub Ends : Text → Type 0
Ends [] = ⊥
Ends (c ∷ []) = Graphic c
Ends (c ∷ d ∷ s) = (32 ≤ c) × (c ≤ 126) × Ends (d ∷ s)

space_len-Graphic : (c : ℕ) (s : Text) → 33 ≤ c → c ≤ 126 → space_len (c ∷ s) ≡ 0
unfolding space_len
space_len-Graphic c [] l h = ground arith
space_len-Graphic c (a ∷ []) l h = ground arith
space_len-Graphic c (a ∷ b ∷ s) l h = ground arith

space_len_space : (s : Text) → space_len (32 ∷ s) ≡ 1
unfolding space_len
space_len_space [] = refl
space_len_space (a ∷ []) = refl
space_len_space (a ∷ b ∷ s) = refl

fields_from-append :
    (word w s : Text) → All Graphic w → fields_from 0 word (w ++ s) ≡ fields_from 0 (word ++ w) s
unfolding fields_from
fields_from-append word [] s h = rw append-nil refl
fields_from-append word (c ∷ w) s (g, h) =
    let n = space_len-Graphic c (w ++ s) g.0 g.1 in
    rw n (fields_from-append (word ++ c ∷ []) w s h ∙ rw append_assoc refl)

pub fields-Word_space : (w s : Text) → Word w → fields (w ++ (32 ∷ s)) ≡ w ∷ fields s
unfolding fields
fields-Word_space [] s (ne, h) = absurd (ne refl)
fields-Word_space (c ∷ w) s (ne, h) =
    fields_from-append [] (c ∷ w) (32 ∷ s) h ∙ unfold fields_from in rw (space_len_space s) refl

pub fields-Word : (w : Text) → Word w → fields w ≡ w ∷ []
unfolding fields
fields-Word [] (ne, h) = absurd (ne refl)
fields-Word (c ∷ w) (ne, h) =
    rw append-nil at (fields_from-append [] (c ∷ w) [] h) ∙ unfold fields_from in refl

pub fields-unwords : (ws : List Text) → All Word ws → fields (unwords ws) ≡ ws
unfolding unwords
fields-unwords [] h = unfold fields fields_from in refl
fields-unwords (w ∷ []) h = fields-Word w h.0
fields-unwords (w ∷ v ∷ ws) h =
    fields-Word_space w (unwords (v ∷ ws)) h.0 ∙ ap (◌∷◌ w) (fields-unwords (v ∷ ws) h.1)

trim_left-Graphic : (c : ℕ) (s : Text) → Graphic c → trim_left 0 (c ∷ s) ≡ c ∷ s
unfolding trim_left
trim_left-Graphic c s g = rw (space_len-Graphic c s g.0 g.1) refl

-- A text that ends in a word is no space.
trim_left-Ends : (s : Text) → Ends s → trim_left 0 s ≢ []
unfolding trim_left
trim_left-Ends [] e = absurd e
trim_left-Ends (c ∷ []) e = λ h. ground (arith, space_len-Graphic c [] e.0 e.1)
trim_left-Ends (c ∷ d ∷ s) e = λ h.
    ground (arith, space_len_space (d ∷ s), space_len-Graphic c (d ∷ s), trim_left-Ends (d ∷ s) e.2)

trim_right-Ends : (s : Text) → Ends s → trim_right s ≡ s
unfolding trim_right
trim_right-Ends [] e = absurd e
trim_right-Ends (c ∷ []) e =
    ground (arith, trim_left-Ends (c ∷ []) e, str_eq_iff (trim_left 0 (c ∷ [])) [])
trim_right-Ends (c ∷ d ∷ s) e = ground (
  arith,
  trim_left-Ends (c ∷ d ∷ s) e,
  str_eq_iff (trim_left 0 (c ∷ d ∷ s)) [],
  trim_right-Ends (d ∷ s) e.2,
)

pub trim_space-Ends : (c : ℕ) (s : Text) → Graphic c → Ends (c ∷ s) → trim_space (c ∷ s) ≡ c ∷ s
unfolding trim_space
trim_space-Ends c s g e = rw (trim_left-Graphic c s g) (trim_right-Ends (c ∷ s) e)

pub before_last-Ends : (s : Text) → Ends s → before_last b'\\' s ≡ none
unfolding before_last
before_last-Ends [] e = absurd e
before_last-Ends (c ∷ []) e = ground arith
before_last-Ends (c ∷ d ∷ s) e = rw (before_last-Ends (d ∷ s) e.2) refl

pub split_lines-Ends : (s r : Text) → Ends s → split_lines (s ++ (b'\n' ∷ r)) ≡ s ∷ split_lines r
unfolding split_lines
split_lines-Ends [] r e = absurd e
split_lines-Ends (c ∷ []) r e = ground arith
split_lines-Ends (c ∷ d ∷ s) r e = ground (arith, split_lines-Ends (d ∷ s) r e.2)

Word-append_Ends : (w s : Text) → All Graphic w → Ends s → Ends (w ++ (32 ∷ s))
Word-append_Ends [] [] h e = absurd e
Word-append_Ends [] (c ∷ s) h e = (omega arith, omega arith, e)
Word-append_Ends (c ∷ []) s h e = (omega arith, omega arith, Word-append_Ends [] s tt e)
Word-append_Ends (c ∷ d ∷ w) s h e = (omega arith, omega arith, Word-append_Ends (d ∷ w) s h.1 e)

Word-Ends : (w : Text) → Word w → Ends w
Word-Ends [] (ne, h) = absurd (ne refl)
Word-Ends (c ∷ []) (ne, h) = h.0
Word-Ends (c ∷ d ∷ w) (ne, h) = (omega arith, omega arith, Word-Ends (d ∷ w) (λ e. cc, h.1))

pub unwords-Ends : (w : Text) (ws : List Text) → All Word (w ∷ ws) → Ends (unwords (w ∷ ws))
unfolding unwords
unwords-Ends w [] h = Word-Ends w h.0
unwords-Ends w (v ∷ ws) h = Word-append_Ends w (unwords (v ∷ ws)) h.0.1 (unwords-Ends v ws h.1)

pub append-Ends : (w s : Text) → All Graphic w → Ends s → Ends (w ++ s)
append-Ends [] s h e = e
append-Ends (c ∷ []) [] h e = absurd e
append-Ends (c ∷ []) (d ∷ s) h e = (omega arith, omega arith, e)
append-Ends (c ∷ d ∷ w) s h e = (omega arith, omega arith, append-Ends (d ∷ w) s h.1 e)

pub Ends-ne_nil : (s : Text) → Ends s → str_eq s [] ≡ false
unfolding str_eq
Ends-ne_nil [] e = absurd e
Ends-ne_nil (c ∷ s) e = refl
