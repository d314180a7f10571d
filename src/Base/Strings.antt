-- ===== src/Base/Strings.antt =====
-- Functions of Go's package strings on the bytes of a string. A rune that `unicode.IsSpace` accepts
-- is found by its bytes: its first byte stands within no other rune.
use Prim.Native.Nat.{ℕ, zero, suc, ◌-◌}
use mathlib.Core.List.{List, [], ◌∷◌, ◌++◌}
use mathlib.Core.Option.{Option, none, some}
use mathlib.Core.Bool.{Bool, ◌&&◌, ◌||◌}
use npvtunnel_creator_server.Base.Tests.{Text, if◌then◌else◌, ◌==◌, leb, str_eq}

abbrev is_ascii_space : ℕ → Bool
is_ascii_space c = c == 32 || leb 9 c && leb c 13

-- U+0085 and U+00A0.
abbrev is_latin_space : ℕ → ℕ → Bool
is_latin_space a b = a == 0xC2 && (b == 0x85 || b == 0xA0)

-- U+1680, U+2000 to U+200A, U+2028, U+2029, U+202F, U+205F and U+3000.
abbrev is_wide_space : ℕ → ℕ → ℕ → Bool
is_wide_space a b c =
    a == 0xE1 && b == 0x9A && c == 0x80
    || a == 0xE2 && b == 0x80 && (leb 0x80 c && leb c 0x8A || c == 0xA8 || c == 0xA9 || c == 0xAF)
    || a == 0xE2 && b == 0x81 && c == 0x9F
    || a == 0xE3 && b == 0x80 && c == 0x80

-- The length of the space that a text begins with, or zero.
unfoldable pub space_len : Text → ℕ
space_len [] = 0
space_len (a ∷ []) = if is_ascii_space a then 1 else 0
space_len (a ∷ b ∷ []) = if is_ascii_space a then 1 else if is_latin_space a b then 2 else 0
space_len (a ∷ b ∷ c ∷ _) =
    if is_ascii_space a
    then 1
    else if is_latin_space a b
    then 2
    else if is_wide_space a b c
    then 3
    else 0

abbrev flush : Text → List Text
flush [] = []
flush (c ∷ cs) = (c ∷ cs) ∷ []

-- The words of the rest of a text, with the word begun and what is left of a space.
unfoldable pub fields_from : ℕ → Text → Text → List Text
fields_from _ word [] = flush word
fields_from (suc skip) word (c ∷ cs) = fields_from skip word cs
fields_from zero word (c ∷ cs) =
    let n = space_len (c ∷ cs) in
    let inside = fields_from 0 (word ++ c ∷ []) cs in
    let outside = flush word ++ fields_from (n - 1) [] cs in if n == 0 then inside else outside

-- `strings.Fields(s)`
unfoldable pub fields : Text → List Text
fields s = fields_from 0 [] s

unfoldable pub trim_left : ℕ → Text → Text
trim_left skip [] = []
trim_left (suc skip) (c ∷ cs) = trim_left skip cs
trim_left zero (c ∷ cs) =
    let n = space_len (c ∷ cs) in let rest = trim_left (n - 1) cs in if n == 0 then c ∷ cs else rest

-- A text of spaces only is cut off.
unfoldable pub trim_right : Text → Text
unfolding trim_left
trim_right [] = []
trim_right (c ∷ cs) = if str_eq (trim_left 0 (c ∷ cs)) [] then [] else c ∷ trim_right cs

-- `strings.TrimSpace(s)`
unfoldable pub trim_space : Text → Text
trim_space s = trim_right (trim_left 0 s)

-- What is left behind a prefix; none if the text does not begin with it.
unfoldable pub after_prefix : Text → Text → Option Text
after_prefix [] s = some s
after_prefix (p ∷ ps) [] = none
after_prefix (p ∷ ps) (c ∷ cs) = if p == c then after_prefix ps cs else none

-- `strings.TrimPrefix(s, prefix)`
abbrev pub or_whole : Text → Option Text → Text
or_whole s none = s
or_whole s (some rest) = rest

abbrev pub trim_prefix : Text → Text → Text
trim_prefix prefix s = or_whole s (after_prefix prefix s)

abbrev prefixed : ℕ → Option Text → Option Text
prefixed c none = none
prefixed c (some s) = some (c ∷ s)

-- The text in front of a last byte; none if it does not end in that byte.
unfoldable pub before_last : ℕ → Text → Option Text
before_last b [] = none
before_last b (c ∷ []) = if c == b then some [] else none
before_last b (c ∷ d ∷ cs) = prefixed c (before_last b (d ∷ cs))

-- The texts on both sides of the first such byte; none if there is none: `strings.Cut`.
abbrev in_front : ℕ → Option (Text × Text) → Option (Text × Text)
in_front c none = none
in_front c (some (front, back)) = some (c ∷ front, back)

unfoldable pub cut : ℕ → Text → Option (Text × Text)
cut b [] = none
cut b (c ∷ cs) = let further = in_front c (cut b cs) in if c == b then some ([], cs) else further

-- `strings.Split(s, "\n")`
abbrev first_with : ℕ → List Text → List Text
first_with c [] = []
first_with c (l ∷ ls) = (c ∷ l) ∷ ls

unfoldable pub split_lines : Text → List Text
split_lines [] = [] ∷ []
split_lines (c ∷ cs) = if c == b'\n' then [] ∷ split_lines cs else first_with c (split_lines cs)

-- `strings.Join(words, " ")`
unfoldable pub unwords : List Text → Text
unwords [] = []
unwords (w ∷ []) = w
unwords (w ∷ v ∷ ws) = w ++ (32 ∷ unwords (v ∷ ws))
