-- ===== src/Base/Runes.antt =====
-- The runes of a Go string, each as its bytes: what `range` and `[]rune` give.
use Prim.Native.Nat.{ℕ, zero, suc, ◌-◌}
use mathlib.Core.List.{List, [], ◌∷◌, ◌++◌}
use mathlib.Core.Bool.{Bool, ◌&&◌, ◌||◌}
use npvtunnel_creator_server.Base.Lists.{take}
use npvtunnel_creator_server.Base.Tests.{Text, if◌then◌else◌, ltb, leb, ◌==◌}

-- `80 <= c && c <= BF`
abbrev is_tail : ℕ → Bool
is_tail c = leb 0x80 c && leb c 0xBF

abbrev is_pair : ℕ → ℕ → Bool
is_pair a b = leb 0xC2 a && leb a 0xDF && is_tail b

abbrev is_triple : ℕ → ℕ → ℕ → Bool
is_triple a b c =
    is_tail b
    && is_tail c
    && leb 0xE0 a
    && leb a 0xEF
    && (ltb 0xE0 a || leb 0xA0 b)
    && (ltb a 0xED || ltb 0xED a || leb b 0x9F)

abbrev is_quadruple : ℕ → ℕ → ℕ → ℕ → Bool
is_quadruple a b c d =
    is_tail b
    && is_tail c
    && is_tail d
    && leb 0xF0 a
    && leb a 0xF4
    && (ltb 0xF0 a || leb 0x90 b)
    && (ltb a 0xF4 || leb b 0x8F)

-- The length of the rune that a text begins with, or zero if its first byte belongs to none.
unfoldable pub rune_len : Text → ℕ
rune_len [] = 0
rune_len (a ∷ []) = if ltb a 0x80 then 1 else 0
rune_len (a ∷ b ∷ []) = if ltb a 0x80 then 1 else if is_pair a b then 2 else 0
rune_len (a ∷ b ∷ c ∷ []) =
    if ltb a 0x80 then 1 else if is_pair a b then 2 else if is_triple a b c then 3 else 0
rune_len (a ∷ b ∷ c ∷ d ∷ _) =
    if ltb a 0x80
    then 1
    else if is_pair a b
    then 2
    else if is_triple a b c
    then 3
    else if is_quadruple a b c d
    then 4
    else 0

-- U+FFFD
abbrev pub replacement : Text
replacement = 0xEF ∷ 0xBF ∷ 0xBD ∷ []

-- What is left of a rune that was read is skipped; a byte that belongs to none counts as U+FFFD.
unfoldable pub runes_from : ℕ → Text → List Text
runes_from _ [] = []
runes_from (suc left) (c ∷ cs) = runes_from left cs
runes_from zero (c ∷ cs) =
    let n = rune_len (c ∷ cs) in
    let further = runes_from (n - 1) cs in
    if n == 0 then replacement ∷ further else take n (c ∷ cs) ∷ further

unfoldable pub runes : Text → List Text
runes s = runes_from 0 s

unfoldable pub concat : List Text → Text
concat [] = []
concat (t ∷ ts) = t ++ concat ts
