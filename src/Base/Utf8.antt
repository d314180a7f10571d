-- ===== src/Base/Utf8.antt =====
-- A Go string in JSON: encoding/json writes U+FFFD for each byte that is part of no rune.
use Prim.Native.Nat.{suc, ◌-◌, ◌<◌}
use mathlib.Core.Bool.{false}
use mathlib.Core.Path.{◌≡◌, refl, ap, ◌∙◌}
use mathlib.Core.List.{List, [], ◌∷◌, ◌++◌}
use native.Mathlib.Omega.{arith}
use npvtunnel_creator_server.Base.Lists.{length, All, take-append}
use npvtunnel_creator_server.Base.Runes.{rune_len, runes_from, runes, concat}
use npvtunnel_creator_server.Base.Tests.{Text, ◌==◌}

-- What is read back of a string that `json.Marshal` wrote.
unfoldable pub json_text : Text → Text
json_text t = concat (runes t)

-- The bytes of one rune.
abbrev pub IsRune : Text → Type 0
IsRune r = (0 < length r) × (rune_len r ≡ length r)

-- The text is a sequence of runes.
abbrev pub IsUtf8 : Text → Type 0
IsUtf8 t = (rs : List Text) × All IsRune rs × (t ≡ concat rs)

-- A rune is told from its own bytes, whatever follows.
rune_len-append : (r t : Text) → IsRune r → rune_len (r ++ t) ≡ length r
unfolding rune_len
rune_len-append [] t (some_bytes, h) = absurd (omega arith)
rune_len-append (a ∷ []) [] (_, h) = h
rune_len-append (a ∷ []) (x ∷ []) (_, h) = ground arith
rune_len-append (a ∷ []) (x ∷ y ∷ []) (_, h) = ground arith
rune_len-append (a ∷ []) (x ∷ y ∷ z ∷ t) (_, h) = ground arith
rune_len-append (a ∷ b ∷ []) [] (_, h) = h
rune_len-append (a ∷ b ∷ []) (x ∷ []) (_, h) = ground arith
rune_len-append (a ∷ b ∷ []) (x ∷ y ∷ t) (_, h) = ground arith
rune_len-append (a ∷ b ∷ c ∷ []) [] (_, h) = h
rune_len-append (a ∷ b ∷ c ∷ []) (x ∷ t) (_, h) = ground arith
rune_len-append (a ∷ b ∷ c ∷ d ∷ []) t (_, h) = h
rune_len-append (a ∷ b ∷ c ∷ d ∷ e ∷ r) t (_, h) = absurd (ground arith)

skip : (r t : Text) → runes_from (length r) (r ++ t) ≡ runes_from 0 t
unfolding runes_from
skip [] t = refl
skip (c ∷ r) t = skip r t

runes_from-rune :
    (r t : Text) → IsRune r → concat (runes_from 0 (r ++ t)) ≡ r ++ concat (runes_from 0 t)
unfolding runes_from concat
runes_from-rune [] t (some_bytes, h) = absurd (omega arith)
runes_from-rune (c ∷ r) t h =
    let len = rune_len-append (c ∷ r) t h in
    let whole : (suc (length r) == 0) ≡ false = ground arith in
    let others : suc (length r) - 1 ≡ length r = omega arith in
    rw (len, whole, others, take-append r t, skip r t) refl

pub json_text-utf8 : (t : Text) → IsUtf8 t → json_text t ≡ t
unfolding json_text runes concat runes_from
json_text-utf8 t ([], _, is) = rw is refl
json_text-utf8 t (r ∷ rs, (h, all), is) = rw is (
    runes_from-rune r (concat rs) h ∙ ap (λ u. r ++ u) (json_text-utf8 (concat rs) (rs, all, refl)))
