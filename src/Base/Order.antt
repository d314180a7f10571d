-- ===== src/Base/Order.antt =====
-- The order of Go strings, by their bytes.
use Prim.Native.Nat.{◌<◌}
use mathlib.Core.Path.{◌≡◌, refl, sym}
use mathlib.Core.List.{[], ◌∷◌}
use mathlib.Core.Bool.{Bool, true, false}
use mathlib.Core.Logic.{◌≢◌, ◌⊎◌, inl, inr}
use native.Mathlib.Omega.{arith}
use npvtunnel_creator_server.Base.Tests.{Text, if◌then◌else◌, ltb, ltb→lt, Bool-cases}

-- `s < t`
unfoldable pub text_less : Text → Text → Bool
text_less [] [] = false
text_less [] (y ∷ t) = true
text_less (x ∷ s) [] = false
text_less (x ∷ s) (y ∷ t) = if ltb x y then true else if ltb y x then false else text_less s t

pub text_less_asymm : (s t : Text) → text_less s t ≡ true → text_less t s ≡ false
unfolding text_less
text_less_asymm [] [] e = absurd (cc e)
text_less_asymm [] (y ∷ t) e = refl
text_less_asymm (x ∷ s) [] e = absurd (cc e)
text_less_asymm (x ∷ s) (y ∷ t) e = ground (arith, text_less_asymm s t)

pub text_less_trans :
    (s t u : Text) → text_less s t ≡ true → text_less t u ≡ true → text_less s u ≡ true
unfolding text_less
text_less_trans [] [] u e f = absurd (cc e)
text_less_trans [] (y ∷ t) [] e f = absurd (cc f)
text_less_trans [] (y ∷ t) (z ∷ u) e f = refl
text_less_trans (x ∷ s) [] u e f = absurd (cc e)
text_less_trans (x ∷ s) (y ∷ t) [] e f = absurd (cc f)
text_less_trans (x ∷ s) (y ∷ t) (z ∷ u) e f = ground (arith, text_less_trans s t u)

pub text_less_total : (s t : Text) → s ≢ t → text_less s t ≡ false → text_less t s ≡ true
unfolding text_less
text_less_total [] [] ne e = absurd (ne refl)
text_less_total [] (y ∷ t) ne e = absurd (cc e)
text_less_total (x ∷ s) [] ne e = refl
text_less_total (x ∷ s) (y ∷ t) ne e = ground (arith, text_less_total s t)

-- The order of byte sequences, apart from the test: a proper prefix, or at the first difference the
-- lower byte.
abbrev pub Precedes : Text → Text → Type 0
Precedes [] [] = ⊥
Precedes [] (y ∷ t) = Unit
Precedes (x ∷ s) [] = ⊥
Precedes (x ∷ s) (y ∷ t) = (x < y) ⊎ ((x ≡ y) × Precedes s t)

pub text_less-Precedes : (s t : Text) → text_less s t ≡ true → Precedes s t
unfolding text_less
text_less-Precedes [] [] e = cc
text_less-Precedes [] (y ∷ t) e = tt
text_less-Precedes (x ∷ s) [] e = cc
text_less-Precedes (x ∷ s) (y ∷ t) e = elim (Bool-cases (ltb x y)) [
  | inl lower ↦ inl (ltb→lt x y lower)
  | inr other ↦ inr (ground arith, text_less-Precedes s t (ground arith))
]

-- A text that is not less than another is the other, or comes behind it.
pub text_less-not : (s t : Text) → text_less s t ≡ false → (s ≡ t) ⊎ Precedes t s
unfolding text_less
text_less-not [] [] e = inl refl
text_less-not [] (y ∷ t) e = cc
text_less-not (x ∷ s) [] e = inr tt
text_less-not (x ∷ s) (y ∷ t) e = elim (Bool-cases (ltb y x)) [
  | inl lower ↦ inr (inl (ltb→lt y x lower))
  | inr other ↦
      let same : x ≡ y = ground arith in
      elim (text_less-not s t (ground arith)) [
        | inl rest ↦ inl (cc (same, rest))
        | inr behind ↦ inr (inr (sym same, behind))
      ]
]
