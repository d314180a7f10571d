-- ===== src/Base/Maps.antt =====
-- A Go map with text keys, as an association list. Go visits a map in no fixed order: what is
-- proved of a loop over one is stated of `lookup` alone.
use Prim.Native.Nat.{ℕ, suc}
use mathlib.Core.Path.{◌≡◌, refl}
use mathlib.Core.List.{List, [], ◌∷◌}
use mathlib.Core.Option.{Option, none, some}
use mathlib.Core.Bool.{Bool, true}
use native.Mathlib.Omega.{arith}
use npvtunnel_creator_server.Base.Tests.{Text, if◌then◌else◌, str_eq, str_eq_iff, str_eq_refl}

-- `m[k]`, present or not.
unfoldable pub lookup {ℓ} : {V : Type ℓ} → Text → List (Text × V) → Option V
lookup k [] = none
lookup k ((j, v) ∷ m) = if str_eq j k then some v else lookup k m

-- `m[k] = v`
unfoldable pub insert {ℓ} : {V : Type ℓ} → Text → V → List (Text × V) → List (Text × V)
insert k v [] = (k, v) ∷ []
insert k v ((j, w) ∷ m) = if str_eq j k then (k, v) ∷ m else (j, w) ∷ insert k v m

-- `delete(m, k)`
unfoldable pub erase {ℓ} : {V : Type ℓ} → Text → List (Text × V) → List (Text × V)
erase k [] = []
erase k ((j, v) ∷ m) = if str_eq j k then erase k m else (j, v) ∷ erase k m

-- `for k, v := range m { if !p(v) { delete(m, k) } }`
unfoldable pub retain {ℓ} : {V : Type ℓ} → (V → Bool) → List (Text × V) → List (Text × V)
retain p [] = []
retain p ((j, v) ∷ m) = if p v then (j, v) ∷ retain p m else retain p m

-- `len(m)`
unfoldable pub size {ℓ} : {V : Type ℓ} → List (Text × V) → ℕ
size [] = 0
size (e ∷ m) = suc (size m)

-- No key stands twice, as in any Go map.
abbrev pub Distinct {ℓ} : {V : Type ℓ} → List (Text × V) → Type ℓ
Distinct [] = Unit
Distinct ((j, v) ∷ m) = (lookup j m ≡ none) × Distinct m

-- What is left of a value that is kept only if it passes a test.
abbrev pub only {ℓ} : {V : Type ℓ} → (V → Bool) → Option V → Option V
only p none = none
only p (some v) = if p v then some v else none

module _ {ℓ} {V : Type ℓ} where
  pub lookup-insert :
      (k j : Text) (v : V) (m : List (Text × V))
      → lookup j (insert k v m) ≡ (if str_eq k j then some v else lookup j m)
  unfolding lookup insert
  lookup-insert k j v [] = refl
  lookup-insert k j v ((i, w) ∷ m) =
      ground (arith, str_eq_iff k j, str_eq_iff i k, str_eq_iff i j, lookup-insert k j v m)

  pub lookup-erase :
      (k j : Text) (m : List (Text × V))
      → lookup j (erase k m) ≡ (if str_eq k j then none else lookup j m)
  unfolding lookup erase
  lookup-erase k j [] = ground arith
  lookup-erase k j ((i, w) ∷ m) =
      ground (arith, str_eq_iff k j, str_eq_iff i k, str_eq_iff i j, lookup-erase k j m)

  pub lookup-insert_self :
      (k : Text) (v : V) (m : List (Text × V)) → lookup k (insert k v m) ≡ some v
  lookup-insert_self k v m = simp (lookup-insert, str_eq_refl)

  -- A value that passes the test stays where it is found.
  pub lookup-retain-some :
      (p : V → Bool) (k : Text) (v : V) (m : List (Text × V))
      → lookup k m ≡ some v
      → p v ≡ true
      → lookup k (retain p m) ≡ some v
  unfolding lookup retain
  lookup-retain-some p k v [] e h = e
  lookup-retain-some p k v ((j, w) ∷ m) e h = ground (arith, lookup-retain-some p k v m)

  pub lookup-retain-none :
      (p : V → Bool) (k : Text) (m : List (Text × V))
      → lookup k m ≡ none
      → lookup k (retain p m) ≡ none
  unfolding lookup retain
  lookup-retain-none p k [] e = e
  lookup-retain-none p k ((j, w) ∷ m) e = ground (arith, lookup-retain-none p k m)

  -- With distinct keys the loop does to each key what it says.
  pub lookup-retain :
      (p : V → Bool) (k : Text) (m : List (Text × V))
      → Distinct m
      → lookup k (retain p m) ≡ only p (lookup k m)
  unfolding lookup retain
  lookup-retain p k [] d = refl
  lookup-retain p k ((j, w) ∷ m) d =
      ground (arith, lookup-retain p k m d.1, lookup-retain-none p j m d.0, str_eq_iff j k, p w)

  pub insert-Distinct :
      (k : Text) (v : V) (m : List (Text × V)) → Distinct m → Distinct (insert k v m)
  unfolding insert
  insert-Distinct k v [] d = (unfold lookup in refl, tt)
  insert-Distinct k v ((j, w) ∷ m) d =
      ground
        (arith, insert-Distinct k v m d.1, lookup-insert k j v m, str_eq_iff j k, str_eq_iff k j)

  pub erase-Distinct : (k : Text) (m : List (Text × V)) → Distinct m → Distinct (erase k m)
  unfolding erase
  erase-Distinct k [] d = d
  erase-Distinct k ((j, w) ∷ m) d = ground (arith, erase-Distinct k m d.1, lookup-erase k j m)

  pub retain-Distinct : (p : V → Bool) (m : List (Text × V)) → Distinct m → Distinct (retain p m)
  unfolding retain
  retain-Distinct p [] d = d
  retain-Distinct p ((j, w) ∷ m) d =
      ground (arith, retain-Distinct p m d.1, lookup-retain-none p j m d.0)
