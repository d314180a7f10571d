-- ===== src/Base/Results.antt =====
-- A Go value with its error, and the texts of `fmt.Errorf`.
use Prim.Native.Nat.{ℕ, zero, suc, ◌+◌, ◌/◌, ◌%◌}
use mathlib.Core.Path.{◌≡◌, refl}
use mathlib.Core.List.{[], ◌∷◌, ◌++◌}
use mathlib.Core.Bool.{Bool, true, false}
use mathlib.Core.Logic.{◌⊎◌, inl, inr, ◌≢◌}
use npvtunnel_creator_server.Base.Tests.{Text, text, if◌then◌else◌, ◌==◌}
use npvtunnel_creator_server.Base.Int.{ℤ, pos, negsuc}

-- `stuck` is no Go value: a loop ran out of fuel.
pub data Result {ℓ} (A : Type ℓ) : Type ℓ where
  stuck : Result A
  err : Text → Result A
  ok : A → Result A

module _ {ℓ κ} {A : Type ℓ} {B : Type κ} where
  -- `if err != nil { return err }`, and what follows with the value.
  infixl 5 ◌>>=◌
  abbrev pub ◌>>=◌ : Result A → (A → Result B) → Result B
  stuck >>= next = stuck
  err message >>= next = err message
  ok value >>= next = next value

  -- Where a chain of calls went well, its first call did.
  pub >>=-went_well :
      (call : Result A) (next : A → Result B) {b : B}
      → call >>= next ≡ ok b
      → (value : A) × (call ≡ ok value) × (next value ≡ ok b)
  >>=-went_well stuck next well = cc
  >>=-went_well (err message) next well = cc
  >>=-went_well (ok value) next well = (value, refl, well)

-- `fmt.Errorf("…: %w", err)`, on the result of a call and on a loop's.
abbrev pub wrap {ℓ} : {A : Type ℓ} → Text → Text ⊎ A → Result A
wrap context (inl e) = err (context ++ text ": " ++ e)
wrap context (inr a) = ok a

abbrev pub in_context {ℓ} : {A : Type ℓ} → Text → Result A → Result A
in_context context (ok a) = ok a
in_context context (err e) = err (context ++ text ": " ++ e)
in_context context stuck = stuck

pub in_context-eq-ok {ℓ} :
    {A : Type ℓ} (context : Text) (m : Result A) {a : A} → in_context context m ≡ ok a → m ≡ ok a
in_context-eq-ok context (ok b) h = h
in_context-eq-ok context (err e) h = cc
in_context-eq-ok context stuck h = cc

pub wrap-eq-ok {ℓ} :
    {A : Type ℓ} (context : Text) (m : Text ⊎ A) {a : A} → wrap context m ≡ ok a → m ≡ inr a
wrap-eq-ok context (inl e) h = cc
wrap-eq-ok context (inr b) h = cc

-- `%d`. A number has no more digits than it counts.
digits : ℕ → ℕ → Text → Text
digits zero n out = out
digits (suc fuel) n out =
    let more = digits fuel (n / 10) ((n % 10 + b'0') ∷ out) in
    if n / 10 == 0 then (n % 10 + b'0') ∷ out else more

unfoldable pub decimal : ℕ → Text
unfolding digits
decimal n = digits (suc n) n []

unfoldable pub decimal_int : ℤ → Text
unfolding decimal
decimal_int (pos n) = decimal n
decimal_int (negsuc n) = b'-' ∷ decimal (suc n)

pub wrap-ne-stuck {ℓ} : {A : Type ℓ} (context : Text) (m : Text ⊎ A) → wrap context m ≢ stuck
wrap-ne-stuck context (inl e) h = cc
wrap-ne-stuck context (inr a) h = cc

pub in_context-ne-stuck {ℓ} :
    {A : Type ℓ} (context : Text) (m : Result A) → m ≢ stuck → in_context context m ≢ stuck
in_context-ne-stuck context (ok a) n h = cc
in_context-ne-stuck context (err e) n h = cc
in_context-ne-stuck context stuck n h = n refl

pub >>=-ne-stuck {ℓ κ} :
    {A : Type ℓ} {B : Type κ} (m : Result A) (f : A → Result B)
    → m ≢ stuck
    → ((a : A) → m ≡ ok a → f a ≢ stuck)
    → (m >>= f) ≢ stuck
>>=-ne-stuck (ok a) f n k h = k a refl h
>>=-ne-stuck (err e) f n k h = cc
>>=-ne-stuck stuck f n k h = n refl

pub if-ne-stuck {ℓ} :
    {A : Type ℓ} (b : Bool) (m n : Result A) → m ≢ stuck → n ≢ stuck → (if b then m else n) ≢ stuck
if-ne-stuck true m n h k = h
if-ne-stuck false m n h k = k

pub ok-ne-stuck {ℓ} : {A : Type ℓ} (a : A) → ok a ≢ stuck
ok-ne-stuck a h = cc
