-- ===== src/Minting/Steps.antt =====
-- A chain of steps of envelope.go that went well, taken apart.
use npvtunnel_creator_server.Base.{◌≡◌, refl, Bool, true, false, Option, none, some}
use npvtunnel_creator_server.Minting.{
  MintError, Minting, made, failed, panicked, ◌>>=◌, or_fail, demand,
}

pub step {ℓ κ ι} :
    {A : Type ℓ} {B : Type κ} {C : Type ι} (m : Minting A) (k : A → Minting B) {b : B}
    → (m >>= k) ≡ made b
    → ((a : A) → m ≡ made a → k a ≡ made b → C)
    → C
step (made v) k e use_it = use_it v refl e
step (failed x) k e use_it = absurd (cc e)
step panicked k e use_it = absurd (cc e)

pub or_fail-made {ℓ} :
    {A : Type ℓ} (x : MintError) (o : Option A) {v : A} → or_fail x o ≡ made v → o ≡ some v
or_fail-made x none e = cc
or_fail-made x (some w) e = cc

pub demand-made : (b : Bool) (x : MintError) {u : Unit {0}} → demand b x ≡ made u → b ≡ true
demand-made true x e = refl
demand-made false x e = cc
