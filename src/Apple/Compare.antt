-- ===== src/Apple/Compare.antt =====
-- `bytesEqualConstantTime` of app_attest.go: the comparison without an early exit is equality.
use Prim.Native.Nat.{max, digits, differ, bit_or, bit_xor, bit_or-bitwise, bit_xor-bitwise}
use native.Mathlib.Nat.{le_refl}
use npvtunnel_creator_server.Base.{
  ℕ, zero, suc, ◌/◌, ◌%◌, ◌≤◌, Bool, true, false, not, ◌≡◌, refl, ◌↔◌, [], ◌∷◌, Bytes,
  if◌then◌else◌, ◌==◌, length, arith,
}

-- The loop; `diff` collects the bits in which the bytes differ. The lengths are the same.
unfoldable pub differing_bits : ℕ → Bytes → Bytes → ℕ
differing_bits diff (x ∷ a) (y ∷ b) = differing_bits (bit_or diff (bit_xor x y)) a b
differing_bits diff _ _ = diff

unfoldable pub bytes_equal_constant_time : Bytes → Bytes → Bool
bytes_equal_constant_time a b =
    if not (length a == length b) then false else differing_bits 0 a b == 0

digits-max-zero : (n a b : ℕ) → a ≤ n → digits (λ b. b) max n a b ≡ 0 → (a ≡ 0) × (b ≡ 0)
digits-max-zero zero zero b h e = (refl, e)
digits-max-zero zero (suc a) b h e = absurd (omega arith)
digits-max-zero (suc n) zero b h e = (refl, e)
digits-max-zero (suc n) (suc a) b h e =
    let (p, q) = digits-max-zero n (suc a / 2) (b / 2) (omega arith) (omega arith) in
    absurd (omega arith)

differ-zero : (a b : ℕ) → differ a b ≡ 0 → a ≡ b
differ-zero zero b e = omega arith
differ-zero (suc a) zero e = absurd (omega arith)
differ-zero (suc a) (suc b) e = omega (arith, differ-zero a b e)

differ_self : (a : ℕ) → differ a a ≡ 0
differ_self zero = refl
differ_self (suc a) = differ_self a

digits-differ-zero : (n a b : ℕ) → a ≤ n → digits (λ b. b) differ n a b ≡ 0 → a ≡ b
digits-differ-zero zero zero b h e = omega arith
digits-differ-zero zero (suc a) b h e = absurd (omega arith)
digits-differ-zero (suc n) zero b h e = omega arith
digits-differ-zero (suc n) (suc a) b h e =
    let p = digits-differ-zero n (suc a / 2) (b / 2) (omega arith) (omega arith) in
    let q = differ-zero (suc a % 2) (b % 2) (omega arith) in omega arith

digits-differ_self : (n a : ℕ) → a ≤ n → digits (λ b. b) differ n a a ≡ 0
digits-differ_self zero zero h = refl
digits-differ_self zero (suc a) h = absurd (omega arith)
digits-differ_self (suc n) zero h = refl
digits-differ_self (suc n) (suc a) h =
    omega (arith, digits-differ_self n (suc a / 2) (omega arith), differ_self (suc a % 2))

bit_or-zero : (a b : ℕ) → bit_or a b ≡ 0 → (a ≡ 0) × (b ≡ 0)
bit_or-zero a b e = digits-max-zero a a b (le_refl a) (simp bit_or-bitwise at e)

bit_xor-zero : (a b : ℕ) → bit_xor a b ≡ 0 → a ≡ b
bit_xor-zero a b e = digits-differ-zero a a b (le_refl a) (simp bit_xor-bitwise at e)

bit_xor_self : (a : ℕ) → bit_xor a a ≡ 0
bit_xor_self a = simp bit_xor-bitwise (digits-differ_self a a (le_refl a))

differing_bits-zero :
    (diff : ℕ) (a b : Bytes)
    → length a ≡ length b
    → differing_bits diff a b ≡ 0
    → (diff ≡ 0) × (a ≡ b)
unfolding differing_bits
differing_bits-zero diff [] [] h e = (e, refl)
differing_bits-zero diff [] (y ∷ b) h e = absurd (omega arith)
differing_bits-zero diff (x ∷ a) [] h e = absurd (omega arith)
differing_bits-zero diff (x ∷ a) (y ∷ b) h e =
    let (none_so_far, rest) = differing_bits-zero (bit_or diff (bit_xor x y)) a b (omega arith) e in
    let (before, here) = bit_or-zero diff (bit_xor x y) none_so_far in
    (before, cc (bit_xor-zero x y here, rest))

differing_bits_self : (a : Bytes) → differing_bits 0 a a ≡ 0
unfolding differing_bits
differing_bits_self [] = refl
differing_bits_self (x ∷ a) = rw (bit_xor_self x) (differing_bits_self a)

-- `bytesEqualConstantTime` is true exactly of equal byte strings.
pub bytes_equal_constant_time_iff : (a b : Bytes) → (bytes_equal_constant_time a b ≡ true) ↔ (a ≡ b)
unfolding bytes_equal_constant_time
bytes_equal_constant_time_iff a b = (
  λ e. (differing_bits-zero 0 a b (ground arith) (ground arith)).1,
  λ same. rw same (ground (arith, differing_bits_self b)),
)
