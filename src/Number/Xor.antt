-- ===== src/Number/Xor.antt =====
-- Exclusive or on the challenges of a proof.
use Prim.Native.Nat.{bit_xor, digits, differ, bit_xor-bitwise}
use digital_election_system.Common.{
  ℕ, zero, suc, ◌+◌, ◌*◌, ◌/◌, ◌%◌, ◌≤◌, ◌<◌, ◌≡◌, refl, ap, ◌∙◌, arith, pos,
}
use digital_election_system.Number.{xor}

abbrev xor_digits : ℕ → ℕ → ℕ → ℕ
xor_digits n a b = digits (λ d. d) differ n a b

-- Any count of digits from a on gives the same.
xor_digits_fuel : (n m a b : ℕ) → a ≤ n → a ≤ m → xor_digits n a b ≡ xor_digits m a b
xor_digits_fuel zero zero a b p q = refl
xor_digits_fuel zero (suc m) zero b p q = refl
xor_digits_fuel zero (suc m) (suc a) b p q = absurd (omega arith)
xor_digits_fuel (suc n) zero zero b p q = refl
xor_digits_fuel (suc n) zero (suc a) b p q = absurd (omega arith)
xor_digits_fuel (suc n) (suc m) zero b p q = refl
xor_digits_fuel (suc n) (suc m) (suc a) b p q =
    ap (λ (t : ℕ). t * 2 + differ (suc a % 2) (b % 2))
      (xor_digits_fuel n m (suc a / 2) (b / 2) (omega arith) (omega arith))

pub zero-bit_xor : (b : ℕ) → bit_xor 0 b ≡ b
zero-bit_xor b = bit_xor-bitwise 0 b

-- On two digits: 0 if they are the same, else 1.
differ_lem : (x y : ℕ) → x < 2 → y < 2 → differ x y ≡ (x + y) % 2
differ_lem zero zero h k = refl
differ_lem zero (suc zero) h k = refl
differ_lem zero (suc (suc y)) h k = absurd (omega arith)
differ_lem (suc zero) zero h k = refl
differ_lem (suc zero) (suc zero) h k = refl
differ_lem (suc zero) (suc (suc y)) h k = absurd (omega arith)
differ_lem (suc (suc x)) y h k = absurd (omega arith)

bit_xor_step : (a b : ℕ) → bit_xor a b ≡ bit_xor (a / 2) (b / 2) * 2 + (a % 2 + b % 2) % 2
bit_xor_step zero b = omega (arith, zero-bit_xor b, zero-bit_xor (b / 2))
bit_xor_step (suc a) b = omega (
  arith,
  bit_xor-bitwise (suc a) b,
  bit_xor-bitwise (suc a / 2) (b / 2),
  xor_digits_fuel a (suc a / 2) (suc a / 2) (b / 2) (omega arith) (omega arith),
  differ_lem (suc a % 2) (b % 2) (omega arith) (omega arith),
)

bit_xor_comm_below : (n a b : ℕ) → a + b ≤ n → bit_xor a b ≡ bit_xor b a
bit_xor_comm_below zero zero zero h = refl
bit_xor_comm_below zero zero (suc b) h = absurd (omega arith)
bit_xor_comm_below zero (suc a) b h = absurd (omega arith)
bit_xor_comm_below (suc n) a b h =
    omega (
      arith,
      bit_xor_step a b,
      bit_xor_step b a,
      bit_xor_comm_below n (a / 2) (b / 2) (omega arith),
    )

bit_xor_comm : (a b : ℕ) → bit_xor a b ≡ bit_xor b a
bit_xor_comm a b = bit_xor_comm_below (a + b) a b (omega arith)

bit_xor_cancel_below : (n a b : ℕ) → a + b ≤ n → bit_xor (bit_xor a b) b ≡ a
bit_xor_cancel_below zero zero zero h = refl
bit_xor_cancel_below zero zero (suc b) h = absurd (omega arith)
bit_xor_cancel_below zero (suc a) b h = absurd (omega arith)
bit_xor_cancel_below (suc n) a b h = omega (
  arith,
  bit_xor_step a b,
  bit_xor_step (bit_xor a b) b,
  ap (λ (t : ℕ). bit_xor t (b / 2)) half,
  bit_xor_cancel_below n (a / 2) (b / 2) (omega arith),
)
  where
    half : bit_xor a b / 2 ≡ bit_xor (a / 2) (b / 2)
    half = omega (arith, bit_xor_step a b)

bit_xor_cancel : (a b : ℕ) → bit_xor (bit_xor a b) b ≡ a
bit_xor_cancel a b = bit_xor_cancel_below (a + b) a b (omega arith)

pub xor-xor_right : (s e : ℕ) → xor (xor (pos s) (pos e)) (pos e) ≡ pos s
unfolding xor
xor-xor_right s e = ap pos (bit_xor_cancel s e)

pub xor-xor_left : (s e : ℕ) → xor (pos e) (xor (pos s) (pos e)) ≡ pos s
unfolding xor
xor-xor_left s e = ap pos (bit_xor_comm e (bit_xor s e) ∙ bit_xor_cancel s e)
