-- ===== src/Number/Power.antt =====
-- Laws of powers, and exponents modulo the order of the base.
use native.Mathlib.Nat.{pow-zero, pow-suc, add-zero, add-suc, mul-zero, mul-suc, div-add-mod}
use digital_election_system.Common.{
  ℕ, zero, suc, ◌+◌, ◌*◌, ◌/◌, ◌%◌, ◌^◌, ◌≡◌, refl, sym, ap, ◌∙◌, arith,
}
use digital_election_system.Number.Congruence.{
  Cong, Cong-of_eq, Cong-sym, ◌⊙◌, Cong-mul, Cong-mul_left,
}

pub pow-add : (b i j : ℕ) → b ^ (i + j) ≡ b ^ i * b ^ j
pow-add b i zero = rw (add-zero, pow-zero) (omega arith)
pow-add b i (suc j) = rw (add-suc, pow-suc, pow-suc, pow-add b i j) (omega arith)

pub pow-mul : (b i j : ℕ) → b ^ (i * j) ≡ (b ^ i) ^ j
pow-mul b i zero = rw (mul-zero, pow-zero, pow-zero)
pow-mul b i (suc j) = rw (mul-suc, pow-add b (i * j) i, pow-mul b i j, pow-suc)

pub mul-pow : (a b n : ℕ) → (a * b) ^ n ≡ a ^ n * b ^ n
mul-pow a b zero = rw (pow-zero, pow-zero, pow-zero)
mul-pow a b (suc n) = rw (pow-suc, pow-suc, pow-suc, mul-pow a b n) (omega arith)

pub one-pow : (n : ℕ) → 1 ^ n ≡ 1
one-pow zero = refl
one-pow (suc n) = rw (pow-suc, one-pow n)

power_of_parts : (b q n : ℕ) → b ^ (n % q) * (b ^ q) ^ (n / q) ≡ b ^ n
power_of_parts b q n =
    rw (← pow-mul b q (n / q), ← pow-add b (n % q) (q * (n / q)))
      (ap (λ (t : ℕ). b ^ t) (omega (arith, div-add-mod n q)))

module _ {m : ℕ} where
  pub Cong-pow : {a b : ℕ} (n : ℕ) → Cong m a b → Cong m (a ^ n) (b ^ n)
  Cong-pow {a} {b} zero e = Cong-of_eq (pow-zero a ∙ sym (pow-zero b))
  Cong-pow {a} {b} (suc n) e =
      Cong-of_eq (pow-suc a n) ⊙ Cong-mul (Cong-pow n e) e ⊙ Cong-of_eq (sym (pow-suc b n))

  -- The exponent counts modulo a number q with b ^ q ≡ 1.
  pub pow-mod : (b q n : ℕ) → Cong m (b ^ q) 1 → Cong m (b ^ (n % q)) (b ^ n)
  pow-mod b q n order =
      Cong-of_eq (omega arith)
      ⊙ Cong-mul_left (b ^ (n % q))
          (Cong-sym (Cong-pow (n / q) order ⊙ Cong-of_eq (one-pow (n / q))))
      ⊙ Cong-of_eq (power_of_parts b q n)

  -- A base with b ^ suc q ≡ 1 has the inverse b ^ q.
  pub pow_inverse : (b q : ℕ) → Cong m (b ^ suc q) 1 → Cong m (b * b ^ q) 1
  pow_inverse b q order = Cong-of_eq (omega (arith, pow-suc b q)) ⊙ order

  -- Exponents that agree modulo q give the same power.
  pub pow-Cong : (b q i j : ℕ) → Cong m (b ^ q) 1 → Cong q i j → Cong m (b ^ i) (b ^ j)
  pow-Cong b q i j order e =
      Cong-sym (pow-mod b q i order) ⊙ Cong-of_eq (ap (λ t. b ^ t) e.same) ⊙ pow-mod b q j order
