-- ===== src/Number/Prime.antt =====
-- Prime moduli, and inverses modulo a prime.
use native.Mathlib.Nat.{mod-lt, div-add-mod, mul-mod_right}
use digital_election_system.Common.{
  ℕ, zero, suc, ◌+◌, ◌*◌, ◌/◌, ◌%◌, ◌≤◌, ◌<◌, ◌≡◌, ◌≢◌, refl, sym, ap, ◌∙◌, Bool, true, not, ◌&&◌,
  ◌||◌, ◌⊎◌, inl, inr, arith, ltb, ◌==◌,
}
use digital_election_system.Number.Congruence.{
  Cong, Cong-of_eq, Cong-of_multiples, Cong-sym, ◌⊙◌, Cong-mod, Cong-mul_right,
}

-- q is at least 2, and a factor of q is 1 or q.
pub record IsPrime (q : ℕ) : Type 0 where
  pub big : 1 < q
  pub factor : (a k : ℕ) → a * k ≡ q → (a ≡ 1) ⊎ (a ≡ q)

abbrev pub Inverse : ℕ → ℕ → Type 0
Inverse q a = (b : ℕ) × Cong q (a * b) 1

-- From q = a k + r with an inverse s of r, the inverse of a is -k s.
inverse_step :
    (p a k r s : ℕ)
    → a * k + r ≡ suc p
    → Cong (suc p) (r * s) 1
    → Cong (suc p) (a * (k * (p * s))) 1
inverse_step p a k r s e inverse =
    Cong-of_multiples _ (r * s) (r * s) (p * s) (omega (arith, ap (λ (t : ℕ). t * (p * s)) e))
    ⊙ inverse

by_remainder :
    (p a r : ℕ)
    → IsPrime (suc p)
    → 0 < a
    → a < suc p
    → suc p % a ≡ r
    → ((b : ℕ) → 0 < b → b < a → Inverse (suc p) b)
    → Inverse (suc p) a
by_remainder p a zero prime low high e smaller =
    elim (prime.factor a (suc p / a) (omega (arith, div-add-mod (suc p) a))) [
      | inl one ↦ (1, Cong-of_eq (omega arith))
      | inr all ↦ absurd (omega arith)
    ]
by_remainder p a (suc r) prime low high e smaller =
    let (s, inverse) = smaller (suc r) (omega arith) (omega (arith, mod-lt (suc p) low)) in
    (
      suc p / a * (p * s),
      inverse_step p a (suc p / a) (suc r) s (omega (arith, div-add-mod (suc p) a)) inverse,
    )

Inverse-below : (p n a : ℕ) → IsPrime (suc p) → 0 < a → a < suc p → a < n → Inverse (suc p) a
Inverse-below p zero a prime low high h = absurd (omega arith)
Inverse-below p (suc n) a prime low high h =
    by_remainder p a (suc p % a) prime low high refl
      (λ b pos_b less. Inverse-below p n b prime pos_b (omega arith) (omega arith))

-- Modulo a prime every number with a remainder has an inverse.
pub prime-Inverse : (q a : ℕ) → IsPrime q → a % q ≢ 0 → Inverse q a
prime-Inverse zero a prime h = absurd (omega (arith, prime.big))
prime-Inverse (suc p) a prime h =
    let (b, inverse) =
      Inverse-below p (suc p) (a % suc p) prime (omega arith) (mod-lt a (omega arith))
        (mod-lt a (omega arith)) in
    (b, Cong-mul_right b (Cong-sym (Cong-mod a)) ⊙ inverse)

-- Trial division below n.
no_factor : ℕ → ℕ → Bool
no_factor q zero = true
no_factor q (suc n) = (ltb n 2 || not (q % n == 0)) && no_factor q n

no_factor_sound : (q n a : ℕ) → no_factor q n ≡ true → a < n → 1 < a → q % a ≢ 0
unfolding no_factor
no_factor_sound q zero a e h big = absurd (omega arith)
no_factor_sound q (suc n) a e h big = ground (arith, no_factor_sound q n a)

-- Trial division by all smaller numbers proves primality.
unfoldable pub is_prime : ℕ → Bool
unfolding no_factor
is_prime q = ltb 1 q && no_factor q q

pub is_prime_sound : (q : ℕ) → is_prime q ≡ true → IsPrime q
unfolding is_prime
is_prime_sound q e = record { big = ground arith; factor = λ a k f. factors a k f }
  where
    divides : (a k : ℕ) → a * k ≡ q → q % a ≡ 0
    divides a k f = ap (λ (t : ℕ). t % a) (sym f) ∙ mul-mod_right a k

    big : 1 < q
    big = ground arith

    bound : (a k : ℕ) → suc (suc a) * suc k ≡ q → suc (suc a) ≤ q
    bound a k f = omega arith

    factors : (a k : ℕ) → a * k ≡ q → (a ≡ 1) ⊎ (a ≡ q)
    factors zero k f = absurd (omega (arith, big))
    factors (suc zero) k f = inl refl
    factors (suc (suc a)) zero f = absurd (omega (arith, big))
    factors (suc (suc a)) (suc k) f =
        ground
          (arith, bound a k f, divides (suc (suc a)) (suc k) f, no_factor_sound q q (suc (suc a)))
