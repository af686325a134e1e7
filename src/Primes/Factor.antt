-- ===== src/Primes/Factor.antt =====
-- server/src/util.go: what MaxPrimeFactors returns.
use digital_election_system.Common.{
  ℕ, zero, suc, ◌+◌, ◌*◌, ◌/◌, ◌%◌, ◌^◌, ◌≤◌, ◌<◌, ◌≡◌, inl, inr, refl, ap, ◌∙◌, true, false,
  Bool-cases, Option, some, pos, negsuc, if◌then◌else◌, ltb, leb, ◌==◌, arith,
}
use native.Mathlib.Nat.{pow-zero, pow-suc}
use digital_election_system.Primes.{
  Found, nothing, value, strip_twos, divide_out, odd_loop, max_found, max_prime_factors,
}

-- An i of 3 or more is never the remainder modulo 2.
divide_out-odd :
    (fuel i : ℕ) (found : Found) (n : ℕ) → 2 ≤ i → divide_out (suc fuel) i found n ≡ some (found, n)
unfolding divide_out
divide_out-odd fuel i found n h =
    let differ : (i == n % 2) ≡ false = ground (arith) in rw (divide_out, differ)

KeepsCounting : ℕ → ℕ → Found → ℕ → Type 0
KeepsCounting fuel i found n =
    (j : ℕ) × (◌≡◌ {A = Option (Found × ℕ × ℕ)} (odd_loop fuel i found n) (some (found, n, j)))

odd_loop-step :
    (fuel i : ℕ) (found : Found) (n : ℕ)
    → 3 ≤ i
    → leb (i * i) n ≡ true
    → odd_loop (suc fuel) i found n ≡ odd_loop fuel (i + 2) found n
unfolding odd_loop
odd_loop-step fuel i found n h b = rw (odd_loop, b, divide_out-odd n i found n (omega (arith, h)))

odd_loop-end :
    (fuel i : ℕ) (found : Found) (n : ℕ)
    → leb (i * i) n ≡ false
    → ◌≡◌ {A = Option (Found × ℕ × ℕ)} (odd_loop (suc fuel) i found n) (some (found, n, i))
unfolding odd_loop
odd_loop-end fuel i found n b = rw (odd_loop, b)

square_large : (i n : ℕ) → n < i → 1 ≤ i → leb (i * i) n ≡ false
square_large zero n h m = absurd (omega (arith, m))
square_large (suc i) n h m = ground arith

odd_loop_lem :
    (fuel i : ℕ) (found : Found) (n : ℕ)
    → 3 ≤ i
    → n < i + 2 * fuel
    → KeepsCounting (suc fuel) i found n
unfolding KeepsCounting
odd_loop_lem zero i found n h enough =
    (i, odd_loop-end zero i found n (square_large i n (omega arith) (omega arith)))
odd_loop_lem (suc fuel) i found n h enough = elim (Bool-cases (leb (i * i) n)) [
  | inl b ↦
      let (j, r) = odd_loop_lem fuel (i + 2) found n (omega arith) (omega arith) in
      (j, odd_loop-step (suc fuel) i found n h b ∙ r)
  | inr b ↦ (i, odd_loop-end (suc fuel) i found n b)
]

-- What the first loop has found after it has divided e times.
found_twos : ℕ → Found → Found
found_twos zero found = found
found_twos (suc e) found = value 2

twos_again : (e : ℕ) → found_twos e (value 2) ≡ value 2
unfolding found_twos
twos_again zero = refl
twos_again (suc e) = refl

strip_twos-odd :
    (fuel : ℕ) (found : Found) (m : ℕ) → m % 2 ≡ 1 → strip_twos (suc fuel) found m ≡ some (found, m)
unfolding strip_twos
strip_twos-odd fuel found m odd =
    let rest : (m % 2 == 0) ≡ false = ground arith in rw (strip_twos, rest)

strip_twos-double :
    (fuel : ℕ) (found : Found) (m : ℕ)
    → strip_twos (suc fuel) found (2 * m) ≡ strip_twos fuel (value 2) m
unfolding strip_twos
strip_twos-double fuel found m =
    let even : (2 * m % 2 == 0) ≡ true = ground arith in
    let half : 2 * m / 2 ≡ m = omega arith in rw (strip_twos, even, half)

-- The first loop divides out every 2.
strip_twos-power :
    (e fuel : ℕ) (found : Found) (m : ℕ)
    → m % 2 ≡ 1
    → e < fuel
    → strip_twos fuel found (2 ^ e * m) ≡ some (found_twos e found, m)
unfolding strip_twos found_twos
strip_twos-power e zero found m odd enough = absurd (omega (arith, enough))
strip_twos-power zero (suc fuel) found m odd enough =
    let one : 2 ^ 0 * m ≡ m = omega (arith, pow-zero 2) in
    ap (λ k. strip_twos (suc fuel) found k) one ∙ strip_twos-odd fuel found m odd
strip_twos-power (suc e) (suc fuel) found m odd enough =
    let two : 2 ^ suc e * m ≡ 2 * (2 ^ e * m) = rw pow-suc (omega arith) in
    ap (λ k. strip_twos (suc fuel) found k) two
    ∙ strip_twos-double fuel found (2 ^ e * m)
    ∙ strip_twos-power e fuel (value 2) m odd (omega arith)
    ∙ ap (λ f. some (f, m)) (twos_again e)

less_power : (e : ℕ) → e < 2 ^ e
less_power zero = omega (arith, pow-zero 2)
less_power (suc e) = omega (arith, pow-suc 2 e, less_power e)

max_found-twos :
    (e m i : ℕ)
    → m % 2 ≡ 1
    → max_found (found_twos e nothing) m i
      ≡ (if ltb 2 m then pos m else (if e == 0 then negsuc 0 else pos 2))
unfolding max_found found_twos
max_found-twos zero m i odd = elim (Bool-cases (ltb 2 m)) [
  | inl b ↦ rw (max_found, b)
  | inr b ↦ rw (max_found, b)
]
max_found-twos (suc e) m i odd =
    let two : (suc e == 0) ≡ false = ground arith in
    elim (Bool-cases (ltb 2 m)) [ inl b ↦ rw (max_found, b) | inr b ↦ rw (max_found, b, two) ]

le_multiple : (a m : ℕ) → 1 ≤ m → a ≤ a * m
le_multiple a zero h = absurd (omega (arith, h))
le_multiple a (suc m) h = omega arith

-- On 2 ^ e times an odd number m, MaxPrimeFactors ends and returns m if m is above 2, and otherwise 2
-- if e is 1 or more, and -1 for the number 1: it never finds an odd factor.
pub max_prime_factors_lem :
    (e m : ℕ)
    → m % 2 ≡ 1
    → max_prime_factors (2 ^ e * m)
      ≡ some (if ltb 2 m then pos m else (if e == 0 then negsuc 0 else pos 2))
unfolding max_prime_factors KeepsCounting
max_prime_factors_lem e m odd =
    let stripped : strip_twos (suc (2 ^ e * m)) nothing (2 ^ e * m)
        ≡ some (found_twos e nothing, m) =
      strip_twos-power e (suc (2 ^ e * m)) nothing m odd
        (omega (arith, less_power e, le_multiple (2 ^ e) m (omega arith))) in
    let (j, r) = odd_loop_lem m 3 (found_twos e nothing) m (omega arith) (omega arith) in
    rw (max_prime_factors, stripped, r, max_found-twos e m j odd)
