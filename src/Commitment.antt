-- ===== src/Commitment.antt =====
-- server/src/SecretSharingImpl.go, the parameters of a session: the struct ActiveSecretSharing, its
-- constructor, the search for the bases of the commitments, and the commitment BC; and CalculateT of
-- server/src/util.go. The primes are natural numbers. `none` is a panic; the search has fuel for
-- every modulus of 2 or more.
pub mod Search
pub mod Setup
use digital_election_system.Common.{
  ℕ, zero, suc, ◌+◌, ◌-◌, ◌*◌, ◌/◌, ◌%◌, Bool, true, false, Option, none, some, ◌>>=◌, List, [],
  ◌∷◌, ltb, ◌==◌, if◌then◌else◌, ℤ, pos, negsuc,
}
use digital_election_system.Number.{exp}
use digital_election_system.Framework.Decimal.{set_string}

pub record ActiveSecretSharing : Type 0 where
  pub parties : ℕ
  pub threshold : ℕ
  pub prime_p : ℕ
  pub prime_q : ℕ
  pub t_bit : ℕ
  pub g : ℕ
  pub h : ℕ

-- t < n / 3
unfoldable pub calculate_t : ℕ → Option ℕ
calculate_t parties = if ltb parties 3 then none else some ((parties - 1) / 3)

-- BitLen
unfoldable pub bit_length : ℕ → ℕ → ℕ
bit_length zero n = 0
bit_length (suc fuel) zero = 0
bit_length (suc fuel) (suc n) = suc (bit_length fuel (suc n / 2))

-- _setCommitmentCheck: i if i ^ q ≡ 1 (mod p)
unfoldable pub set_commitment_check : ℕ → ℕ → ℕ → Option ℕ
unfolding exp
set_commitment_check p q i = exp (pos i) (pos q) p >>= λ r. if r == 1 then some i else none

-- The loop of SetCommitmentValues; `none` means that the fuel ran out.
unfoldable pub commitment_loop : ℕ → ℕ → ℕ → Option ℕ → Option ℕ → ℕ → Option (ℕ × ℕ)
commitment_loop p q zero g h i = none
commitment_loop p q (suc fuel) none h i =
    commitment_loop p q fuel (set_commitment_check p q i) h (i + 1)
commitment_loop p q (suc fuel) (some g) none i =
    commitment_loop p q fuel (some g) (set_commitment_check p q i) (i + 1)
commitment_loop p q (suc fuel) (some g) (some h) i = some (g, h)

unfoldable pub set_commitment_values : ℕ → ℕ → Option (ℕ × ℕ)
unfolding commitment_loop set_commitment_check
set_commitment_values p q = commitment_loop p q (2 * p + 2) none none 2

-- SetPrimes, on a struct that holds the first two fields.
unfoldable pub set_primes : ℕ → ℕ → ℕ → ℕ → Option ActiveSecretSharing
unfolding set_commitment_values bit_length
set_primes parties threshold p q = do
  (g, h) ← set_commitment_values p q
  some (record {
    parties = parties;
    threshold = threshold;
    prime_p = p;
    prime_q = q;
    t_bit = bit_length q q - 1;
    g = g;
    h = h;
  })

-- The moduli that are modelled are not negative. (Exp of math/big ignores the sign of its modulus, so
-- that the source goes on with a negative one; that is left out here, as a panic.)
unfoldable pub natural : ℤ → Option ℕ
natural (pos n) = some n
natural (negsuc n) = none

-- NewActiveSecretSharing: the primes of the texts, or 23 and 11 where none are given.
unfoldable pub new_active_secret_sharing : ℕ → List (List ℕ) → Option ActiveSecretSharing
unfolding calculate_t set_primes
new_active_secret_sharing parties [] = do t ← calculate_t parties; set_primes parties t 23 11
new_active_secret_sharing parties (p ∷ []) = none
new_active_secret_sharing parties (p ∷ q ∷ rest) = do
  t ← calculate_t parties
  p' ← set_string p
  q' ← set_string q
  p'' ← natural p'
  q'' ← natural q'
  set_primes parties t p'' q''

-- BC: g ^ s * h ^ t mod p
unfoldable pub bc : ActiveSecretSharing → ℤ → ℤ → Option ℕ
unfolding exp
bc a s t = do
  gexp ← exp (pos a.g) s a.prime_p
  hexp ← exp (pos a.h) t a.prime_p
  some (gexp * hexp % a.prime_p)
