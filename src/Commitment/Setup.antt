-- ===== src/Commitment/Setup.antt =====
-- server/src/SecretSharingImpl.go and util.go: the parameters of a session, as the other parts use them.
use digital_election_system.Common.{
  ℕ, ltb, false, ◌+◌, ◌-◌, ◌*◌, ◌/◌, ◌%◌, ◌^◌, ◌≤◌, ◌<◌, ◌≡◌, refl, some, arith, pos,
}
use digital_election_system.Number.Congruence.{Cong, Cong-of_eq, Cong-sym, ◌⊙◌, Cong-mod, Cong-mul}
use digital_election_system.Number.Power.{Cong-pow}
use digital_election_system.Number.{exp, emod}
use digital_election_system.Commitment.{
  ActiveSecretSharing, set_commitment_check, set_primes, bit_length, calculate_t, bc,
}
use digital_election_system.Commitment.Search.{set_commitment_values_lem, Passes}

pub record IsGroup (a : ActiveSecretSharing) : Type 0 where
  pub p_big : 1 < a.prime_p
  pub q_big : 1 < a.prime_q
  pub g_order : Cong a.prime_p (a.g ^ a.prime_q) 1
  pub h_order : Cong a.prime_p (a.h ^ a.prime_q) 1

Passes-Cong : (p q i : ℕ) → 1 < p → Passes p q i → Cong p (i ^ q) 1
unfolding set_commitment_check exp emod
Passes-Cong p q i big e =
    Cong-sym (Cong-pow q (Cong-mod i)) ⊙ Cong-sym (Cong-mod _) ⊙ Cong-of_eq (ground arith)

-- SetPrimes gives, for every p and q of 2 or more, parameters with these primes whose bases have an
-- order that divides q.
pub set_primes-IsGroup :
    (parties threshold p q : ℕ)
    → 1 < p
    → 1 < q
    → (a : ActiveSecretSharing) × (set_primes parties threshold p q ≡ some a)
      × (a.parties ≡ parties)
      × (a.threshold ≡ threshold)
      × (a.prime_p ≡ p)
      × (a.prime_q ≡ q)
      × IsGroup a
unfolding set_primes
set_primes-IsGroup parties threshold p q bp bq =
    let (g, h, e, pg, ph, _, _, _, _) = set_commitment_values_lem p q bp in
    (
      record {
        parties = parties;
        threshold = threshold;
        prime_p = p;
        prime_q = q;
        t_bit = bit_length q q - 1;
        g = g;
        h = h;
      },
      rw e,
      refl,
      refl,
      refl,
      refl,
      record {
        p_big = bp;
        q_big = bq;
        g_order = Passes-Cong p q g bp pg;
        h_order = Passes-Cong p q h bp ph;
      },
    )

largest : (n : ℕ) → 2 < n → (3 * ((n - 1) / 3) < n) × (n ≤ 3 * ((n - 1) / 3 + 1))
largest n h = (omega arith, omega arith)

-- From 3 parties on, the threshold is the largest t with 3 t < n.
pub calculate_t_lem :
    (n : ℕ) → 2 < n → (t : ℕ) × (calculate_t n ≡ some t) × (3 * t < n) × (n ≤ 3 * (t + 1))
unfolding calculate_t
calculate_t_lem n h =
    let few : ltb n 3 ≡ false = ground arith in
    let (below, above) = largest n h in ((n - 1) / 3, rw few refl, below, above)

-- Exp at exponents and bases that are not negative.
pub exp_pos : (x n m : ℕ) → exp (pos x) (pos n) m ≡ some ((x % m) ^ n % m)
unfolding exp emod
exp_pos x n m = refl

pub exp-Cong : (x n m r : ℕ) → exp (pos x) (pos n) m ≡ some r → Cong m r (x ^ n)
unfolding exp emod
exp-Cong x n m r e = Cong-of_eq (ground arith) ⊙ Cong-mod ((x % m) ^ n) ⊙ Cong-pow n (Cong-mod x)

module _ (a : ActiveSecretSharing) where
  -- The value of a commitment to numbers that are not negative.
  abbrev pub commitment : ℕ → ℕ → ℕ
  commitment s t =
      (a.g % a.prime_p) ^ s % a.prime_p * ((a.h % a.prime_p) ^ t % a.prime_p) % a.prime_p

  pub bc_pos : (s t : ℕ) → bc a (pos s) (pos t) ≡ some (commitment s t)
  unfolding bc exp emod
  bc_pos s t = refl

  pub commitment-Cong : (s t : ℕ) → Cong a.prime_p (commitment s t) (a.g ^ s * a.h ^ t)
  commitment-Cong s t =
      Cong-mod _
      ⊙ Cong-mul (Cong-mod _ ⊙ Cong-pow s (Cong-mod a.g)) (Cong-mod _ ⊙ Cong-pow t (Cong-mod a.h))
