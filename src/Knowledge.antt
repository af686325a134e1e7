-- ===== src/Knowledge.antt =====
-- server/src/SecretSharingImpl.go, the proof that a vote is 0 or 1: two conversations, one real and
-- one simulated, whose challenges add up to the value of a hash. What is drawn at random is an
-- argument; the hash shake256 and the text of an id come from other packages and are a parameter.
pub mod Completeness
pub mod Soundness
pub mod Extraction
pub mod Equal
use digital_election_system.Common.{
  ℕ, zero, suc, ◌+◌, ◌*◌, ◌/◌, ◌%◌, ◌^◌, Bool, true, false, ◌&&◌, ◌||◌, Option, none, some, ◌>>=◌,
  List, [], ◌∷◌, ◌++◌, ◌==◌, if◌then◌else◌, ℤ, pos, negsuc, ◌+ℤ◌, ◌*ℤ◌,
}
use digital_election_system.Number.{emod, exp, mod_inverse, xor}
use digital_election_system.Framework.{ZeroKnowledge}
use digital_election_system.Commitment.{ActiveSecretSharing}

-- ShakeSum256 as a function of the number of bytes and the text, and uuid's String.
pub record Oracle : Type 0 where
  pub shake : ℕ → List ℕ → List ℕ
  pub id_string : ℕ → List ℕ

-- Bytes: the absolute value, most significant byte first.
unfoldable pub to_bytes : ℕ → ℕ → List ℕ → List ℕ
to_bytes zero n acc = acc
to_bytes (suc fuel) zero acc = acc
to_bytes (suc fuel) (suc n) acc = to_bytes fuel (suc n / 256) ((suc n % 256) ∷ acc)

unfoldable pub bytes : ℤ → List ℕ
unfolding to_bytes
bytes (pos n) = to_bytes n n []
bytes (negsuc n) = to_bytes (suc n) (suc n) []

-- SetBytes
unfoldable pub of_bytes : ℕ → List ℕ → ℕ
of_bytes acc [] = acc
of_bytes acc (c ∷ cs) = of_bytes (acc * 256 + c) cs

-- A comparison of two integers, Cmp(…) == 0.
unfoldable pub equal : ℤ → ℤ → Bool
equal (pos m) (pos n) = m == n
equal (pos m) (negsuc n) = false
equal (negsuc m) (pos n) = false
equal (negsuc m) (negsuc n) = m == n

-- The errors of Verify01: the text of the returned error lists them.
pub data VerifyError : Type 0 where
  xor_mismatch : VerifyError
  non_accepting : Bool → Bool → VerifyError

module _ (o : Oracle) (a : ActiveSecretSharing) where
  -- The modulus 2 ^ TBit; division by zero panics.
  unfoldable pub random_oracle : ℤ → ℤ → ℕ → Option ℕ
  unfolding bytes of_bytes
  random_oracle a1 a2 id =
      let m = 2 ^ a.t_bit % a.prime_q in
      let s = of_bytes 0 (o.shake a.t_bit (bytes a1 ++ bytes a2 ++ o.id_string id)) in
      if m == 0 then none else some (s % m)

  -- tmp.ModInverse(tmp, p), which leaves tmp as it is if there is no inverse.
  unfoldable pub invert_in_place : ℕ → ℕ
  unfolding mod_inverse
  invert_in_place tmp = elim (mod_inverse (pos tmp) a.prime_p) [ some i ↦ i | none ↦ tmp ]

  -- The power whose inverse is the first message of a simulated conversation: of the commitment for
  -- a 0, of the commitment over g for a 1. Any other value panics.
  unfoldable pub simulated_power : ℤ → ℕ → ℤ → Option ℕ
  unfolding exp mod_inverse
  simulated_power proof0 e (pos zero) = exp proof0 (pos e) a.prime_p
  simulated_power proof0 e (pos (suc zero)) = do
    g_inv ← mod_inverse (pos a.g) a.prime_p
    exp (proof0 *ℤ pos g_inv) (pos e) a.prime_p
  simulated_power proof0 e (pos (suc (suc n))) = none
  simulated_power proof0 e (negsuc n) = none

  -- The draws of z are tried in turn until one is neither 0 nor 1; `none` if they run out.
  unfoldable pub simulate_zero_knowledge : ℤ → ℤ → List ℕ → ℕ → Option (ℕ × ℕ × ℕ)
  simulate_zero_knowledge proof0 secret [] e = none
  simulate_zero_knowledge proof0 secret (z ∷ zs) e =
      let again = simulate_zero_knowledge proof0 secret zs e in
      let answer : Option (ℕ × ℕ × ℕ) = (do
        hz ← exp (pos a.h) (pos z) a.prime_p
        tmp ← simulated_power proof0 e secret
        some (hz * invert_in_place tmp % a.prime_p, e, z)) in
      if z == 0 || z == 1 then again else answer

  -- createZeroKnowledge for a vote of 0 or 1; r, zs and e are its draws. (DEBUG is 0.) The vote comes
  -- here as the integer that SecretGen has; the source takes its Int64, which is the same for all
  -- integers of 64 bits.
  unfoldable pub create_zero_knowledge : ℕ → ℤ → ℤ → ℕ → ℕ → List ℕ → ℕ → Option ZeroKnowledge
  create_zero_knowledge g0 (pos zero) e0 vote_id r zs e = do
    first ← exp (pos a.h) (pos r) a.prime_p
    (a_sim, e_sim, z_sim) ← simulate_zero_knowledge e0 (pos 1) zs e
    s ← random_oracle (pos first) (pos a_sim) vote_id
    let challenge = xor (pos s) (pos e_sim)
    let z = emod (pos r +ℤ challenge *ℤ pos g0) a.prime_q
    some (record {
      a0 = pos first;
      e0 = challenge;
      z0 = pos z;
      a1 = pos a_sim;
      e1 = pos e_sim;
      z1 = pos z_sim;
    })
  create_zero_knowledge g0 (pos (suc zero)) e0 vote_id r zs e = do
    first ← exp (pos a.h) (pos r) a.prime_p
    (a_sim, e_sim, z_sim) ← simulate_zero_knowledge e0 (pos 0) zs e
    s ← random_oracle (pos a_sim) (pos first) vote_id
    let challenge = xor (pos s) (pos e_sim)
    let z = emod (pos r +ℤ challenge *ℤ pos g0) a.prime_q
    some (record {
      a0 = pos a_sim;
      e0 = pos e_sim;
      z0 = pos z_sim;
      a1 = pos first;
      e1 = challenge;
      z1 = pos z;
    })
  create_zero_knowledge g0 (pos (suc (suc n))) e0 vote_id r zs e = none
  create_zero_knowledge g0 (negsuc n) e0 vote_id r zs e = none

  -- h ^ z against first * base ^ e, both modulo p
  unfoldable pub accepting : ℤ → ℤ → ℤ → ℤ → Option Bool
  unfolding exp emod
  accepting base first e z = do
    hz ← exp (pos a.h) z a.prime_p
    power ← exp base e a.prime_p
    some (hz == emod (first *ℤ pos power) a.prime_p)

  -- Verify01: the list of its errors, empty for nil.
  unfoldable pub verify01 : ZeroKnowledge → ℤ → ℕ → Option (List VerifyError)
  verify01 zk e0 vote_id = do
    s ← random_oracle zk.a0 zk.a1 vote_id
    let xor_errors : List VerifyError =
        if equal (xor zk.e1 zk.e0) (pos s) then [] else xor_mismatch ∷ []
    g_inv ← mod_inverse (pos a.g) a.prime_p
    accept0 ← accepting e0 zk.a0 zk.e0 zk.z0
    accept1 ← accepting (e0 *ℤ pos g_inv) zk.a1 zk.e1 zk.z1
    some (xor_errors ++ (if accept0 && accept1 then [] else non_accepting accept0 accept1 ∷ []))
