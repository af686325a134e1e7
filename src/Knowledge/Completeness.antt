-- ===== src/Knowledge/Completeness.antt =====
-- server/src/SecretSharingImpl.go: createZeroKnowledge followed by Verify01.
use Prim.Native.Nat.{bit_xor}
use native.Mathlib.Nat.{pow-zero, pow-suc}
use digital_election_system.Common.{
  ℕ, zero, suc, ◌+◌, ◌-◌, ◌*◌, ◌%◌, ◌^◌, ◌≤◌, ◌<◌, ◌≡◌, refl, sym, ap, ◌∙◌, true, ◌||◌, Option,
  none, some, List, [], ◌∷◌, arith, ◌==◌, ==_iff, if◌then◌else◌, ℤ, pos, ◌+ℤ◌, ◌*ℤ◌,
}
use digital_election_system.Number.Congruence.{
  Cong, Cong-of_eq, Cong-sym, ◌⊙◌, Cong-mod, Cong-mul, Cong-mul_left, Cong-mul_right,
}
use digital_election_system.Number.Residue.{residue_pos, pos-*ℤ, pos-+ℤ, emod_pos}
use digital_election_system.Number.Power.{
  Cong-pow, pow-add, pow-mul, mul-pow, one-pow, pow-mod, pow_inverse,
}
use digital_election_system.Number.Inverse.{mod_inverse_sound, mod_inverse_complete}
use digital_election_system.Number.Xor.{xor-xor_right, xor-xor_left}
use digital_election_system.Number.{emod, exp, mod_inverse, xor}
use digital_election_system.Framework.{ZeroKnowledge}
use digital_election_system.Commitment.{ActiveSecretSharing}
use digital_election_system.Commitment.Setup.{IsGroup, commitment, commitment-Cong}
use digital_election_system.Knowledge.Equal.{equal_self}
use digital_election_system.Knowledge.{
  Oracle, random_oracle, simulated_power, invert_in_place, simulate_zero_knowledge,
  create_zero_knowledge, accepting, verify01,
}

regroup : (x y z : ℕ) → x * y * z ≡ x * (z * y)
regroup x y z = omega arith

module _ (o : Oracle) (a : ActiveSecretSharing) where
  abbrev p : ℕ
  p = a.prime_p

  -- A conversation is accepted if h ^ z ≡ first * base ^ e.
  pub accepting_pos :
      (base first e z : ℕ)
      → Cong p (a.h ^ z) (first * base ^ e)
      → accepting o a (pos base) (pos first) (pos e) (pos z) ≡ some true
  unfolding accepting exp emod
  accepting_pos base first e z c = ap some (
      (==_iff _ _).1 (
        left.same ∙ c.same ∙ sym right.same ∙ sym (ap (λ t. emod t p) (pos-*ℤ _ _) ∙ emod_pos _ p)))
    where
      left : Cong p ((a.h % p) ^ z) (a.h ^ z)
      left = Cong-pow z (Cong-mod a.h)

      right : Cong p (first * ((base % p) ^ e % p)) (first * base ^ e)
      right = Cong-mul_left first (Cong-mod _ ⊙ Cong-pow e (Cong-mod base))

  power_unit : (u v n : ℕ) → Cong p (u * v) 1 → Cong p (u ^ n * v ^ n) 1
  power_unit u v n unit =
      Cong-of_eq (sym (mul-pow u v n)) ⊙ Cong-pow n unit ⊙ Cong-of_eq (one-pow n)

  order_unit :
      (b : ℕ) → 1 < a.prime_q → Cong p (b ^ a.prime_q) 1 → Cong p (b * b ^ (a.prime_q - 1)) 1
  order_unit b big order =
      pow_inverse b (a.prime_q - 1) (Cong-of_eq (ap (λ (t : ℕ). b ^ t) (omega arith)) ⊙ order)

  invert_in_place_lem :
      (tmp v : ℕ) → 0 < p → Cong p (tmp * v) 1 → Cong p (tmp * invert_in_place o a tmp) 1
  unfolding invert_in_place
  invert_in_place_lem tmp v positive unit =
      let (x, e) =
        mod_inverse_complete p positive (pos tmp) v
          (Cong-of_eq (ap (λ (t : ℕ). t * v) (residue_pos p tmp)) ⊙ unit) in
      rw (e, invert_in_place)
        (Cong-of_eq (ap (λ (t : ℕ). t * x) (sym (residue_pos p tmp)))
          ⊙ (mod_inverse_sound p positive (pos tmp) x e).0)

  -- The real conversation: the committed value is h ^ x.
  accepting_real :
      (base x r e : ℕ)
      → IsGroup a
      → Cong p base (a.h ^ x)
      → accepting o a
          (pos base)
          (pos ((a.h % p) ^ r % p))
          (pos e)
          (pos (emod (pos r +ℤ pos e *ℤ pos x) a.prime_q))
        ≡ some true
  accepting_real base x r e group c = accepting_pos base _ e _ exponents
    where
      exponent : emod (pos r +ℤ pos e *ℤ pos x) a.prime_q ≡ (r + x * e) % a.prime_q
      exponent =
          ap (λ t. emod t a.prime_q) (ap (λ t. pos r +ℤ t) (pos-*ℤ e x) ∙ pos-+ℤ r (e * x))
          ∙ emod_pos (r + e * x) a.prime_q
          ∙ ap (λ (t : ℕ). t % a.prime_q) (omega arith)

      exponents :
          Cong p (a.h ^ emod (pos r +ℤ pos e *ℤ pos x) a.prime_q) ((a.h % p) ^ r % p * base ^ e)
      exponents =
          Cong-of_eq (ap (λ (t : ℕ). a.h ^ t) exponent)
          ⊙ pow-mod a.h a.prime_q (r + x * e) group.h_order
          ⊙ Cong-of_eq (pow-add a.h r (x * e))
          ⊙ Cong-mul (Cong-sym (Cong-mod _ ⊙ Cong-pow r (Cong-mod a.h)))
              (Cong-of_eq (pow-mul a.h x e) ⊙ Cong-sym (Cong-pow e c))

  -- The simulated conversation, for a base that has an inverse.
  accepting_simulated :
      (base u e z : ℕ)
      → 0 < p
      → Cong p (base * u) 1
      → accepting o a
          (pos base)
          (pos ((a.h % p) ^ z % p * invert_in_place o a ((base % p) ^ e % p) % p))
          (pos e)
          (pos z)
        ≡ some true
  accepting_simulated base u e z positive unit =
      accepting_pos base _ e z
        (Cong-sym (Cong-pow z (Cong-mod a.h)) ⊙ Cong-sym (Cong-mod _) ⊙ cancelled)
    where
      tmp : ℕ
      tmp = (base % p) ^ e % p

      tmp_power : Cong p tmp (base ^ e)
      tmp_power = Cong-mod _ ⊙ Cong-pow e (Cong-mod base)

      inverse : Cong p (tmp * invert_in_place o a tmp) 1
      inverse =
          invert_in_place_lem tmp (u ^ e) positive
            (Cong-mul_right (u ^ e) tmp_power ⊙ power_unit base u e unit)

      cancelled :
          Cong p ((a.h % p) ^ z % p) ((a.h % p) ^ z % p * invert_in_place o a tmp % p * base ^ e)
      cancelled = Cong-sym (
          Cong-mul (Cong-mod _) (Cong-sym tmp_power)
          ⊙ Cong-of_eq (regroup ((a.h % p) ^ z % p) (invert_in_place o a tmp) tmp)
          ⊙ Cong-mul_left ((a.h % p) ^ z % p) inverse
          ⊙ Cong-of_eq (omega arith))

  -- The first draw of z that the simulator takes.
  abbrev pub first_usable : List ℕ → Option ℕ
  first_usable [] = none
  first_usable (z ∷ zs) = if z == 0 || z == 1 then first_usable zs else some z

  simulate_lem :
      (proof0 secret : ℤ) (zs : List ℕ) (e tmp z : ℕ)
      → simulated_power o a proof0 e secret ≡ some tmp
      → first_usable zs ≡ some z
      → simulate_zero_knowledge o a proof0 secret zs e
        ≡ some ((a.h % p) ^ z % p * invert_in_place o a tmp % p, e, z)
  unfolding simulate_zero_knowledge exp emod
  simulate_lem proof0 secret [] e tmp z sp f = cc
  simulate_lem proof0 secret (y ∷ zs) e tmp z sp f =
      ground (arith, simulate_lem proof0 secret zs e tmp z sp)

  pub random_oracle_total :
      (x y : ℤ) (id : ℕ)
      → 0 < 2 ^ a.t_bit % a.prime_q
      → (s : ℕ) × (random_oracle o a x y id ≡ some s)
  unfolding random_oracle
  random_oracle_total x y id h = (_, if_false (2 ^ a.t_bit % a.prime_q) h)
    where
      if_false : {x : Option ℕ} (m : ℕ) → 0 < m → (if m == 0 then none else x) ≡ x
      if_false m h = ground arith

  pub verify01_lem :
      (x0 x1 y0 y1 z0 z1 c s i : ℕ) (id : ℕ)
      → random_oracle o a (pos x0) (pos x1) id ≡ some s
      → xor (pos y1) (pos y0) ≡ pos s
      → mod_inverse (pos a.g) p ≡ some i
      → accepting o a (pos c) (pos x0) (pos y0) (pos z0) ≡ some true
      → accepting o a (pos (c * i)) (pos x1) (pos y1) (pos z1) ≡ some true
      → verify01 o a
          (record { a0 = pos x0; e0 = pos y0; z0 = pos z0; a1 = pos x1; e1 = pos y1; z1 = pos z1 })
          (pos c)
          id
        ≡ some []
  unfolding verify01
  verify01_lem x0 x1 y0 y1 z0 z1 c s i id ro xo inv acc0 acc1 =
      rw (ro, inv, pos-*ℤ c i, acc0, acc1, xo, equal_self (pos s)) refl

  pub g_inverse : IsGroup a → (i : ℕ) × (mod_inverse (pos a.g) p ≡ some i) × Cong p (a.g * i) 1
  g_inverse group =
      let (i, e) = mod_inverse_complete p (omega arith) (pos a.g) (a.g ^ (a.prime_q - 1)) (
        Cong-of_eq (ap (λ (t : ℕ). t * a.g ^ (a.prime_q - 1)) (residue_pos p a.g))
        ⊙ order_unit a.g group.q_big group.g_order) in
      (
        i,
        e,
        Cong-of_eq (ap (λ (t : ℕ). t * i) (sym (residue_pos p a.g)))
            ⊙ (mod_inverse_sound p (omega arith) (pos a.g) i e).0,
      )

  h_power_unit : IsGroup a → (x : ℕ) → Cong p (a.h ^ x * (a.h ^ (a.prime_q - 1)) ^ x) 1
  h_power_unit group x = power_unit a.h _ x (order_unit a.h group.q_big group.h_order)

  -- A commitment to 0 is a power of h, and so is a commitment to 1 over g.
  commit_zero : (x : ℕ) → Cong p (commitment a 0 x) (a.h ^ x)
  commit_zero x = commitment-Cong a 0 x ⊙ Cong-of_eq (rw pow-zero (omega arith))

  commit_one : (x i : ℕ) → Cong p (a.g * i) 1 → Cong p (commitment a 1 x * i) (a.h ^ x)
  commit_one x i inverse =
      Cong-mul_right i (commitment-Cong a 1 x)
      ⊙ Cong-of_eq (rw (pow-suc, pow-zero) (omega arith))
      ⊙ Cong-mul_right (a.h ^ x) inverse
      ⊙ Cong-of_eq (omega arith)

  simulated_power_zero : (c e : ℕ) → simulated_power o a (pos c) e (pos 0) ≡ some ((c % p) ^ e % p)
  unfolding simulated_power exp emod
  simulated_power_zero c e = refl

  simulated_power_one :
      (c e i : ℕ)
      → mod_inverse (pos a.g) p ≡ some i
      → simulated_power o a (pos c) e (pos 1) ≡ some (((c * i) % p) ^ e % p)
  unfolding simulated_power exp emod
  simulated_power_one c e i inv = rw (inv, pos-*ℤ c i) refl

  module _ (group : IsGroup a) (id r e z : ℕ) (zs : List ℕ) (usable : first_usable zs ≡ some z)
      (oracle_on : 0 < 2 ^ a.t_bit % a.prime_q) where
    abbrev Proves : ℕ → ℕ → Type 0
    Proves secret x =
        (zk : ZeroKnowledge) × (create_zero_knowledge o a x (pos secret)
            (pos (commitment a secret x)) id r zs e
          ≡ some zk)
        × (verify01 o a zk (pos (commitment a secret x)) id ≡ some [])

    Proves-zero : (x : ℕ) → Proves 0 x
    unfolding create_zero_knowledge exp emod xor
    Proves-zero x =
        let (i, inv, inverse) = g_inverse group in
        let c = commitment a 0 x in
        let first = (a.h % p) ^ r % p in
        let tmp = ((c * i) % p) ^ e % p in
        let a_sim = (a.h % p) ^ z % p * invert_in_place o a tmp % p in
        let (s, ro) = random_oracle_total (pos first) (pos a_sim) id oracle_on in
        (
          _,
          rw (simulate_lem (pos c) (pos 1) zs e tmp z (simulated_power_one c e i inv) usable, ro)
              refl,
          verify01_lem first a_sim (bit_xor s e) e _ z c s i id ro (xor-xor_left s e) inv
              (accepting_real c x r (bit_xor s e) group (commit_zero x))
              (accepting_simulated (c * i) _ e z (omega arith) (over_g_unit x i inverse)),
        )
      where
        over_g_unit :
            (x i : ℕ)
            → Cong p (a.g * i) 1
            → Cong p (commitment a 0 x * i * (a.g * (a.h ^ (a.prime_q - 1)) ^ x)) 1
        over_g_unit x i inverse =
            Cong-of_eq (omega arith)
            ⊙ Cong-mul (Cong-mul_right _ (commit_zero x) ⊙ h_power_unit group x) inverse

    Proves-one : (x : ℕ) → Proves 1 x
    unfolding create_zero_knowledge exp emod xor
    Proves-one x =
        let (i, inv, inverse) = g_inverse group in
        let c = commitment a 1 x in
        let first = (a.h % p) ^ r % p in
        let tmp = (c % p) ^ e % p in
        let a_sim = (a.h % p) ^ z % p * invert_in_place o a tmp % p in
        let (s, ro) = random_oracle_total (pos a_sim) (pos first) id oracle_on in
        (
          _,
          rw (simulate_lem (pos c) (pos 0) zs e tmp z (simulated_power_zero c e) usable, ro) refl,
          verify01_lem a_sim first e (bit_xor s e) z _ c s i id ro (xor-xor_right s e) inv
              (accepting_simulated c _ e z (omega arith) (commitment_unit x))
              (accepting_real (c * i) x r (bit_xor s e) group (commit_one x i inverse)),
        )
      where
        commitment_unit :
            (x : ℕ)
            → Cong p (commitment a 1 x * (a.g ^ (a.prime_q - 1) * (a.h ^ (a.prime_q - 1)) ^ x)) 1
        commitment_unit x =
            Cong-mul_right _ (commitment-Cong a 1 x)
            ⊙ Cong-of_eq (rw (pow-suc, pow-zero) (omega arith))
            ⊙ Cong-mul (order_unit a.g group.q_big group.g_order) (h_power_unit group x)

    -- A proof that createZeroKnowledge makes for a vote of 0 or 1 passes Verify01, whatever was drawn.
    -- It makes one if a draw of z is neither 0 nor 1 and the modulus of the hash is not 0. The bases
    -- have an order that divides q.
    pub verify01-create_zero_knowledge : (secret x : ℕ) → secret ≤ 1 → Proves secret x
    verify01-create_zero_knowledge zero x h = Proves-zero x
    verify01-create_zero_knowledge (suc zero) x h = Proves-one x
    verify01-create_zero_knowledge (suc (suc n)) x h = absurd (omega arith)
