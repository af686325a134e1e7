-- ===== src/Sharing/Dealing.antt =====
-- server/src/SecretSharingImpl.go: the shares that SecretGen deals, and VerifyShare on them.
use native.Mathlib.Nat.{pow-zero, pow-suc, mul-zero, one-mul, mod-mod}
use native.Mathlib.Numerals.{add-one}
use digital_election_system.Common.{
  ℕ, zero, suc, ◌+◌, ◌*◌, ◌%◌, ◌^◌, ◌≤◌, ◌<◌, ◌≡◌, refl, sym, ap, ◌∙◌, true, Option, none, some,
  ◌>>=◌, List, [], ◌∷◌, arith, length, All, ℤ, pos, ◌*ℤ◌,
}
use digital_election_system.Number.Congruence.{
  Cong, Cong-of_eq, Cong-refl, Cong-sym, ◌⊙◌, Cong-mod, Cong-mul, Cong-mul_left, Cong-mul_right,
  Cong-add, Cong-add_left,
}
use digital_election_system.Number.Power.{Cong-pow, pow-add, pow-mul, mul-pow, pow-mod}
use digital_election_system.Number.Residue.{pos-*ℤ, pos-+ℤ, emod_pos}
use digital_election_system.Number.{emod, exp, power}
use digital_election_system.Framework.{Share, ZeroKnowledge, new_share}
use digital_election_system.Commitment.{ActiveSecretSharing}
use digital_election_system.Commitment.Setup.{IsGroup, commitment, commitment-Cong, bc_pos}
use digital_election_system.Knowledge.{Oracle}
use digital_election_system.Knowledge.Completeness.{first_usable, verify01-create_zero_knowledge}
use digital_election_system.Sharing.Interpolation.{eval}
use digital_election_system.Sharing.{
  polynomial_loop, polynomial, coefficients, commit_all, deal, first, secret_gen, Draws, proof_loop,
  verify_share, verify_knowledge,
}

-- The coefficients as integers.
abbrev pub integers : List ℕ → List ℤ
integers [] = []
integers (c ∷ cs) = pos c ∷ integers cs

-- What the loop of polynomial adds up to.
polynomial_sum : ℕ → ℕ → ℕ → ℕ → List ℕ → ℕ
polynomial_sum q x value i [] = value
polynomial_sum q x value i (c ∷ cs) = polynomial_sum q x (value + (x % q) ^ i % q * c) (i + 1) cs

polynomial_loop_pos :
    (q x value i : ℕ) (cs : List ℕ)
    → polynomial_loop q (pos x) (pos value) i (integers cs)
      ≡ some (pos (polynomial_sum q x value i cs))
unfolding polynomial_loop polynomial_sum exp emod
polynomial_loop_pos q x value i [] = refl
polynomial_loop_pos q x value i (c ∷ cs) =
    rw (pos-*ℤ ((x % q) ^ i % q) c, pos-+ℤ value ((x % q) ^ i % q * c))
      (polynomial_loop_pos q x (value + (x % q) ^ i % q * c) (i + 1) cs)

polynomial_sum-Cong :
    (q x value i : ℕ) (cs : List ℕ)
    → Cong q (polynomial_sum q x value i cs) (value + x ^ i * eval cs x)
unfolding polynomial_sum eval
polynomial_sum-Cong q x value i [] = Cong-of_eq (omega arith)
polynomial_sum-Cong q x value i (c ∷ cs) =
    polynomial_sum-Cong q x (value + (x % q) ^ i % q * c) (i + 1) cs
    ⊙ Cong-add (Cong-add_left value (Cong-mul_right c (Cong-mod _ ⊙ Cong-pow i (Cong-mod x))))
        (Cong-refl (x ^ (i + 1) * eval cs x))
    ⊙ Cong-of_eq (rw (add-one, pow-suc) (omega arith))

power_one : (x : ℕ) → x ^ 1 ≡ x
power_one x = rw (pow-suc, pow-zero) (omega arith)

-- The source's evaluation of a polynomial is Horner's rule modulo q.
pub polynomial-eval :
    (a : ActiveSecretSharing) (x c : ℕ) (cs : List ℕ)
    → polynomial a (pos x) (integers (c ∷ cs)) ≡ some (eval (c ∷ cs) x % a.prime_q)
unfolding polynomial eval
polynomial-eval a x c cs =
    ap (λ r. r >>= λ value. some (emod value a.prime_q)) (polynomial_loop_pos a.prime_q x c 1 cs)
    ∙ ap some (
        emod_pos (polynomial_sum a.prime_q x c 1 cs) a.prime_q
        ∙ (polynomial_sum-Cong a.prime_q x c 1 cs
            ⊙ Cong-of_eq (ap (λ (t : ℕ). c + t * eval cs x) (power_one x))).same)

-- The commitments and their product.
unfoldable pub commitments : ActiveSecretSharing → List ℕ → List ℕ → List ℕ
commitments a [] gs = []
commitments a (f ∷ fs) [] = []
commitments a (f ∷ fs) (g ∷ gs) = commitment a f g ∷ commitments a fs gs

commit_all_pos :
    (a : ActiveSecretSharing) (fs gs : List ℕ)
    → commit_all a (integers fs) (integers gs) ≡ some (integers (commitments a fs gs))
unfolding commit_all commitments
commit_all_pos a [] gs = refl
commit_all_pos a (f ∷ fs) [] = refl
commit_all_pos a (f ∷ fs) (g ∷ gs) = rw (bc_pos a f g, commit_all_pos a fs gs) refl

pub power_pos : (x i : ℕ) → power (pos x) i ≡ pos (x ^ i)
unfolding power
power_pos x zero = ap pos (sym (pow-zero x))
power_pos x (suc i) =
    ap (λ t. t *ℤ pos x) (power_pos x i) ∙ pos-*ℤ (x ^ i) x ∙ ap pos (sym (pow-suc x i))

proof_product : ℕ → ℕ → ℕ → ℕ → List ℕ → ℕ
proof_product p x acc i [] = acc
proof_product p x acc i (c ∷ cs) = proof_product p x (acc * ((c % p) ^ (x ^ i) % p)) (i + 1) cs

proof_loop_pos :
    (p x acc i : ℕ) (cs : List ℕ)
    → proof_loop p (pos x) acc i (integers cs) ≡ some (proof_product p x acc i cs)
unfolding proof_loop proof_product exp emod
proof_loop_pos p x acc i [] = refl
proof_loop_pos p x acc i (c ∷ cs) =
    rw (power_pos x i) (proof_loop_pos p x (acc * ((c % p) ^ (x ^ i) % p)) (i + 1) cs)

factor_power :
    (a : ActiveSecretSharing) (f g n : ℕ)
    → Cong a.prime_p
        ((commitment a f g % a.prime_p) ^ n % a.prime_p)
        (a.g ^ (f * n) * a.h ^ (g * n))
factor_power a f g n =
    Cong-mod _
    ⊙ Cong-pow n (Cong-mod (commitment a f g) ⊙ commitment-Cong a f g)
    ⊙ Cong-of_eq (rw (mul-pow (a.g ^ f) (a.h ^ g) n, ← pow-mul a.g f n, ← pow-mul a.h g n))

join_powers : (b n x f v : ℕ) → b ^ (f * n) * b ^ (n * x * v) ≡ b ^ (n * (f + x * v))
join_powers b n x f v = sym (pow-add b (f * n) (n * x * v)) ∙ ap (λ (t : ℕ). b ^ t) (omega arith)

regroup : (acc u v y z m n : ℕ) → u * y ≡ m → v * z ≡ n → acc * (u * v) * (y * z) ≡ acc * (m * n)
regroup acc u v y z m n e e' = rw (← e, ← e') (omega arith)

-- The product is a commitment to the values of the two polynomials at the point.
proof_product-Cong :
    (a : ActiveSecretSharing) (x acc i : ℕ) (fs gs : List ℕ)
    → length fs ≡ length gs
    → Cong a.prime_p
        (proof_product a.prime_p x acc i (commitments a fs gs))
        (acc * (a.g ^ (x ^ i * eval fs x) * a.h ^ (x ^ i * eval gs x)))
unfolding proof_product commitments eval
proof_product-Cong a x acc i [] [] e = Cong-of_eq (rw (mul-zero, pow-zero, pow-zero) (omega arith))
proof_product-Cong a x acc i [] (g ∷ gs) e = absurd (omega arith)
proof_product-Cong a x acc i (f ∷ fs) [] e = absurd (omega arith)
proof_product-Cong a x acc i (f ∷ fs) (g ∷ gs) e =
    proof_product-Cong a x (acc * ((commitment a f g % a.prime_p) ^ (x ^ i) % a.prime_p)) (i + 1) fs
      gs (omega arith)
    ⊙ Cong-mul (Cong-mul_left acc (factor_power a f g (x ^ i))) (Cong-refl _)
    ⊙ Cong-of_eq (
        rw (add-one i, pow-suc x i)
          (regroup acc _ _ _ _ _ _ (join_powers a.g (x ^ i) x f (eval fs x))
            (join_powers a.h (x ^ i) x g (eval gs x))))

-- A share whose values are those of the committed polynomials fits the commitments.
proof_loop-fits :
    (a : ActiveSecretSharing) (x : ℕ) (fs gs : List ℕ)
    → IsGroup a
    → length fs ≡ length gs
    → commitment a (eval fs x % a.prime_q) (eval gs x % a.prime_q)
      ≡ proof_product a.prime_p x 1 0 (commitments a fs gs) % a.prime_p
proof_loop-fits a x fs gs group e =
    sym (mod-mod _ a.prime_p)
    ∙ (commitment-Cong a _ _
        ⊙ Cong-mul (pow-mod a.g a.prime_q (eval fs x) group.g_order)
            (pow-mod a.h a.prime_q (eval gs x) group.h_order)
        ⊙ Cong-of_eq (sym (rw (pow-zero x, one-mul (eval fs x), one-mul (eval gs x)) (one-mul _)))
        ⊙ Cong-sym (proof_product-Cong a x 1 0 fs gs e)).same

-- The share of the point x, for two polynomials given by their coefficients.
abbrev pub share_at : ActiveSecretSharing → ℕ → List ℕ → List ℕ → ℕ → Share
share_at a id fs gs x =
    new_share (pos x) id (pos (eval fs x % a.prime_q)) (pos (eval gs x % a.prime_q))

abbrev pub shares_from : ActiveSecretSharing → ℕ → List ℕ → List ℕ → ℕ → ℕ → List Share
shares_from a id fs gs x zero = []
shares_from a id fs gs x (suc n) = share_at a id fs gs x ∷ shares_from a id fs gs (x + 1) n

deal_lem :
    (a : ActiveSecretSharing) (id f : ℕ) (fs : List ℕ) (g : ℕ) (gs : List ℕ) (x n : ℕ)
    → deal a id (integers (f ∷ fs)) (integers (g ∷ gs)) x n
      ≡ some (shares_from a id (f ∷ fs) (g ∷ gs) x n)
unfolding deal
deal_lem a id f fs g gs x zero = refl
deal_lem a id f fs g gs x (suc n) =
    rw (polynomial-eval a x f fs, polynomial-eval a x g gs, deal_lem a id f fs g gs (x + 1) n) refl

-- The share of any point of the committed polynomials is accepted if the proof of knowledge is.
pub verify_share-share_at :
    (o : Oracle) (a : ActiveSecretSharing) (id x : ℕ) (fs gs : List ℕ)
    (knowledge : Option ZeroKnowledge)
    → IsGroup a
    → length fs ≡ length gs
    → verify_share o a (share_at a id fs gs x) (integers (commitments a fs gs)) knowledge
      ≡ verify_knowledge o a id (integers (commitments a fs gs)) knowledge
unfolding verify_share
verify_share-share_at o a id x fs gs knowledge group e =
    rw
      (
        bc_pos a (eval fs x % a.prime_q) (eval gs x % a.prime_q),
        proof_loop_pos a.prime_p x 1 0 (commitments a fs gs),
      )
      (ground (arith, proof_loop-fits a x fs gs group e))

abbrev pub naturals : (ℕ → ℕ) → ℕ → ℕ → List ℕ
naturals draw i zero = []
naturals draw i (suc n) = draw i ∷ naturals draw (i + 1) n

pub length-naturals : (draw : ℕ → ℕ) (i n : ℕ) → length (naturals draw i n) ≡ n
length-naturals draw i zero = refl
length-naturals draw i (suc n) = ap suc (length-naturals draw (i + 1) n)

coefficients_lem : (draw : ℕ → ℕ) (i n : ℕ) → coefficients draw i n ≡ integers (naturals draw i n)
unfolding coefficients
coefficients_lem draw i zero = refl
coefficients_lem draw i (suc n) = ap (λ l. pos (draw i) ∷ l) (coefficients_lem draw (i + 1) n)

-- The coefficients of the polynomials that SecretGen draws.
abbrev pub f_coefs : ActiveSecretSharing → ℕ → Draws → List ℕ
f_coefs a secret d = secret ∷ naturals d.f_coef 1 a.threshold

abbrev pub g_coefs : ActiveSecretSharing → Draws → List ℕ
g_coefs a d = d.g0 ∷ naturals d.g_coef 1 a.threshold

pub length-f_coefs :
    (a : ActiveSecretSharing) (secret : ℕ) (d : Draws)
    → length (f_coefs a secret d) ≡ a.threshold + 1
length-f_coefs a secret d = omega (arith, length-naturals d.f_coef 1 a.threshold)

shares_from-All :
    (P : Share → Type 0) (a : ActiveSecretSharing) (id : ℕ) (fs gs : List ℕ) (x n : ℕ)
    → ((y : ℕ) → P (share_at a id fs gs y))
    → All P (shares_from a id fs gs x n)
shares_from-All P a id fs gs x zero h = tt
shares_from-All P a id fs gs x (suc n) h = (h x, shares_from-All P a id fs gs (x + 1) n h)

pub length-shares_from :
    (a : ActiveSecretSharing) (id : ℕ) (fs gs : List ℕ) (x n : ℕ)
    → length (shares_from a id fs gs x n) ≡ n
length-shares_from a id fs gs x zero = refl
length-shares_from a id fs gs x (suc n) = ap suc (length-shares_from a id fs gs (x + 1) n)

module _ (o : Oracle) (a : ActiveSecretSharing) (d : Draws) {z : ℕ} where
  -- What SecretGen returns for a vote of 0 or 1.
  pub secret_gen_lem :
      (secret : ℕ)
      → IsGroup a
      → first_usable o a d.zs ≡ some z
      → 0 < 2 ^ a.t_bit % a.prime_q
      → secret ≤ 1
      → (zk : ZeroKnowledge) × (secret_gen o a (pos secret) d
          ≡ some (
            shares_from a d.vote_id (f_coefs a secret d) (g_coefs a d) 1 a.parties,
            integers (commitments a (f_coefs a secret d) (g_coefs a d)),
            zk,
          ))
        × (verify_knowledge o a d.vote_id
              (integers (commitments a (f_coefs a secret d) (g_coefs a d)))
              (some zk)
            ≡ some true)
  unfolding secret_gen first verify_knowledge commitments
  secret_gen_lem secret group usable oracle_on h =
      let (zk, made, verified) =
        verify01-create_zero_knowledge o a group d.vote_id d.r d.e z d.zs usable oracle_on secret
          d.g0 h in
      (
        zk,
        rw
            (
              coefficients_lem d.f_coef 1 a.threshold,
              coefficients_lem d.g_coef 1 a.threshold,
              commit_all_pos a (f_coefs a secret d) (g_coefs a d),
              made,
              deal_lem a d.vote_id secret (naturals d.f_coef 1 a.threshold) d.g0
                  (naturals d.g_coef 1 a.threshold) 1 a.parties,
            )
            refl,
        rw verified refl,
      )

  -- SecretGen succeeds on a vote of 0 or 1 and deals one share to each party. Every share passes
  -- VerifyShare, with the proof of knowledge and without it. The bases have an order that divides q, the
  -- modulus of the hash is not 0, and a draw of z is neither 0 nor 1.
  pub verify_share-secret_gen :
      (secret : ℕ)
      → IsGroup a
      → first_usable o a d.zs ≡ some z
      → 0 < 2 ^ a.t_bit % a.prime_q
      → secret ≤ 1
      → (shares : List Share) × (proof : List ℤ) × (zk : ZeroKnowledge) × (secret_gen o a
            (pos secret)
            d
          ≡ some (shares, proof, zk))
        × (length shares ≡ a.parties)
        × All (λ s. verify_share o a s proof (some zk) ≡ some true) shares
        × All (λ s. verify_share o a s proof none ≡ some true) shares
  unfolding verify_knowledge
  verify_share-secret_gen secret group usable oracle_on h =
      let (zk, made, known) = secret_gen_lem secret group usable oracle_on h in
      let fs = f_coefs a secret d in
      let gs = g_coefs a d in
      let same : length fs ≡ length gs =
        ap suc
          (length-naturals d.f_coef 1 a.threshold ∙ sym (length-naturals d.g_coef 1 a.threshold)) in
      (
        _,
        _,
        zk,
        made,
        length-shares_from a d.vote_id fs gs 1 a.parties,
        shares_from-All _ a d.vote_id fs gs 1 a.parties
            (λ y. verify_share-share_at o a d.vote_id y fs gs (some zk) group same ∙ known),
        shares_from-All _ a d.vote_id fs gs 1 a.parties
            (λ y. verify_share-share_at o a d.vote_id y fs gs none group same),
      )
