-- ===== src/Tests.antt =====
-- The theorems at concrete inputs: the group of order 11 modulo 23, four servers and threshold 1.
use digital_election_system.Common.{
  ℕ, zero, suc, ◌+◌, ◌*◌, ◌%◌, ◌^◌, ◌≤◌, ◌<◌, ◌≡◌, ◌↔◌, ◌⊎◌, refl, Bool, true, false, Option, none,
  some, List, [], ◌∷◌, ◌++◌, arith, length, All, ℤ, pos, negsuc, get_elem?,
}
use digital_election_system.Number.{mod_inverse}
use digital_election_system.Number.Congruence.{Cong}
use digital_election_system.Number.Residue.{residue}
use digital_election_system.Number.Prime.{IsPrime, is_prime, is_prime_sound}
use digital_election_system.Number.Inverse.{mod_inverse_sound, mod_inverse_complete}
use digital_election_system.Framework.{Share, ZeroKnowledge, transform_to_share, share_for_network}
use digital_election_system.Framework.Decimal.{string, set_string, set_string-string}
use digital_election_system.Framework.RoundTrip.{transform_to_share-share_for_network}
use digital_election_system.Commitment.{
  ActiveSecretSharing, set_primes, set_commitment_values, calculate_t,
}
use digital_election_system.Commitment.Setup.{
  IsGroup, set_primes-IsGroup, calculate_t_lem, commitment,
}
use digital_election_system.Commitment.Search.{set_commitment_values_lem, Passes, AllFail}
use digital_election_system.Knowledge.{Oracle, create_zero_knowledge, verify01}
use digital_election_system.Knowledge.Completeness.{verify01-create_zero_knowledge}
use digital_election_system.Sharing.Interpolation.{eval}
use digital_election_system.Sharing.{
  Draws, polynomial, secret_gen, verify_share, reconstruct, reconstruct_secret,
}
use digital_election_system.Sharing.Dealing.{integers, polynomial-eval, verify_share-secret_gen}
use digital_election_system.Sharing.Recover.{reconstruct_lem}
use digital_election_system.Sharing.RoundTrip.{reconstruct_secret-secret_gen}
use digital_election_system.Arithmetic.{new_arithmetic, add, multiply_const}
use digital_election_system.Arithmetic.Fits.{Fits, verify_share_lem}
use digital_election_system.Arithmetic.Homomorphism.{verify_share-add, verify_share-multiply_const}
use digital_election_system.Controller.Adding.{Vote}

abbrev pub a : ActiveSecretSharing
a = record { parties = 4; threshold = 1; prime_p = 23; prime_q = 11; t_bit = 3; g = 2; h = 3 }

pub group : IsGroup a
group = record {
  p_big = omega arith;
  q_big = omega arith;
  g_order = record { same = refl };
  h_order = record { same = refl };
}

pub prime : IsPrime 11
unfolding is_prime
prime = is_prime_sound 11 refl

abbrev pub o : Oracle
o = record { shake = λ n l. l; id_string = λ i. i ∷ [] }

abbrev pub d : Draws
d = record {
  g0 = 5;
  f_coef = λ i. i + 2;
  g_coef = λ i. i;
  vote_id = 7;
  r = 4;
  zs = 1 ∷ 6 ∷ [];
  e = 3;
}

abbrev share : ℕ → ℕ → ℕ → Share
share s t x = record { s = pos s; t = pos t; point = pos x; id = 7 }

mod_inverse_sound_example : Cong 11 (residue 11 (pos 3) * 4) 1 × (4 < 11)
unfolding mod_inverse
mod_inverse_sound_example = mod_inverse_sound 11 (omega arith) (pos 3) 4 refl

mod_inverse_complete_example : (x : ℕ) × (mod_inverse (pos 3) 11 ≡ some x)
unfolding residue
mod_inverse_complete_example =
    mod_inverse_complete 11 (omega arith) (pos 3) 4 (record { same = refl })

set_string-string_example : set_string (string (negsuc 41)) ≡ some (negsuc 41)
set_string-string_example = set_string-string (negsuc 41)

transform_to_share-share_for_network_example :
    transform_to_share (share_for_network (share 12 345 6)) ≡ some (share 12 345 6)
transform_to_share-share_for_network_example = transform_to_share-share_for_network (share 12 345 6)

abbrev known : ZeroKnowledge
known = record { a0 = pos 1; e0 = pos 2; z0 = pos 3; a1 = pos 4; e1 = pos 5; z1 = negsuc 0 }

calculate_t_lem_example : (t : ℕ) × (calculate_t 10 ≡ some t) × (3 * t < 10) × (10 ≤ 3 * (t + 1))
calculate_t_lem_example = calculate_t_lem 10 (omega arith)

set_commitment_values_lem_example :
    (g h : ℕ) × (set_commitment_values 23 11 ≡ some (g, h))
    × Passes 23 11 g
    × Passes 23 11 h
    × (1 < g)
    × (g < h)
    × AllFail 23 11 2 g
    × AllFail 23 11 (g + 1) h
set_commitment_values_lem_example = set_commitment_values_lem 23 11 (omega arith)

set_primes-IsGroup_example :
    (b : ActiveSecretSharing) × (set_primes 4 1 23 11 ≡ some b)
    × (b.parties ≡ 4)
    × (b.threshold ≡ 1)
    × (b.prime_p ≡ 23)
    × (b.prime_q ≡ 11)
    × IsGroup b
set_primes-IsGroup_example = set_primes-IsGroup 4 1 23 11 (omega arith) (omega arith)

verify01-create_zero_knowledge_example :
    (zk : ZeroKnowledge) × (create_zero_knowledge o a 5
        (pos 1)
        (pos (commitment a 1 5))
        7
        4
        (1 ∷ 6 ∷ [])
        3
      ≡ some zk)
    × (verify01 o a zk (pos (commitment a 1 5)) 7 ≡ some [])
verify01-create_zero_knowledge_example =
    verify01-create_zero_knowledge o a group 7 4 3 6 (1 ∷ 6 ∷ []) refl (omega arith) 1 5
      (omega arith)

polynomial-eval_example :
    polynomial a (pos 3) (integers (1 ∷ 3 ∷ [])) ≡ some (eval (1 ∷ 3 ∷ []) 3 % 11)
polynomial-eval_example = polynomial-eval a 3 1 (3 ∷ [])

verify_share-secret_gen_example :
    (shares : List Share) × (proof : List ℤ) × (zk : ZeroKnowledge) × (secret_gen o a (pos 1) d
      ≡ some (shares, proof, zk))
    × (length shares ≡ 4)
    × All (λ s. verify_share o a s proof (some zk) ≡ some true) shares
    × All (λ s. verify_share o a s proof none ≡ some true) shares
verify_share-secret_gen_example =
    verify_share-secret_gen o a d {z = 6} 1 group refl (omega arith) (omega arith)

abbrev dealt : Option (List Share × List ℤ × ZeroKnowledge)
dealt = secret_gen o a (pos 1) d

reconstruct_secret-secret_gen_example :
    reconstruct_secret a (share 7 7 2 ∷ share 2 9 4 ∷ []) none ≡ some 1
unfolding secret_gen digital_election_system.Sharing.commit_all
    digital_election_system.Commitment.bc digital_election_system.Sharing.coefficients
    digital_election_system.Sharing.first create_zero_knowledge
    digital_election_system.Knowledge.simulate_zero_knowledge
    digital_election_system.Knowledge.simulated_power
    digital_election_system.Knowledge.random_oracle digital_election_system.Sharing.deal polynomial
    digital_election_system.Sharing.polynomial_loop digital_election_system.Common.◌+ℤ◌
    digital_election_system.Knowledge.invert_in_place digital_election_system.Number.xor
    digital_election_system.Common.◌*ℤ◌
reconstruct_secret-secret_gen_example =
    reconstruct_secret-secret_gen a o d 1 (false ∷ true ∷ false ∷ true ∷ []) {z = 6} group prime
      (omega arith) refl (omega arith) (omega arith)
      (share 4 6 1 ∷ share 7 7 2 ∷ share 10 8 3 ∷ share 2 9 4 ∷ []) (pos 3 ∷ pos 1 ∷ [])
      (record { a0 = pos 4; e0 = pos 3; z0 = pos 6; a1 = pos 12; e1 = pos 4; z1 = pos 2 }) refl
      (omega arith)

reconstruct_lem_example :
    reconstruct (share 7 7 2 ∷ share 2 9 4 ∷ []) 1 11 ≡ some (eval (1 ∷ 3 ∷ []) 0 % 11)
unfolding residue eval
reconstruct_lem_example =
    reconstruct_lem 11 (1 ∷ 3 ∷ []) (share 7 7 2 ∷ share 2 9 4 ∷ []) 1 prime (omega arith)
      (omega arith) ((((λ e. absurd (omega (arith, e))), tt)), (tt, tt))
      (record { same = refl }, (record { same = refl }, tt))

verify_share_lem_example :
    (b : Bool) × (verify_share o a (share 4 6 1) (pos 3 ∷ pos 1 ∷ []) none ≡ some b)
    × ((b ≡ true) ↔ Fits a group (pos 4) (pos 6) 1 (pos 3 ∷ pos 1 ∷ []))
verify_share_lem_example = verify_share_lem a group o (share 4 6 1) 1 (pos 3 ∷ pos 1 ∷ []) refl

verify_share-add_example :
    (c : Share) × (pc : List ℤ) × (add
        (new_arithmetic 23 11)
        (share 4 6 1)
        (share 4 6 1)
        (some (pos 3 ∷ pos 1 ∷ []))
        (some (pos 3 ∷ pos 1 ∷ []))
      ≡ some (c, some pc))
    × (verify_share o a c pc none ≡ some true)
    × (length pc ≡ 2)
unfolding verify_share digital_election_system.Commitment.bc
    digital_election_system.Sharing.proof_loop digital_election_system.Number.power
    digital_election_system.Common.◌*ℤ◌ digital_election_system.Sharing.verify_knowledge
verify_share-add_example =
    verify_share-add a group o 1 (share 4 6 1) (share 4 6 1) (pos 3) (pos 1 ∷ [])
      (pos 3 ∷ pos 1 ∷ []) refl refl refl refl refl

verify_share-multiply_const_example :
    (c : Share) × (pc : List ℤ) × (multiply_const
        (new_arithmetic 23 11)
        (share 4 6 1)
        (negsuc 0)
        (pos 3 ∷ pos 1 ∷ [])
      ≡ some (c, some pc))
    × (verify_share o a c pc none ≡ some true)
unfolding verify_share digital_election_system.Number.emod digital_election_system.Commitment.bc
    digital_election_system.Sharing.proof_loop digital_election_system.Number.power
    digital_election_system.Common.◌*ℤ◌ digital_election_system.Sharing.verify_knowledge
verify_share-multiply_const_example =
    verify_share-multiply_const a group o 1 (share 4 6 1) (negsuc 0) (pos 3 ∷ pos 1 ∷ []) refl
      (record { same = refl }, (record { same = refl }, tt)) refl

abbrev first_vote : Vote
first_vote = record { fs = 1 ∷ 3 ∷ []; gs = 5 ∷ 1 ∷ []; id = 7; proof = pos 3 ∷ pos 1 ∷ [] }

abbrev second_vote : Vote
second_vote = record { fs = 1 ∷ 9 ∷ []; gs = 2 ∷ 6 ∷ []; id = 8; proof = pos 18 ∷ pos 4 ∷ [] }
