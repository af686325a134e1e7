-- ===== src/KnowledgeTests.antt =====
-- The proof of a vote at concrete inputs: the group of order 11 modulo 23.
use digital_election_system.Common.{
  ℕ, suc, ◌+◌, ◌*◌, ◌%◌, ◌^◌, ◌<◌, ◌≡◌, ◌≢◌, refl, true, Option, none, some, List, [], ◌∷◌, arith,
  ℤ, pos,
}
use digital_election_system.Framework.{ZeroKnowledge}
use digital_election_system.Knowledge.{Oracle, random_oracle, verify01}
use digital_election_system.Number.Congruence.{Cong}
use digital_election_system.Knowledge.Soundness.{knowledge}
use digital_election_system.Knowledge.Extraction.{extract_vote, verify01-extract_vote}
use digital_election_system.Sharing.{verify_share}
use digital_election_system.Sharing.Dealing.{integers, commitments, share_at}
use digital_election_system.Sharing.Forgery.{verify_share-forged}
use digital_election_system.Tests.{a, o, group, prime}

hashed : random_oracle o a (pos 12) (pos 12) 7 ≡ some 7
unfolding random_oracle digital_election_system.Knowledge.bytes
    digital_election_system.Knowledge.to_bytes digital_election_system.Knowledge.of_bytes
hashed = refl

hashed_again : random_oracle o a (pos 12) (pos 12) 6 ≡ some 6
unfolding random_oracle digital_election_system.Knowledge.bytes
    digital_election_system.Knowledge.to_bytes digital_election_system.Knowledge.of_bytes
hashed_again = refl

accepted : verify01 o a (knowledge a 12 12 6 1 1 2) (pos 13) 7 ≡ some []
unfolding verify01 random_oracle digital_election_system.Knowledge.bytes
    digital_election_system.Knowledge.to_bytes digital_election_system.Knowledge.of_bytes
    digital_election_system.Knowledge.accepting digital_election_system.Knowledge.equal
    digital_election_system.Number.emod digital_election_system.Number.exp
    digital_election_system.Number.find_inverse digital_election_system.Number.mod_inverse
    digital_election_system.Number.xor digital_election_system.Common.◌*ℤ◌
accepted = refl

accepted_again : verify01 o a (knowledge a 12 12 7 1 6 2) (pos 13) 6 ≡ some []
unfolding verify01 random_oracle digital_election_system.Knowledge.bytes
    digital_election_system.Knowledge.to_bytes digital_election_system.Knowledge.of_bytes
    digital_election_system.Knowledge.accepting digital_election_system.Knowledge.equal
    digital_election_system.Number.emod digital_election_system.Number.exp
    digital_election_system.Number.find_inverse digital_election_system.Number.mod_inverse
    digital_election_system.Number.xor digital_election_system.Common.◌*ℤ◌
accepted_again = refl

verify01-extract_vote_example :
    (r : ℕ × ℕ) × (extract_vote 11 (knowledge a 12 12 6 1 1 2) (knowledge a 12 12 7 1 6 2) ≡ some r)
    × (r.0 < 2)
    × Cong 23 13 (2 ^ r.0 * 3 ^ r.1)
verify01-extract_vote_example =
    verify01-extract_vote a o o 12 12 6 1 1 2 7 1 6 2 13 7 6 7 6 group prime
      (record { same = refl }) (omega arith) (omega arith) (omega arith) (omega arith) hashed
      hashed_again (omega arith) accepted accepted_again

hashed_first : random_oracle o a (pos (2 ^ 1 * 3 ^ 2)) (pos (3 ^ 2)) 7 ≡ some 7
unfolding random_oracle digital_election_system.Knowledge.bytes
    digital_election_system.Knowledge.to_bytes digital_election_system.Knowledge.of_bytes
hashed_first = refl

verify_share-forged_example :
    (v : ℕ) × (zk : ZeroKnowledge) × (v % 11 ≢ 0)
    × (v % 11 ≢ 1)
    × ((x : ℕ)
        → verify_share o a
            (share_at a 7 (v ∷ 2 ∷ []) (4 ∷ 5 ∷ []) x)
            (integers (commitments a (v ∷ 2 ∷ []) (4 ∷ 5 ∷ [])))
            (some zk)
          ≡ some true)
verify_share-forged_example =
    verify_share-forged o a 1 2 2 4 7 7 (2 ∷ []) (5 ∷ []) group prime refl hashed_first
      (omega arith) (omega arith) (omega arith)
