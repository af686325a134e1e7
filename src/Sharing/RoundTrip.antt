-- ===== src/Sharing/RoundTrip.antt =====
-- server/src/SecretSharingImpl.go: SecretGen followed by Reconstruct.
use native.Mathlib.Nat.{mod-eq_of_lt}
use digital_election_system.Common.{
  ℕ, zero, suc, ◌+◌, ◌%◌, ◌^◌, ◌≤◌, ◌<◌, ◌≡◌, ◌≢◌, sym, ap, subst, ◌∙◌, Bool, true, false, Option,
  none, some, List, [], ◌∷◌, arith, length, All, ℤ, pos,
}
use digital_election_system.Number.Congruence.{Cong-of_eq, Cong-mod, ◌⊙◌}
use digital_election_system.Number.Residue.{residue, residue_pos}
use digital_election_system.Number.Prime.{IsPrime}
use digital_election_system.Framework.{Share, ZeroKnowledge}
use digital_election_system.Commitment.{ActiveSecretSharing}
use digital_election_system.Commitment.Setup.{IsGroup}
use digital_election_system.Knowledge.{Oracle}
use digital_election_system.Knowledge.Completeness.{first_usable}
use digital_election_system.Sharing.Interpolation.{eval}
use digital_election_system.Sharing.Dealing.{
  share_at, shares_from, secret_gen_lem, f_coefs, g_coefs, length-f_coefs,
}
use digital_election_system.Sharing.Points.{Differs, Distinct}
use digital_election_system.Sharing.Recover.{LiesOn, reconstruct_lem}
use digital_election_system.Sharing.{Draws, secret_gen, reconstruct_secret}

-- The shares that a mask marks.
abbrev pub select : List Bool → List Share → List Share
select [] shares = []
select (b ∷ mask) [] = []
select (true ∷ mask) (s ∷ shares) = s ∷ select mask shares
select (false ∷ mask) (s ∷ shares) = select mask shares

module _ (a : ActiveSecretSharing) where
  pub share_at-LiesOn : (id x : ℕ) (fs gs : List ℕ) → LiesOn a.prime_q fs (share_at a id fs gs x)
  share_at-LiesOn id x fs gs =
      Cong-of_eq (residue_pos a.prime_q (eval fs x % a.prime_q))
      ⊙ Cong-mod (eval fs x)
      ⊙ Cong-of_eq (ap (eval fs) (sym (residue_pos a.prime_q x)))

  select-LiesOn :
      (id x n : ℕ) (fs gs : List ℕ) (mask : List Bool)
      → All (LiesOn a.prime_q fs) (select mask (shares_from a id fs gs x n))
  select-LiesOn id x n fs gs [] = tt
  select-LiesOn id x zero fs gs (b ∷ mask) = tt
  select-LiesOn id x (suc n) fs gs (true ∷ mask) =
      (share_at-LiesOn id x fs gs, select-LiesOn id (x + 1) n fs gs mask)
  select-LiesOn id x (suc n) fs gs (false ∷ mask) = select-LiesOn id (x + 1) n fs gs mask

  -- The points after y and below q differ from y.
  select-Differs :
      (id y x n : ℕ) (fs gs : List ℕ) (mask : List Bool)
      → y < x
      → x + n ≤ a.prime_q
      → Differs a.prime_q (pos y) (select mask (shares_from a id fs gs x n))
  select-Differs id y x n fs gs [] h k = tt
  select-Differs id y x zero fs gs (b ∷ mask) h k = tt
  select-Differs id y x (suc n) fs gs (true ∷ mask) h k =
      (apart, select-Differs id y (x + 1) n fs gs mask (omega arith) (omega arith))
    where
      apart : residue a.prime_q (pos x) % a.prime_q ≢ residue a.prime_q (pos y) % a.prime_q
      apart =
          rw (residue_pos a.prime_q x, residue_pos a.prime_q y)
            (rw
              (
                mod-eq_of_lt {n = x} {m = a.prime_q} (omega arith),
                mod-eq_of_lt {n = y} {m = a.prime_q} (omega arith),
              )
              (omega arith))
  select-Differs id y x (suc n) fs gs (false ∷ mask) h k =
      select-Differs id y (x + 1) n fs gs mask (omega arith) (omega arith)

  select-Distinct :
      (id x n : ℕ) (fs gs : List ℕ) (mask : List Bool)
      → x + n ≤ a.prime_q
      → Distinct a.prime_q (select mask (shares_from a id fs gs x n))
  select-Distinct id x n fs gs [] k = tt
  select-Distinct id x zero fs gs (b ∷ mask) k = tt
  select-Distinct id x (suc n) fs gs (true ∷ mask) k = (
    select-Differs id x (x + 1) n fs gs mask (omega arith) (omega arith),
    select-Distinct id (x + 1) n fs gs mask (omega arith),
  )
  select-Distinct id x (suc n) fs gs (false ∷ mask) k =
      select-Distinct id (x + 1) n fs gs mask (omega arith)

  abbrev shares_of : Option (List Share × List ℤ × ZeroKnowledge) → List Share
  shares_of none = []
  shares_of (some (shares, _, _)) = shares

  shares_from-recovers :
      (d : Draws) (secret : ℕ) (mask : List Bool)
      → IsPrime a.prime_q
      → a.parties < a.prime_q
      → secret ≤ 1
      → a.threshold
        < length
            (select mask (shares_from a d.vote_id (f_coefs a secret d) (g_coefs a d) 1 a.parties))
      → reconstruct_secret a
          (select mask (shares_from a d.vote_id (f_coefs a secret d) (g_coefs a d) 1 a.parties))
          none
        ≡ some secret
  unfolding reconstruct_secret f_coefs eval
  shares_from-recovers d secret mask prime few h enough =
      let fs = f_coefs a secret d in
      let gs = g_coefs a d in
      reconstruct_lem a.prime_q fs (select mask (shares_from a d.vote_id fs gs 1 a.parties))
        a.threshold prime enough (omega (arith, length-f_coefs a secret d))
        (select-Distinct d.vote_id 1 a.parties fs gs mask (omega arith))
        (select-LiesOn d.vote_id 1 a.parties fs gs mask)
      ∙ ap some (vote prime.big)
    where
      vote : 1 < a.prime_q → eval (f_coefs a secret d) 0 % a.prime_q ≡ secret
      vote big =
          ap (λ (t : ℕ). t % a.prime_q) (omega arith)
          ∙ mod-eq_of_lt {n = secret} {m = a.prime_q} (omega (arith, big))

  -- From any more than t of the shares that SecretGen deals for a vote of 0 or 1, whichever they are,
  -- Reconstruct returns the vote. The prime q is larger than the number of parties, the bases have an
  -- order that divides q, the modulus of the hash is not 0, and a draw of z is neither 0 nor 1.
  pub reconstruct_secret-secret_gen :
      (o : Oracle) (d : Draws) (secret : ℕ) (mask : List Bool) {z : ℕ}
      → IsGroup a
      → IsPrime a.prime_q
      → a.parties < a.prime_q
      → first_usable o a d.zs ≡ some z
      → 0 < 2 ^ a.t_bit % a.prime_q
      → secret ≤ 1
      → (shares : List Share) (proof : List ℤ) (zk : ZeroKnowledge)
      → secret_gen o a (pos secret) d ≡ some (shares, proof, zk)
      → a.threshold < length (select mask shares)
      → reconstruct_secret a (select mask shares) none ≡ some secret
  reconstruct_secret-secret_gen o d secret mask group prime few usable oracle_on h shares proof zk
        dealt =
      let (_, made, _) = secret_gen_lem o a d secret group usable oracle_on h in
      subst
        (λ (dealt : List Share).
          a.threshold < length (select mask dealt)
          → reconstruct_secret a (select mask dealt) none ≡ some secret)
        (ap shares_of (sym made ∙ dealt)) (shares_from-recovers d secret mask prime few h)
