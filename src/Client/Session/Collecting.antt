-- ===== src/Client/Session/Collecting.antt =====
-- Client/client.go: an instant vote_multiple, with the votes that it makes again because their id was sent.
use digital_election_system.Common.{
  ℕ, suc, ◌+◌, ◌≤◌, ◌<◌, ◌≡◌, refl, sym, ap, ◌∙◌, subst, Bool-cases, inl, inr, true, false, some,
  List, [], ◌∷◌, ◌++◌, map, length, pos, ◌+ℤ◌, if◌then◌else◌, arith, All,
}
use digital_election_system.Knowledge.{Oracle}
use digital_election_system.Commitment.{ActiveSecretSharing}
use digital_election_system.Sharing.{Draws}
use digital_election_system.Network.{IpStruct, EncryptedShareListMarshalFriendly}
use digital_election_system.Client.{Client, Sealing, generate_shares}
use digital_election_system.Client.Session.{is_sent, generate_unused, collect_votes}
use digital_election_system.Client.Session.Dealing.{
  counted, CanSeal, IsUsable, generate_shares-total,
}
use digital_election_system.Client.Session.Counting.{sum, add_pos, add_one, add_zero}

-- What collect_votes returns.
abbrev pub Votes : Type 0
Votes = List EncryptedShareListMarshalFriendly × Client × List ℕ × List Draws

-- The ids drawn, in their order, without those of the given list and without repetition.
unfoldable pub new_ids : List ℕ → List Draws → List ℕ
new_ids ids [] = []
new_ids ids (d ∷ draws) =
    let others = new_ids ids draws in
    let rest = new_ids (d.vote_id ∷ ids) draws in
    if is_sent d.vote_id ids then others else d.vote_id ∷ rest

-- What the votes leave of the client, and the draws that they take.
pub record Collected (bits ids : List ℕ) (draws : List Draws) (client : Client) (r : Votes)
    : Type 0 where
  pub used : List Draws
  pub taken : draws ≡ used ++ r.3
  pub made : map (λ (s : EncryptedShareListMarshalFriendly). s.id) r.0 ≡ new_ids ids used
  pub many : length r.0 ≡ length bits
  pub total : ℕ
  pub at_least : sum bits ≤ total
  pub at_most : total ≤ length used
  pub value : r.1.vote_value ≡ client.vote_value +ℤ pos total
  pub amount : r.1.vote_amount ≡ client.vote_amount +ℤ pos (length used)

module _ (o : Oracle) (c : Sealing) (a : ActiveSecretSharing) (ips : List IpStruct)
    (can : CanSeal a c ips) where
  old-collect_votes :
      (j : ℕ) (bits : List ℕ) (d : Draws) (draws : List Draws) (ids : List ℕ)
      (client client' : Client) (share : EncryptedShareListMarshalFriendly)
      → generate_shares o a c d (pos j) client ≡ some (share, client')
      → is_sent share.id ids ≡ true
      → collect_votes o c a (j ∷ bits) client ids (d ∷ draws)
        ≡ collect_votes o c a (j ∷ bits) client' ids draws
  unfolding collect_votes generate_unused
  old-collect_votes j bits d draws ids client client' share made old =
      rw (collect_votes, generate_unused, made, old)

  new-collect_votes :
      (j : ℕ) (bits : List ℕ) (d : Draws) (draws : List Draws) (ids : List ℕ)
      (client client' : Client) (share : EncryptedShareListMarshalFriendly) (r : Votes)
      → generate_shares o a c d (pos j) client ≡ some (share, client')
      → is_sent share.id ids ≡ false
      → collect_votes o c a bits client' (share.id ∷ ids) draws ≡ some r
      → collect_votes o c a (j ∷ bits) client ids (d ∷ draws) ≡ some (share ∷ r.0, r.1, r.2, r.3)
  unfolding collect_votes generate_unused
  new-collect_votes j bits d draws ids client client' share r made new rest =
      rw (collect_votes, generate_unused, made, new, rest)

  nothing-Collected :
      (ids : List ℕ) (draws : List Draws) (client : Client)
      → Collected [] ids draws client ([], client, ids, draws)
  unfolding new_ids
  nothing-Collected ids draws client = record {
    used = [];
    taken = refl;
    made = refl;
    many = refl;
    total = 0;
    at_least = omega arith;
    at_most = omega arith;
    value = sym (add_zero client.vote_value);
    amount = sym (add_zero client.vote_amount);
  }

  old-Collected :
      (j : ℕ) (bits ids : List ℕ) (d : Draws) (draws : List Draws) (client : Client) (r : Votes)
      → j < 2
      → is_sent d.vote_id ids ≡ true
      → Collected (j ∷ bits) ids draws (counted client j 1) r
      → Collected (j ∷ bits) ids (d ∷ draws) client r
  unfolding new_ids
  old-Collected j bits ids d draws client r low old after = record {
    used = d ∷ after.used;
    taken = ap (λ l. d ∷ l) after.taken;
    made = after.made ∙ sym (rw old refl);
    many = after.many;
    total = j + after.total;
    at_least = omega (arith, after.at_least);
    at_most = omega (arith, low, after.at_most);
    value = after.value ∙ add_pos client.vote_value j after.total;
    amount = after.amount ∙ add_one client.vote_amount (length after.used);
  }

  new-Collected :
      (j : ℕ) (bits ids : List ℕ) (d : Draws) (draws : List Draws) (client : Client)
      (share : EncryptedShareListMarshalFriendly) (r : Votes)
      → share.id ≡ d.vote_id
      → j < 2
      → is_sent d.vote_id ids ≡ false
      → Collected bits (d.vote_id ∷ ids) draws (counted client j 1) r
      → Collected (j ∷ bits) ids (d ∷ draws) client (share ∷ r.0, r.1, r.2, r.3)
  unfolding new_ids
  new-Collected j bits ids d draws client share r same low new after = record {
    used = d ∷ after.used;
    taken = ap (λ l. d ∷ l) after.taken;
    made = rw (same, after.made, new) refl;
    many = ap suc after.many;
    total = j + after.total;
    at_least = omega (arith, after.at_least);
    at_most = omega (arith, low, after.at_most);
    value = after.value ∙ add_pos client.vote_value j after.total;
    amount = after.amount ∙ add_one client.vote_amount (length after.used);
  }

  -- An instant vote_multiple for votes of 0 or 1 returns, if the draws have as many new ids as there are
  -- votes. It takes draws from the front, and its votes have the new ids among those in their order,
  -- as many as votes were asked for. The client's amount grows by the number of all draws taken, those
  -- included whose vote is made again because its id was sent, and its value by the sum of the votes or
  -- more, but no more than that number. The bases have an order that divides q, the modulus of the hash
  -- is not 0, each draw of z has one that is neither 0 nor 1, there is at least one party and a server
  -- for each, and RSA encrypts with the keys of the servers.
  pub collect_votes-Collected :
      (bits ids : List ℕ) (draws : List Draws) (client : Client)
      → client.ip_list ≡ ips
      → All (λ j. j < 2) bits
      → All (IsUsable o a) draws
      → length bits ≤ length (new_ids ids draws)
      → (r : Votes) × (collect_votes o c a bits client ids draws ≡ some r)
        × Collected bits ids draws client r
  unfolding collect_votes new_ids
  collect_votes-Collected [] ids draws client same low usable enough =
      (([], client, ids, draws), refl, nothing-Collected ids draws client)
  collect_votes-Collected (j ∷ bits) ids [] client same low usable enough =
      absurd (omega (arith, enough))
  collect_votes-Collected (j ∷ bits) ids (d ∷ draws) client same (l, low) (u, usable) enough =
      let (share, id, deals) = generate_shares-total o a c ips can j d l u in
      elim (Bool-cases (is_sent d.vote_id ids)) [
        | inl old ↦
            let (r, runs, after) =
              collect_votes-Collected (j ∷ bits) ids draws (counted client j 1) same (l, low) usable
                (rw old at enough) in
            (
              r,
              old-collect_votes j bits d draws ids client (counted client j 1) share
                    (deals client same) (ap (λ (i : ℕ). is_sent i ids) id ∙ old)
                  ∙ runs,
              old-Collected j bits ids d draws client r l old after,
            )
        | inr new ↦
            let fewer : suc (length bits) ≤ suc (length (new_ids (d.vote_id ∷ ids) draws)) =
              rw new at enough in
            let (r, runs, after) =
              collect_votes-Collected bits (d.vote_id ∷ ids) draws (counted client j 1) same low
                usable (omega (arith, fewer)) in
            (
              (share ∷ r.0, r.1, r.2, r.3),
              new-collect_votes j bits d draws ids client (counted client j 1) share r
                  (deals client same) (ap (λ (i : ℕ). is_sent i ids) id ∙ new)
                  (subst
                    (λ (i : ℕ).
                      collect_votes o c a bits (counted client j 1) (i ∷ ids) draws ≡ some r)
                    (sym id) runs),
              new-Collected j bits ids d draws client share r id l new after,
            )
      ]
