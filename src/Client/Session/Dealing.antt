-- ===== src/Client/Session/Dealing.antt =====
-- Client/client.go: generateShares returns for every vote of 0 or 1, and counts it.
use digital_election_system.Common.{
  ℕ, zero, suc, ◌+◌, ◌%◌, ◌^◌, ◌≤◌, ◌<◌, ◌≡◌, refl, ap, ◌∙◌, false, some, List, [], ◌∷◌, ◌++◌,
  get_elem?, length, pos, ◌+ℤ◌, arith,
}
use digital_election_system.Framework.{Share, share_for_network}
use digital_election_system.Knowledge.{Oracle, equal}
use digital_election_system.Knowledge.Completeness.{first_usable}
use digital_election_system.Commitment.{ActiveSecretSharing}
use digital_election_system.Commitment.Setup.{IsGroup}
use digital_election_system.Sharing.{Draws}
use digital_election_system.Sharing.Dealing.{
  secret_gen_lem, share_at, shares_from, length-shares_from, f_coefs, g_coefs, integers,
  commitments,
}
use digital_election_system.Network.{
  EncryptedShare, EncryptedShareListMarshalFriendly, IpStruct, transform_to_marshal_friendly,
}
use digital_election_system.Client.Voting.{get_elem?-some}
use digital_election_system.Client.{
  Client, Sealing, check_bytesize, inc_vote_amount, encrypt_share, encrypt_shares, generate_shares,
}

-- The client after votes that sum up to m, k of them.
abbrev pub counted : Client → ℕ → ℕ → Client
counted client m k = record {
  ip_list = client.ip_list;
  vote_value = client.vote_value +ℤ pos m;
  vote_amount = client.vote_amount +ℤ pos k;
}

inc_vote_amount-bit :
    (j : ℕ) (client : Client) → j < 2 → inc_vote_amount (pos j) false client ≡ counted client j 1
unfolding inc_vote_amount equal
inc_vote_amount-bit zero client h = refl
inc_vote_amount-bit (suc zero) client h = refl
inc_vote_amount-bit (suc (suc j)) client h = absurd (omega (arith, h))

-- The parameters are those of a group, and the modulus of the hash is not 0. There is a server for each
-- party, and RSA with the server's key encrypts the symmetric key that is drawn for it.
pub record CanSeal (a : ActiveSecretSharing) (c : Sealing) (ips : List IpStruct) : Type 0 where
  pub group : IsGroup a
  pub oracle_on : 0 < 2 ^ a.t_bit % a.prime_q
  pub some_party : 0 < a.parties
  pub servers : a.parties ≤ length ips
  pub encrypts :
      (i : ℕ) (ip : IpStruct)
      → get_elem? ips i ≡ some ip
      → (e : List ℕ) × (c.encrypt ip.public_key (c.key i) ≡ some e)

-- One of the draws of z is neither 0 nor 1.
pub record IsUsable (o : Oracle) (a : ActiveSecretSharing) (d : Draws) : Type 0 where
  pub z : ℕ
  pub usable : first_usable o a d.zs ≡ some z

module _ (o : Oracle) (a : ActiveSecretSharing) (c : Sealing) (ips : List IpStruct)
    (can : CanSeal a c ips) where
  encrypt_share-total :
      (i : ℕ) (v : Share)
      → i < length ips
      → (e : EncryptedShare) × (encrypt_share c ips i v ≡ some e)
  unfolding encrypt_share check_bytesize
  encrypt_share-total i v low =
      let (ip, at_i) = get_elem?-some ips i low in
      let (e, sealed) = can.encrypts i ip at_i in
      (
        record {
          point = pos i;
          cipher_text = c.nonce i ++ c.seal (c.key i) (c.nonce i) (c.marshal (share_for_network v));
          encrypted_share_key = e;
        },
        rw (at_i, sealed) refl,
      )

  encrypt_shares-total :
      (i : ℕ) (shares : List Share)
      → i + length shares ≤ length ips
      → (l : List EncryptedShare) × (encrypt_shares c ips i shares ≡ some l)
  unfolding encrypt_shares
  encrypt_shares-total i [] low = ([], refl)
  encrypt_shares-total i (v ∷ shares) low =
      let (e, one) = encrypt_share-total i v (omega (arith, low)) in
      let (l, rest) = encrypt_shares-total (i + 1) shares (omega (arith, low)) in
      (e ∷ l, rw (one, rest) refl)

  first_share :
      (id : ℕ) (fs gs : List ℕ) (n : ℕ)
      → 0 < n
      → get_elem? (shares_from a id fs gs 1 n) 0 ≡ some (share_at a id fs gs 1)
  first_share id fs gs zero low = absurd (omega (arith, low))
  first_share id fs gs (suc n) low = refl

  -- A vote of 0 or 1 is dealt and encrypted, has the id that was drawn, does not depend on what the
  -- client has counted, and is counted.
  pub generate_shares-total :
      (j : ℕ) (d : Draws)
      → j < 2
      → IsUsable o a d
      → (share : EncryptedShareListMarshalFriendly) × (share.id ≡ d.vote_id)
        × ((client : Client)
            → client.ip_list ≡ ips
            → generate_shares o a c d (pos j) client ≡ some (share, counted client j 1))
  unfolding generate_shares transform_to_marshal_friendly
  generate_shares-total j d low drawn =
      let (zk, made, _) =
        secret_gen_lem o a d {z = drawn.z} j can.group drawn.usable can.oracle_on
          (omega (arith, low)) in
      let fs = f_coefs a j d in
      let gs = g_coefs a d in
      let (l, sealed) =
        encrypt_shares-total 0 (shares_from a d.vote_id fs gs 1 a.parties)
          (omega (arith, can.servers, length-shares_from a d.vote_id fs gs 1 a.parties)) in
      let share = transform_to_marshal_friendly (record {
        sender = pos 0;
        id = d.vote_id;
        proof = integers (commitments a fs gs);
        knowledge = zk;
        enc_shares = l;
      }) in
      (
        share,
        refl,
        λ client same.
            let dealt : generate_shares o a c d (pos j) client
                ≡ some (share, inc_vote_amount (pos j) false client) =
              rw (made, same, sealed, first_share d.vote_id fs gs a.parties can.some_party) refl in
            dealt ∙ ap (λ (after : Client). some (share, after)) (inc_vote_amount-bit j client low),
      )
