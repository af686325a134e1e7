-- ===== src/Client/Voting.antt =====
-- Client/client.go and server/src/NetworkHTTPSImpl.go: a vote from the client to the opened share.
use digital_election_system.Common.{
  ℕ, zero, suc, ◌+◌, ◌%◌, ◌^◌, ◌≤◌, ◌<◌, ◌≡◌, refl, sym, ap, ◌∙◌, subst, true, false, some, List,
  [], ◌∷◌, ℤ, pos, ◌==◌, ==_iff, length, get_elem?, All, arith, bind-some, some_inj,
}
use digital_election_system.Framework.{Share, ZeroKnowledge}
use digital_election_system.Framework.RoundTrip.{
  transform_to_zero_knowledge-knowledge_for_network,
  string_arr_to_big_int_arr-big_int_arr_to_str_arr,
}
use digital_election_system.Commitment.{ActiveSecretSharing}
use digital_election_system.Commitment.Setup.{IsGroup}
use digital_election_system.Knowledge.{Oracle, equal}
use digital_election_system.Knowledge.Completeness.{first_usable}
use digital_election_system.Sharing.{Draws, secret_gen, verify_share}
use digital_election_system.Sharing.Dealing.{verify_share-secret_gen}
use digital_election_system.Network.{
  Platform, Network, IpStruct, EncryptedShare, EncryptedShareList,
  EncryptedShareListMarshalFriendly, Signature, transform_to_marshal_friendly,
  transform_encrypted_share_list, done,
}
use digital_election_system.Network.Opening.{find_point, decrypt_own, decrypt_verify_share}
use digital_election_system.Client.{
  Client, Sealing, check_bytesize, encrypt_share, encrypt_shares, generate_shares,
}
use digital_election_system.Client.Opening.{IsOpener, decrypt_share-encrypt_share}

pub get_elem?-some {ℓ} :
    {A : Type ℓ} (l : List A) (i : ℕ) → i < length l → (x : A) × (get_elem? l i ≡ some x)
get_elem?-some [] i h = absurd (omega (arith, h))
get_elem?-some (x ∷ l) zero h = (x, refl)
get_elem?-some (x ∷ l) (suc i) h = get_elem?-some l i (omega (arith, h))

All-get_elem? {ℓ} :
    {A : Type ℓ} (P : A → Type 0) (l : List A) (i : ℕ) {x : A}
    → All P l
    → get_elem? l i ≡ some x
    → P x
All-get_elem? P [] i h e = cc
All-get_elem? P (y ∷ l) zero h e = subst P (some_inj e) h.0
All-get_elem? P (y ∷ l) (suc i) h e = All-get_elem? P l i h.1 e

encrypt_share-point :
    (c : Sealing) (ips : List IpStruct) (i : ℕ) (v : Share) {e : EncryptedShare}
    → encrypt_share c ips i v ≡ some e
    → e.point ≡ pos i
unfolding encrypt_share
encrypt_share-point c ips i v h =
    let (size, _, h1) = bind-some (check_bytesize 32) h in
    let (ip, _, h2) = bind-some (get_elem? ips i) h1 in
    let (enc, _, h3) = bind-some (c.encrypt ip.public_key (c.key i)) h2 in
    ap (λ (x : EncryptedShare). x.point) (sym (some_inj h3))

-- The share that is encrypted for the point j + k is the one that a search for the point finds.
find_point-encrypt_shares :
    (c : Sealing) (ips : List IpStruct) (j k i : ℕ) (shares : List Share) {v : Share}
    {boxes : List EncryptedShare}
    → j + k ≡ i
    → encrypt_shares c ips j shares ≡ some boxes
    → get_elem? shares k ≡ some v
    → (e : EncryptedShare) × (encrypt_share c ips i v ≡ some e)
      × (find_point (pos i) boxes ≡ some e)
unfolding encrypt_shares find_point equal
find_point-encrypt_shares c ips j k i [] at_i h e = cc
find_point-encrypt_shares c ips j zero i (w ∷ shares) {v = v} {boxes = boxes} at_i h e =
    let (b, made, h1) = bind-some (encrypt_share c ips j w) h in
    let (rest, _, h2) = bind-some (encrypt_shares c ips (j + 1) shares) h1 in
    let same : j ≡ i = omega (arith, at_i) in
    (
      b,
      subst (λ (x : ℕ). encrypt_share c ips x v ≡ some b) same
          (subst (λ (x : Share). encrypt_share c ips j x ≡ some b) (some_inj e) made),
      subst (λ (l : List EncryptedShare). find_point (pos i) l ≡ some b) (some_inj h2)
          (found b rest (encrypt_share-point c ips j w made ∙ ap pos same)),
    )
  where
    found :
        (b : EncryptedShare) (rest : List EncryptedShare)
        → b.point ≡ pos i
        → find_point (pos i) (b ∷ rest) ≡ some b
    found b rest p = rw (find_point, p, equal, (==_iff i i).1 refl) refl
find_point-encrypt_shares c ips j (suc k) i (w ∷ shares) at_i h e =
    let (b, made, h1) = bind-some (encrypt_share c ips j w) h in
    let (rest, others, h2) = bind-some (encrypt_shares c ips (j + 1) shares) h1 in
    let (b', made', found) =
      find_point-encrypt_shares c ips (j + 1) k i shares (omega (arith, at_i)) others e in
    (
      b',
      made',
      subst (λ (l : List EncryptedShare). find_point (pos i) l ≡ some b') (some_inj h2)
          (past b rest (encrypt_share-point c ips j w made) ∙ found),
    )
  where
    past :
        (b : EncryptedShare) (rest : List EncryptedShare)
        → b.point ≡ pos j
        → find_point (pos i) (b ∷ rest) ≡ find_point (pos i) rest
    past b rest p =
        let apart : (j == i) ≡ false = ground (arith, at_i) in rw (find_point, p, equal, apart) refl

transform_encrypted_share_list-transform_to_marshal_friendly :
    (l : EncryptedShareList)
    → l.sender ≡ pos 0
    → transform_encrypted_share_list (transform_to_marshal_friendly l) ≡ some l
unfolding transform_encrypted_share_list transform_to_marshal_friendly
transform_encrypted_share_list-transform_to_marshal_friendly l h =
    rw
      (
        string_arr_to_big_int_arr-big_int_arr_to_str_arr l.proof,
        transform_to_zero_knowledge-knowledge_for_network l.knowledge,
        h,
      )
      refl

decrypt_verify_share-opened :
    (p : Platform) (o : Oracle) (a : ActiveSecretSharing) (n : Network) (i : ℕ)
    (l : EncryptedShareList) (signatures : List Signature) (e : EncryptedShare) (share : Share)
    (key : List ℕ)
    → l.sender ≡ pos 0
    → n.server_id ≡ pos i
    → find_point (pos i) l.enc_shares ≡ some e
    → decrypt_own p o a l (some e) ≡ done (some share, key)
    → decrypt_verify_share p o a n
        (record { signatures = signatures; encrypted_shares = transform_to_marshal_friendly l })
      ≡ done (some share, key)
unfolding decrypt_verify_share
decrypt_verify_share-opened p o a n i l signatures e share key h server found opened =
    rw
      (
        decrypt_verify_share,
        transform_encrypted_share_list-transform_to_marshal_friendly l h,
        server,
        found,
      )
      opened

-- What a client made for a vote of 0 or 1, whatever was drawn, every server opens: the server at index i
-- of the client's list gets the i-th share of SecretGen, VerifyShare accepts it with its proof, and
-- _DecryptVerifyShare gives no error, whatever signatures were added. The assumptions are what RSA,
-- AES-GCM and json promise for that server, and those under which SecretGen succeeds.
pub decrypt_verify_share-generate_shares :
    (p : Platform) (o : Oracle) (a : ActiveSecretSharing) (c : Sealing) (d : Draws)
    (client client' : Client) (n : Network) (secret i z : ℕ) (ip : IpStruct)
    (l : EncryptedShareListMarshalFriendly) (signatures : List Signature)
    → IsGroup a
    → first_usable o a d.zs ≡ some z
    → 0 < 2 ^ a.t_bit % a.prime_q
    → secret ≤ 1
    → i < a.parties
    → get_elem? client.ip_list i ≡ some ip
    → IsOpener p c ip
    → n.server_id ≡ pos i
    → generate_shares o a c d (pos secret) client ≡ some (l, client')
    → (shares : List Share) × (proof : List ℤ) × (zk : ZeroKnowledge) × (share : Share)
      × (secret_gen o a (pos secret) d ≡ some (shares, proof, zk))
      × (get_elem? shares i ≡ some share)
      × (verify_share o a share proof (some zk) ≡ some true)
      × (decrypt_verify_share p o a n (record { signatures = signatures; encrypted_shares = l })
          ≡ done (some share, c.key i))
unfolding generate_shares decrypt_own
decrypt_verify_share-generate_shares p o a c d client client' n secret i z ip l signatures group
      usable oracle_on h below at_i opener server made =
    let (shares, proof, zk, dealt, many, verified, _) =
      verify_share-secret_gen o a d {z = z} secret group usable oracle_on h in
    let (share, is_i) = get_elem?-some shares i (omega (arith, many, below)) in
    let ok =
      All-get_elem? (λ s. verify_share o a s proof (some zk) ≡ some true) shares i verified is_i in
    let (boxes, sealed, h1) =
      bind-some (encrypt_shares c client.ip_list 0 shares) (rw (generate_shares, dealt) at made) in
    let (head, _, h2) = bind-some (get_elem? shares 0) h1 in
    let (e, one, found) =
      find_point-encrypt_shares c client.ip_list 0 i i shares (omega arith) sealed is_i in
    let opened =
      decrypt_share-encrypt_share p o a c client.ip_list ip i share e proof zk true opener at_i one
        ok in
    let whole : EncryptedShareList = record {
      sender = pos 0;
      id = head.id;
      proof = proof;
      knowledge = zk;
      enc_shares = boxes;
    } in
    (
      shares,
      proof,
      zk,
      share,
      dealt,
      is_i,
      ok,
      subst
          (λ (r : EncryptedShareListMarshalFriendly × Client).
            decrypt_verify_share p o a n
              (record { signatures = signatures; encrypted_shares = r.0 })
            ≡ done (some share, c.key i))
          (some_inj h2)
          (decrypt_verify_share-opened p o a n i whole signatures e share (c.key i) refl server
            found (rw (decrypt_own, opened) refl)),
    )
