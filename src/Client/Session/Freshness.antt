-- ===== src/Client/Session/Freshness.antt =====
-- Client/client.go and server/src/NetworkHTTPSImpl.go: the ids of the votes of a client, and the parameters
-- that it takes from a server.
use digital_election_system.Common.{
  ℕ, suc, ◌≡◌, refl, ap, subst, true, false, Bool-cases, inl, inr, some, List, [], ◌∷◌, length, ℤ,
  pos, ◌==◌, ==_iff, bind-some, some_inj,
}
use digital_election_system.Framework.Decimal.{string, set_string-string}
use digital_election_system.Commitment.{ActiveSecretSharing, natural, new_active_secret_sharing}
use digital_election_system.Arithmetic.{new_arithmetic}
use digital_election_system.Knowledge.{Oracle}
use digital_election_system.Sharing.{Draws}
use digital_election_system.Network.{IpStruct, EncryptedShareListMarshalFriendly}
use digital_election_system.Network.Start.{Started, client_join_network}
use digital_election_system.Client.{Client, Sealing, generate_shares}
use digital_election_system.Client.Session.{
  Voter, make_client, is_sent, generate_unused, collect_votes,
}

-- The votes have ids that differ from each other and from the given ids. These are those of idsSent,
-- to which no command but an instant vote_multiple writes.
unfoldable pub AreFresh : List ℕ → List EncryptedShareListMarshalFriendly → Type 0
AreFresh ids [] = Unit
AreFresh ids (s ∷ shares) = (is_sent s.id ids ≡ false) × AreFresh (s.id ∷ ids) shares

-- Every id of the votes is marked as sent.
unfoldable pub AreSent : List ℕ → List EncryptedShareListMarshalFriendly → Type 0
AreSent ids [] = Unit
AreSent ids (s ∷ shares) = (is_sent s.id ids ≡ true) × AreSent ids shares

module _ (o : Oracle) (c : Sealing) (a : ActiveSecretSharing) where
  generate_unused-is_sent :
      (value : ℤ) (client : Client) (ids : List ℕ) (draws : List Draws)
      {s : EncryptedShareListMarshalFriendly} {client' : Client} {draws' : List Draws}
      → generate_unused o c a value client ids draws ≡ some (s, client', draws')
      → is_sent s.id ids ≡ false
  unfolding generate_unused
  generate_unused-is_sent value client ids [] h = cc
  generate_unused-is_sent value client ids (d ∷ draws) h =
      let ((tmp, client1), _, h1) = bind-some (generate_shares o a c d value client) h in
      elim (Bool-cases (is_sent tmp.id ids)) [
        | inl old ↦ generate_unused-is_sent value client1 ids draws (rw old at h1)
        | inr new ↦
            subst
              (λ (r : EncryptedShareListMarshalFriendly × Client × List Draws).
                is_sent r.0.id ids ≡ false)
              (some_inj (rw new at h1)) new
      ]

  collect_votes-keeps :
      (bits : List ℕ) (client : Client) (ids : List ℕ) (draws : List Draws)
      {shares : List EncryptedShareListMarshalFriendly} {client' : Client} {ids' : List ℕ}
      {draws' : List Draws} (k : ℕ)
      → collect_votes o c a bits client ids draws ≡ some (shares, client', ids', draws')
      → is_sent k ids ≡ true
      → is_sent k ids' ≡ true
  unfolding collect_votes is_sent
  collect_votes-keeps [] client ids draws k h e =
      subst
        (λ (r : List EncryptedShareListMarshalFriendly × Client × List ℕ × List Draws).
          is_sent k r.2 ≡ true)
        (some_inj h) e
  collect_votes-keeps (j ∷ bits) client ids draws k h e =
      let ((tmp, client1, draws1), _, h1) =
        bind-some (generate_unused o c a (pos j) client ids draws) h in
      let ((shares1, client2, ids2, draws2), more, h2) =
        bind-some (collect_votes o c a bits client1 (tmp.id ∷ ids) draws1) h1 in
      subst
        (λ (r : List EncryptedShareListMarshalFriendly × Client × List ℕ × List Draws).
          is_sent k r.2 ≡ true)
        (some_inj h2) (collect_votes-keeps bits client1 (tmp.id ∷ ids) draws1 k more (kept tmp.id))
    where
      kept : (i : ℕ) → is_sent k (i ∷ ids) ≡ true
      kept i = elim (Bool-cases (k == i)) [
        | inl same ↦ rw (is_sent, same) refl
        | inr other ↦ rw (is_sent, other) e
      ]

  -- If an instant vote_multiple collects its votes, they have ids that differ from each other and
  -- from those that idsSent holds at its start, they are as many as was asked for, and idsSent holds
  -- their ids at its end.
  pub collect_votes-AreFresh :
      (bits : List ℕ) (client client' : Client) (ids ids' : List ℕ) (draws draws' : List Draws)
      (shares : List EncryptedShareListMarshalFriendly)
      → collect_votes o c a bits client ids draws ≡ some (shares, client', ids', draws')
      → AreFresh ids shares × AreSent ids' shares × (length shares ≡ length bits)
  unfolding collect_votes AreFresh AreSent is_sent
  collect_votes-AreFresh [] client client' ids ids' draws draws' shares h =
      subst
        (λ (r : List EncryptedShareListMarshalFriendly × Client × List ℕ × List Draws).
          AreFresh ids r.0 × AreSent r.2 r.0 × (length r.0 ≡ 0))
        (some_inj h) (tt, tt, refl)
  collect_votes-AreFresh (j ∷ bits) client client' ids ids' draws draws' shares h =
      let ((tmp, client1, draws1), made, h1) =
        bind-some (generate_unused o c a (pos j) client ids draws) h in
      let ((shares1, client2, ids2, draws2), more, h2) =
        bind-some (collect_votes o c a bits client1 (tmp.id ∷ ids) draws1) h1 in
      let (fresh, sent, many) =
        collect_votes-AreFresh bits client1 client2 (tmp.id ∷ ids) ids2 draws1 draws2 shares1
          more in
      let marked =
        collect_votes-keeps bits client1 (tmp.id ∷ ids) draws1 tmp.id more (self tmp.id) in
      subst
        (λ (r : List EncryptedShareListMarshalFriendly × Client × List ℕ × List Draws).
          AreFresh ids r.0 × AreSent r.2 r.0 × (length r.0 ≡ suc (length bits)))
        (some_inj h2)
        (
          (generate_unused-is_sent (pos j) client ids draws made, fresh),
          (marked, sent),
          ap suc many,
        )
    where
      self : (i : ℕ) → is_sent i (i ∷ ids) ≡ true
      self i = rw (is_sent, (==_iff i i).1 refl) refl

-- A client that joins at a started server gets the parameters with which the server verifies, its
-- list of servers and its session, if the list has the number of servers that the parameters are
-- for and the primes are not negative.
pub make_client-client_join_network :
    (ip_list : List IpStruct) (s : Started) (p q : ℕ)
    → s.prime_p ≡ pos p
    → s.prime_q ≡ pos q
    → new_active_secret_sharing (length ip_list) (string s.prime_p ∷ string s.prime_q ∷ [])
      ≡ some s.ss
    → (v : Voter) × (make_client (client_join_network ip_list s) ≡ some v)
      × (v.ss ≡ s.ss)
      × (v.client.ip_list ≡ ip_list)
      × (v.session_id ≡ s.session_id)
unfolding make_client client_join_network natural
make_client-client_join_network ip_list s p q is_p is_q made = (
  record {
    client = record { ip_list = ip_list; vote_amount = pos 0; vote_value = pos 0 };
    prime_p = pos p;
    prime_q = pos q;
    session_id = s.session_id;
    ss = s.ss;
    arth = new_arithmetic p q;
    ids_sent = [];
    posts = [];
  },
  rw
      (
        make_client,
        client_join_network,
        set_string-string s.prime_p,
        set_string-string s.prime_q,
        is_p,
        is_q,
        natural,
        made',
      )
      refl,
  refl,
  refl,
  refl,
)
  where
    made' :
        new_active_secret_sharing (length ip_list) (string (pos p) ∷ string (pos q) ∷ [])
        ≡ some s.ss
    made' = rw (is_p, is_q) at made
