-- ===== src/Client/Session/Counting.antt =====
-- Client/client.go: what the votes of a client do to its counters, and where they are posted.
use mathlib.Core.List.{Permᴰ, append-nil, append_assoc}
use mathlib.Core.List.Permᴰ
use digital_election_system.Common.{
  ℕ, suc, ◌+◌, ◌<◌, ◌≡◌, refl, sym, ap, ◌∙◌, Option, none, some, ◌>>=◌, List, [], ◌∷◌, ◌++◌, map,
  length, ℤ, pos, ◌+ℤ◌, +ℤ_parts, eq_of_parts, arith, All,
}
use digital_election_system.Knowledge.{Oracle}
use digital_election_system.Commitment.{ActiveSecretSharing}
use digital_election_system.Sharing.{Draws}
use digital_election_system.Network.{IpStruct, EncryptedShareListMarshalFriendly}
use digital_election_system.Client.{Client, Sealing, generate_shares}
use digital_election_system.Client.Session.{Voter, post_vote, cast, cast_all}
use digital_election_system.Client.Session.Dealing.{
  counted, CanSeal, IsUsable, generate_shares-total,
}

abbrev pub sum : List ℕ → ℕ
sum [] = 0
sum (j ∷ bits) = j + sum bits

pub add_pos : (z : ℤ) (m n : ℕ) → (z +ℤ pos m) +ℤ pos n ≡ z +ℤ pos (m + n)
add_pos z m n =
    eq_of_parts _ _
      (omega (arith, +ℤ_parts z (pos m), +ℤ_parts (z +ℤ pos m) (pos n), +ℤ_parts z (pos (m + n))))

pub add_one : (z : ℤ) (n : ℕ) → (z +ℤ pos 1) +ℤ pos n ≡ z +ℤ pos (suc n)
add_one z n = add_pos z 1 n ∙ ap (λ (k : ℕ). z +ℤ pos k) (omega arith)

pub add_zero : (z : ℤ) → z +ℤ pos 0 ≡ z
add_zero z = eq_of_parts _ _ (omega (arith, +ℤ_parts z (pos 0)))

-- One post of each vote to each server.
abbrev pub posts_of :
    List EncryptedShareListMarshalFriendly
    → List IpStruct
    → List (IpStruct × EncryptedShareListMarshalFriendly)
posts_of [] ips = []
posts_of (share ∷ shares) ips = map (λ ip. (ip, share)) ips ++ posts_of shares ips

-- What generateShares makes of the votes, each with its draw, for one state of the counters.
unfoldable pub dealt_all :
    Oracle
    → Sealing
    → ActiveSecretSharing
    → Client
    → List ℕ
    → List Draws
    → Option (List EncryptedShareListMarshalFriendly)
dealt_all o c a client [] draws = some []
dealt_all o c a client (j ∷ bits) [] = none
dealt_all o c a client (j ∷ bits) (d ∷ draws) = do
  (share, after) ← generate_shares o a c d (pos j) client
  shares ← dealt_all o c a client bits draws
  some (share ∷ shares)

-- What the votes leave: the counters, the servers, and the posts made.
pub record Counted (o : Oracle) (c : Sealing) (bits : List ℕ) (used : List Draws) (s s' : Voter)
    : Type 0 where
  pub value : s'.client.vote_value ≡ s.client.vote_value +ℤ pos (sum bits)
  pub amount : s'.client.vote_amount ≡ s.client.vote_amount +ℤ pos (length bits)
  pub servers : s'.client.ip_list ≡ s.client.ip_list
  pub shares : List EncryptedShareListMarshalFriendly
  pub dealt : dealt_all o c s.ss s.client bits used ≡ some shares
  pub posts : List (IpStruct × EncryptedShareListMarshalFriendly)
  pub posted : s'.posts ≡ s.posts ++ posts
  pub one_each : Permᴰ posts (posts_of shares s.client.ip_list)

module _ (o : Oracle) (c : Sealing) where
  -- The counters do not change what is dealt.
  dealt_all-counted :
      (a : ActiveSecretSharing) (client client' : Client) (bits : List ℕ) (used : List Draws)
      → client'.ip_list ≡ client.ip_list
      → CanSeal a c client.ip_list
      → All (λ j. j < 2) bits
      → All (IsUsable o a) used
      → dealt_all o c a client' bits used ≡ dealt_all o c a client bits used
  unfolding dealt_all
  dealt_all-counted a client client' [] used same can low usable = refl
  dealt_all-counted a client client' (j ∷ bits) [] same can low usable = refl
  dealt_all-counted a client client' (j ∷ bits) (d ∷ used) same can (l, low) (u, usable) =
      let (share, _, deals) = generate_shares-total o a c client.ip_list can j d l u in
      rw
        (
          deals client refl,
          deals client' same,
          dealt_all-counted a client client' bits used same can low usable,
        )
        refl

  module _ (shuffle : List IpStruct → List IpStruct)
      (permutes : (l : List IpStruct) → Permᴰ (shuffle l) l) where
    -- Votes of 0 or 1, each with its draw, are cast without a panic: the client's value grows by the
    -- sum of the votes and its amount by their number. The posts made are, up to their order, one of
    -- each vote to each server of the list, the vote being what generateShares makes with its draw.
    -- The bases have an order that divides q, the modulus of the hash is not 0, each draw of z has one
    -- that is neither 0 nor 1, there is at least one party and a server for each, RSA encrypts with
    -- the keys of the servers, and the shuffle permutes the servers.
    pub cast_all-Counted :
        (bits : List ℕ) (used rest : List Draws) (s : Voter)
        → CanSeal s.ss c s.client.ip_list
        → All (λ j. j < 2) bits
        → All (IsUsable o s.ss) used
        → length used ≡ length bits
        → (s' : Voter) × (cast_all o c shuffle bits s (used ++ rest) ≡ some (s', rest))
          × Counted o c bits used s s'
    unfolding cast_all cast post_vote dealt_all
    cast_all-Counted [] [] rest s can low usable many = (
      s,
      refl,
      record {
        value = sym (add_zero s.client.vote_value);
        amount = sym (add_zero s.client.vote_amount);
        servers = refl;
        shares = [];
        dealt = refl;
        posts = [];
        posted = sym (append-nil s.posts);
        one_each = Permᴰ.refl [];
      },
    )
    cast_all-Counted [] (d ∷ used) rest s can low usable many = absurd (omega (arith, many))
    cast_all-Counted (j ∷ bits) [] rest s can low usable many = absurd (omega (arith, many))
    cast_all-Counted (j ∷ bits) (d ∷ used) rest s can (l, low) (u, usable) many =
        let (share, _, deals) = generate_shares-total o s.ss c s.client.ip_list can j d l u in
        let s1 = post_vote shuffle share (record s { client = counted s.client j 1 }) in
        let (s', runs, after) =
          cast_all-Counted bits used rest s1 can low usable (omega (arith, many)) in
        (
          s',
          rw (cast_all, cast, deals s.client refl) runs,
          record {
            value = after.value ∙ add_pos s.client.vote_value j (sum bits);
            amount = after.amount ∙ add_one s.client.vote_amount (length bits);
            servers = after.servers;
            shares = share ∷ after.shares;
            dealt =
                rw
                  (
                    dealt_all,
                    deals s.client refl,
                    sym (
                          dealt_all-counted s.ss s.client (counted s.client j 1) bits used refl can
                            low usable)
                        ∙ after.dealt,
                  )
                  refl;
            posts = map (λ ip. (ip, share)) (shuffle s.client.ip_list) ++ after.posts;
            posted =
                after.posted
                ∙ append_assoc s.posts (map (λ ip. (ip, share)) (shuffle s.client.ip_list))
                    after.posts;
            one_each =
                Permᴰ.trans
                  (Permᴰ.append_right after.posts
                    (Permᴰ.map (λ ip. (ip, share)) (permutes s.client.ip_list)))
                  (Permᴰ.append_left (map (λ ip. (ip, share)) s.client.ip_list) after.one_each);
          },
        )
