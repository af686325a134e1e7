-- ===== src/Network/Handlers/Quorum.antt =====
-- server/src/NetworkHTTPSImpl.go: a vote for which the client's submission and the signatures of other servers
-- arrive in any order.
use digital_election_system.Common.{
  ◌+◌, ◌≡◌, refl, sym, ◌∙◌, subst, Bool, true, false, ◌||◌, none, List, [], ◌∷◌, ◌++◌, arith,
  length, length-append, All, ℤ,
}
use digital_election_system.Knowledge.{equal}
use digital_election_system.Network.{
  Outcome, done, ◌>=>◌, Signature, Network, lookup_id, lookup_sender,
}
use digital_election_system.Network.Handlers.{
  has_sender, receive_client_share, receive_server_share,
}
use digital_election_system.Network.Handlers.Collecting.{Posting, Opens, Same, Told}
use digital_election_system.Network.Handlers.Adding.{
  Entered, none_yet, After, Adds, own, receive_client_share-Adds,
}
use digital_election_system.Network.Handlers.Signing.{message, IsValid, receive_server_share-Adds}

-- What arrives for a vote: the client's submission, or a signature of a server.
pub data Post : Type 0 where
  by_client : Post
  by_server : Signature → Post

-- Who signs, at the server with an id.
abbrev pub signer : ℤ → Post → ℤ
signer id by_client = id
signer id (by_server v) = v.sender

-- Nobody signs twice.
abbrev pub SignOnce : ℤ → List Post → Type 0
SignOnce id [] = Unit {0}
SignOnce id (x ∷ xs) = All (λ y. equal (signer id y) (signer id x) ≡ false) xs × SignOnce id xs

-- The entry has no signature of the signer, and no mark for it.
pub record IsNew (id : ℤ) (signs : List Signature) (seen_from : List (ℤ × Bool)) (x : Post)
    : Type 0 where
  pub unmarked : lookup_sender (signer id x) seen_from ≡ false
  pub apart : has_sender (signer id x) signs ≡ false

module _ (c : Posting) where
  unfoldable pub run_post : Network → Post → Outcome Network
  run_post m by_client = receive_client_share c.platform c.oracle c.sharing m c.vote
  run_post m (by_server v) = receive_server_share c.platform c.oracle c.sharing m (message c v)

  unfoldable pub run_posts : Network → List Post → Outcome Network
  run_posts m [] = done m
  run_posts m (x ∷ xs) = run_post m x >=> (λ m'. run_posts m' xs)

  abbrev pub IsValidPost : Post → Type 0
  IsValidPost by_client = Unit {0}
  IsValidPost (by_server v) = IsValid c v

  has_sender-snoc :
      (k : ℤ) (signs : List Signature) (v : Signature)
      → has_sender k signs ≡ false
      → equal k v.sender ≡ false
      → has_sender k (signs ++ v ∷ []) ≡ false
  unfolding has_sender
  has_sender-snoc k [] v h other = rw other refl
  has_sender-snoc k (s ∷ signs) v h other =
      let (here, there) = neither (equal k s.sender) (has_sender k signs) h in
      rw (here, has_sender-snoc k signs v there other) refl
    where
      neither : (b d : Bool) → (b || d) ≡ false → (b ≡ false) × (d ≡ false)
      neither true d h = cc
      neither false d h = (refl, h)

  pub run_post-Adds :
      (m : Network) (signs : List Signature) (seen_from : List (ℤ × Bool)) (x : Post)
      → Opens c
      → Same c m
      → m.observed ≡ c.server.observed
      → Entered c m signs seen_from
      → IsValidPost x
      → IsNew c.server.server_id signs seen_from x
      → (v : Signature) × (v.sender ≡ signer c.server.server_id x)
        × Adds c m v signs seen_from (run_post m x)
  unfolding run_post
  run_post-Adds m signs seen_from by_client h same quiet entered valid new =
      (own c m, same.server_id, receive_client_share-Adds c m signs seen_from h same quiet entered)
  run_post-Adds m signs seen_from (by_server v) h same quiet entered valid new = (
    v,
    refl,
    receive_server_share-Adds c m v signs seen_from h same quiet entered valid new.unmarked
        new.apart,
  )

  pub IsNew-After :
      (m : Network) (signs : List Signature) (seen_from : List (ℤ × Bool)) (v : Signature) (k : ℤ)
      (xs : List Post)
      → v.sender ≡ k
      → (s : After c v signs seen_from m)
      → All (λ y. equal (signer c.server.server_id y) k ≡ false) xs
      → All (IsNew c.server.server_id signs seen_from) xs
      → All (IsNew c.server.server_id (signs ++ v ∷ []) s.seen_after) xs
  IsNew-After m signs seen_from v k [] by s others new = tt
  IsNew-After m signs seen_from v k (x ∷ xs) by s others new =
      let other : equal (signer c.server.server_id x) v.sender ≡ false =
        subst (λ j. equal (signer c.server.server_id x) j ≡ false) (sym by) others.0 in
      (
        record {
          unmarked = s.kept (signer c.server.server_id x) other ∙ new.0.unmarked;
          apart = has_sender-snoc (signer c.server.server_id x) signs v new.0.apart other;
        },
        IsNew-After m signs seen_from v k xs by s others.1 new.1,
      )

  run_posts-from :
      (m : Network) (signs : List Signature) (seen_from : List (ℤ × Bool)) (x : Post)
      (xs : List Post)
      → Opens c
      → length signs + length (x ∷ xs) + c.server.t ≡ length c.server.ip_list
      → Same c m
      → m.observed ≡ c.server.observed
      → Entered c m signs seen_from
      → All IsValidPost (x ∷ xs)
      → SignOnce c.server.server_id (x ∷ xs)
      → All (IsNew c.server.server_id signs seen_from) (x ∷ xs)
      → (m' : Network) × (run_posts m (x ∷ xs) ≡ done m') × Told c m'
  unfolding run_posts
  run_posts-from m signs seen_from x [] h count same quiet entered valid once new =
      let (v, by, adds) = run_post-Adds m signs seen_from x h same quiet entered valid.0 new.0 in
      let (m', e, s, _) = adds.1 (omega arith) in (m', rw e refl, s)
  run_posts-from m signs seen_from x (y ∷ ys) h count same quiet entered valid once new =
      let (v, by, adds) = run_post-Adds m signs seen_from x h same quiet entered valid.0 new.0 in
      let (m1, e, s, _) = adds.0 (omega arith) in
      let (m', e', s') =
        run_posts-from m1 (signs ++ v ∷ []) s.seen_after y ys h
          (omega (arith, length-append signs (v ∷ []))) s.same s.quiet s.entered valid.1 once.1
          (IsNew-After m1 signs seen_from v (signer c.server.server_id x) (y ∷ ys) by s once.0
            new.1) in
      (m', rw e e', s')

  -- The client's submission and the signatures of other servers, each in its own message, arrive in any
  -- order at a server that does not know the vote. They are n - t in number, those of the client's
  -- submission, which the server signs itself, and of servers in the list whose keys verify them, and
  -- no two are by one signer. Then every handler ends, and after the last one the server has told its
  -- observer of the share and has marked the vote as delivered. The share opens and verifies, and a map
  -- with one entry is ranged over as it is.
  pub run_posts-Told :
      (x : Post) (xs : List Post)
      → Opens c
      → lookup_id c.vote.id c.server.received_shares ≡ none
      → length (x ∷ xs) + c.server.t ≡ length c.server.ip_list
      → All IsValidPost (x ∷ xs)
      → SignOnce c.server.server_id (x ∷ xs)
      → (m : Network) × (run_posts c.server (x ∷ xs) ≡ done m) × Told c m
  unfolding lookup_sender has_sender
  run_posts-Told x xs h unknown count valid once =
      run_posts-from c.server [] [] x xs h (omega arith)
        (record { ip_list = refl; t = refl; server_id = refl; observer = refl }) refl
        (none_yet unknown) valid once (all_new (x ∷ xs))
    where
      all_new : (xs : List Post) → All (IsNew c.server.server_id [] []) xs
      all_new [] = tt
      all_new (y ∷ ys) = (record { unmarked = refl; apart = refl }, all_new ys)
