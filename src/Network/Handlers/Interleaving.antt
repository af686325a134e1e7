-- ===== src/Network/Handlers/Interleaving.antt =====
-- server/src/NetworkHTTPSImpl.go: several votes whose submissions and signatures arrive interleaved.
use digital_election_system.Common.{
  ℕ, ◌+◌, ◌≡◌, refl, sym, ap, ◌∙◌, subst, Bool, false, ◌==◌, List, [], ◌∷◌, ◌++◌, arith, length,
  length-append, All, ℤ, pos, negsuc,
}
use digital_election_system.Framework.{Share}
use digital_election_system.Knowledge.{Oracle}
use digital_election_system.Commitment.{ActiveSecretSharing}
use digital_election_system.Network.{
  Outcome, done, ◌>=>◌, EncryptedShareListMarshalFriendly, EncryptedShareList, Signature, Event,
  new_share_arrived, Network, Platform,
}
use digital_election_system.Network.Opening.{decrypt_verify_share}
use digital_election_system.Network.Handlers.{server_at}
use digital_election_system.Network.Handlers.Collecting.{Posting, Opens, Same}
use digital_election_system.Network.Handlers.Adding.{Entered, none_yet, waits, Leaves, Adds}
use digital_election_system.Network.Handlers.Quorum.{
  Post, by_client, by_server, run_post, signer, SignOnce, IsValidPost, IsNew, run_post-Adds,
  IsNew-After,
}

-- A vote, and what the server's share of it opens to.
pub record Cast : Type 0 where
  pub vote : EncryptedShareListMarshalFriendly
  pub share : Share
  pub key : List ℕ
  pub list : EncryptedShareList

-- A vote and what is still to arrive for it.
pub record Waiting : Type 0 where
  pub cast : Cast
  pub posts : List Post

-- One after the other, a post that is due for one of the votes arrives.
pub data Interleaves : List Waiting → List (Cast × Post) → Type 0 where
  ended : {ws : List Waiting} → All (λ w. w.posts ≡ []) ws → Interleaves ws []
  next :
      {ws : List Waiting} {rest : List (Cast × Post)} (us vs : List Waiting) (v : Cast) (x : Post)
      (xs : List Post)
      → ws ≡ us ++ record { cast = v; posts = x ∷ xs } ∷ vs
      → Interleaves (us ++ record { cast = v; posts = xs } ∷ vs) rest
      → Interleaves ws ((v, x) ∷ rest)

module _ (p : Platform) (o : Oracle) (a : ActiveSecretSharing) (n : Network) where
  -- A vote at the server, whose observer has been told of some shares.
  abbrev pub at : List Event → Cast → Posting
  at es v = record {
    platform = p;
    oracle = o;
    sharing = a;
    server = record n { observed = es };
    vote = v.vote;
    share = v.share;
    key = v.key;
    list = v.list;
  }

  abbrev pub here : Cast → Posting
  here v = at n.observed v

  unfoldable pub run_schedule : Network → List (Cast × Post) → Outcome Network
  run_schedule m [] = done m
  run_schedule m ((v, x) ∷ rest) = run_post (here v) m x >=> (λ m'. run_schedule m' rest)

  pub Opens-at : (v : Cast) (es : List Event) → Opens (here v) → Opens (at es v)
  unfolding decrypt_verify_share
  Opens-at v es h = record { opened = h.opened; read = h.read; observer = h.observer; one = h.one }

  IsValidPost-at :
      (v : Cast) (es : List Event) (x : Post) → IsValidPost (here v) x → IsValidPost (at es v) x
  unfolding server_at
  IsValidPost-at v es by_client h = tt
  IsValidPost-at v es (by_server s) h = record {
    ip = h.ip;
    listed = same s.sender ∙ h.listed;
    verified = h.verified;
  }
    where
      same : (k : ℤ) → server_at k (record n { observed = es }) ≡ server_at k n
      same (pos k) = refl
      same (negsuc k) = refl

  -- What is known of a vote for which posts are still to come.
  pub record Collects (m : Network) (v : Cast) (xs : List Post) : Type 0 where
    pub opens : Opens (here v)
    pub signs : List Signature
    pub seen_from : List (ℤ × Bool)
    pub entered : Entered (here v) m signs seen_from
    pub count : length signs + length xs + n.t ≡ length n.ip_list
    pub valid : All (IsValidPost (here v)) xs
    pub once : SignOnce n.server_id xs
    pub new : All (IsNew n.server_id signs seen_from) xs

  abbrev pub Ready : Network → Waiting → Type 0
  Ready m w = elim w.posts [ [] ↦ Unit {0} | x ∷ xs ↦ Collects m w.cast (x ∷ xs) ]

  abbrev pub event : Cast → Event
  event v = new_share_arrived v.share v.list.proof

  abbrev pub due : Waiting → List Event
  due w = elim w.posts [ [] ↦ [] | x ∷ xs ↦ event w.cast ∷ [] ]

  -- What one post does.
  pub record Stepped (m m' : Network) (v : Cast) (xs : List Post) : Type 0 where
    pub leaves : Leaves (here v) m m'
    pub ready : Ready m' (record { cast = v; posts = xs })
    pub told : List Event
    pub observed : m'.observed ≡ m.observed ++ told
    pub split : told ++ due (record { cast = v; posts = xs }) ≡ event v ∷ []

  pub append_nil : (es : List Event) → es ++ [] ≡ es
  append_nil [] = refl
  append_nil (e ∷ es) = ap (λ l. e ∷ l) (append_nil es)

  run_post-at :
      (v : Cast) (es : List Event) (m : Network) (x : Post)
      → run_post (at es v) m x ≡ run_post (here v) m x
  unfolding run_post
  run_post-at v es m by_client = refl
  run_post-at v es m (by_server s) = refl

  Entered-at :
      (v : Cast) (es fs : List Event) (m : Network) {signs : List Signature}
      {seen_from : List (ℤ × Bool)}
      → Entered (at es v) m signs seen_from
      → Entered (at fs v) m signs seen_from
  Entered-at v es fs m (none_yet h) = none_yet h
  Entered-at v es fs m (waits signs seen_from h) = waits signs seen_from h

  pub Same-at :
      (v w : Cast) (es fs : List Event) (m : Network) → Same (at es v) m → Same (at fs w) m
  Same-at v w es fs m s = record {
    ip_list = s.ip_list;
    t = s.t;
    server_id = s.server_id;
    observer = s.observer;
  }

  Leaves-at :
      (v : Cast) (es fs : List Event) (m m' : Network)
      → Leaves (at es v) m m'
      → Leaves (at fs v) m m'
  Leaves-at v es fs m m' s = record { same = Same-at v v es fs m' s.same; others = s.others }

  Collects-Adds :
      (m : Network) (v : Cast) (x : Post) (xs : List Post)
      → Same (here v) m
      → (k : Collects m v (x ∷ xs))
      → (s : Signature) × (s.sender ≡ signer n.server_id x)
        × Adds (at m.observed v) m s k.signs k.seen_from (run_post (here v) m x)
  Collects-Adds m v x xs same k =
      let es = m.observed in
      let (s, by, adds) =
        run_post-Adds (at es v) m k.signs k.seen_from x (Opens-at v es k.opens)
          (Same-at v v n.observed es m same) refl (Entered-at v n.observed es m k.entered)
          (IsValidPost-at v es x k.valid.0) k.new.0 in
      (s, by, subst (Adds (at es v) m s k.signs k.seen_from) (run_post-at v es m x) adds)

  pub post-Stepped :
      (m : Network) (v : Cast) (x : Post) (xs : List Post)
      → Same (here v) m
      → Collects m v (x ∷ xs)
      → (m' : Network) × (run_post (here v) m x ≡ done m') × Stepped m m' v xs
  post-Stepped m v x [] same k =
      let (s, by, adds) = Collects-Adds m v x [] same k in
      let (m', e, told, leaves) = adds.1 (omega (arith, k.count)) in
      (
        m',
        e,
        record {
          leaves = Leaves-at v m.observed n.observed m m' leaves;
          ready = tt;
          told = event v ∷ [];
          observed = told.observed;
          split = refl;
        },
      )
  post-Stepped m v x (y ∷ ys) same k =
      let (s, by, adds) = Collects-Adds m v x (y ∷ ys) same k in
      let (m', e, after, leaves) = adds.0 (omega (arith, k.count)) in
      (
        m',
        e,
        record {
          leaves = Leaves-at v m.observed n.observed m m' leaves;
          ready = record {
            opens = k.opens;
            signs = k.signs ++ s ∷ [];
            seen_from = after.seen_after;
            entered = Entered-at v m.observed n.observed m' after.entered;
            count = omega (arith, k.count, length-append k.signs (s ∷ []));
            valid = k.valid.1;
            once = k.once.1;
            new =
                IsNew-After (at m.observed v) m' k.signs k.seen_from s (signer n.server_id x)
                  (y ∷ ys) by after k.once.0 k.new.1;
          };
          told = [];
          observed = after.quiet ∙ sym (append_nil m.observed);
          split = refl;
        },
      )

  -- The other votes stay as they are.
  pub Ready-kept :
      (m m' : Network) (v : Cast) (w : Waiting)
      → Leaves (here v) m m'
      → (w.cast.vote.id == v.vote.id) ≡ false
      → Ready m w
      → Ready m' w
  Ready-kept m m' v w leaves other r = kept w.posts r
    where
      entered :
          {signs : List Signature} {seen_from : List (ℤ × Bool)}
          → Entered (here w.cast) m signs seen_from
          → Entered (here w.cast) m' signs seen_from
      entered (none_yet h) = none_yet (leaves.others w.cast.vote.id other ∙ h)
      entered (waits signs seen_from h) =
          waits signs seen_from (leaves.others w.cast.vote.id other ∙ h)

      kept :
          (xs : List Post)
          → Ready m (record { cast = w.cast; posts = xs })
          → Ready m' (record { cast = w.cast; posts = xs })
      kept [] r = tt
      kept (x ∷ xs) k = record {
        opens = k.opens;
        signs = k.signs;
        seen_from = k.seen_from;
        entered = entered k.entered;
        count = k.count;
        valid = k.valid;
        once = k.once;
        new = k.new;
      }
