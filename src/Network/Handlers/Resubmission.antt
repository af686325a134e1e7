-- ===== src/Network/Handlers/Resubmission.antt =====
-- server/src/NetworkHTTPSImpl.go: receiveClientShare when a client sends one vote again and again to one
-- server: the server adds its own signature at every submission.
use digital_election_system.Common.{
  ℕ, zero, suc, ◌+◌, ◌≡◌, refl, Bool, none, List, [], ◌∷◌, ◌++◌, arith, length, length-append, ℤ,
}
use digital_election_system.Network.{Outcome, done, ◌>=>◌, Signature, Network, lookup_id}
use digital_election_system.Network.Handlers.{receive_client_share}
use digital_election_system.Network.Handlers.Collecting.{Posting, Opens, Same, Told}
use digital_election_system.Network.Handlers.Adding.{
  Entered, none_yet, own, receive_client_share-Adds,
}

module _ (c : Posting) where
  -- The vote is posted k times.
  unfoldable pub submit : ℕ → Network → Outcome Network
  submit zero m = done m
  submit (suc k) m =
      receive_client_share c.platform c.oracle c.sharing m c.vote >=> (λ m'. submit k m')

  submit-from :
      (k : ℕ) (m : Network) (signs : List Signature) (seen_from : List (ℤ × Bool))
      → Opens c
      → length signs + suc k + c.server.t ≡ length c.server.ip_list
      → Same c m
      → m.observed ≡ c.server.observed
      → Entered c m signs seen_from
      → (m' : Network) × (submit (suc k) m ≡ done m') × Told c m'
  unfolding submit
  submit-from zero m signs seen_from h count same quiet entered =
      let (m', e, s, _) =
        (receive_client_share-Adds c m signs seen_from h same quiet entered).1 (omega arith) in
      (m', rw e refl, s)
  submit-from (suc k) m signs seen_from h count same quiet entered =
      let (m1, e, s, _) =
        (receive_client_share-Adds c m signs seen_from h same quiet entered).0 (omega arith) in
      let (m', e', s') =
        submit-from k m1 (signs ++ own c m ∷ []) s.seen_after h
          (omega (arith, length-append signs (own c m ∷ []))) s.same s.quiet s.entered in
      (m', rw e e', s')

  -- A client that posts one vote to one server as often as signatures are needed, n - t times, gets the
  -- vote delivered: receiveClientShare ends each time, and after the last of them the server has told
  -- its observer of the share, and has marked the vote as delivered, with no message from any other
  -- server. The vote was not known to the server, whose share opens and verifies, and a map with one
  -- entry is ranged over as it is.
  pub submit-Told :
      (k : ℕ)
      → Opens c
      → lookup_id c.vote.id c.server.received_shares ≡ none
      → suc k + c.server.t ≡ length c.server.ip_list
      → (m : Network) × (submit (suc k) c.server ≡ done m) × Told c m
  submit-Told k h new count =
      submit-from k c.server [] [] h (omega arith)
        (record { ip_list = refl; t = refl; server_id = refl; observer = refl }) refl (none_yet new)
