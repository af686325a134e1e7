-- ===== src/Network/Runs.antt =====
-- server/src/NetworkHTTPSImpl.go: the handlers of a server one after the other, in any order and with any
-- messages. A run ends where a handler panics or waits for ever.
pub mod Keeping
pub mod Growing
pub mod Counting
use digital_election_system.Common.{ℕ, List, [], ℤ, ◌≡◌}
use digital_election_system.Knowledge.{Oracle}
use digital_election_system.Commitment.{ActiveSecretSharing}
use digital_election_system.Network.{
  Outcome, done, EncryptedShareListMarshalFriendly, SignedEncryptedShare, ChallengeVoteStruct,
  IpStruct, Network, Platform, add_observer, remove_observer,
}
use digital_election_system.Network.Participants.{new_participant_in_network, join_network}
use digital_election_system.Network.Challenges.{challenge_vote}
use digital_election_system.Network.Handlers.{
  receive_client_share, receive_server_share, send_delayed_message,
}

module _ (p : Platform) (o : Oracle) (a : ActiveSecretSharing) where
  pub data Step (n n' : Network) : Type 0 where
    client_share :
        (l : EncryptedShareListMarshalFriendly)
        → receive_client_share p o a n l ≡ done n'
        → Step n n'
    server_share : (s : SignedEncryptedShare) → receive_server_share p o a n s ≡ done n' → Step n n'
    challenge : (c : ChallengeVoteStruct) → challenge_vote p o a n c ≡ done n' → Step n n'
    delayed_message :
        (id : ℕ) (s : SignedEncryptedShare)
        → send_delayed_message p o a n id s ≡ done n'
        → Step n n'
    participant : (ip : IpStruct) → new_participant_in_network n ip ≡ n' → Step n n'
    join : (ip : IpStruct) → (join_network n ip).1 ≡ n' → Step n n'
    observer_added : add_observer n ≡ n' → Step n n'
    observer_removed : remove_observer n ≡ n' → Step n n'

  pub data Run (n : Network) : Network → Type 0 where
    start : Run n n
    next : {m m' : Network} → Run n m → Step m m' → Run n m'
