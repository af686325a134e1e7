-- ===== src/Client.antt =====
-- Client/client.go: the voter's client. It deals a vote into shares, encrypts one for each server, counts
-- its own votes, and reads the current tally. The crypto, json and random packages are in Sealing.
pub mod Opening
pub mod Voting
pub mod Session
use digital_election_system.Common.{
  ℕ, ◌+◌, ◌≡◌, ◌≢◌, Bool, true, false, Option, none, some, ◌>>=◌, List, [], ◌∷◌, ◌++◌, ℤ, pos,
  negsuc, ◌+ℤ◌, ◌-ℤ◌, ◌==◌, if◌then◌else◌, get_elem?, map, ◌||◌,
}
use digital_election_system.Framework.{
  Share, MarshalFriendlyShare, ZeroKnowledge, share_for_network, transform_to_share,
}
use digital_election_system.Knowledge.{Oracle, equal}
use digital_election_system.Commitment.{ActiveSecretSharing}
use digital_election_system.Sharing.{Draws, secret_gen, reconstruct_secret}
use digital_election_system.Network.{
  EncryptedShare, EncryptedShareList, EncryptedShareListMarshalFriendly, IpStruct,
  transform_to_marshal_friendly,
}

pub record Client : Type 0 where
  pub ip_list : List IpStruct
  pub vote_amount : ℤ
  pub vote_value : ℤ

-- The i-th key and nonce drawn; `encrypt` has none for an error.
pub record Sealing : Type 0 where
  pub key : ℕ → List ℕ
  pub nonce : ℕ → List ℕ
  pub marshal : MarshalFriendlyShare → List ℕ
  pub seal : List ℕ → List ℕ → List ℕ → List ℕ
  pub encrypt : List ℕ → List ℕ → Option (List ℕ)

-- checkBytesize ends, which is the size, or panics.
unfoldable pub check_bytesize : ℕ → Option ℕ
check_bytesize n =
    if (n == 16) || (n == 24) || (n == 32) || (n == 64) || (n == 128) || (n == 256) || (n == 512)
    then some n
    else none

-- incVoteAmount; `negative` is whether the optional argument is given.
unfoldable pub inc_vote_amount : ℤ → Bool → Client → Client
inc_vote_amount value negative c =
    if equal value (pos 0) || equal value (pos 1)
    then (if negative
        then record c { vote_value = c.vote_value -ℤ value; vote_amount = c.vote_amount -ℤ pos 1 }
        else record c { vote_value = c.vote_value +ℤ value; vote_amount = c.vote_amount +ℤ pos 1 })
    else c

-- The body of the loop of generateShares.
unfoldable pub encrypt_share : Sealing → List IpStruct → ℕ → Share → Option EncryptedShare
encrypt_share c ips i v = do
  size ← check_bytesize 32
  ip ← get_elem? ips i
  enc ← c.encrypt ip.public_key (c.key i)
  some (record {
    point = pos i;
    cipher_text = c.nonce i ++ c.seal (c.key i) (c.nonce i) (c.marshal (share_for_network v));
    encrypted_share_key = enc;
  })

unfoldable pub encrypt_shares :
    Sealing → List IpStruct → ℕ → List Share → Option (List EncryptedShare)
encrypt_shares c ips i [] = some []
encrypt_shares c ips i (v ∷ shares) = do
  e ← encrypt_share c ips i v
  rest ← encrypt_shares c ips (i + 1) shares
  some (e ∷ rest)

unfoldable pub generate_shares :
    Oracle
    → ActiveSecretSharing
    → Sealing
    → Draws
    → ℤ
    → Client
    → Option (EncryptedShareListMarshalFriendly × Client)
generate_shares o a c d value client = do
  (shares, proof, zk) ← secret_gen o a value d
  enc_shares ← encrypt_shares c client.ip_list 0 shares
  first ← get_elem? shares 0
  some (
    transform_to_marshal_friendly (record {
      sender = pos 0;
      id = first.id;
      proof = proof;
      knowledge = zk;
      enc_shares = enc_shares;
    }),
    inc_vote_amount value false client,
  )

-- getCurrentVote, on the answers of the servers in the order of the list.
unfoldable pub transform_shares : List MarshalFriendlyShare → Option (List Share)
transform_shares [] = some []
transform_shares (m ∷ rest) = do
  share ← transform_to_share m
  shares ← transform_shares rest
  some (share ∷ shares)

unfoldable pub get_current_vote : ActiveSecretSharing → List MarshalFriendlyShare → Option ℕ
get_current_vote a answers = do
  secret ← transform_shares answers
  reconstruct_secret a secret (some 2)
