-- ===== src/Lib.antt =====
-- A model of an election system in which servers add up secret-shared votes, with proofs about it.
--
-- A voter's client (Client/client.go) deals its vote, 0 or 1, into one share for each server: values of
-- two random polynomials, with commitments to their coefficients and a zero-knowledge proof that the
-- secret is 0 or 1 (server/src/SecretSharingImpl.go). It encrypts each share for its server. The servers
-- sign what they receive and pass it on; one that has n - t signatures for a vote checks its share and
-- delivers it to its controller (server/src/NetworkHTTPSImpl.go). The controller adds the delivered
-- shares to its state (server/src/MPCControllerImpl.go and ArithmeticLogicImpl.go). The client collects
-- the states and reconstructs the tally.
--
-- The parts, and the files that model them:
--   * Common, Number: shared names; math/big (Mod, Exp, ModInverse, Xor) on integers. `none` is a panic
--     or a nil that is used.
--   * Framework: server/framework, the values and their network form; Decimal has big.Int's texts.
--   * Commitment: NewActiveSecretSharing, SetPrimes, SetCommitmentValues, BC, CalculateT of util.go.
--   * Knowledge: createZeroKnowledge, simulateZeroKnowledge, RandomOracle, Verify01; Knowledge/Soundness
--     and Knowledge/Extraction are about two proofs with the same first messages.
--   * Sharing: SecretGen, VerifyShare, polynomial, Lagrange, Reconstruct; Sharing/Forgery is about what
--     RandomOracle leaves out of the hash.
--   * Arithmetic: Add, Multiply_const, validate of ArithmeticLogicImpl.go.
--   * Controller: ActiveMPCController; Controller/Adding is one server that adds votes, Controller/Moves,
--     Taking and Progress one whose arrivals and turns of addShare interleave, Controller/Tally several
--     servers on the same votes, Controller/Revoke and Controller/Panics one server on a vote that is
--     revoked or misfits.
--   * Election: SecretGen, the controllers of several servers and the client's getCurrentVote together.
--   * Network: the state and messages of NetworkHTTPSImpl.go. Network/Participants has the list of
--     servers, Network/Opening the decryption and check of a share, Network/Challenges ChallengeVote,
--     Network/Checking _CheckSignatures, Network/Handlers the handlers for shares, Network/Connections
--     its clients, Network/Membership servers that join, and Network/Start the start of an election:
--     StartNetwork, SendStartPhaseTwoSignal, receiveStartPhaseTwoSignal, clientJoinNetwork. Each
--     handler takes the state to the next state, a panic, or a wait for a lock that nobody releases.
--     Network/Runs is the step relation of the
--     handlers, in any order and with any messages; Network/Store is about the map of the votes,
--     Network/Queries has the handlers that only answer. Network/Handlers/Collecting, Adding, Signing,
--     Quorum and Resubmission are about the signatures that one vote collects, and Interleaving,
--     Schedules and Voting about several votes; Signatures and NewSignatures are about the loop of
--     ReceiveServerShare and findNewSignatures.
--   * Client: generateShares, getCurrentVote, incVoteAmount, checkBytesize of client.go; Client/Session
--     has MakeClient, the commands of startRunningLoop and the ids that were sent. Session/Dealing
--     has generateShares on every vote, Counting and Collecting are about many votes.
--   * Logger: Logger.go, one turn of StartLogger on what the channel, the clock and the database give.
--   * Primes: util.go, MaxPrimeFactors and the goroutines of FrederiksMaxPrimeFactor; Primes/Ending
--     is about their end.
--   * Entry: main.go, the choice between server and client, and GetInput.
--   * Tests, KnowledgeTests, ElectionTests, NetworkTests, HandlerTests, ServerTests, ClientTests: the
--     theorems at concrete inputs.
--
-- Random draws are arguments. SHAKE and the text of an id are in the record Oracle; RSA, AES-GCM, SHA-256,
-- json, the order of map iteration and shuffling are in Platform and Sealing; sort.Slice is an argument of
-- Network/Start, ToLower and Atoi are in Terminal, and ProbablyPrime is an argument of Primes. The
-- documented behaviour of these that a theorem uses is among its hypotheses. An int and an int64 are
-- integers without a bound, and lengths are natural numbers; the numbers of servers and points are far
-- below the limits. The search for the bases runs on fuel 2 p + 2, the searches for inverses on the
-- modulus, and MaxPrimeFactors on fuel n + 1 for each of its loops, which is enough for every n but 0,
-- where the source does not end.
--
-- Not modelled: HTTP, TLS and RPC transport, key generation, console output, the SQL of the
-- logger and the other utilities. Interleavings inside one handler are not modelled: a handler runs to
-- its end before the next starts. The goroutines of the prime search are interleaved step by step.
pub mod Common
pub mod Number
pub mod Framework
pub mod Commitment
pub mod Knowledge
pub mod Sharing
pub mod Arithmetic
pub mod Controller
pub mod Network
pub mod Client
pub mod Election
pub mod Logger
pub mod Primes
pub mod Entry
pub mod ServerTests
pub mod ClientTests
mod Tests
mod NetworkTests
mod KnowledgeTests
mod ElectionTests
mod HandlerTests
