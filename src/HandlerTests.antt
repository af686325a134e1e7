-- ===== src/HandlerTests.antt =====
-- The handlers for shares at concrete inputs: three servers and threshold 1, so that two signatures are
-- needed.
use mathlib.Core.List.{Permᴰ, Memᴰ, Nodup, Nodup-cons, Nodup-nil, Perm}
use mathlib.Core.List.Memᴰ
use mathlib.Core.Logic.{∥∥₁_elim}
use digital_election_system.Common.{
  ◌+◌, ◌≡◌, ◌<◌, refl, sym, ap, subst, ◌∙◌, ◌==◌, ==_iff, ◌&&◌, ℕ, arith, Bool, true, false, All,
  inl, inr, map, List, some, [], ◌∷◌, ◌++◌, ℤ, pos,
}
use digital_election_system.Network.{done, EncryptedShareList, IpStruct, Network, same_text}
use digital_election_system.Network.Participants.{join_network}
use digital_election_system.Network.Start.{participate_in_network}
use digital_election_system.Network.Membership.{joins, hear, OneAddress, hear-joins}
use digital_election_system.Network.Handlers.Collecting.{Posting, Opens, Told}
use digital_election_system.Network.Handlers.Resubmission.{submit, submit-Told}
use digital_election_system.Network.Handlers.Quorum.{Post, by_client, by_server}
use digital_election_system.Network.{Event, Signature, EncryptedShareListMarshalFriendly}
use digital_election_system.Network.Handlers.Interleaving.{
  Cast, Waiting, Interleaves, ended, next, run_schedule,
}
use digital_election_system.Network.Handlers.Voting.{IsDue, events, run_schedule_lem}
use digital_election_system.NetworkTests.{
  platform, o, a, server, boxes, box, signature, known, dealt,
}

abbrev quiet : Network
quiet = record {
  ip_list = server 0 ∷ server 1 ∷ server 2 ∷ [];
  received_shares = [];
  observer = true;
  t = 1;
  server_id = pos 1;
  delayed = [];
  outbox = [];
  observed = [];
}

abbrev list : EncryptedShareList
list = record {
  sender = pos 0;
  id = 7;
  proof = pos 3 ∷ pos 1 ∷ [];
  knowledge = known;
  enc_shares = box ∷ [];
}

abbrev posting : Posting
posting = record {
  platform = platform;
  oracle = o;
  sharing = a;
  server = quiet;
  vote = boxes;
  share = dealt;
  key = 1 ∷ 9 ∷ [];
  list = list;
}

opens : Opens posting
unfolding digital_election_system.Network.transform_encrypted_share_list
    digital_election_system.Network.Opening.decrypt_verify_share
    digital_election_system.Network.Opening.decrypt_own
    digital_election_system.Network.Opening.decrypt_share
    digital_election_system.Network.Opening.find_point
    digital_election_system.Network.Opening.take_first
    digital_election_system.Network.Opening.drop_first
    digital_election_system.Framework.string_arr_to_big_int_arr
    digital_election_system.Framework.transform_to_zero_knowledge
    digital_election_system.Framework.transform_to_share
    digital_election_system.Framework.Decimal.set_string
    digital_election_system.Framework.Decimal.read_number
    digital_election_system.Framework.Decimal.read_digits
    digital_election_system.Sharing.verify_share digital_election_system.Commitment.bc
    digital_election_system.Sharing.proof_loop digital_election_system.Number.power
    digital_election_system.Common.◌*ℤ◌ digital_election_system.Sharing.verify_knowledge
    digital_election_system.Sharing.first digital_election_system.Knowledge.verify01
    digital_election_system.Knowledge.random_oracle digital_election_system.Knowledge.accepting
    digital_election_system.Knowledge.equal digital_election_system.Knowledge.bytes
    digital_election_system.Knowledge.to_bytes digital_election_system.Knowledge.of_bytes
    digital_election_system.Number.emod digital_election_system.Number.exp
    digital_election_system.Number.find_inverse digital_election_system.Number.mod_inverse
    digital_election_system.Number.xor
opens = record { opened = refl; read = refl; observer = refl; one = λ x. refl }

submit-Told_example : (m : Network) × (submit posting 2 quiet ≡ done m) × Told posting m
unfolding digital_election_system.Network.lookup_id
submit-Told_example = submit-Told posting 1 opens refl refl

-- The vote with another id.
abbrev boxes_again : EncryptedShareListMarshalFriendly
boxes_again = record boxes { id = 15 }

abbrev one_vote : Cast
one_vote = record { vote = boxes; share = dealt; key = 1 ∷ 9 ∷ []; list = list }

abbrev another : Cast
another = record {
  vote = boxes_again;
  share = dealt;
  key = 1 ∷ 9 ∷ [];
  list = record list { id = 15 };
}

abbrev signed_again : Signature
signed_again = record signature { sign = 15 ∷ [] }

abbrev votes : List Waiting
votes =
    record { cast = one_vote; posts = by_server signature ∷ by_client ∷ [] }
    ∷ record { cast = another; posts = by_client ∷ by_server signed_again ∷ [] }
    ∷ []

abbrev schedule : List (Cast × Post)
schedule =
    (one_vote, by_server signature)
    ∷ (another, by_client)
    ∷ (another, by_server signed_again)
    ∷ (one_vote, by_client)
    ∷ []

interleaved : Interleaves votes schedule
interleaved =
    next [] (record { cast = another; posts = by_client ∷ by_server signed_again ∷ [] } ∷ [])
      one_vote (by_server signature) (by_client ∷ []) refl
      (next (record { cast = one_vote; posts = by_client ∷ [] } ∷ []) [] another by_client
        (by_server signed_again ∷ []) refl
        (next (record { cast = one_vote; posts = by_client ∷ [] } ∷ []) [] another
          (by_server signed_again) [] refl
          (next [] (record { cast = another; posts = [] } ∷ []) one_vote by_client [] refl
            (ended (refl, (refl, tt))))))

is_due :
    IsDue platform o a quiet
      (record { cast = one_vote; posts = by_server signature ∷ by_client ∷ [] })
unfolding digital_election_system.Network.lookup_id
    digital_election_system.Network.Handlers.server_at digital_election_system.Network.same_text
    digital_election_system.Knowledge.equal
is_due = record {
  opens = opens;
  unknown = refl;
  some_posts = omega arith;
  count = refl;
  valid = (record { ip = server 0; listed = refl; verified = refl }, (tt, tt));
  once = ((refl, tt), (tt, tt));
}

opens_again : Opens (record posting { vote = boxes_again; list = record list { id = 15 } })
unfolding digital_election_system.Network.transform_encrypted_share_list
    digital_election_system.Network.Opening.decrypt_verify_share
    digital_election_system.Network.Opening.decrypt_own
    digital_election_system.Network.Opening.decrypt_share
    digital_election_system.Network.Opening.find_point
    digital_election_system.Network.Opening.take_first
    digital_election_system.Network.Opening.drop_first
    digital_election_system.Framework.string_arr_to_big_int_arr
    digital_election_system.Framework.transform_to_zero_knowledge
    digital_election_system.Framework.transform_to_share
    digital_election_system.Framework.Decimal.set_string
    digital_election_system.Framework.Decimal.read_number
    digital_election_system.Framework.Decimal.read_digits
    digital_election_system.Sharing.verify_share digital_election_system.Commitment.bc
    digital_election_system.Sharing.proof_loop digital_election_system.Number.power
    digital_election_system.Common.◌*ℤ◌ digital_election_system.Sharing.verify_knowledge
    digital_election_system.Sharing.first digital_election_system.Knowledge.verify01
    digital_election_system.Knowledge.random_oracle digital_election_system.Knowledge.accepting
    digital_election_system.Knowledge.equal digital_election_system.Knowledge.bytes
    digital_election_system.Knowledge.to_bytes digital_election_system.Knowledge.of_bytes
    digital_election_system.Number.emod digital_election_system.Number.exp
    digital_election_system.Number.find_inverse digital_election_system.Number.mod_inverse
    digital_election_system.Number.xor
opens_again = record { opened = refl; read = refl; observer = refl; one = λ x. refl }

is_due_again :
    IsDue platform o a quiet
      (record { cast = another; posts = by_client ∷ by_server signed_again ∷ [] })
unfolding digital_election_system.Network.lookup_id
    digital_election_system.Network.Handlers.server_at digital_election_system.Network.same_text
    digital_election_system.Knowledge.equal
is_due_again = record {
  opens = opens_again;
  unknown = refl;
  some_posts = omega arith;
  count = refl;
  valid = (tt, (record { ip = server 0; listed = refl; verified = refl }, tt));
  once = ((refl, tt), (tt, tt));
}

run_schedule_lem_example :
    (m : Network) × (es : List Event) × (run_schedule platform o a quiet quiet schedule ≡ done m)
    × (m.observed ≡ [] ++ es)
    × Permᴰ es (events platform o a quiet votes)
run_schedule_lem_example =
    run_schedule_lem platform o a quiet votes schedule interleaved ((refl, tt), (tt, tt))
      (is_due, (is_due_again, tt))

abbrev index : IpStruct → ℕ
index v = elim v.ip [ [] ↦ 0 | i ∷ rest ↦ i ]

Mem-server :
    (js : List ℕ) {v : IpStruct} → Memᴰ v (map server js) → (j : ℕ) × (v ≡ server j) × Memᴰ j js
Mem-server [] at = elim at [ ]
Mem-server (j ∷ js) (Memᴰ.head e) = (j, e, Memᴰ.head refl)
Mem-server (j ∷ js) (Memᴰ.tail at) = let (k, e, later) = Mem-server js at in (k, e, Memᴰ.tail later)

server-new : (i : ℕ) (js : List ℕ) → All (λ j. i < j) js → Memᴰ i js → ⊥
server-new i [] h at = elim at [ ]
server-new i (j ∷ js) h (Memᴰ.head e) = absurd (omega (arith, h.0, e))
server-new i (j ∷ js) h (Memᴰ.tail at) = server-new i js h.1 at

Nodup-servers :
    (i : ℕ) (js : List ℕ)
    → All (λ j. i < j) js
    → Nodup (map server js)
    → Nodup (server i ∷ map server js)
Nodup-servers i js h once = Nodup-cons.1 (
  (λ m.
      ∥∥₁_elim m (λ x y. absurd x)
        (λ at.
          let (k, e, there) = Mem-server js at in
          server-new i js h (subst (λ (n : ℕ). Memᴰ n js) (sym (ap index e)) there))),
  once,
)

servers-OneAddress : (js : List ℕ) → OneAddress (map server js)
unfolding same_text
servers-OneAddress js u w mu mw same =
    let (i, eu, _) = Mem-server js mu in
    let (j, ew, _) = Mem-server js mw in
    eu
    ∙ ap server (
        (==_iff i j).0 (
          first (i == j) (
            subst
              (λ (v : IpStruct).
                (same_text (server i).ip v.ip && same_text (server i).port v.port) ≡ true)
              ew
              (subst (λ (v : IpStruct). (same_text v.ip w.ip && same_text v.port w.port) ≡ true) eu
                same))))
    ∙ sym ew
  where
    first : (b : Bool) → ((b && true) && true) ≡ true → b ≡ true
    first true h = refl
    first false h = cc

abbrev first_server : Network
first_server = record quiet { ip_list = server 0 ∷ [] }

abbrev new_server : Network
new_server = record quiet { ip_list = server 2 ∷ [] }

hear-joins_example :
    (ips : List IpStruct) × (participate_in_network
        (server 2 ∷ [])
        (some (join_network (joins first_server (server 1 ∷ [])) (server 2)).0)
      ≡ some ips)
    × Perm
        (hear (record new_server { ip_list = ips }) (server 3 ∷ server 2 ∷ server 3 ∷ [])).ip_list
        (joins first_server (server 1 ∷ server 2 ∷ server 3 ∷ [])).ip_list
hear-joins_example =
    hear-joins first_server new_server (server 1 ∷ []) (server 3 ∷ [])
      (server 3 ∷ server 2 ∷ server 3 ∷ []) (server 2) refl
      (Nodup-servers 0 (1 ∷ 2 ∷ 3 ∷ []) (omega arith, (omega arith, (omega arith, tt)))
        (Nodup-servers 1 (2 ∷ 3 ∷ []) (omega arith, (omega arith, tt))
          (Nodup-servers 2 (3 ∷ []) (omega arith, tt) (Nodup-servers 3 [] tt Nodup-nil))))
      (servers-OneAddress (0 ∷ 1 ∷ 2 ∷ 3 ∷ []))
      (λ v at. Memᴰ.append_left (server 2 ∷ server 3 ∷ []) at)
      (λ v at. elim (Memᴰ.cases_cons at) [
        | inl e ↦ Memᴰ.tail (Memᴰ.tail (Memᴰ.tail (Memᴰ.head e)))
        | inr at' ↦ Memᴰ.tail (Memᴰ.tail at')
      ])
