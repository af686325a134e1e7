-- ===== src/Logger/Batches.antt =====
-- server/src/Logger.go: the entries that a turn of the logger keeps, sends and loses.
use digital_election_system.Common.{
  ltb_ℤ, pos, ◌-ℤ◌, ℕ, zero, suc, ◌≤◌, ◌<◌, ◌≡◌, refl, ap, ◌∙◌, Bool, true, false, Bool-cases, inl,
  inr, List, [], ◌∷◌, ◌++◌, length, length-append, ℤ, if◌then◌else◌, ltb, ◌==◌, arith, ◌||◌,
}
use mathlib.Core.List.{append-nil, append_assoc, flatten}
use digital_election_system.Logger.{
  LogStruct, Logger, copied, take_entry, is_due, send_batch, start_logger,
}

length-copied {ℓ} : {A : Type ℓ} (k : ℕ) (l : List A) → length (copied k l) ≤ k
unfolding copied
length-copied zero l = omega arith
length-copied (suc k) [] = omega arith
length-copied (suc k) (x ∷ l) = omega (arith, length-copied k l)

few-copied : (k : ℕ) (l : List LogStruct) → ltb k (length (copied k l)) ≡ false
few-copied k l = ground (arith, length-copied k l)

suc_positive : (n : ℕ) → (suc n == 0) ≡ false
suc_positive n = ground arith

-- A prepared batch takes the first k entries of a list that is not empty, k being 1 or more, and the
-- list is empty afterwards: every entry from the one at place k on is dropped.
pub send_batch-copied :
    (k : ℕ) (now : ℤ) (l : Logger) (e : LogStruct) (rest : List LogStruct)
    → 0 < k
    → l.logger_list ≡ e ∷ rest
    → ((send_batch k now true l).logger_list ≡ [])
      × ((send_batch k now true l).inserted ≡ l.inserted ++ copied k (e ∷ rest) ∷ [])
unfolding send_batch copied
send_batch-copied zero now l e rest h full = absurd (omega (arith, h))
send_batch-copied (suc k) now l e rest h full =
    let few : ltb (suc k) (suc (length (copied k rest))) ≡ false = few-copied (suc k) (e ∷ rest) in
    let some_sent : (suc (length (copied k rest)) == 0) ≡ false =
      suc_positive (length (copied k rest)) in
    (rw (full, few, some_sent), rw (full, few, some_sent))

or-false : (a b : Bool) → (a || b) ≡ false → b ≡ false
or-false true b h = cc
or-false false b h = h

le-ltb : (a b : ℕ) → ltb a b ≡ false → b ≤ a
le-ltb a b h = ground arith

length-send_batch :
    (k : ℕ) (now : ℤ) (l : Logger) (pending : List LogStruct)
    → 0 < k
    → l.logger_list ≡ pending
    → length (send_batch k now true l).logger_list ≤ k
unfolding send_batch copied
length-send_batch zero now l pending h full = absurd (omega (arith, h))
length-send_batch (suc k) now l [] h full = rw full (omega arith)
length-send_batch (suc k) now l (e ∷ rest) h full =
    rw ((send_batch-copied (suc k) now l e rest h full).0) (omega arith)

length-turn :
    (k : ℕ) (now : ℤ) (l : Logger)
    → 0 < k
    → length (if is_due k now l then send_batch k now true l else l).logger_list ≤ k
unfolding is_due
length-turn k now l h = elim (Bool-cases (is_due k now l)) [
  | inl due ↦ rw due (length-send_batch k now l l.logger_list h refl)
  | inr due ↦ rw due (
      le-ltb k (length l.logger_list)
        (or-false (ltb_ℤ (pos 10) (now -ℤ l.last_sent)) (ltb k (length l.logger_list)) due))
]

-- A turn with a prepared statement leaves at most k entries waiting, k being 1 or more.
pub length-start_logger :
    (k : ℕ) (now : ℤ) (l : Logger) → 0 < k → length (start_logger k now true l).logger_list ≤ k
unfolding start_logger
length-start_logger k now l h = length-turn k now (take_entry l) h

-- Every entry that the logger has been given, in the order in which it got them.
pub entries : Logger → List LogStruct
entries l = flatten l.inserted ++ (l.logger_list ++ l.log_channel)

flatten-append :
    (bs : List (List LogStruct)) (b : List LogStruct) → flatten (bs ++ b ∷ []) ≡ flatten bs ++ b
unfolding flatten
flatten-append [] b = append-nil b
flatten-append (x ∷ bs) b = rw (flatten-append bs b, append_assoc)

copied_all : (k : ℕ) (l : List LogStruct) → length l ≤ k → copied k l ≡ l
unfolding copied
copied_all zero [] h = refl
copied_all zero (x ∷ l) h = absurd (omega (arith, h))
copied_all (suc k) [] h = refl
copied_all (suc k) (x ∷ l) h = ap (λ l. x ∷ l) (copied_all k l (omega (arith, h)))

take-entries :
    (l : Logger) (c : List LogStruct) → l.log_channel ≡ c → entries (take_entry l) ≡ entries l
unfolding entries take_entry
take-entries l [] h = rw h
take-entries l (e ∷ rest) h = rw (h, append_assoc)

kept-entries : (k : ℕ) (now : ℤ) (l : Logger) → send_batch k now false l ≡ l
unfolding send_batch
kept-entries k now l = elim (Bool-cases (length (copied k l.logger_list) == 0)) [
  | inl b ↦ rw b
  | inr b ↦ rw b
]

copied-nil : (k : ℕ) → copied {A = LogStruct} k [] ≡ []
unfolding copied
copied-nil zero = refl
copied-nil (suc k) = refl

idle-entries : (k : ℕ) (now : ℤ) (l : Logger) → l.logger_list ≡ [] → send_batch k now true l ≡ l
unfolding send_batch
idle-entries k now l h = rw (h, copied-nil k)

channel-send_batch :
    (k : ℕ) (now : ℤ) (l : Logger) → (send_batch k now true l).log_channel ≡ l.log_channel
unfolding send_batch
channel-send_batch k now l = elim (Bool-cases (length (copied k l.logger_list) == 0)) [
  | inl b ↦ rw b
  | inr b ↦ rw b
]

sent-entries :
    (k : ℕ) (now : ℤ) (l : Logger) (pending : List LogStruct)
    → l.logger_list ≡ pending
    → length pending ≤ k
    → entries (send_batch k now true l) ≡ entries l
unfolding entries
sent-entries k now l [] h few = rw (idle-entries k now l h)
sent-entries zero now l (e ∷ rest) h few = absurd (omega (arith, few))
sent-entries (suc k) now l (e ∷ rest) h few =
    let sent = send_batch-copied (suc k) now l e rest (omega arith) h in
    rw (
      sent.0,
      sent.1,
      channel-send_batch,
      copied_all (suc k) (e ∷ rest) few,
      flatten-append,
      append_assoc,
      h,
    )

batch-entries :
    (k : ℕ) (now : ℤ) (prepared : Bool) (l : Logger)
    → length l.logger_list ≤ k
    → entries (send_batch k now prepared l) ≡ entries l
batch-entries k now true l few = sent-entries k now l l.logger_list refl few
batch-entries k now false l few = ap entries (kept-entries k now l)

turn-entries :
    (k : ℕ) (now : ℤ) (prepared due : Bool) (l : Logger)
    → length l.logger_list ≤ k
    → entries (if due then send_batch k now prepared l else l) ≡ entries l
turn-entries k now prepared true l few = batch-entries k now prepared l few
turn-entries k now prepared false l few = refl

length-take_entry :
    (l : Logger) (c : List LogStruct)
    → l.log_channel ≡ c
    → length (take_entry l).logger_list ≤ suc (length l.logger_list)
unfolding take_entry
length-take_entry l [] h = rw h (omega arith)
length-take_entry l (e ∷ rest) h = rw (h, length-append) (omega arith)

-- A turn of the logger that starts with fewer than k entries waiting neither loses nor repeats nor
-- reorders an entry, whether the database prepares the statement or not: those sent, those waiting and
-- those in the channel are together the same list as before.
pub start_logger-entries :
    (k : ℕ) (now : ℤ) (prepared : Bool) (l : Logger)
    → length l.logger_list < k
    → entries (start_logger k now prepared l) ≡ entries l
unfolding start_logger
start_logger-entries k now prepared l few =
    let taken : length (take_entry l).logger_list ≤ k =
      omega (arith, length-take_entry l l.log_channel refl, few) in
    turn-entries k now prepared (is_due k now (take_entry l)) (take_entry l) taken
    ∙ take-entries l l.log_channel refl
