-- ===== src/Logger.antt =====
-- server/src/Logger.go: the log entries are collected from a channel and written to a database in batches.
-- One turn of the loop of StartLogger is a function of what it received, of the clock and of whether the
-- database prepared the statement.
pub mod Batches
use digital_election_system.Common.{
  ℕ, zero, suc, Bool, true, false, Option, none, some, List, [], ◌∷◌, ◌++◌, length, map, ℤ, pos,
  ◌-ℤ◌, ltb_ℤ, if◌then◌else◌, ltb, ◌==◌, ◌||◌,
}

pub record LogStruct : Type 0 where
  pub session_id : List ℕ
  pub share_id : List ℕ
  pub action : List ℕ
  pub server_id : ℤ
  pub time : ℤ

-- `inserted` are the batches that the database has taken.
pub record Logger : Type 0 where
  pub logger_list : List LogStruct
  pub last_sent : ℤ
  pub log_channel : List LogStruct
  pub inserted : List (List LogStruct)

unfoldable pub make_logger : ℤ → Logger
make_logger now = record { logger_list = []; last_sent = now; log_channel = []; inserted = [] }

unfoldable pub log : Logger → LogStruct → Logger
log l e = record l { log_channel = l.log_channel ++ e ∷ [] }

module _ {ℓ} {A : Type ℓ} where
  -- What copy takes into a slice of k places, and the rest.
  unfoldable pub copied : ℕ → List A → List A
  copied zero l = []
  copied (suc k) [] = []
  copied (suc k) (x ∷ l) = x ∷ copied k l

  unfoldable pub uncopied : ℕ → List A → List A
  uncopied zero l = l
  uncopied (suc k) [] = []
  uncopied (suc k) (x ∷ l) = uncopied k l

abbrev pub batch : ℕ
batch = 5000

-- The select: an entry of the channel, or none after a second.
unfoldable pub take_entry : Logger → Logger
take_entry l = elim l.log_channel [
  | [] ↦ l
  | e ∷ rest ↦ record l { logger_list = l.logger_list ++ e ∷ []; log_channel = rest }
]

-- The test of the loop on the seconds of the clock.
unfoldable pub is_due : ℕ → ℤ → Logger → Bool
is_due k now l = ltb_ℤ (pos 10) (now -ℤ l.last_sent) || ltb k (length l.logger_list)

-- The body of the if; `rest` gets entries only if more than k were copied into k places.
unfoldable pub send_batch : ℕ → ℤ → Bool → Logger → Logger
send_batch k now prepared l =
    let sent = copied k l.logger_list in
    let rest = (if ltb k (length sent) then uncopied k l.logger_list else []) in
    if length sent == 0
    then l
    else (if prepared
        then record l { logger_list = rest; last_sent = now; inserted = l.inserted ++ sent ∷ [] }
        else l)

unfoldable pub start_logger : ℕ → ℤ → Bool → Logger → Logger
start_logger k now prepared l =
    let l' = take_entry l in if is_due k now l' then send_batch k now prepared l' else l'
