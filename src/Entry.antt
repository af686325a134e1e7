-- ===== src/Entry.antt =====
-- main.go and server/src/util.go: the choice between server and client, and the wait for the command exit.
-- A text is a list of character codes; one line is read at a time, as a terminal gives them.
use digital_election_system.Common.{ℕ, Option, none, some, List, [], ◌∷◌, ◌==◌, if◌then◌else◌}
use digital_election_system.Network.{same_text}

-- strings.TrimSuffix(t, "\n")
unfoldable pub trim_newline : List ℕ → List ℕ
trim_newline [] = []
trim_newline (c ∷ []) = if c == 10 then [] else c ∷ []
trim_newline (c ∷ d ∷ t) = c ∷ trim_newline (d ∷ t)

-- GetInput, on the line that is read.
abbrev pub get_input : List ℕ → List ℕ
get_input line = trim_newline line

pub data Role : Type 0 where
  as_server : Role
  as_client : Role

-- The program is a client for the text c, and a server for any other.
unfoldable pub choose_role : List ℕ → Role
choose_role line = if same_text (get_input line) (99 ∷ []) then as_client else as_server

-- The lines that are left when exit was read; `none` when they end before it.
unfoldable pub wait_for_exit : List (List ℕ) → Option (List (List ℕ))
wait_for_exit [] = none
wait_for_exit (line ∷ lines) =
    let rest = wait_for_exit lines in
    if same_text (get_input line) (101 ∷ 120 ∷ 105 ∷ 116 ∷ []) then some lines else rest
