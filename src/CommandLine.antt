-- ===== src/CommandLine.antt =====
-- The command line: `cmd_args_t` of src/client.h, `parse_args` and the checks of `main` in
-- src/client.c. What `getopt` finds is a list of characters with `optarg`.
pub mod Laws
use grintorrent.Base.{
  ℕ, Bool, not, ◌&&◌, ◌||◌, Option, none, some, List, [], ◌∷◌, if◌then◌else◌, ◌==◌,
}

-- `cmd_args_t`, `none` for NULL
pub record CmdArgs : Type 0 where
  pub peer_p : Option (List ℕ)
  pub port_p : Option (List ℕ)
  pub file_p : Option (List ℕ)
  pub username_p : Option (List ℕ)

abbrev pub char_h : ℕ
char_h = 104

abbrev pub char_p : ℕ
char_p = 112

abbrev pub char_n : ℕ
char_n = 110

abbrev pub char_f : ℕ
char_f = 102

abbrev pub char_u : ℕ
char_u = 117

abbrev pub char_colon : ℕ
char_colon = 58

abbrev pub char_question : ℕ
char_question = 63

-- The code goes on with the arguments, or ends the process with a status.
pub data Parsed : Type 0 where
  goes_on : CmdArgs → Parsed
  exits : ℕ → Parsed

abbrev pub exit_success : ℕ
exit_success = 0

abbrev pub exit_failure : ℕ
exit_failure = 1

-- A string that `strdup` copied, or `exit(EXIT_FAILURE)`
abbrev pub copied : Option (List ℕ) → (Option (List ℕ) → Parsed) → Parsed
copied none next = exits exit_failure
copied (some s) next = next (some s)

module _ (strdup : List ℕ → Option (List ℕ)) where
  -- `while ((opt = getopt(argc, argv, ":p:n:f:u:h")) != -1)`
  unfoldable pub parse_args : CmdArgs → List (ℕ × List ℕ) → Parsed
  parse_args args [] = goes_on args
  parse_args args ((opt, optarg) ∷ opts) =
      let peer = λ (s : Option (List ℕ)). parse_args (record args { peer_p = s }) opts in
      let port = λ (s : Option (List ℕ)). parse_args (record args { port_p = s }) opts in
      let file = λ (s : Option (List ℕ)). parse_args (record args { file_p = s }) opts in
      let username = λ (s : Option (List ℕ)). parse_args (record args { username_p = s }) opts in
      let other = parse_args args opts in
      if opt == char_h
      then exits exit_success
      else if opt == char_p
      then copied (strdup optarg) peer
      else if opt == char_n
      then copied (strdup optarg) port
      else if opt == char_f
      then copied (strdup optarg) file
      else if opt == char_u
      then copied (strdup optarg) username
      else if opt == char_colon || opt == char_question
      then exits exit_failure
      else other

abbrev pub given : Option (List ℕ) → Bool
given none = Bool.false
given (some s) = Bool.true

-- The checks of `main`; `extra` is `optind < argc`.
unfoldable pub check_args : (extra : Bool) → CmdArgs → Parsed
check_args extra args =
    if extra
    then exits exit_failure
    else if not (given args.username_p)
    then exits exit_failure
    else if given args.peer_p && not (given args.port_p)
        || given args.port_p && not (given args.peer_p)
    then exits exit_failure
    else goes_on args

abbrev pub and_then : Parsed → (CmdArgs → Parsed) → Parsed
and_then (goes_on args) next = next args
and_then (exits status) next = exits status

-- `cmd_args_t args = {NULL};`
abbrev pub no_args : CmdArgs
no_args = record { peer_p = none; port_p = none; file_p = none; username_p = none }

-- What `main` does with its arguments before it connects.
unfoldable pub read_args : (List ℕ → Option (List ℕ)) → List (ℕ × List ℕ) → (extra : Bool) → Parsed
read_args strdup opts extra = and_then (parse_args strdup no_args opts) (check_args extra)
