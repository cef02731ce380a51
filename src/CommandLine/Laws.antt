-- ===== src/CommandLine/Laws.antt =====
-- Which command lines are accepted, and with what.
use grintorrent.Base.{
  ℕ, ◌≡◌, ◌≢◌, refl, ◌⊎◌, Bool, true, false, not, ◌&&◌, ◌||◌, Bool-cases, inl, inr, Option, some,
  List, [], ◌∷◌, if◌then◌else◌, ◌==◌,
}
use grintorrent.CommandLine.{
  CmdArgs, char_p, char_n, char_f, char_u, goes_on, exits, exit_failure, parse_args, given,
  check_args, no_args, read_args,
}

-- The last argument of an option, if it is there.
unfoldable pub last_of : ℕ → Option (List ℕ) → List (ℕ × List ℕ) → Option (List ℕ)
last_of c before [] = before
last_of c before ((opt, optarg) ∷ opts) = last_of c (if opt == c then some optarg else before) opts

-- Only options that take an argument.
unfoldable pub Known : List (ℕ × List ℕ) → Type 0
Known [] = Unit
Known ((opt, optarg) ∷ opts) =
    ((opt ≡ char_p) ⊎ ((opt ≡ char_n) ⊎ ((opt ≡ char_f) ⊎ (opt ≡ char_u)))) × Known opts

abbrev pub chosen : CmdArgs → List (ℕ × List ℕ) → CmdArgs
chosen args opts = record {
  peer_p = last_of char_p args.peer_p opts;
  port_p = last_of char_n args.port_p opts;
  file_p = last_of char_f args.file_p opts;
  username_p = last_of char_u args.username_p opts;
}

module _ (strdup : List ℕ → Option (List ℕ)) (memory : (s : List ℕ) → strdup s ≡ some s) where
  parse_args-Known :
      (opts : List (ℕ × List ℕ)) (args : CmdArgs)
      → Known opts
      → parse_args strdup args opts ≡ goes_on (chosen args opts)
  unfolding parse_args Known last_of
  parse_args-Known [] args known = refl
  parse_args-Known ((opt, optarg) ∷ opts) args (inl e, known) =
      rw (e, memory optarg) (parse_args-Known opts (record args { peer_p = some optarg }) known)
  parse_args-Known ((opt, optarg) ∷ opts) args (inr (inl e), known) =
      rw (e, memory optarg) (parse_args-Known opts (record args { port_p = some optarg }) known)
  parse_args-Known ((opt, optarg) ∷ opts) args (inr (inr (inl e)), known) =
      rw (e, memory optarg) (parse_args-Known opts (record args { file_p = some optarg }) known)
  parse_args-Known ((opt, optarg) ∷ opts) args (inr (inr (inr e)), known) =
      rw (e, memory optarg) (parse_args-Known opts (record args { username_p = some optarg }) known)

-- A user name, and a peer exactly with a port.
pub record IsAccepted (args : CmdArgs) : Type 0 where
  pub named : given args.username_p ≡ true
  pub paired : given args.peer_p ≡ given args.port_p

unpaired : (a b : Bool) → a ≢ b → ((a && not b) || (b && not a)) ≡ true
unpaired true true ne = absurd (ne refl)
unpaired true false ne = refl
unpaired false true ne = refl
unpaired false false ne = absurd (ne refl)

pairs : (a : Bool) → ((a && not a) || (a && not a)) ≡ false
pairs true = refl
pairs false = refl

module _ (strdup : List ℕ → Option (List ℕ)) (memory : (s : List ℕ) → strdup s ≡ some s)
    (opts : List (ℕ × List ℕ)) (known : Known opts) where
  -- With a user name, and a peer exactly with a port, `main` goes on with the last argument of each
  -- option.
  pub read_args-IsAccepted :
      IsAccepted (chosen no_args opts) → read_args strdup opts false ≡ goes_on (chosen no_args opts)
  unfolding read_args check_args
  read_args-IsAccepted good =
      rw
        (
          parse_args-Known strdup memory opts no_args known,
          good.named,
          good.paired,
          pairs (given (chosen no_args opts).port_p),
        )
        refl

  -- When only options are given that take an argument, and strdup has memory, main exits with
  -- EXIT_FAILURE when something follows the options, and when, with the last argument of each
  -- option, there is no user name or only one of peer and port.
  pub read_args_refuses :
      (extra : Bool)
      → (extra ≡ true) ⊎ ¬ IsAccepted (chosen no_args opts)
      → read_args strdup opts extra ≡ exits exit_failure
  unfolding read_args check_args
  read_args_refuses extra (inl e) = rw (e, parse_args-Known strdup memory opts no_args known) refl
  read_args_refuses true (inr bad) = rw (parse_args-Known strdup memory opts no_args known) refl
  read_args_refuses false (inr bad) =
      let args = chosen no_args opts in
      let parsed = parse_args-Known strdup memory opts no_args known in
      elim (Bool-cases (given args.username_p)) [
        | inr unnamed ↦ rw (parsed, unnamed) refl
        | inl named ↦
            rw
              (
                parsed,
                named,
                unpaired (given args.peer_p) (given args.port_p)
                    (λ same. bad (record { named = named; paired = same })),
              )
              refl
      ]
