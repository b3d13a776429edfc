-- ===== src/Cli/Session.antt =====
-- The main function of apps/spl_client.cpp: the endpoint flag, one command, or the commands of a
-- session. `lines` is what the terminal gives, without the line ends; `std::cin.getline` fails at the
-- end of the input and on a line of more than 999 characters.
pub mod Lines
use replicated_splinterdb.Base.{
  ℕ, Bool, true, false, ◌&&◌, none, some, List, [], ◌∷◌, length, ℤ, pos, negsuc, ltb, leb,
  if◌then◌else◌, undefined, Exec, pure, lift, ◌>>=◌,
}
use replicated_splinterdb.Nuraft.{Bytes}
use replicated_splinterdb.SplinterDb.Keys.{bytes_eq}
use replicated_splinterdb.Endpoint.{find_char, parse_endpoint}
use replicated_splinterdb.ReadPolicy.{Chance, hash}
use replicated_splinterdb.Client.{Net, Run}
use replicated_splinterdb.Client.Connect.{new_client, port_number}
use replicated_splinterdb.Cli.{tokenize, handle_command}

-- "exit"
abbrev pub exit_word : Bytes
exit_word = 101 ∷ 120 ∷ 105 ∷ 116 ∷ []

-- handle_command(client, tokens) ? 0 : 1
unfoldable pub retcode : Bool → ℤ
retcode done = if done then pos 0 else pos 1

-- !(port < 1024 || port > 65535)
unfoldable pub usable_port : ℤ → Bool
usable_port (pos p) = leb 1024 p && leb p 65535
usable_port (negsuc p) = false

module _ (net : Net) (chance : Chance) where
  open chance use {Rng}

  -- The tokens of a line; `go_on` is the rest of the loop. The first of no tokens is undefined.
  unfoldable pub on_tokens : List Bytes → ℤ → (ℤ → Exec (Run net Rng) ℤ) → Exec (Run net Rng) ℤ
  unfolding retcode
  on_tokens [] ret go_on = lift undefined
  on_tokens (word ∷ words) ret go_on =
      if bytes_eq word exit_word
      then pure ret
      else handle_command net chance (word ∷ words) >>= λ done. go_on (retcode done)

  -- The loop over the lines, with the code of the last command.
  unfoldable pub interact : List Bytes → ℤ → Exec (Run net Rng) ℤ
  unfolding on_tokens
  interact [] ret = pure ret
  interact (line ∷ lines) ret =
      let go_on = interact lines in
      if ltb 999 (length line) then pure ret else on_tokens (tokenize 32 line) ret go_on

  -- One command of the flag -e, or a session; the client lives to the end of the program.
  unfoldable pub run_client : Bytes → List Bytes → Exec (Run net Rng) ℤ
  unfolding interact retcode
  run_client [] lines = interact lines (pos 0)
  run_client (c ∷ flag_e) lines =
      handle_command net chance (tokenize 32 (c ∷ flag_e)) >>= λ done. pure (retcode done)

  -- The main function behind the check that the endpoint flag is not empty and has a colon.
  unfoldable pub connect_client : Bytes → Bytes → List Bytes → Exec net.World ℤ
  unfolding usable_port run_client
  connect_client flag_endpoint flag_e lines = lift (parse_endpoint flag_endpoint) >>= λ e.
      if usable_port e.1
      then (new_client net chance e.0 (port_number e.1) hash 3 10000 3 false >>= λ client w.
          let r = run_client flag_e lines (client, w) in (r.0, r.1.1))
      else pure (pos 1)

  unfoldable pub main : Bytes → Bytes → List Bytes → Exec net.World ℤ
  unfolding connect_client
  main [] flag_e lines = pure (pos 1)
  main (c ∷ flag_endpoint) flag_e lines = elim (find_char b':' (c ∷ flag_endpoint)) [
    | none ↦ pure (pos 1)
    | some i ↦ connect_client (c ∷ flag_endpoint) flag_e lines
  ]
