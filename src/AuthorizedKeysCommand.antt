-- ===== src/AuthorizedKeysCommand.antt =====
-- authorizedkeys/authorizedkeys.go: the command that prints the keys of a user, line by line.
use compute_user_accounts.Base.{
  ◌≡◌, refl, ap, ◌∙◌, ◌≤◌, ◌+◌, List, [], ◌∷◌, ◌++◌, Option, none, some, codes, Bytes, All, Lacks,
  length,
}
use compute_user_accounts.Go.Strings.{split, split-append}
use compute_user_accounts.Accounts.{AccountProvider, Result, ok, err}
use compute_user_accounts.Logger.Format.{text, error}
use compute_user_accounts.Logger.Process.{Process, started, fatal, fatalf, log_all}
use compute_user_accounts.Server.Respond.{max_request_size}
use compute_user_accounts.Client.Send.{Network}
use compute_user_accounts.Client.Calls
use compute_user_accounts.Protocol.Wire.{direct, over_wire, IsOk}
use compute_user_accounts.Protocol.Calls.{authorized_keys-over_wire}

-- The logger ends the command, or it prints.
pub data Outcome : Type 0 where
  failed : Process → Outcome
  printed : Bytes → Outcome

-- The loop of `fmt.Println`.
unfoldable print_lines : List Bytes → Bytes
print_lines [] = []
print_lines (k ∷ keys) = k ++ b'\n' ∷ print_lines keys

unfoldable pub print_result : Bytes → Result (List Bytes) → Outcome
unfolding print_lines
print_result stack (ok keys) = printed (print_lines keys)
print_result stack (err e) = failed (
    log_all stack (fatalf (codes "Authorized keys command failed: %v.") (error e ∷ []) ∷ [])
      started)

-- `os.Args` has the name of the program first, and `stack` is what `Fatal` prints of the goroutine.
unfoldable pub command : {S : Type 0} → Bytes → Network S → List Bytes → S → Outcome × S
unfolding print_result
command stack net (program ∷ username ∷ []) s =
    let (r, s') = Calls.authorized_keys net username s in (print_result stack r, s')
command stack net _ s = (
  failed (
      log_all stack
        (fatal (text (codes "Invalid username argument to authorized keys command.") ∷ []) ∷ [])
        started),
  s,
)

-- The lines of what is printed: the last one, behind the last line feed, is empty.
abbrev pub printed_lines : Outcome → Option (List Bytes)
printed_lines (failed process) = none
printed_lines (printed out) = some (split out b'\n')

abbrev pub key_lines : Result (List Bytes) → Option (List Bytes)
key_lines (ok keys) = some (keys ++ [] ∷ [])
key_lines (err e) = none

split-print_lines :
    (keys : List Bytes) → All (Lacks b'\n') keys → split (print_lines keys) b'\n' ≡ keys ++ [] ∷ []
unfolding split print_lines
split-print_lines [] h = refl
split-print_lines (k ∷ keys) h =
    split-append k (print_lines keys) b'\n' h.0 ∙ ap (◌∷◌ k) (split-print_lines keys h.1)

printed_lines-over_wire :
    {S : Type 0} (stack : Bytes) (r : Result (List Bytes) × S)
    → IsOk (All (Lacks b'\n')) r.0
    → printed_lines (print_result stack (over_wire r).0) ≡ key_lines r.0
unfolding print_result
printed_lines-over_wire stack (ok keys, s) safe = ap some (split-print_lines keys safe)
printed_lines-over_wire stack (err e, s) safe = refl

-- For a name without a space whose request fits the server's buffer, and where no key that the
-- provider answers holds a line feed, the command with this name, over the socket, prints the keys that
-- the provider answers, one on each line, and fails if the provider does.
pub command-keys :
    {S : Type 0} (p : AccountProvider S) (stack program name : Bytes) (s : S)
    → Lacks b' ' name
    → length name + 5 ≤ max_request_size
    → IsOk (All (Lacks b'\n')) (p.authorized_keys name s).0
    → printed_lines (command stack (direct p) (program ∷ name ∷ []) s).0
      ≡ key_lines (p.authorized_keys name s).0
unfolding command
command-keys p stack program name s h fits safe =
    rw (authorized_keys-over_wire p name s h fits safe)
      (printed_lines-over_wire stack (p.authorized_keys name s) safe)
