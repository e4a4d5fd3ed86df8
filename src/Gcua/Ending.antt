-- ===== src/Gcua/Ending.antt =====
-- How the daemon ends.
use mathlib.Core.List.{map}
use compute_user_accounts.Base.{ℕ, ◌≡◌, ap, List, [], ◌∷◌, ◌++◌, Option, none, some, Bytes, codes}
use compute_user_accounts.Accounts.{error_text, Error}
use compute_user_accounts.Logger.Format.{sprint, sprintf}
use compute_user_accounts.Logger.Process.{Severity, Entry, Process}
use compute_user_accounts.Logger.Fatal.{log_all_lem}
use compute_user_accounts.ApiClient.Calls.{new}
use compute_user_accounts.Gcua.Main.{Flags, Ending, server_failed, interrupted, panicked, main}

-- Why the daemon ends by itself, if it does: at first because its client of the API cannot be made.
abbrev pub reason : Option Error → Option Ending → List Bytes
reason (some e) ending = (codes "Init failed: " ++ (error_text e ++ codes ".")) ∷ []
reason none (some (server_failed e)) = (codes "Server failed: " ++ (error_text e ++ codes ".")) ∷ []
reason none (some (interrupted sig)) = (codes "Got interrupt: " ++ (sig ++ codes ".")) ∷ []
reason none (some (panicked report)) = []
reason none none = []

abbrev pub critical_entry : Bytes → Entry
critical_entry words = record { severity = Severity.critical; message = words }

-- The standard error and the exit status.
abbrev pub end_of : (stack : Bytes) → Option Error → Option Ending → List Bytes × Option ℕ
end_of stack none none = ([], none)
end_of stack none (some (panicked report)) = (report ∷ [], some 2)
end_of stack made ending = (
  mathlib.Core.List.flat_map (λ words. (words ++ b'\n' ∷ []) ∷ stack ∷ []) (reason made ending),
  some 255,
)

-- The daemon exits with status 255 if its client of the API cannot be made, `Serve` returns or a signal
-- comes, when the reason is the one critical entry of the syslog, and with the stack what is written to
-- the standard error; with status 2, and the report there alone, if a goroutine panics; and else not.
pub main_lem :
    (version : Bytes) (flags : Flags) (stack : Bytes) (made : Option Error) (ending : Option Ending)
    → (main version flags stack made ending).0 ≡ record {
      syslog =
          record { severity = Severity.info; message = codes "Starting daemon." }
          ∷ map critical_entry (reason made ending);
      stderr = (end_of stack made ending).0;
      exit = (end_of stack made ending).1;
    }
unfolding main new sprint sprintf mathlib.Core.List.flat_map
main_lem version flags stack (some e) ending = log_all_lem stack _
main_lem version flags stack none (some (server_failed e)) = log_all_lem stack _
main_lem version flags stack none (some (interrupted sig)) = log_all_lem stack _
main_lem version flags stack none (some (panicked report)) =
    ap (λ (o : Process). record o { stderr = o.stderr ++ report ∷ []; exit = some 2 })
      (log_all_lem stack _)
main_lem version flags stack none none = log_all_lem stack _
