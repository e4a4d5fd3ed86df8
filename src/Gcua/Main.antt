-- ===== src/Gcua/Main.antt =====
-- The configuration of the daemon, and `main`. The version is set when the program is linked; the
-- flags are those that `flag.Parse` has read; the errors of `cua.New` and of `Serve`, the signals, and
-- what the runtime prints of a stack or of a panic are parameters. A duration is in nanoseconds.
use compute_user_accounts.Base.{ℕ, ◌*◌, List, [], ◌∷◌, ◌++◌, Option, none, some, Bytes, codes}
use compute_user_accounts.Accounts.{Error, Result, ok, err}
use compute_user_accounts.Logger.Format.{text, error, signal, sprintf}
use compute_user_accounts.Logger.Process.{Process, started, LogCall, info, fatalf, log_all}
use compute_user_accounts.ApiClient.Calls.{ApiClient}
use compute_user_accounts.ApiClient.Calls as ApiClient
use compute_user_accounts.Store.State as Store

abbrev second : ℕ
second = 1000000000

abbrev pub user_agent : Bytes → Bytes
user_agent version = sprintf (codes "gcua/%v") (text version ∷ [])

abbrev pub api_timeout : ℕ
api_timeout = 20 * second

abbrev pub store_config : Store.Config
store_config = record {
  account_refresh_frequency = 60 * second;
  account_refresh_cooldown = second;
  key_refresh_frequency = 30 * (60 * second);
  key_refresh_cooldown = 500 * 1000000;
}

-- `clouduseraccounts` and `compute`.
pub record Flags : Type 0 where
  pub api_base : Bytes
  pub instance_base : Bytes

abbrev pub default_flags : Flags
default_flags = record {
  api_base = codes "https://www.googleapis.com/clouduseraccounts/vm_beta/";
  instance_base = codes "https://www.googleapis.com/compute/v1/";
}

abbrev pub api_config : (version : Bytes) → Flags → ApiClient.Config
api_config version flags = record {
  api_base = flags.api_base;
  instance_base = flags.instance_base;
  user_agent = user_agent version;
  timeout = api_timeout;
}

-- What ends a daemon that runs: `Serve` returns, a signal comes, or one of its goroutines panics, of
-- which the runtime prints a report.
pub data Ending : Type 0 where
  server_failed : Error → Ending
  interrupted : Bytes → Ending
  panicked : (report : Bytes) → Ending

-- What the server of a daemon that runs stands on.
pub record Daemon : Type 0 where
  pub api : ApiClient
  pub config : Store.Config

unfoldable pub ending_calls : Option Ending → List LogCall
ending_calls none = []
ending_calls (some (server_failed e)) = fatalf (codes "Server failed: %v.") (error e ∷ []) ∷ []
ending_calls (some (panicked report)) = []
ending_calls (some (interrupted sig)) = fatalf (codes "Got interrupt: %v.") (signal sig ∷ []) ∷ []

-- Without an ending, the daemon runs on.
unfoldable pub start_daemon : Result ApiClient → Option Ending → List LogCall × Option Daemon
unfolding ending_calls
start_daemon (err e) ending = (fatalf (codes "Init failed: %v.") (error e ∷ []) ∷ [], none)
start_daemon (ok api) ending =
    (ending_calls ending, some (record { api = api; config = store_config }))

-- A panic is not logged: the runtime writes its report to the standard error, and exits with status 2.
abbrev after_panic : Option Daemon → Option Ending → Process → Process
after_panic (some d) (some (panicked report)) o = record o {
  stderr = o.stderr ++ report ∷ [];
  exit = some 2;
}
after_panic daemon ending o = o

unfoldable pub main :
    (version : Bytes)
    → Flags
    → (stack : Bytes) → (made : Option Error) → Option Ending
    → Process × Option Daemon
unfolding start_daemon
main version flags stack made ending =
    let (calls, daemon) = start_daemon (ApiClient.new made (api_config version flags)) ending in
    let o = log_all stack (info (text (codes "Starting daemon.") ∷ []) ∷ calls) started in
    (after_panic daemon ending o, daemon)
