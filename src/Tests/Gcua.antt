-- ===== src/Tests/Gcua.antt =====
-- The daemon's main program, and what it logs.
use compute_user_accounts.Base.{◌≡◌, refl, List, [], ◌∷◌, some, none, Bytes, codes, bytes_eq}
use compute_user_accounts.Accounts.{ok, message, username_not_found, not_found_text}
use compute_user_accounts.Go.Strconv.{format_uint}
use compute_user_accounts.Go.Paths.{trim_slashes}
use compute_user_accounts.Logger.Format.{text, number, error, sprint, sprintf}
use compute_user_accounts.Logger.Process.{
  Severity, Entry, started, LogCall, info, errorf, fatalf, log_all,
}
use compute_user_accounts.Logger.Fatal.{log_all_lem}
use compute_user_accounts.ApiClient.Calls.{new}
use compute_user_accounts.Gcua.Main.{default_flags, api_config, panicked, main}
use compute_user_accounts.Gcua.Ending.{main_lem}

-- The last call is not made.
abbrev calls : List LogCall
calls =
    info (text (codes "a") ∷ number 1 ∷ number 2 ∷ [])
    ∷ errorf (codes "Failed key refresh for %v: %v.")
        (text (codes "user1") ∷ error (username_not_found (codes "user1")) ∷ [])
    ∷ fatalf (codes "Server failed: %v.") (error (message (codes "closed")) ∷ [])
    ∷ info (text (codes "b") ∷ [])
    ∷ []

abbrev entry : Severity → Bytes → Entry
entry severity words = record { severity = severity; message = words }

log_all_lem_example : log_all (codes "goroutine 1") calls started ≡ record {
  syslog =
      entry Severity.info (codes "a1 2")
      ∷ entry Severity.error
          (codes "Failed key refresh for user1: unable to find user with name \"user1\".")
      ∷ entry Severity.critical (codes "Server failed: closed.")
      ∷ [];
  stderr = codes "Server failed: closed.\n" ∷ codes "goroutine 1" ∷ [];
  exit = some 255;
}
unfolding sprint sprintf username_not_found not_found_text format_uint
log_all_lem_example = log_all_lem (codes "goroutine 1") calls

default_client :
    new none (api_config (codes "1.0") default_flags)
    ≡ ok (record {
      config = api_config (codes "1.0") default_flags;
      base_path = codes "https://www.googleapis.com/clouduseraccounts/vm_beta/projects/";
      user_agent = codes "gcua/1.0";
      http_timeout = 20000000000;
    })
unfolding new trim_slashes bytes_eq sprintf
default_client = refl

-- A panic leaves no entry.
panicked_daemon :
    (main (codes "1.0") default_flags [] none (some (panicked (codes "panic: nil")))).0 ≡ record {
      syslog = entry Severity.info (codes "Starting daemon.") ∷ [];
      stderr = codes "panic: nil" ∷ [];
      exit = some 2;
    }
panicked_daemon =
    main_lem (codes "1.0") default_flags [] none (some (panicked (codes "panic: nil")))
