-- ===== src/Logger/Fatal.antt =====
-- What a process leaves behind after the calls that it makes of the logger.
use mathlib.Core.List.{map, append_assoc}
use compute_user_accounts.Base.{
  ◌≡◌, refl, ◌∙◌, inl, inr, Bool-cases, ℕ, List, [], ◌∷◌, ◌++◌, Bool, true, false, Option, none,
  some, Bytes, if◌then◌else◌, append-nil,
}
use compute_user_accounts.Logger.Format.{sprint, sprintf}
use compute_user_accounts.Logger.Process.{
  Severity, Entry, Process, started, LogCall, info, notice, error, fatal, infof, noticef, errorf,
  fatalf, log, log_all,
}

abbrev pub is_fatal : LogCall → Bool
is_fatal (fatal a) = true
is_fatal (fatalf format a) = true
is_fatal call = false

-- The calls up to the first fatal one.
abbrev pub up_to_fatal : List LogCall → List LogCall
up_to_fatal [] = []
up_to_fatal (c ∷ cs) = let rest = up_to_fatal cs in if is_fatal c then c ∷ [] else c ∷ rest

abbrev pub text_of : LogCall → Bytes
text_of (info a) = sprint a
text_of (notice a) = sprint a
text_of (error a) = sprint a
text_of (fatal a) = sprint a
text_of (infof format a) = sprintf format a
text_of (noticef format a) = sprintf format a
text_of (errorf format a) = sprintf format a
text_of (fatalf format a) = sprintf format a

abbrev pub severity_of : LogCall → Severity
severity_of (info a) = Severity.info
severity_of (notice a) = Severity.notice
severity_of (error a) = Severity.error
severity_of (fatal a) = Severity.critical
severity_of (infof format a) = Severity.info
severity_of (noticef format a) = Severity.notice
severity_of (errorf format a) = Severity.error
severity_of (fatalf format a) = Severity.critical

abbrev pub entry_of : LogCall → Entry
entry_of c = record { severity = severity_of c; message = text_of c }

-- The message of the first fatal call on a line, and the stack.
abbrev pub last_words : (stack : Bytes) → List LogCall → List Bytes
last_words stack [] = []
last_words stack (c ∷ cs) =
    let rest = last_words stack cs in
    if is_fatal c then (text_of c ++ b'\n' ∷ []) ∷ stack ∷ [] else rest

abbrev pub exit_status : List LogCall → Option ℕ
exit_status [] = none
exit_status (c ∷ cs) = let rest = exit_status cs in if is_fatal c then some 255 else rest

-- A process that has exited makes no call.
log_all-exited :
    (stack : Bytes) (cs : List LogCall) (syslog : List Entry) (stderr : List Bytes) (status : ℕ)
    → log_all stack cs (record { syslog = syslog; stderr = stderr; exit = some status })
      ≡ record { syslog = syslog; stderr = stderr; exit = some status }
unfolding log_all
log_all-exited stack [] syslog stderr status = refl
log_all-exited stack (c ∷ cs) syslog stderr status = refl

-- A process that has not.
abbrev running : List Entry → List Bytes → Process
running syslog stderr = record { syslog = syslog; stderr = stderr; exit = none }

log-plain :
    (stack : Bytes) (c : LogCall) (syslog : List Entry) (stderr : List Bytes)
    → is_fatal c ≡ false
    → log stack c (running syslog stderr) ≡ running (syslog ++ entry_of c ∷ []) stderr
unfolding log
log-plain stack (info a) syslog stderr h = refl
log-plain stack (notice a) syslog stderr h = refl
log-plain stack (error a) syslog stderr h = refl
log-plain stack (fatal a) syslog stderr h = cc
log-plain stack (infof format a) syslog stderr h = refl
log-plain stack (noticef format a) syslog stderr h = refl
log-plain stack (errorf format a) syslog stderr h = refl
log-plain stack (fatalf format a) syslog stderr h = cc

log-fatal :
    (stack : Bytes) (c : LogCall) (syslog : List Entry) (stderr : List Bytes)
    → is_fatal c ≡ true
    → log stack c (running syslog stderr) ≡ record {
      syslog = syslog ++ entry_of c ∷ [];
      stderr = stderr ++ (text_of c ++ b'\n' ∷ []) ∷ stack ∷ [];
      exit = some 255;
    }
unfolding log sprint
log-fatal stack (info a) syslog stderr h = cc
log-fatal stack (notice a) syslog stderr h = cc
log-fatal stack (error a) syslog stderr h = cc
log-fatal stack (fatal a) syslog stderr h = refl
log-fatal stack (infof format a) syslog stderr h = cc
log-fatal stack (noticef format a) syslog stderr h = cc
log-fatal stack (errorf format a) syslog stderr h = cc
log-fatal stack (fatalf format a) syslog stderr h = refl

log_all-running :
    (stack : Bytes) (cs : List LogCall) (syslog : List Entry) (stderr : List Bytes)
    → log_all stack cs (running syslog stderr) ≡ record {
      syslog = syslog ++ map entry_of (up_to_fatal cs);
      stderr = stderr ++ last_words stack cs;
      exit = exit_status cs;
    }
unfolding log_all
log_all-running stack [] syslog stderr = rw (append-nil syslog, append-nil stderr) refl
log_all-running stack (c ∷ cs) syslog stderr = elim (Bool-cases (is_fatal c)) [
  | inl t ↦ rw (t, log-fatal stack c syslog stderr t) (log_all-exited stack cs _ _ 255)
  | inr f ↦
      rw (f, log-plain stack c syslog stderr f)
        (log_all-running stack cs (syslog ++ entry_of c ∷ []) stderr
          ∙ rw (append_assoc syslog (entry_of c ∷ []) (map entry_of (up_to_fatal cs))) refl)
]

-- A process writes the entries of its calls to the syslog, each with the severity of its function and
-- with its values formatted, up to its first fatal call. With that it writes the same message, on a
-- line, and the stack to its standard error, exits with status 255, and writes nothing more; without one
-- it writes nothing there and does not exit.
pub log_all_lem :
    (stack : Bytes) (cs : List LogCall)
    → log_all stack cs started ≡ record {
      syslog = map entry_of (up_to_fatal cs);
      stderr = last_words stack cs;
      exit = exit_status cs;
    }
log_all_lem stack cs = log_all-running stack cs [] []
