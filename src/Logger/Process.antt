-- ===== src/Logger/Process.antt =====
-- The functions of the package, on a process. `log.SetOutput` is left out; the text of the stack that
-- `debug.PrintStack` prints is a parameter.
use compute_user_accounts.Base.{ℕ, List, [], ◌∷◌, ◌++◌, Option, none, some, Bytes}
use compute_user_accounts.Logger.Format.{Value, text, sprint, sprintf}

pub data Severity : Type 0 where
  info notice error critical : Severity

pub record Entry : Type 0 where
  pub severity : Severity
  pub message : Bytes

-- What a process has written, by writes, and the status with which it has exited.
pub record Process : Type 0 where
  pub syslog : List Entry
  pub stderr : List Bytes
  pub exit : Option ℕ

abbrev pub started : Process
started = record { syslog = []; stderr = []; exit = none }

-- A call of the logger.
pub data LogCall : Type 0 where
  info notice error fatal : List Value → LogCall
  infof noticef errorf fatalf : Bytes → List Value → LogCall

-- `writer.Info` and the like.
unfoldable pub write : Severity → Bytes → Process → Process
write severity message o = record o {
  syslog = o.syslog ++ record { severity = severity; message = message } ∷ [];
}

-- `Fatal`, from the message on: `Fprintln` ends it with a line feed.
unfoldable pub end : (stack message : Bytes) → Process → Process
unfolding write
end stack message o = record (write Severity.critical message o) {
  stderr = o.stderr ++ (message ++ b'\n' ∷ []) ∷ stack ∷ [];
  exit = some 255;
}

unfoldable pub log : (stack : Bytes) → LogCall → Process → Process
unfolding write end
log stack (info a) o = write Severity.info (sprint a) o
log stack (infof format a) o = write Severity.info (sprintf format a) o
log stack (notice a) o = write Severity.notice (sprint a) o
log stack (noticef format a) o = write Severity.notice (sprintf format a) o
log stack (error a) o = write Severity.error (sprint a) o
log stack (errorf format a) o = write Severity.error (sprintf format a) o
log stack (fatal a) o = end stack (sprint a) o
log stack (fatalf format a) o = end stack (sprint (text (sprintf format a) ∷ [])) o

-- The calls of a process in their order: after the exit there are none.
unfoldable pub log_all : (stack : Bytes) → List LogCall → Process → Process
unfolding log
log_all stack [] o = o
log_all stack (c ∷ cs) o = elim o.exit [ some status ↦ o | none ↦ log_all stack cs (log stack c o) ]
