-- ===== src/Nss/Daemon.antt =====
-- `GetDaemonOutput`, above the socket, and `EntityList`.
use compute_user_accounts.Base.{
  ℕ, suc, List, [], ◌∷◌, Bool, true, false, not, ◌&&◌, Option, none, some, Bytes, codes, bytes_eq,
  ◌==◌, if◌then◌else◌, get_elem?, length,
}
use compute_user_accounts.Nss.Outcome.{
  Exception, invalid_argument, out_of_range, runtime_error, Outcome, done, thrown,
}
use compute_user_accounts.Nss.Strings.{tokenize_string}

pub data OutputType : Type 0 where
  single_line : OutputType
  multi_line : OutputType
  single_line_extended_timeout : OutputType

abbrev pub is_single : OutputType → Bool
is_single single_line = true
is_single multi_line = false
is_single single_line_extended_timeout = true

-- One exchange over the socket: all that is read; `none` if a call of the system fails or a wait for the
-- socket times out.
abbrev pub Socket : Type 0
Socket = Bytes → OutputType → Option Bytes

-- The output vector, which is also there when an exception is thrown.
pub record Output : Type 0 where
  pub lines : List Bytes
  pub exception : Option Exception

abbrev pub failed : Exception → List Bytes → Output
failed e lines = record { lines = lines; exception = some e }

unfoldable pub check_output : OutputType → List Bytes → Output
check_output type [] = failed runtime_error []
check_output type (result_code ∷ lines) =
    if bytes_eq result_code (codes "404")
    then failed invalid_argument lines
    else if not (bytes_eq result_code (codes "200"))
    then failed runtime_error lines
    else if is_single type && not (length lines == 1)
    then failed runtime_error lines
    else record { lines = lines; exception = none }

unfoldable pub get_daemon_output : Socket → Bytes → OutputType → Output
unfolding check_output tokenize_string
get_daemon_output socket command type = elim (socket command type) [
  | none ↦ failed runtime_error []
  | some output ↦ check_output type (tokenize_string output b'\n')
]

pub record EntityList : Type 0 where
  pub index : ℕ
  pub output : List Bytes

unfoldable pub clear : EntityList
clear = record { index = 0; output = [] }

unfoldable pub load : Socket → Bytes → Option Exception × EntityList
unfolding get_daemon_output
load socket command =
    let result = get_daemon_output socket command multi_line in
    (result.exception, record { index = 0; output = result.lines })

unfoldable pub pop : EntityList → Outcome Bytes × EntityList
pop l = elim (get_elem? l.output l.index) [
  | none ↦ (thrown out_of_range, l)
  | some line ↦ (done line, record l { index = suc l.index })
]
