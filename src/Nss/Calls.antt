-- ===== src/Nss/Calls.antt =====
-- The functions of nssplugin/libnss_google.cc, each with its `catch` clauses.
use compute_user_accounts.Base.{ℕ, List, [], ◌∷◌, ◌++◌, Option, none, some, Bytes, codes}
use compute_user_accounts.Go.Strconv.{format_uint}
use compute_user_accounts.Nss.Outcome.{
  Exception, length_error, invalid_argument, out_of_range, runtime_error, Outcome, done, thrown,
}
use compute_user_accounts.Nss.Buffer.{Command, BufferManager}
use compute_user_accounts.Nss.Convert.{
  Passwd, Group, Spwd, user_line_to_passwd_struct, group_line_to_group_struct,
  account_name_to_shadow_struct,
}
use compute_user_accounts.Nss.Daemon.{
  OutputType, single_line, multi_line, single_line_extended_timeout, Socket, get_daemon_output,
  EntityList, clear, load, pop,
}

pub data Errno : Type 0 where
  erange : Errno
  enoent : Errno

-- What the caller gets: `NSS_STATUS_SUCCESS` with the struct and the buffer, or `NSS_STATUS_NOTFOUND` or
-- `NSS_STATUS_TRYAGAIN`, with the error number, if one is set.
pub data Status (A : Type 0) : Type 0 where
  success : A → BufferManager → Status A
  not_found : Option Errno → Status A
  try_again : Errno → Status A

module _ {A : Type 0} where
  -- The clauses of the functions that search.
  unfoldable pub searched : Outcome (A × BufferManager) → Status A
  searched (done (a, b)) = success a b
  searched (thrown length_error) = try_again erange
  searched (thrown invalid_argument) = not_found (some enoent)
  searched (thrown out_of_range) = try_again enoent
  searched (thrown runtime_error) = try_again enoent

  -- Those of the functions that list.
  unfoldable pub listed : Outcome (A × BufferManager) → Status A
  listed (done (a, b)) = success a b
  listed (thrown out_of_range) = not_found none
  listed (thrown length_error) = try_again erange
  listed (thrown invalid_argument) = try_again enoent
  listed (thrown runtime_error) = try_again enoent

  -- `output_lines[0]`: without an exception there is one line.
  unfoldable pub convert_line : (Bytes → Command A) → List Bytes → Command A
  convert_line convert [] b = thrown runtime_error
  convert_line convert (line ∷ lines) b = convert line b

  unfoldable pub search :
      Socket → (Bytes → Command A) → OutputType → Bytes → BufferManager → Status A
  unfolding get_daemon_output searched convert_line
  search socket convert type command b =
      let output = get_daemon_output socket command type in
      elim output.exception [
        | some e ↦ searched (thrown e)
        | none ↦ searched (convert_line convert output.lines b)
      ]

  -- The line is popped first.
  unfoldable pub list_next :
      (Bytes → Command A) → BufferManager → EntityList → Status A × EntityList
  unfolding pop listed
  list_next convert b l =
      let (popped, l') = pop l in
      elim popped [ thrown e ↦ (listed (thrown e), l') | done line ↦ (listed (convert line b), l') ]

unfoldable pub getpwnam_r : Socket → Bytes → BufferManager → Status Passwd
unfolding search user_line_to_passwd_struct
getpwnam_r socket name =
    search socket user_line_to_passwd_struct single_line_extended_timeout
      (codes "user_by_name " ++ name)

unfoldable pub getpwuid_r : Socket → ℕ → BufferManager → Status Passwd
unfolding search user_line_to_passwd_struct
getpwuid_r socket uid =
    search socket user_line_to_passwd_struct single_line (codes "user_by_uid " ++ format_uint uid)

unfoldable pub getgrnam_r : Socket → Bytes → BufferManager → Status Group
unfolding search group_line_to_group_struct
getgrnam_r socket name =
    search socket group_line_to_group_struct single_line (codes "group_by_name " ++ name)

unfoldable pub getgrgid_r : Socket → ℕ → BufferManager → Status Group
unfolding search group_line_to_group_struct
getgrgid_r socket gid =
    search socket group_line_to_group_struct single_line (codes "group_by_gid " ++ format_uint gid)

-- The name is the caller's; only the result code of the daemon counts.
unfoldable pub getspnam_r : Socket → Bytes → BufferManager → Status Spwd
unfolding searched get_daemon_output account_name_to_shadow_struct
getspnam_r socket name b =
    elim (get_daemon_output socket (codes "is_name " ++ name) multi_line).exception [
      | some e ↦ searched (thrown e)
      | none ↦ searched (account_name_to_shadow_struct name b)
    ]

-- `setpwent`, `setgrent`, `setspent`: an exception is `NSS_STATUS_TRYAGAIN`.
unfoldable pub setpwent : Socket → Option Exception × EntityList
unfolding load
setpwent socket = load socket (codes "users")

unfoldable pub setgrent : Socket → Option Exception × EntityList
unfolding load
setgrent socket = load socket (codes "groups")

unfoldable pub setspent : Socket → Option Exception × EntityList
unfolding load
setspent socket = load socket (codes "names")

-- `endpwent`, `endgrent`, `endspent`.
unfoldable pub end_entries : EntityList → EntityList
unfolding clear
end_entries l = clear

unfoldable pub getpwent_r : BufferManager → EntityList → Status Passwd × EntityList
unfolding list_next user_line_to_passwd_struct
getpwent_r = list_next user_line_to_passwd_struct

unfoldable pub getgrent_r : BufferManager → EntityList → Status Group × EntityList
unfolding list_next group_line_to_group_struct
getgrent_r = list_next group_line_to_group_struct

unfoldable pub getspent_r : BufferManager → EntityList → Status Spwd × EntityList
unfolding list_next account_name_to_shadow_struct
getspent_r = list_next account_name_to_shadow_struct
