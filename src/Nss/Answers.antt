-- ===== src/Nss/Answers.antt =====
-- The plug-in against the daemon: `getpwnam_r` over the socket of `Server.handle`.
use compute_user_accounts.Base.{
  false, ℕ, ◌≤◌, ◌≡◌, ◌≢◌, refl, sym, ap, ◌∙◌, inl, inr, [], ◌∷◌, ◌++◌, Bytes, codes, bytes_eq,
  Bool-cases, ltb, if◌then◌else◌, length, arith, some, none, Lacks,
}
use compute_user_accounts.Go.Strings.{split, split-append, split-Lacks}
use compute_user_accounts.Go.Strconv.{format_uint}
use compute_user_accounts.Accounts.{
  User, not_found as no_such, message, Result, ok, err, AccountProvider, max_uint32,
}
use compute_user_accounts.Server.Marshal.{marshal_user, marshal_error}
use compute_user_accounts.Server.Request.{parse_name}
use compute_user_accounts.Server.Respond.{
  handle, dispatch, user_by_name, reply_user, with_arg, max_request_size,
}
use compute_user_accounts.Protocol.Safe.{IsSafeUser}
use compute_user_accounts.Protocol.RoundTrip.{
  split-marshal_user, user_fields, marshal_user-Lacks, parse-uint32, uint32-small,
}
use compute_user_accounts.Protocol.Wire.{IsOk, take_all, respond_arg}
use compute_user_accounts.Nss.Outcome.{Outcome, done, thrown, length_error}
use compute_user_accounts.Nss.Strings.{tokenize_string, parse_id}
use compute_user_accounts.Nss.Tokens.{tokenize_string-split}
use compute_user_accounts.Nss.Ids.{parse_id-parse_uint}
use compute_user_accounts.Nss.Buffer.{Command, BufferManager}
use compute_user_accounts.Nss.Entries.{
  needed, entry_of, buffer_of, passwd_fields-fits, passwd_fields-full,
}
use compute_user_accounts.Nss.Convert.{Passwd, passwd_fields, user_line_to_passwd_struct}
use compute_user_accounts.Nss.Daemon.{
  Output, Socket, OutputType, single_line_extended_timeout, check_output, get_daemon_output,
}
use compute_user_accounts.Nss.Calls.{
  Status, success, not_found, try_again, erange, enoent, searched, convert_line, search, getpwnam_r,
}

-- The daemon reads the command in one piece, and nothing else fails or times out. Of a command that is
-- longer than the buffer of the daemon the rest is unread at the end, so that the read of the plug-in
-- fails.
abbrev pub daemon_socket : {S : Type 0} → AccountProvider S → S → Socket
daemon_socket p s command type =
    if ltb max_request_size (length command) then none else (handle p (some command) s).0

abbrev pub fitted : User → BufferManager → Outcome (Passwd × BufferManager)
fitted u b =
    if ltb b.size (needed u) then thrown length_error else done (entry_of u b, buffer_of u b)

-- What the caller of `getpwnam_r` gets for an answer of the provider.
abbrev pub passwd_answer : Result User → BufferManager → Status Passwd
passwd_answer (ok u) b =
    if ltb b.size (needed u) then try_again erange else success (entry_of u b) (buffer_of u b)
passwd_answer (err (no_such e)) b = not_found (some enoent)
passwd_answer (err (message m)) b = try_again enoent

pub parse_id-uint32 : (n : ℕ) → n ≤ max_uint32 → parse_id (format_uint n) ≡ done n
parse_id-uint32 n h =
    parse_id-parse_uint (format_uint n) n (parse-uint32 n h) (omega arith)
    ∙ ap done (uint32-small n h)

passwd_fields-fitted :
    (u : User) (b : BufferManager) → IsSafeUser u → passwd_fields (user_fields u) b ≡ fitted u b
passwd_fields-fitted u b safe =
    let uid = parse_id-uint32 u.uid safe.uid in
    let gid = parse_id-uint32 u.gid safe.gid in
    elim (Bool-cases (ltb b.size (needed u))) [
      | inl t ↦ rw t (passwd_fields-full u _ _ b uid gid (ground arith))
      | inr f ↦ rw f (passwd_fields-fits u _ _ b uid gid (ground arith))
    ]

marshal_user-ne-nil : (u : User) → IsSafeUser u → marshal_user u ≢ []
unfolding split
marshal_user-ne-nil u safe e =
    let fields : split [] b':' ≡ user_fields u =
      ap (λ s. split s b':') (sym e) ∙ split-marshal_user u safe in
    cc

-- The line of a user fits, or the buffer is too small.
pub user_line-fitted :
    (u : User) (b : BufferManager)
    → IsSafeUser u
    → user_line_to_passwd_struct (marshal_user u) b ≡ fitted u b
unfolding user_line_to_passwd_struct
user_line-fitted u b safe =
    rw
      (
        tokenize_string-split (marshal_user u) b':' (marshal_user-ne-nil u safe),
        split-marshal_user u safe,
      )
      (passwd_fields-fitted u b safe)

searched-fitted : (u : User) (b : BufferManager) → searched (fitted u b) ≡ passwd_answer (ok u) b
unfolding searched
searched-fitted u b = elim (Bool-cases (ltb b.size (needed u))) [
  | inl t ↦ rw t refl
  | inr f ↦ rw f refl
]

tokens-user :
    (u : User)
    → IsSafeUser u
    → tokenize_string (codes "200\n" ++ marshal_user u) b'\n' ≡ codes "200" ∷ marshal_user u ∷ []
tokens-user u safe =
    tokenize_string-split (codes "200\n" ++ marshal_user u) b'\n' (λ e. cc)
    ∙ split-append (codes "200") (marshal_user u) b'\n' (omega arith)
    ∙ ap (λ l. codes "200" ∷ l) (split-Lacks (marshal_user u) b'\n' (marshal_user-Lacks u safe))

-- The rest of a search, behind the exchange.
abbrev answer_with : {A : Type 0} → (Bytes → Command A) → BufferManager → Output → Status A
answer_with convert b output = elim output.exception [
  | some e ↦ searched (thrown e)
  | none ↦ searched (convert_line convert output.lines b)
]

pub get_daemon_output-received :
    (socket : Socket) (type : OutputType) (command output : Bytes)
    → socket command type ≡ some output
    → get_daemon_output socket command type ≡ check_output type (tokenize_string output b'\n')
unfolding get_daemon_output
get_daemon_output-received socket type command output e = rw (e, get_daemon_output) refl

search-received :
    {A : Type 0} (socket : Socket) (convert : Bytes → Command A) (type : OutputType)
    (command output : Bytes) (b : BufferManager)
    → socket command type ≡ some output
    → search socket convert type command b
      ≡ answer_with convert b (check_output type (tokenize_string output b'\n'))
unfolding search
search-received socket convert type command output b e =
    ap (answer_with convert b) (get_daemon_output-received socket type command output e)

user-answer_with :
    {S : Type 0} (r : Result User) (s : S) (b : BufferManager)
    → IsOk IsSafeUser r
    → answer_with user_line_to_passwd_struct b
        (check_output single_line_extended_timeout (tokenize_string (reply_user (r, s)).0 b'\n'))
      ≡ passwd_answer r b
unfolding reply_user check_output bytes_eq convert_line
user-answer_with (ok u) s b safe =
    ap (λ l. answer_with user_line_to_passwd_struct b (check_output single_line_extended_timeout l))
      (tokens-user u safe)
    ∙ ap searched (user_line-fitted u b safe)
    ∙ searched-fitted u b
user-answer_with (err (no_such e)) s b safe = unfold marshal_error tokenize_string searched in refl
user-answer_with (err (message m)) s b safe = unfold marshal_error tokenize_string searched in refl

module _ {S : Type 0} (p : AccountProvider S) (s : S) (name : Bytes) where
  replied :
      length name ≤ 115
      → Lacks b' ' name
      → daemon_socket p s (codes "user_by_name " ++ name) single_line_extended_timeout
        ≡ some (reply_user (p.user_by_name name s)).0
  unfolding handle dispatch user_by_name with_arg parse_name bytes_eq
  replied h k =
      let fits : ltb max_request_size (length (codes "user_by_name " ++ name)) ≡ false =
        ground arith in
      rw
        (
          fits,
          take_all max_request_size (codes "user_by_name " ++ name) (omega arith),
          respond_arg p (codes "user_by_name") name s (omega arith) k,
        )
        refl

  -- Against a provider whose user, if he is known, is safe for the protocol, and for a name without a
  -- space that fits into a request, `getpwnam_r` succeeds with the entry of the user if the buffer has
  -- room for its strings, and else says that it has not; it reports a name that is not found as such,
  -- and any other error of the provider as one to try again.
  pub getpwnam_r-answers :
      (b : BufferManager)
      → length name ≤ 115
      → Lacks b' ' name
      → IsOk IsSafeUser (p.user_by_name name s).0
      → getpwnam_r (daemon_socket p s) name b ≡ passwd_answer (p.user_by_name name s).0 b
  unfolding getpwnam_r
  getpwnam_r-answers b h k safe =
      search-received (daemon_socket p s) user_line_to_passwd_struct single_line_extended_timeout
        (codes "user_by_name " ++ name) _ b (replied h k)
      ∙ user-answer_with (p.user_by_name name s).0 (p.user_by_name name s).1 b safe
