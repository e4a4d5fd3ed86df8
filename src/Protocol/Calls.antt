-- ===== src/Protocol/Calls.antt =====
-- The nine calls of the client, over the socket to a server, against the server's provider.
use compute_user_accounts.Base.{
  ℕ, ◌+◌, ◌≤◌, ◌≡◌, ap, [], ◌∷◌, ◌++◌, Bool, true, false, some, arith, Bytes, codes, bytes_eq,
  length, length-append, All, Lacks,
}
use compute_user_accounts.Go.Strconv.{
  format_uint, IsDigit, format_uint-Lacks, length-format_uint, parse-format,
}
use compute_user_accounts.Accounts.{AccountProvider, max_uint32}
use compute_user_accounts.Server.Marshal.{marshal_user, marshal_group}
use compute_user_accounts.Server.Request.{parse_id}
use compute_user_accounts.Server.Respond.{
  respond, dispatch, reply_user, reply_group, reply_lines, reply_is, max_request_size,
}
use compute_user_accounts.Server.Respond
use compute_user_accounts.Client.Send.{send}
use compute_user_accounts.Client.Unmarshal.{unmarshal_user, unmarshal_group}
use compute_user_accounts.Client.Calls
use compute_user_accounts.Client.Calls.{first_line, each_line, all_lines, found}
use compute_user_accounts.Protocol.Safe.{IsSafeUser, IsSafeGroup}
use compute_user_accounts.Protocol.RoundTrip.{
  unmarshal-marshal_user, unmarshal-marshal_group, marshal_user-Lacks, marshal_group-Lacks,
}
use compute_user_accounts.Protocol.Answers.{
  wire_user, wire_group, wire-All, wire_texts, wire_is, is_name_over_wire,
}
use compute_user_accounts.Protocol.Wire.{
  over_wire, IsOk, direct, finish_reply, send-direct, respond_bare, respond_arg,
}

space_not_digit : (c : ℕ) → IsDigit c → c ≡ b' ' → ⊥
space_not_digit c d e = omega arith

module _ {S : Type 0} (p : AccountProvider S) where
  -- A request with an argument, and one without.
  send_arg :
      (cmd arg : Bytes) (extend : Bool) (s : S)
      → Lacks b' ' cmd
      → Lacks b' ' arg
      → length (cmd ++ b' ' ∷ arg) ≤ max_request_size
      → send (direct p) (cmd ++ b' ' ∷ arg) extend s ≡ finish_reply (dispatch p cmd (arg ∷ []) s)
  send_arg cmd arg extend s h k fits =
      rw (send-direct p (cmd ++ b' ' ∷ arg) extend s fits, respond_arg p cmd arg s h k)

  send_bare :
      (cmd : Bytes) (extend : Bool) (s : S)
      → Lacks b' ' cmd
      → length cmd ≤ max_request_size
      → send (direct p) cmd extend s ≡ finish_reply (dispatch p cmd [] s)
  send_bare cmd extend s h fits = rw (send-direct p cmd extend s fits, respond_bare p cmd s h)

parse_id-format : (n : ℕ) → n ≤ max_uint32 → parse_id (format_uint n ∷ []) ≡ some n
unfolding parse_id
parse_id-format n h = rw (parse-format n (omega arith), parse_id) (ap some (omega arith))

module _ {S : Type 0} (p : AccountProvider S) where
  -- For a name without a space whose request fits the server's buffer, and where a user that the
  -- provider finds has only texts that the line format carries, the client's `UserByName` over the
  -- socket answers as the provider does, up to the text of an error: of that, the kind arrives.
  pub user_by_name-over_wire :
      (name : Bytes) (s : S)
      → Lacks b' ' name
      → length name + 13 ≤ max_request_size
      → IsOk IsSafeUser (p.user_by_name name s).0
      → Calls.user_by_name (direct p) name s ≡ over_wire (p.user_by_name name s)
  unfolding Calls.user_by_name Calls.user dispatch Respond.user_by_name bytes_eq
  user_by_name-over_wire name s h fits safe =
      rw (send_arg p (codes "user_by_name") name true s (omega arith) h (omega arith))
        (wire_user (p.user_by_name name s) safe)

  -- For a name without a space whose request fits the server's buffer, and where a group that the
  -- provider finds has only texts that the line format carries, the client's `GroupByName` over the
  -- socket answers as the provider does, up to the text of an error.
  pub group_by_name-over_wire :
      (name : Bytes) (s : S)
      → Lacks b' ' name
      → length name + 14 ≤ max_request_size
      → IsOk IsSafeGroup (p.group_by_name name s).0
      → Calls.group_by_name (direct p) name s ≡ over_wire (p.group_by_name name s)
  unfolding Calls.group_by_name Calls.group dispatch Respond.group_by_name bytes_eq
  group_by_name-over_wire name s h fits safe =
      rw (send_arg p (codes "group_by_name") name false s (omega arith) h (omega arith))
        (wire_group (p.group_by_name name s) safe)

  -- For a name without a space whose request fits the server's buffer, and where no key that the
  -- provider answers holds a line feed, the client's `AuthorizedKeys` over the socket answers as the
  -- provider does, up to the text of an error.
  pub authorized_keys-over_wire :
      (name : Bytes) (s : S)
      → Lacks b' ' name
      → length name + 5 ≤ max_request_size
      → IsOk (All (Lacks b'\n')) (p.authorized_keys name s).0
      → Calls.authorized_keys (direct p) name s ≡ over_wire (p.authorized_keys name s)
  unfolding Calls.authorized_keys dispatch Respond.authorized_keys bytes_eq
  authorized_keys-over_wire name s h fits safe =
      rw (send_arg p (codes "keys") name true s (omega arith) h (omega arith))
        (wire_texts (p.authorized_keys name s) safe)

  -- For a name without a space whose request fits the server's buffer, the client's `IsName` over the
  -- socket answers as the provider does, up to the text of an error, and but that an error of the
  -- kind not found becomes the answer false.
  pub is_name-over_wire :
      (name : Bytes) (s : S)
      → Lacks b' ' name
      → length name + 8 ≤ max_request_size
      → Calls.is_name (direct p) name s ≡ is_name_over_wire (p.is_name name s)
  unfolding Calls.is_name dispatch Respond.is_name bytes_eq
  is_name-over_wire name s h fits =
      rw (send_arg p (codes "is_name") name false s (omega arith) h (omega arith))
        (wire_is (p.is_name name s))

  send_id :
      (cmd : Bytes) (id : ℕ) (s : S)
      → Lacks b' ' cmd
      → length cmd ≤ 20
      → send (direct p) (cmd ++ b' ' ∷ format_uint id) false s
        ≡ finish_reply (dispatch p cmd (format_uint id ∷ []) s)
  send_id cmd id s h fits =
      send_arg p cmd (format_uint id) false s h (format_uint-Lacks b' ' id space_not_digit)
        (omega (arith, length-append cmd (b' ' ∷ format_uint id), length-format_uint id))

  -- For a UID of 32 bits, and where a user that the provider finds has only texts that the line
  -- format carries, the client's `UserByUID` over the socket answers as the provider does, up to the
  -- text of an error.
  pub user_by_uid-over_wire :
      (uid : ℕ) (s : S)
      → uid ≤ max_uint32
      → IsOk IsSafeUser (p.user_by_uid uid s).0
      → Calls.user_by_uid (direct p) uid s ≡ over_wire (p.user_by_uid uid s)
  unfolding Calls.user_by_uid Calls.user dispatch Respond.user_by_uid bytes_eq
  user_by_uid-over_wire uid s h safe =
      rw (send_id (codes "user_by_uid") uid s (omega arith) (omega arith), parse_id-format uid h)
        (wire_user (p.user_by_uid uid s) safe)

  -- For a GID of 32 bits, and where a group that the provider finds has only texts that the line
  -- format carries, the client's `GroupByGID` over the socket answers as the provider does, up to the
  -- text of an error.
  pub group_by_gid-over_wire :
      (gid : ℕ) (s : S)
      → gid ≤ max_uint32
      → IsOk IsSafeGroup (p.group_by_gid gid s).0
      → Calls.group_by_gid (direct p) gid s ≡ over_wire (p.group_by_gid gid s)
  unfolding Calls.group_by_gid Calls.group dispatch Respond.group_by_gid bytes_eq
  group_by_gid-over_wire gid s h safe =
      rw (send_id (codes "group_by_gid") gid s (omega arith) (omega arith), parse_id-format gid h)
        (wire_group (p.group_by_gid gid s) safe)

  -- Where the users that the provider lists have only texts that the line format carries, the
  -- client's `Users` over the socket answers as the provider does, order included, up to the text of
  -- an error.
  pub users-over_wire :
      (s : S)
      → IsOk (All IsSafeUser) (p.users s).0
      → Calls.users (direct p) s ≡ over_wire (p.users s)
  unfolding Calls.users dispatch Respond.users bytes_eq
  users-over_wire s safe = rw (send_bare p (codes "users") false s (omega arith) (omega arith)) (
      wire-All IsSafeUser marshal_user unmarshal_user marshal_user-Lacks unmarshal-marshal_user
        (p.users s) safe)

  -- Where the groups that the provider lists have only texts that the line format carries, the
  -- client's `Groups` over the socket answers as the provider does, order included, up to the text of
  -- an error.
  pub groups-over_wire :
      (s : S)
      → IsOk (All IsSafeGroup) (p.groups s).0
      → Calls.groups (direct p) s ≡ over_wire (p.groups s)
  unfolding Calls.groups dispatch Respond.groups bytes_eq
  groups-over_wire s safe = rw (send_bare p (codes "groups") false s (omega arith) (omega arith)) (
      wire-All IsSafeGroup marshal_group unmarshal_group marshal_group-Lacks unmarshal-marshal_group
        (p.groups s) safe)

  -- Where no name that the provider lists holds a line feed, the client's `Names` over the socket
  -- answers as the provider does, order included, up to the text of an error.
  pub names-over_wire :
      (s : S)
      → IsOk (All (Lacks b'\n')) (p.names s).0
      → Calls.names (direct p) s ≡ over_wire (p.names s)
  unfolding Calls.names dispatch Respond.names bytes_eq
  names-over_wire s safe =
      rw (send_bare p (codes "names") false s (omega arith) (omega arith))
        (wire_texts (p.names s) safe)
