-- ===== src/Server/Respond.antt =====
-- `respond`, its nine handlers, and `handle`, which serves one connection.
use mathlib.Core.List.{map}
use compute_user_accounts.Base.{
  ℕ, List, [], ◌∷◌, ◌++◌, Bool, true, false, Option, none, some, Bytes, codes, bytes_eq,
  if◌then◌else◌, take,
}
use compute_user_accounts.Go.Strings.{split}
use compute_user_accounts.Accounts.{User, Group, Result, ok, err, AccountProvider}
use compute_user_accounts.Server.Marshal.{marshal_error, marshal_user, marshal_group, write_lines}
use compute_user_accounts.Server.Request.{parse_name, parse_id}

abbrev pub max_request_size : ℕ
max_request_size = 128

module _ {S : Type 0} where
  -- What the handlers do with a provider's answer: an error's status, or `200` and the lines.
  unfoldable pub reply_user : Result User × S → Bytes × S
  reply_user (ok u, s) = (codes "200\n" ++ marshal_user u, s)
  reply_user (err e, s) = (marshal_error e, s)

  unfoldable pub reply_group : Result Group × S → Bytes × S
  reply_group (ok g, s) = (codes "200\n" ++ marshal_group g, s)
  reply_group (err e, s) = (marshal_error e, s)

  unfoldable pub reply_lines : {A : Type 0} → (A → Bytes) → Result (List A) × S → Bytes × S
  reply_lines f (ok xs, s) = (codes "200" ++ write_lines (map f xs), s)
  reply_lines f (err e, s) = (marshal_error e, s)

  unfoldable pub reply_is : Result Bool × S → Bytes × S
  reply_is (ok true, s) = (codes "200", s)
  reply_is (ok false, s) = (codes "404", s)
  reply_is (err e, s) = (marshal_error e, s)

  -- A bad argument answers 400 and asks the provider nothing.
  unfoldable pub with_arg : {A : Type 0} → Option A → (A → S → Bytes × S) → S → Bytes × S
  with_arg none k s = (codes "400", s)
  with_arg (some a) k s = k a s

module _ {S : Type 0} (p : AccountProvider S) where
  unfoldable pub user_by_name : List Bytes → S → Bytes × S
  unfolding with_arg parse_name
  user_by_name args = with_arg (parse_name args) (λ name s. reply_user (p.user_by_name name s))

  unfoldable pub user_by_uid : List Bytes → S → Bytes × S
  unfolding with_arg parse_id
  user_by_uid args = with_arg (parse_id args) (λ uid s. reply_user (p.user_by_uid uid s))

  unfoldable pub users : S → Bytes × S
  users s = reply_lines marshal_user (p.users s)

  unfoldable pub group_by_name : List Bytes → S → Bytes × S
  unfolding with_arg parse_name
  group_by_name args = with_arg (parse_name args) (λ name s. reply_group (p.group_by_name name s))

  unfoldable pub group_by_gid : List Bytes → S → Bytes × S
  unfolding with_arg parse_id
  group_by_gid args = with_arg (parse_id args) (λ gid s. reply_group (p.group_by_gid gid s))

  unfoldable pub groups : S → Bytes × S
  groups s = reply_lines marshal_group (p.groups s)

  unfoldable pub names : S → Bytes × S
  names s = reply_lines (λ n. n) (p.names s)

  unfoldable pub is_name : List Bytes → S → Bytes × S
  unfolding with_arg parse_name
  is_name args = with_arg (parse_name args) (λ name s. reply_is (p.is_name name s))

  unfoldable pub authorized_keys : List Bytes → S → Bytes × S
  unfolding with_arg parse_name
  authorized_keys args =
      with_arg (parse_name args) (λ name s. reply_lines (λ k. k) (p.authorized_keys name s))

  -- The switch on the command.
  unfoldable pub dispatch : Bytes → List Bytes → S → Bytes × S
  dispatch cmd args s =
      if bytes_eq cmd (codes "user_by_name")
      then user_by_name args s
      else if bytes_eq cmd (codes "user_by_uid")
      then user_by_uid args s
      else if bytes_eq cmd (codes "users")
      then users s
      else if bytes_eq cmd (codes "group_by_name")
      then group_by_name args s
      else if bytes_eq cmd (codes "group_by_gid")
      then group_by_gid args s
      else if bytes_eq cmd (codes "groups")
      then groups s
      else if bytes_eq cmd (codes "names")
      then names s
      else if bytes_eq cmd (codes "is_name")
      then is_name args s
      else if bytes_eq cmd (codes "keys")
      then authorized_keys args s
      else (codes "400", s)

  -- The parts of a split request, of which there is always one.
  unfoldable pub respond_parts : List Bytes → S → Bytes × S
  respond_parts [] s = (codes "400", s)
  respond_parts (cmd ∷ args) s = dispatch cmd args s

  unfoldable pub respond : Bytes → S → Bytes × S
  unfolding respond_parts
  respond req = respond_parts (split req b' ')

  -- One connection: `none` is a read that failed, and then nothing is written; a read of no bytes is
  -- the end of the stream, which is an error too. Read delivers what
  -- has come in, at most as many bytes as the buffer holds.
  unfoldable pub handle : Option Bytes → S → Option Bytes × S
  handle none s = (none, s)
  handle (some []) s = (none, s)
  handle (some (c ∷ incoming)) s =
      let (resp, s') = respond (take max_request_size (c ∷ incoming)) s in (some resp, s')
