-- ===== src/Protocol/Limits.antt =====
-- What happens at the limits of the protocol: numbers
-- above 32 bits, requests that are no command, and the status of every response.
use compute_user_accounts.Base.{
  ℕ, ◌≤◌, ◌≡◌, refl, ap, List, [], ◌∷◌, ◌++◌, Bool, true, false, ◌||◌, Option, none, some, arith,
  Bytes, codes, bytes_eq, take, Lacks, if◌then◌else◌, sym, ◌∙◌,
}
use compute_user_accounts.Go.Strings.{split, split-append}
use compute_user_accounts.Go.Strconv.{
  format_uint, max_uint64, IsDigit, format_uint-Lacks, parse-format,
}
use compute_user_accounts.Accounts.{
  User, Group, Error, not_found, message, Result, ok, err, AccountProvider, uint32,
}
use compute_user_accounts.Server.Marshal.{marshal_error}
use compute_user_accounts.Server.Request.{parse_name, parse_id}
use compute_user_accounts.Server.Respond
use compute_user_accounts.Server.Respond.{
  respond, respond_parts, dispatch, with_arg, reply_user, reply_group, reply_lines, reply_is,
  handle, max_request_size,
}
use compute_user_accounts.Protocol.Wire.{respond_arg}

space_not_digit : (c : ℕ) → IsDigit c → c ≡ b' ' → ⊥
space_not_digit c d e = omega arith

parse_id-wrap :
    (n : ℕ)
    → n ≤ max_uint64
    → parse_id (format_uint n ∷ []) ≡ parse_id (format_uint (uint32 n) ∷ [])
unfolding parse_id
parse_id-wrap n h =
    rw (parse-format n h, parse-format (uint32 n) (omega arith), parse_id) (ap some (omega arith))

module _ {S : Type 0} (p : AccountProvider S) where
  -- The server answers a `user_by_uid` request for a number of 64 bits as it answers one for the low
  -- 32 bits of the number.
  pub user_by_uid-wrap :
      (n : ℕ) (s : S)
      → n ≤ max_uint64
      → respond p (codes "user_by_uid " ++ format_uint n) s
        ≡ respond p (codes "user_by_uid " ++ format_uint (uint32 n)) s
  unfolding dispatch bytes_eq Respond.user_by_uid
  user_by_uid-wrap n s h =
      let answer = λ (o : Option ℕ). with_arg o (λ uid t. reply_user (p.user_by_uid uid t)) s in
      respond_arg p (codes "user_by_uid") (format_uint n) s (omega arith)
        (format_uint-Lacks b' ' n space_not_digit)
      ∙ ap answer (parse_id-wrap n h)
      ∙ sym (
          respond_arg p (codes "user_by_uid") (format_uint (uint32 n)) s (omega arith)
            (format_uint-Lacks b' ' (uint32 n) space_not_digit))

abbrev pub is_command : Bytes → Bool
is_command cmd =
    bytes_eq cmd (codes "user_by_name")
    || (bytes_eq cmd (codes "user_by_uid")
        || (bytes_eq cmd (codes "users")
            || (bytes_eq cmd (codes "group_by_name")
                || (bytes_eq cmd (codes "group_by_gid")
                    || (bytes_eq cmd (codes "groups")
                        || (bytes_eq cmd (codes "names")
                            || (bytes_eq cmd (codes "is_name") || bytes_eq cmd (codes "keys"))))))))

-- The status of a response.
unfoldable pub is_reply : Bytes → Bool
is_reply resp =
    bytes_eq (take 3 resp) (codes "200")
    || (bytes_eq (take 3 resp) (codes "400")
        || (bytes_eq (take 3 resp) (codes "404") || bytes_eq (take 3 resp) (codes "500")))

marshal_error-is_reply : (e : Error) → is_reply (marshal_error e) ≡ true
unfolding marshal_error is_reply bytes_eq
marshal_error-is_reply (not_found e) = refl
marshal_error-is_reply (message m) = refl

module _ {S : Type 0} where
  reply_user-is_reply : (r : Result User × S) → is_reply (reply_user r).0 ≡ true
  unfolding reply_user is_reply bytes_eq
  reply_user-is_reply (ok u, s) = refl
  reply_user-is_reply (err e, s) = marshal_error-is_reply e

  reply_group-is_reply : (r : Result Group × S) → is_reply (reply_group r).0 ≡ true
  unfolding reply_group is_reply bytes_eq
  reply_group-is_reply (ok g, s) = refl
  reply_group-is_reply (err e, s) = marshal_error-is_reply e

  reply_lines-is_reply :
      {A : Type 0} (f : A → Bytes) (r : Result (List A) × S) → is_reply (reply_lines f r).0 ≡ true
  unfolding reply_lines is_reply bytes_eq
  reply_lines-is_reply f (ok xs, s) = refl
  reply_lines-is_reply f (err e, s) = marshal_error-is_reply e

  reply_is-is_reply : (r : Result Bool × S) → is_reply (reply_is r).0 ≡ true
  unfolding reply_is is_reply bytes_eq
  reply_is-is_reply (ok true, s) = refl
  reply_is-is_reply (ok false, s) = refl
  reply_is-is_reply (err e, s) = marshal_error-is_reply e

  with_arg-is_reply :
      {A : Type 0} (o : Option A) (k : A → S → Bytes × S) (s : S)
      → ((a : A) → is_reply (k a s).0 ≡ true)
      → is_reply (with_arg o k s).0 ≡ true
  unfolding with_arg is_reply bytes_eq
  with_arg-is_reply none k s h = refl
  with_arg-is_reply (some a) k s h = h a

  if-is_reply :
      (b : Bool) (x y : Bytes × S)
      → is_reply x.0 ≡ true
      → is_reply y.0 ≡ true
      → is_reply (if b then x else y).0 ≡ true
  if-is_reply true x y h k = h
  if-is_reply false x y h k = k

module _ {S : Type 0} (p : AccountProvider S) (args : List Bytes) (s : S) where
  user_by_name-is_reply : is_reply (Respond.user_by_name p args s).0 ≡ true
  unfolding Respond.user_by_name
  user_by_name-is_reply =
      with_arg-is_reply (parse_name args) _ s (λ n. reply_user-is_reply (p.user_by_name n s))

  user_by_uid-is_reply : is_reply (Respond.user_by_uid p args s).0 ≡ true
  unfolding Respond.user_by_uid
  user_by_uid-is_reply =
      with_arg-is_reply (parse_id args) _ s (λ n. reply_user-is_reply (p.user_by_uid n s))

  group_by_name-is_reply : is_reply (Respond.group_by_name p args s).0 ≡ true
  unfolding Respond.group_by_name
  group_by_name-is_reply =
      with_arg-is_reply (parse_name args) _ s (λ n. reply_group-is_reply (p.group_by_name n s))

  group_by_gid-is_reply : is_reply (Respond.group_by_gid p args s).0 ≡ true
  unfolding Respond.group_by_gid
  group_by_gid-is_reply =
      with_arg-is_reply (parse_id args) _ s (λ n. reply_group-is_reply (p.group_by_gid n s))

  is_name-is_reply : is_reply (Respond.is_name p args s).0 ≡ true
  unfolding Respond.is_name
  is_name-is_reply =
      with_arg-is_reply (parse_name args) _ s (λ n. reply_is-is_reply (p.is_name n s))

  authorized_keys-is_reply : is_reply (Respond.authorized_keys p args s).0 ≡ true
  unfolding Respond.authorized_keys
  authorized_keys-is_reply =
      with_arg-is_reply (parse_name args) _ s
        (λ n. reply_lines-is_reply (λ k. k) (p.authorized_keys n s))

module _ {S : Type 0} (p : AccountProvider S) where
  users-is_reply : (s : S) → is_reply (Respond.users p s).0 ≡ true
  unfolding Respond.users
  users-is_reply s = reply_lines-is_reply _ (p.users s)

  groups-is_reply : (s : S) → is_reply (Respond.groups p s).0 ≡ true
  unfolding Respond.groups
  groups-is_reply s = reply_lines-is_reply _ (p.groups s)

  names-is_reply : (s : S) → is_reply (Respond.names p s).0 ≡ true
  unfolding Respond.names
  names-is_reply s = reply_lines-is_reply (λ n. n) (p.names s)

  bad_request-is_reply : is_reply (codes "400") ≡ true
  unfolding is_reply bytes_eq
  bad_request-is_reply = refl

  dispatch-is_reply :
      (cmd : Bytes) (args : List Bytes) (s : S) → is_reply (dispatch p cmd args s).0 ≡ true
  unfolding dispatch
  dispatch-is_reply cmd args s = ground (
    arith,
    user_by_name-is_reply p args s,
    user_by_uid-is_reply p args s,
    users-is_reply s,
    group_by_name-is_reply p args s,
    group_by_gid-is_reply p args s,
    groups-is_reply s,
    names-is_reply s,
    is_name-is_reply p args s,
    authorized_keys-is_reply p args s,
    bad_request-is_reply,
  )

  respond_parts-is_reply :
      (parts : List Bytes) (s : S) → is_reply (respond_parts p parts s).0 ≡ true
  unfolding respond_parts
  respond_parts-is_reply [] s = bad_request-is_reply
  respond_parts-is_reply (cmd ∷ args) s = dispatch-is_reply cmd args s

  -- Every request is answered with one of the four statuses 200, 400, 404 and 500, whatever it holds
  -- and the provider says.
  pub respond-is_reply : (req : Bytes) (s : S) → is_reply (respond p req s).0 ≡ true
  unfolding respond
  respond-is_reply req s = respond_parts-is_reply (split req b' ') s

  dispatch-unknown :
      (cmd : Bytes) (args : List Bytes) (s : S)
      → is_command cmd ≡ false
      → dispatch p cmd args s ≡ (codes "400", s)
  unfolding dispatch
  dispatch-unknown cmd args s h = ground arith

  -- A request whose first word is not a command is answered 400, and does not touch the provider.
  respond-unknown :
      (word rest : Bytes) (s : S)
      → Lacks b' ' word
      → is_command word ≡ false
      → respond p (word ++ b' ' ∷ rest) s ≡ (codes "400", s)
  unfolding respond
  respond-unknown word rest s one h =
      rw (split-append word rest b' ' one) (dispatch-unknown word (split rest b' ') s h)
