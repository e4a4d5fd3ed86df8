-- ===== src/Client/Calls.antt =====
-- The nine calls of `Client`, which make it an `AccountProvider`.
use compute_user_accounts.Base.{ℕ, List, [], ◌∷◌, ◌++◌, Bool, true, false, Bytes, codes}
use compute_user_accounts.Go.Strconv.{format_uint}
use compute_user_accounts.Accounts.{
  User, Group, not_found, message, Result, ok, err, AccountProvider,
}
use compute_user_accounts.Client.Unmarshal.{unmarshal_user, unmarshal_group}
use compute_user_accounts.Client.Send.{Network, send}

-- The first line, or an error that there is none.
unfoldable pub first_line :
    {A : Type 0} → Bytes → (Bytes → Result A) → Result (List Bytes) → Result A
first_line missing f (err e) = err e
first_line missing f (ok []) = err (message missing)
first_line missing f (ok (l ∷ ls)) = f l

unfoldable pub cons_result : {A : Type 0} → Result A → Result (List A) → Result (List A)
cons_result (err e) rest = err e
cons_result (ok a) (err e) = err e
cons_result (ok a) (ok xs) = ok (a ∷ xs)

-- The loop over the lines stops at the first error.
unfoldable pub each_line : {A : Type 0} → (Bytes → Result A) → List Bytes → Result (List A)
unfolding cons_result
each_line f [] = ok []
each_line f (l ∷ ls) = cons_result (f l) (each_line f ls)

unfoldable pub all_lines : {A : Type 0} → (Bytes → Result A) → Result (List Bytes) → Result (List A)
unfolding each_line
all_lines f (err e) = err e
all_lines f (ok ls) = each_line f ls

-- The switch on the type of the error in `IsName`.
unfoldable pub found : Result (List Bytes) → Result Bool
found (ok ls) = ok true
found (err (not_found e)) = ok false
found (err (message m)) = err (message m)

module _ {S : Type 0} (net : Network S) where
  unfoldable pub user : Bytes → Bool → S → Result User × S
  unfolding first_line
  user cmd extend_timeout s =
      let (r, s') = send net cmd extend_timeout s in
      (first_line (codes "no user in response") unmarshal_user r, s')

  unfoldable pub user_by_name : Bytes → S → Result User × S
  user_by_name name = user (codes "user_by_name " ++ name) true

  unfoldable pub user_by_uid : ℕ → S → Result User × S
  user_by_uid uid = user (codes "user_by_uid " ++ format_uint uid) false

  unfoldable pub users : S → Result (List User) × S
  unfolding all_lines
  users s = let (r, s') = send net (codes "users") false s in (all_lines unmarshal_user r, s')

  unfoldable pub group : Bytes → S → Result Group × S
  unfolding first_line
  group cmd s =
      let (r, s') = send net cmd false s in
      (first_line (codes "no group in response") unmarshal_group r, s')

  unfoldable pub group_by_name : Bytes → S → Result Group × S
  group_by_name name = group (codes "group_by_name " ++ name)

  unfoldable pub group_by_gid : ℕ → S → Result Group × S
  group_by_gid gid = group (codes "group_by_gid " ++ format_uint gid)

  unfoldable pub groups : S → Result (List Group) × S
  unfolding all_lines
  groups s = let (r, s') = send net (codes "groups") false s in (all_lines unmarshal_group r, s')

  unfoldable pub names : S → Result (List Bytes) × S
  names = send net (codes "names") false

  unfoldable pub is_name : Bytes → S → Result Bool × S
  unfolding found
  is_name name s = let (r, s') = send net (codes "is_name " ++ name) false s in (found r, s')

  unfoldable pub authorized_keys : Bytes → S → Result (List Bytes) × S
  authorized_keys name = send net (codes "keys " ++ name) true

  -- `Client` satisfies the interface.
  unfoldable pub client : AccountProvider S
  client = record {
    user_by_name = user_by_name;
    user_by_uid = user_by_uid;
    users = users;
    group_by_name = group_by_name;
    group_by_gid = group_by_gid;
    groups = groups;
    names = names;
    is_name = is_name;
    authorized_keys = authorized_keys;
  }
