-- ===== src/Testbase/Provider.antt =====
-- testbase/mockprovider.go: a provider that answers from lists, or with one error.
use compute_user_accounts.Base.{
  ℕ, List, [], ◌∷◌, Bool, true, false, Option, none, some, Bytes, bytes_eq, ◌==◌, bytes_key,
  if◌then◌else◌,
}
use compute_user_accounts.Go.Map.{GoMap, lookup}
use compute_user_accounts.Accounts.{
  User, Group, Error, Result, ok, err, AccountProvider, username_not_found, uid_not_found,
  group_name_not_found, gid_not_found,
}

pub record MockProvider : Type 0 where
  pub error : Option Error
  pub usrs : List User
  pub grps : List Group
  pub nams : List Bytes
  pub keys : GoMap Bytes (List Bytes)

-- `return v, m.Err`: of a value beside an error, the callers look at the error alone.
unfoldable pub with_error : {A : Type 0} → Option Error → A → Result A
with_error none a = ok a
with_error (some e) a = err e

module _ (m : MockProvider) where
  unfoldable pub find_user_by_name : Bytes → List User → Result User
  find_user_by_name name [] = err (username_not_found name)
  find_user_by_name name (u ∷ us) =
      let rest = find_user_by_name name us in
      if bytes_eq name u.name then with_error m.error u else rest

  unfoldable pub find_user_by_uid : ℕ → List User → Result User
  find_user_by_uid uid [] = err (uid_not_found uid)
  find_user_by_uid uid (u ∷ us) =
      let rest = find_user_by_uid uid us in if uid == u.uid then with_error m.error u else rest

  unfoldable pub find_group_by_name : Bytes → List Group → Result Group
  find_group_by_name name [] = err (group_name_not_found name)
  find_group_by_name name (g ∷ gs) =
      let rest = find_group_by_name name gs in
      if bytes_eq name g.name then with_error m.error g else rest

  unfoldable pub find_group_by_gid : ℕ → List Group → Result Group
  find_group_by_gid gid [] = err (gid_not_found gid)
  find_group_by_gid gid (g ∷ gs) =
      let rest = find_group_by_gid gid gs in if gid == g.gid then with_error m.error g else rest

  unfoldable pub find_name : Bytes → List Bytes → Bool
  find_name name [] = false
  find_name name (n ∷ ns) = let rest = find_name name ns in if bytes_eq name n then true else rest

  -- A missing key reads as the nil slice.
  unfoldable pub find_keys : Bytes → List Bytes
  find_keys name = elim (lookup name m.keys) [ none ↦ [] | some ks ↦ ks ]

  -- The state is never changed.
  unfoldable pub mock_provider : AccountProvider (Unit {0})
  unfolding with_error find_user_by_name find_user_by_uid find_group_by_name find_group_by_gid
      find_name find_keys lookup
  mock_provider = record {
    user_by_name = λ name s. (find_user_by_name name m.usrs, s);
    user_by_uid = λ uid s. (find_user_by_uid uid m.usrs, s);
    users = λ s. (with_error m.error m.usrs, s);
    group_by_name = λ name s. (find_group_by_name name m.grps, s);
    group_by_gid = λ gid s. (find_group_by_gid gid m.grps, s);
    groups = λ s. (with_error m.error m.grps, s);
    names = λ s. (with_error m.error m.nams, s);
    is_name = λ name s. (with_error m.error (find_name name m.nams), s);
    authorized_keys = λ name s. (with_error m.error (find_keys name), s);
  }
