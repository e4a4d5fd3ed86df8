-- ===== src/Store/Query.antt =====
-- The calls that read the store under its read lock. The order of each `range` is a parameter.
use mathlib.Core.List.{map}
use compute_user_accounts.Base.{
  nat_key, bytes_key, ℕ, List, [], ◌∷◌, ◌++◌, Bool, true, false, ◌||◌, Option, none, some, Bytes,
  bytes_eq, ◌==◌, if◌then◌else◌,
}
use compute_user_accounts.Go.Map.{lookup, has, keys, RangeOrder}
use compute_user_accounts.Accounts.{
  User, Group, Result, ok, err, uid_not_found, group_name_not_found, gid_not_found,
}
use compute_user_accounts.Store.State.{
  Pointer, CachingStore, deref, sudoers_group_name, sudoers_group_gid,
}

-- The loop of `sudoersGroup`.
unfoldable pub sudoer_names : CachingStore → List (Bytes × Pointer) → List Bytes
sudoer_names s [] = []
sudoer_names s ((name, p) ∷ entries) =
    let rest = sudoer_names s entries in if (deref s p).sudoer then name ∷ rest else rest

unfoldable pub user_by_name_impl : Bytes → CachingStore → Option Pointer
user_by_name_impl name s = lookup name s.users_by_name

unfoldable pub user_by_uid : ℕ → CachingStore → Result User
user_by_uid uid s = elim (lookup uid s.users_by_uid) [
  | some p ↦ ok (deref s p).user
  | none ↦ err (uid_not_found uid)
]

unfoldable pub is_name : Bytes → CachingStore → Result Bool
is_name name s =
    if bytes_eq name sudoers_group_name
    then ok true
    else ok (has name s.users_by_name || has name s.groups_by_name)

module _ (users_order : RangeOrder Bytes Pointer) where
  unfoldable pub users : CachingStore → Result (List User)
  users s = ok (map (λ entry. (deref s entry.1).user) (users_order.range s.users_by_name))

  unfoldable pub sudoers_group : CachingStore → Group
  unfolding sudoer_names
  sudoers_group s = record {
    name = sudoers_group_name;
    gid = sudoers_group_gid;
    members = sudoer_names s (users_order.range s.users_by_name);
  }

  -- The flag says that a refresh is requested, without waiting for it.
  unfoldable pub group_by_name : Bytes → CachingStore → Result Group × Bool
  group_by_name name s =
      if bytes_eq name sudoers_group_name
      then (ok (sudoers_group s), false)
      else elim (lookup name s.groups_by_name) [
        | some g ↦ (ok g, false)
        | none ↦ (err (group_name_not_found name), true)
      ]

  unfoldable pub group_by_gid : ℕ → CachingStore → Result Group
  group_by_gid gid s =
      if gid == sudoers_group_gid
      then ok (sudoers_group s)
      else elim (lookup gid s.groups_by_gid) [ some g ↦ ok g | none ↦ err (gid_not_found gid) ]

  module _ (groups_order : RangeOrder Bytes Group) where
    unfoldable pub groups : CachingStore → Result (List Group)
    groups s =
        ok (map (λ entry. entry.1) (groups_order.range s.groups_by_name) ++ sudoers_group s ∷ [])

    unfoldable pub names : CachingStore → Result (List Bytes)
    names s = ok (
        keys (users_order.range s.users_by_name)
        ++ (keys (groups_order.range s.groups_by_name) ++ sudoers_group_name ∷ []))
