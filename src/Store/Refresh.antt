-- ===== src/Store/Refresh.antt =====
-- `updateAccounts`: the maps are made anew from the API's views; a user who was known keeps his keys.
use compute_user_accounts.Base.{
  nat_key, bytes_key, List, [], ◌∷◌, ◌++◌, Option, none, some, Bytes, length,
}
use compute_user_accounts.Go.Map.{GoMap, lookup, insert}
use compute_user_accounts.Accounts.{User, Group, Result, ok, err, uint32}
use compute_user_accounts.Store.State.{
  LinuxUserView, LinuxGroupView, CachedUser, Pointer, CachingStore, fresh, deref,
}

unfoldable pub to_user : LinuxUserView → User
to_user u = record {
  name = u.username;
  uid = uint32 u.uid;
  gid = uint32 u.gid;
  gecos = u.gecos;
  home_directory = u.home_directory;
  shell = u.shell;
}

unfoldable pub to_group : LinuxGroupView → Group
to_group g = record { name = g.group_name; gid = uint32 g.gid; members = g.members }

-- `if old, ok := oldUsers[user.Name]; ok { … }`.
unfoldable pub carry : Option CachedUser → User → CachedUser
carry none user = fresh user
carry (some old) user = record {
  user = user;
  keys = old.keys;
  sudoer = old.sudoer;
  key_refresh_time = old.key_refresh_time;
}

-- The cell that a map of users holds for a name.
unfoldable pub cached_in : GoMap Bytes Pointer → Bytes → CachingStore → Option CachedUser
cached_in users name s = elim (lookup name users) [ none ↦ none | some p ↦ some (deref s p) ]

unfoldable pub store_user : User → CachedUser → CachingStore → CachingStore
store_user user cu s =
    let p = length s.heap in
    record s {
      heap = s.heap ++ cu ∷ [];
      users_by_name = insert user.name p s.users_by_name;
      users_by_uid = insert user.uid p s.users_by_uid;
    }

-- A round of the loop over the users, and the loop.
unfoldable pub add_user : GoMap Bytes Pointer → LinuxUserView → CachingStore → CachingStore
add_user old_users u s =
    let user = to_user u in store_user user (carry (cached_in old_users user.name s) user) s

unfoldable pub add_users : GoMap Bytes Pointer → List LinuxUserView → CachingStore → CachingStore
unfolding add_user
add_users old_users [] s = s
add_users old_users (u ∷ us) s = add_users old_users us (add_user old_users u s)

unfoldable pub add_group : LinuxGroupView → CachingStore → CachingStore
add_group g s =
    let group = to_group g in
    record s {
      groups_by_name = insert group.name group s.groups_by_name;
      groups_by_gid = insert group.gid group s.groups_by_gid;
    }

unfoldable pub add_groups : List LinuxGroupView → CachingStore → CachingStore
unfolding add_group
add_groups [] s = s
add_groups (g ∷ gs) s = add_groups gs (add_group g s)

-- The four maps made anew. What the old maps held stays on the heap.
abbrev pub cleared : CachingStore → CachingStore
cleared s = record s {
  users_by_name = [];
  users_by_uid = [];
  groups_by_name = [];
  groups_by_gid = [];
}

-- The API's answer: users and groups, or an error.
abbrev pub Views : Type 0
Views = List LinuxUserView × List LinuxGroupView

unfoldable pub update_accounts : Result Views → CachingStore → CachingStore
update_accounts (err e) s = s
update_accounts (ok (users, groups)) s =
    add_groups groups (add_users s.users_by_name users (cleared s))
