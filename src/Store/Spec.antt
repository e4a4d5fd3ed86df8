-- ===== src/Store/Spec.antt =====
-- What the store holds, without its pointers and the order of its entries: four finite maps, as
-- functions; and what each write makes of them.
use mathlib.Core.List.{foldl}
use compute_user_accounts.Base.{
  ℕ, List, [], ◌∷◌, Bool, Option, none, some, Bytes, bytes_eq, bytes_key, nat_key, if◌then◌else◌,
}
use compute_user_accounts.Go.Map.{lookup}
use compute_user_accounts.Accounts.{User, Group, Result, ok, err, uid_not_found}
use compute_user_accounts.Store.State.{CachedUser, CachingStore}
use compute_user_accounts.Store.Refresh.{Views, update_accounts}
use compute_user_accounts.Store.Keys.{Update, update_keys, update_cached_keys}
use compute_user_accounts.Store.Query.{user_by_uid}
use compute_user_accounts.Store.Cached.{cached, last_view, after_refresh}
use compute_user_accounts.Store.Refreshed.{last_with_uid, last_named, last_with_gid}
use compute_user_accounts.Store.KeyWrites.{rekeyed?, after_messages}

pub record Content : Type 0 where
  pub named : Bytes → Option CachedUser
  pub numbered : ℕ → Result User
  pub group_named : Bytes → Option Group
  pub group_numbered : ℕ → Option Group

abbrev pub content : CachingStore → Content
content s = record {
  named = λ name. cached name s;
  numbered = λ uid. user_by_uid uid s;
  group_named = λ name. lookup name s.groups_by_name;
  group_numbered = λ gid. lookup gid s.groups_by_gid;
}

abbrev pub no_content : Content
no_content = record {
  named = λ name. none;
  numbered = λ uid. err (uid_not_found uid);
  group_named = λ name. none;
  group_numbered = λ gid. none;
}

-- The writes under the lock: `updateAccounts`, `updateKeys` and `updateCachedKeys`.
pub data StoreWrite : Type 0 where
  accounts : Result Views → StoreWrite
  keys : List Update → StoreWrite
  cached_keys : Bytes → List Bytes → Bool → ℕ → StoreWrite

-- `none` is a panic.
unfoldable pub write_one : StoreWrite → CachingStore → Option CachingStore
write_one (accounts answer) s = some (update_accounts answer s)
write_one (keys received) s = update_keys received s
write_one (cached_keys name ks sudoer time) s = some (update_cached_keys name ks sudoer time s)

unfoldable pub write_all : List StoreWrite → CachingStore → Option CachingStore
unfolding write_one
write_all [] s = some s
write_all (w ∷ ws) s = elim (write_one w s) [ none ↦ none | some t ↦ write_all ws t ]

-- The same writes on the content.
unfoldable pub spec : Content → StoreWrite → Content
spec c (accounts (err e)) = c
spec c (accounts (ok (users, groups))) = record {
  named = λ name. after_refresh (c.named name) (last_view name users);
  numbered = λ uid. last_with_uid uid users (err (uid_not_found uid));
  group_named = λ name. last_named name groups none;
  group_numbered = λ gid. last_with_gid gid groups none;
}
spec c (keys received) = record c { named = λ name. after_messages name received (c.named name) }
spec c (cached_keys username ks sudoer time) = record c {
  named = λ name.
      if bytes_eq username name then rekeyed? ks sudoer time (c.named name) else c.named name;
}

unfoldable pub spec_all : List StoreWrite → Content → Content
unfolding spec
spec_all ws c = foldl spec c ws
