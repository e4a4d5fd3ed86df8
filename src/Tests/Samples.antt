-- ===== src/Tests/Samples.antt =====
-- Stores with the users of store/store_test.go.
use mathlib.Core.List.Perm
use compute_user_accounts.Base.{List, [], ◌∷◌, true, Bytes, codes, bytes_key, nat_key}
use compute_user_accounts.Go.Map.{RangeOrder}
use compute_user_accounts.Accounts.{User, Group, ok}
use compute_user_accounts.Testbase.{john, jane, group1, group2}
use compute_user_accounts.Store.State.{
  Config, LinuxUserView, LinuxGroupView, CachingStore, empty_store,
}
use compute_user_accounts.Store.Refresh.{update_accounts}
use compute_user_accounts.Store.Keys.{update_cached_keys}
use compute_user_accounts.Store.WellFormed.{
  WellFormed, empty_store-WellFormed, update_accounts-WellFormed,
}
use compute_user_accounts.Store.Step.{Reach, here, next, accounts_updated, cached_keys_updated}

-- The view from which a user is made.
abbrev pub view_of : User → LinuxUserView
view_of u = record {
  username = u.name;
  uid = u.uid;
  gid = u.gid;
  gecos = u.gecos;
  home_directory = u.home_directory;
  shell = u.shell;
}

abbrev pub group_view_of : Group → LinuxGroupView
group_view_of g = record { group_name = g.name; gid = g.gid; members = g.members }

abbrev pub user_views : List LinuxUserView
user_views = view_of john ∷ view_of jane ∷ []

abbrev pub group_views : List LinuxGroupView
group_views = group_view_of group1 ∷ group_view_of group2 ∷ []

-- The store after its first refresh, and after user1 is known to be a sudoer.
abbrev pub sample : CachingStore
sample = update_accounts (ok (user_views, group_views)) empty_store

abbrev pub sudo_sample : CachingStore
sudo_sample = update_cached_keys (codes "user1") (codes "key" ∷ []) true 50 sample

abbrev pub config : Config
config = record {
  account_refresh_frequency = 60;
  account_refresh_cooldown = 10;
  key_refresh_frequency = 1800;
  key_refresh_cooldown = 5;
}

pub sample_run : Reach empty_store sudo_sample
sample_run =
    next (next here (accounts_updated empty_store (ok (user_views, group_views))))
      (cached_keys_updated sample (codes "user1") (codes "key" ∷ []) true 50)

pub sample-WellFormed : WellFormed sample
sample-WellFormed = update_accounts-WellFormed _ empty_store empty_store-WellFormed

-- A `range` in the order of the entries.
abbrev pub in_order : {V : Type 0} → RangeOrder Bytes V
in_order = record { range = λ m. m; range-perm = λ m. Perm.refl m }
