-- ===== src/Tests/Store.antt =====
-- The store, with the users of store/store_test.go.
use mathlib.Core.List.{Mem}
use mathlib.Core.Logic.{◌∨₁◌}
use compute_user_accounts.Base.{
  false, ◌≡◌, ◌↔◌, refl, List, [], ◌∷◌, true, some, Bytes, codes, bytes_eq, bytes_key, nat_key,
}
use compute_user_accounts.Go.Map.{lookup, insert}
use compute_user_accounts.Accounts.{ok}
use compute_user_accounts.Testbase.{john, jane, group1, group2}
use compute_user_accounts.Store.State.{empty_store, cell}
use compute_user_accounts.Store.Refresh.{
  update_accounts, to_user, cached_in, add_users, add_groups, store_user, carry, to_group,
}
use compute_user_accounts.Store.Query.{group_by_name, users, groups, sudoers_group}
use compute_user_accounts.Store.Calls.{Task, user_by_name}
use compute_user_accounts.Store.WellFormed.{WellFormed, empty_store-WellFormed}
use compute_user_accounts.Store.Step.{Reach-WellFormed}
use compute_user_accounts.Store.Cached.{cached, last_view, after_refresh, update_accounts-cached}
use compute_user_accounts.Store.Lookups.{first_answer, view_answer, user_by_name-refreshed}
use compute_user_accounts.Store.Groups.{group_by_name-groups}
use compute_user_accounts.Store.Members.{
  is_sudoer, user_in, sudoers_group-mem, users-mem, groups-mem,
}
use compute_user_accounts.Tests.Samples.{
  in_order, sample, sample-WellFormed, sample_run, sudo_sample, user_views,
}

Reach-WellFormed_example : WellFormed sudo_sample
Reach-WellFormed_example = Reach-WellFormed sample_run

update_accounts-cached_example :
    cached (codes "user2") (update_accounts (ok (user_views, [])) sudo_sample)
    ≡ after_refresh (cached (codes "user2") sudo_sample) (last_view (codes "user2") user_views)
update_accounts-cached_example =
    update_accounts-cached user_views [] sudo_sample (codes "user2") (Reach-WellFormed sample_run)

user_by_name-refreshed_example :
    (user_by_name (update_accounts (ok (user_views, []))) (codes "user2") empty_store).0
    ≡ first_answer
        (cached (codes "user2") empty_store)
        (view_answer (codes "user2") (last_view (codes "user2") user_views))
user_by_name-refreshed_example =
    user_by_name-refreshed user_views [] (codes "user2") empty_store empty_store-WellFormed

abbrev start : Task
start = record { last_refresh = 0; store = empty_store }

abbrev sample_names : List Bytes
sample_names =
    codes "user1" ∷ codes "user2" ∷ codes "group1" ∷ codes "group2" ∷ codes "gce-sudoers" ∷ []

sudoers_group-mem_example :
    Mem (codes "user1") (sudoers_group in_order sudo_sample).members
    ↔ (is_sudoer (cached (codes "user1") sudo_sample) ≡ true)
sudoers_group-mem_example =
    sudoers_group-mem in_order sudo_sample (Reach-WellFormed sample_run) (codes "user1")

users-mem_example :
    Mem jane (john ∷ jane ∷ []) ↔ (user_in (cached (codes "user2") sample) ≡ some jane)
unfolding users update_accounts add_users add_groups lookup insert bytes_eq store_user to_user cell
    carry cached_in
users-mem_example = users-mem in_order sample sample-WellFormed jane (john ∷ jane ∷ []) refl

groups-mem_example : Mem group2 (group1 ∷ group2 ∷ sudoers_group in_order sample ∷ []) ↔ (
    (lookup (codes "group2") sample.groups_by_name ≡ some group2)
    ∨₁ (group2 ≡ sudoers_group in_order sample))
unfolding groups update_accounts add_users add_groups lookup insert bytes_eq store_user to_group
    to_user
groups-mem_example =
    groups-mem in_order in_order sample sample-WellFormed group2
      (group1 ∷ group2 ∷ sudoers_group in_order sample ∷ []) refl

group_by_name-groups_example :
    Mem group2 (group1 ∷ group2 ∷ sudoers_group in_order sample ∷ [])
    ↔ (group_by_name in_order (codes "group2") sample ≡ (ok group2, false))
unfolding groups update_accounts add_users add_groups lookup insert bytes_eq store_user to_group
    to_user
group_by_name-groups_example =
    group_by_name-groups in_order in_order sample group2
      (group1 ∷ group2 ∷ sudoers_group in_order sample ∷ []) sample-WellFormed refl refl
