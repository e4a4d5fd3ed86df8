-- ===== src/Tests/EndToEnd.antt =====
-- The client, the server and the store together, with the users of store/store_test.go.
use compute_user_accounts.Base.{◌≡◌, List, [], arith, Bytes, codes, bytes_eq, bytes_key, nat_key}
use compute_user_accounts.Go.Map.{lookup}
use compute_user_accounts.Accounts.{Result, ok, err, message}
use compute_user_accounts.Testbase.{john, jane}
use compute_user_accounts.Client.Calls
use compute_user_accounts.Protocol.Wire.{direct}
use compute_user_accounts.Store.State.{CachingStore, empty_store}
use compute_user_accounts.Store.Refresh.{update_accounts, cached_in}
use compute_user_accounts.Store.Provider.{store_provider}
use compute_user_accounts.Store.WellFormed.{empty_store-WellFormed}
use compute_user_accounts.Store.Cached.{last_view}
use compute_user_accounts.Store.Refreshed.{last_with_uid}
use compute_user_accounts.EndToEnd.{user_by_name-end_to_end, user_by_uid-end_to_end}
use compute_user_accounts.Tests.Samples.{user_views, group_views, in_order}

abbrev no_keys : Bytes → CachingStore → Result (List Bytes) × CachingStore
no_keys name s = (err (message []), s)

user_by_name-end_to_end_example :
    (Calls.user_by_name
      (direct
        (store_provider (update_accounts (ok (user_views, group_views))) in_order in_order no_keys))
      (codes "user2")
      empty_store).0
    ≡ ok jane
unfolding last_view cached_in lookup bytes_eq
user_by_name-end_to_end_example =
    user_by_name-end_to_end in_order in_order no_keys user_views group_views empty_store
      (codes "user2") empty_store-WellFormed (omega arith) (omega arith) (omega arith)

user_by_uid-end_to_end_example :
    (Calls.user_by_uid
      (direct (store_provider (λ s. s) in_order in_order no_keys))
      1001
      (update_accounts (ok (user_views, group_views)) empty_store)).0
    ≡ ok john
unfolding last_with_uid
user_by_uid-end_to_end_example =
    user_by_uid-end_to_end in_order in_order no_keys user_views group_views empty_store (λ s. s)
      1001 (omega arith) (omega arith)
