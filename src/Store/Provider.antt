-- ===== src/Store/Provider.antt =====
-- The store as the `AccountProvider` that `New` returns. What other goroutines do while `UserByName`
-- waits, the orders of `range`, and what `AuthorizedKeys` does where it does not panic are parameters.
use compute_user_accounts.Base.{List, Bytes}
use compute_user_accounts.Accounts.{Group, Result, AccountProvider}
use compute_user_accounts.Go.Map.{RangeOrder}
use compute_user_accounts.Store.State.{Pointer, CachingStore}
use compute_user_accounts.Store.Query.{
  user_by_uid, is_name, users, group_by_name, group_by_gid, groups, names,
}
use compute_user_accounts.Store.Calls.{user_by_name}

module _ (wait : CachingStore → CachingStore) (users_order : RangeOrder Bytes Pointer)
    (groups_order : RangeOrder Bytes Group)
    (keys : Bytes → CachingStore → Result (List Bytes) × CachingStore) where
  unfoldable pub store_provider : AccountProvider CachingStore
  store_provider = record {
    user_by_name = user_by_name wait;
    user_by_uid = λ uid s. (user_by_uid uid s, s);
    users = λ s. (users users_order s, s);
    group_by_name = λ name s. ((group_by_name users_order name s).0, s);
    group_by_gid = λ gid s. (group_by_gid users_order gid s, s);
    groups = λ s. (groups users_order groups_order s, s);
    names = λ s. (names users_order groups_order s, s);
    is_name = λ name s. (is_name name s, s);
    authorized_keys = keys;
  }
