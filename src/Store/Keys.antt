-- ===== src/Store/Keys.antt =====
-- `updateKeys`, `keysRequiringRefresh` and `updateCachedKeys`. In an `Option` of a store, `none` is a
-- panic: the dereference of a nil pointer.
use compute_user_accounts.Base.{
  nat_key, bytes_key, ℕ, List, [], ◌∷◌, ◌++◌, Bool, Option, none, some, Bytes, length, set,
  replicate, if◌then◌else◌,
}
use compute_user_accounts.Go.Map.{lookup, RangeOrder}
use compute_user_accounts.Accounts.{Error, Result, ok, err}
use compute_user_accounts.Store.State.{
  Config, AuthorizedKeysView, Pointer, CachingStore, deref, now_outside_timespan, zero_time,
}

-- What `AuthorizedKeys` of the API client returns: an error, or a view, which may be nil.
abbrev pub KeysAnswer : Type 0
KeysAnswer = Result (Option AuthorizedKeysView)

-- The clock is read for each name.
unfoldable pub names_requiring_refresh :
    Config → (Bytes → ℕ) → CachingStore → List (Bytes × Pointer) → List Bytes
names_requiring_refresh c now s [] = []
names_requiring_refresh c now s ((name, p) ∷ entries) =
    let rest = names_requiring_refresh c now s entries in
    if now_outside_timespan (now name) (deref s p).key_refresh_time c.key_refresh_frequency
    then name ∷ rest
    else rest

unfoldable pub keys_requiring_refresh :
    RangeOrder Bytes Pointer → Config → (Bytes → ℕ) → CachingStore → List Bytes
unfolding names_requiring_refresh
keys_requiring_refresh order c now s = names_requiring_refresh c now s (order.range s.users_by_name)

pub record Update : Type 0 where
  pub name : Bytes
  pub view : Option AuthorizedKeysView
  pub error : Option Error
  pub time : ℕ

abbrev pub zero_update : Update
zero_update = record { name = []; view = none; error = none; time = zero_time }

-- A worker's message: the name, the answer, and the time when it came.
unfoldable pub work : (Bytes → KeysAnswer) → (Bytes → ℕ) → Bytes → Update
work api now name = elim (api name) [
  | ok view ↦ record { name = name; view = view; error = none; time = now name }
  | err e ↦ record { name = name; view = none; error = some e; time = now name }
]

-- The loop over the messages: those with an error are dropped.
unfoldable pub without_error : List Update → List Update
without_error [] = []
without_error (up ∷ ups) =
    let rest = without_error ups in elim up.error [ some e ↦ rest | none ↦ up ∷ rest ]

-- `make([]update, workers)` is a slice of that length already, to which the updates are appended.
unfoldable pub refreshed_keys : List Update → List Update
unfolding without_error
refreshed_keys received = replicate (length received) zero_update ++ without_error received

unfoldable pub write_keys : Pointer → List Bytes → Bool → ℕ → CachingStore → CachingStore
write_keys p keys sudoer time s = record s {
  heap =
      set s.heap p (record (deref s p) { keys = keys; sudoer = sudoer; key_refresh_time = time });
}

-- `rk.view.Keys` of a nil view panics, and is read only where the user is known.
unfoldable pub apply_update : Update → CachingStore → Option CachingStore
apply_update rk s = elim (lookup rk.name s.users_by_name) [
  | none ↦ some s
  | some p ↦ elim rk.view [ none ↦ none | some v ↦ some (write_keys p v.keys v.sudoer rk.time s) ]
]

unfoldable pub apply_updates : List Update → CachingStore → Option CachingStore
unfolding apply_update
apply_updates [] s = some s
apply_updates (rk ∷ rks) s = elim (apply_update rk s) [
  | none ↦ none
  | some s' ↦ apply_updates rks s'
]

-- The part of `updateKeys` under the lock, with the messages in the order of their arrival.
unfoldable pub update_keys : List Update → CachingStore → Option CachingStore
update_keys received s = apply_updates (refreshed_keys received) s

unfoldable pub update_cached_keys : Bytes → List Bytes → Bool → ℕ → CachingStore → CachingStore
update_cached_keys username keys sudoer time s = elim (lookup username s.users_by_name) [
  | none ↦ s
  | some p ↦ write_keys p keys sudoer time s
]
