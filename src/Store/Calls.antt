-- ===== src/Store/Calls.antt =====
-- `updateTask`, `New`, and the calls that trigger a refresh or ask the API: `UserByName`,
-- `AuthorizedKeys`. What other goroutines do while a call waits is a parameter, a change of the store.
use compute_user_accounts.Base.{ℕ, List, Bool, Option, none, some, Bytes, if◌then◌else◌}
use compute_user_accounts.Accounts.{User, Result, ok, err, username_not_found}
use compute_user_accounts.Store.State.{
  Config, Pointer, CachingStore, deref, empty_store, zero_time, now_outside_timespan,
}
use compute_user_accounts.Store.Refresh.{Views, update_accounts}
use compute_user_accounts.Store.Keys.{KeysAnswer}
use compute_user_accounts.Store.Query.{user_by_name_impl}

pub record Task : Type 0 where
  pub last_refresh : ℕ
  pub store : CachingStore

-- A round of `updateTask`, by a waiter or by the timer: `now` is the first reading of the clock, and
-- `done` the one after the refresh.
unfoldable pub update_round : Config → (now done : ℕ) → Result Views → Task → Task
update_round c now done api t =
    if now_outside_timespan now t.last_refresh c.account_refresh_cooldown
    then record { last_refresh = done; store = update_accounts api t.store }
    else t

-- `New` returns after the first round.
unfoldable pub new : Config → (now done : ℕ) → Result Views → Task
new c now done api =
    update_round c now done api (record { last_refresh = zero_time; store = empty_store })

unfoldable pub found_user : Bytes → Option Pointer → CachingStore → Result User
found_user name (some p) s = ok (deref s p).user
found_user name none s = err (username_not_found name)

-- `wait` is what happens from the send on `updateWaiters` to the close of the channel.
unfoldable pub user_by_name :
    (wait : CachingStore → CachingStore) → Bytes → CachingStore → Result User × CachingStore
unfolding found_user
user_by_name wait name s = elim (user_by_name_impl name s) [
  | some p ↦ (ok (deref s p).user, s)
  | none ↦ let s' = wait s in (found_user name (user_by_name_impl name s') s', s')
]

-- The arguments of the goroutine that `AuthorizedKeys` starts.
pub record CachedKeysUpdate : Type 0 where
  pub username : Bytes
  pub keys : List Bytes
  pub sudoer : Bool
  pub refresh_time : ℕ

pub record KeysCall : Type 0 where
  pub result : Result (List Bytes)
  pub store : CachingStore
  pub started : Option CachedKeysUpdate

-- The end of the call, when the API has answered: a nil view without an error panics.
unfoldable pub keys_answered :
    Bytes → Pointer → (done : ℕ) → KeysAnswer → CachingStore → Option KeysCall
keys_answered username p done (err e) s =
    some (record { result = ok (deref s p).keys; store = s; started = none })
keys_answered username p done (ok none) s = none
keys_answered username p done (ok (some view)) s = some (record {
  result = ok view.keys;
  store = s;
  started =
      some (record {
        username = username;
        keys = view.keys;
        sudoer = view.sudoer;
        refresh_time = done;
      });
})

-- `during` is what happens while the API is asked.
unfoldable pub keys_found :
    Config
    → (during : CachingStore → CachingStore) → (now done : ℕ) → KeysAnswer
    → Bytes
    → Option Pointer
    → CachingStore
    → Option KeysCall
unfolding keys_answered
keys_found c during now done api username none s =
    some (record { result = err (username_not_found username); store = s; started = none })
keys_found c during now done api username (some p) s =
    if now_outside_timespan now (deref s p).key_refresh_time c.key_refresh_cooldown
    then keys_answered username p done api (during s)
    else some (record { result = ok (deref s p).keys; store = s; started = none })

-- `between` is what happens from the return of `UserByName` to the second search; `none` is a panic.
unfoldable pub authorized_keys :
    Config
    → (wait between during : CachingStore → CachingStore) → (now done : ℕ) → KeysAnswer
    → Bytes
    → CachingStore
    → Option KeysCall
unfolding keys_found user_by_name
authorized_keys c wait between during now done api username s =
    let s' = between (user_by_name wait username s).1 in
    keys_found c during now done api username (user_by_name_impl username s') s'
