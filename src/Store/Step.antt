-- ===== src/Store/Step.antt =====
-- The daemon as interleaved writes. Each write of the store is made under its lock, by one of the
-- goroutines of store/store.go, so that a run is a sequence of these steps. What the API answers, what
-- the clock shows and which goroutine comes first is left open.
use compute_user_accounts.Base.{ℕ, ◌≡◌, List, Bool, Bytes, some}
use compute_user_accounts.Accounts.{Result}
use compute_user_accounts.Store.State.{CachingStore, empty_store}
use compute_user_accounts.Store.Refresh.{Views, update_accounts}
use compute_user_accounts.Store.Keys.{Update, update_keys, refreshed_keys, update_cached_keys}
use compute_user_accounts.Store.WellFormed.{
  WellFormed, empty_store-WellFormed, update_accounts-WellFormed, apply_updates-WellFormed,
  update_cached_keys-WellFormed,
}

pub data Step : CachingStore → CachingStore → Type 0 where
  -- `updateAccounts`, in `updateTask`.
  accounts_updated : (s : CachingStore) (answer : Result Views) → Step s (update_accounts answer s)
  -- `updateKeys`, which does not panic.
  keys_updated :
      (s t : CachingStore) (received : List Update) → update_keys received s ≡ some t → Step s t
  -- `updateCachedKeys`, started by `AuthorizedKeys`.
  cached_keys_updated :
      (s : CachingStore) (name : Bytes) (keys : List Bytes) (sudoer : Bool) (time : ℕ)
      → Step s (update_cached_keys name keys sudoer time s)

pub data Reach (s : CachingStore) : CachingStore → Type 0 where
  here : Reach s s
  next : {t u : CachingStore} → Reach s t → Step t u → Reach s u

Step-WellFormed : {s t : CachingStore} → Step s t → WellFormed s → WellFormed t
unfolding update_keys
Step-WellFormed (accounts_updated s answer) w = update_accounts-WellFormed answer s w
Step-WellFormed (keys_updated s t received h) w =
    apply_updates-WellFormed (refreshed_keys received) s t h w
Step-WellFormed (cached_keys_updated s name keys sudoer time) w =
    update_cached_keys-WellFormed name keys sudoer time s w

Reach-from-WellFormed : {s t : CachingStore} → WellFormed s → Reach s t → WellFormed t
Reach-from-WellFormed w here = w
Reach-from-WellFormed w (next r st) = Step-WellFormed st (Reach-from-WellFormed w r)

-- In every state that the daemon reaches from its empty store, by any interleaving of its writes, each
-- map holds a key once and finds an object with that key under it, and no pointer dangles.
pub Reach-WellFormed : {t : CachingStore} → Reach empty_store t → WellFormed t
Reach-WellFormed r = Reach-from-WellFormed empty_store-WellFormed r
