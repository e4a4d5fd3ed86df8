-- ===== src/Tasks/Step.antt =====
-- The goroutines interleaved. Sends that wait on a channel are served in the order in which they
-- came. The timer of the `select` is made when the `select` starts, with a frequency that is not
-- zero, so that it fires only if no send waits.
use compute_user_accounts.Base.{
  ℕ, suc, ◌≤◌, ◌≡◌, List, [], ◌∷◌, Bool, true, false, Option, none, some, Bytes, bytes_eq,
  bytes_key,
}
use compute_user_accounts.Go.Map.{lookup}
use compute_user_accounts.Accounts.{Result, ok}
use compute_user_accounts.Store.State.{
  Config, sudoers_group_name, Pointer, CachingStore, deref, now_outside_timespan,
}
use compute_user_accounts.Store.Refresh.{Views}
use compute_user_accounts.Store.Keys.{Update, update_keys, update_cached_keys}
use compute_user_accounts.Store.Query.{user_by_name_impl}
use compute_user_accounts.Tasks.State.{
  System, selecting, woken, refreshing, finished, idle, looking, resumed, returned, is_made,
  set_call, init, receive, fire, refresh, close, wait, answer, request_refresh,
}

abbrev pub is_due : Config → System → Bool
is_due c s = now_outside_timespan s.clock s.last_refresh c.account_refresh_cooldown

-- A step of `updateTask`.
pub data TaskStep (c : Config) (s : System) : System → Type 0 where
  received :
      (ch : Option ℕ) (rest : List (Option ℕ))
      → s.task ≡ selecting
      → s.queue ≡ ch ∷ rest
      → TaskStep c s (receive ch rest s)
  fired : s.task ≡ selecting → s.queue ≡ [] → TaskStep c s (fire s)
  skipped :
      (ch : Option ℕ) (at : ℕ)
      → s.task ≡ woken ch at
      → is_due c s ≡ false
      → TaskStep c s (record s { task = finished ch at })
  asked :
      (ch : Option ℕ) (at : ℕ)
      → s.task ≡ woken ch at
      → is_due c s ≡ true
      → TaskStep c s (record s { task = refreshing ch at })
  refreshed :
      (ch : Option ℕ) (at : ℕ) (api : Result Views)
      → s.task ≡ refreshing ch at
      → TaskStep c s (refresh ch at api s)
  closed : (ch : Option ℕ) (at : ℕ) → s.task ≡ finished ch at → TaskStep c s (close ch s)

-- A step of the clock, of a call, or of one of the other goroutines.
pub data OtherStep (s : System) : System → Type 0 where
  ticked : (now : ℕ) → s.clock ≤ now → OtherStep s (record s { clock = now })
  -- The store is there when `New` has returned.
  called :
      (i : ℕ) (name : Bytes)
      → is_made (s.call 0) ≡ true
      → s.call i ≡ idle
      → OtherStep s (record s { call = set_call i (looking name) s.call })
  found :
      (i : ℕ) (name : Bytes) (p : Pointer)
      → s.call i ≡ looking name
      → user_by_name_impl name s.store ≡ some p
      → OtherStep s
          (record s { call = set_call i (returned name (ok (deref s.store p).user)) s.call })
  missed :
      (i : ℕ) (name : Bytes)
      → s.call i ≡ looking name
      → user_by_name_impl name s.store ≡ none
      → OtherStep s (wait i name s)
  answered :
      (i : ℕ) (name : Bytes) (since : ℕ)
      → s.call i ≡ resumed name since
      → OtherStep s (answer i name s)
  group_missed :
      (name : Bytes)
      → bytes_eq name sudoers_group_name ≡ false
      → lookup name s.store.groups_by_name ≡ none
      → OtherStep s (request_refresh s)
  keys_updated :
      (n : ℕ) (messages : List Update) (store : CachingStore)
      → s.key_updates ≡ suc n
      → update_keys messages s.store ≡ some store
      → OtherStep s (record s { store = store; key_updates = n })
  cached_keys_updated :
      (name : Bytes) (keys : List Bytes) (sudoer : Bool) (time : ℕ)
      → OtherStep s (record s { store = update_cached_keys name keys sudoer time s.store })

-- A run, with the number of the steps that `updateTask` makes in it.
pub data Run (c : Config) (s : System) : ℕ → System → Type 0 where
  start : Run c s 0 s
  by_task : {n : ℕ} {t u : System} → Run c s n t → TaskStep c t u → Run c s (suc n) u
  by_other : {n : ℕ} {t u : System} → Run c s n t → OtherStep t u → Run c s n u

-- The states of the daemon, from `New` at a time `now`.
pub data Reach (c : Config) : System → Type 0 where
  reached : {n : ℕ} {t : System} (now : ℕ) → Run c (init now) n t → Reach c t
