-- ===== src/Tasks/Keys.antt =====
-- The calls of `AuthorizedKeys` and the goroutines of the key updates among the goroutines of the
-- store. A call of `AuthorizedKeys` makes a call of `UserByName`, which has its number. What the API
-- answers is a parameter: `Gives time name answer` if it may answer so, when it is asked for the keys of
-- the name, and the clock reads this time when the answer has come. A panic ends the process, so that it is no step.
use compute_user_accounts.Base.{
  ℕ, suc, Bool, true, false, List, [], ◌∷◌, ◌++◌, ◌≡◌, Option, none, some, Bytes, All, ◌==◌,
  if◌then◌else◌,
}
use compute_user_accounts.Accounts.{User, Result, ok, err, username_not_found}
use compute_user_accounts.Store.State.{Config, Pointer, CachingStore, deref, now_outside_timespan}
use compute_user_accounts.Store.Keys.{KeysAnswer, Update, update_keys, update_cached_keys}
use compute_user_accounts.Store.Query.{user_by_name_impl}
use compute_user_accounts.Store.Calls.{CachedKeysUpdate, KeysCall, keys_answered}
use compute_user_accounts.Store.Provenance.{IsMessage}
use compute_user_accounts.Tasks.State.{System, idle, looking, returned, is_made, set_call, init}
use compute_user_accounts.Tasks.Step.{
  TaskStep, OtherStep, ticked, called, found, missed, answered, group_missed, keys_updated,
  cached_keys_updated,
}

-- Where a call of `AuthorizedKeys` stands: in `UserByName`, while the API is asked, with the cell that
-- was found, and at its end, there with the
-- time of the search if the cached keys are returned due to the cooldown.
pub data KeysPhase : Type 0 where
  unasked : KeysPhase
  searching : Bytes → KeysPhase
  asking : Bytes → Pointer → KeysPhase
  replied : Bytes → Option ℕ → Result (List Bytes) → KeysPhase

pub record Daemon : Type 0 where
  pub tasks : System
  pub keys : ℕ → KeysPhase
  -- The goroutines of `updateCachedKeys` that have not written yet.
  pub pending : List CachedKeysUpdate

abbrev pub set_keys : ℕ → KeysPhase → (ℕ → KeysPhase) → ℕ → KeysPhase
set_keys i x keys j = if i == j then x else keys j

unfoldable pub start_daemon : ℕ → Daemon
start_daemon now = record { tasks = init now; keys = λ i. unasked; pending = [] }

unfoldable pub ask : ℕ → Bytes → Daemon → Daemon
ask i name s = record s {
  tasks = record s.tasks { call = set_call i (looking name) s.tasks.call };
  keys = set_keys i (searching name) s.keys;
}

-- The second search, and the test of the cooldown.
unfoldable pub searched : Config → Bytes → Option Pointer → ℕ → CachingStore → KeysPhase
searched c name none now s = replied name none (err (username_not_found name))
searched c name (some p) now s =
    if now_outside_timespan now (deref s p).key_refresh_time c.key_refresh_cooldown
    then asking name p
    else replied name (some now) (ok (deref s p).keys)

unfoldable pub search : Config → ℕ → Bytes → Daemon → Daemon
unfolding searched
search c i name s =
    let store = s.tasks.store in
    record s {
      keys = set_keys i (searched c name (user_by_name_impl name store) s.tasks.clock store) s.keys;
    }

-- `go s.updateCachedKeys(…)`, if the call starts it.
abbrev pub start_update : Option CachedKeysUpdate → List CachedKeysUpdate → List CachedKeysUpdate
start_update none pending = pending
start_update (some u) pending = u ∷ pending

unfoldable pub reply : ℕ → Bytes → KeysCall → Daemon → Daemon
reply i name call s = record s {
  keys = set_keys i (replied name none call.result) s.keys;
  pending = start_update call.started s.pending;
}

unfoldable pub write_cached : CachedKeysUpdate → List CachedKeysUpdate → Daemon → Daemon
write_cached u pending s = record s {
  tasks = record s.tasks {
    store = update_cached_keys u.username u.keys u.sudoer u.refresh_time s.tasks.store;
  };
  pending = pending;
}

-- Of the steps of `Tasks`, those that write keys are made here with what has started them.
abbrev pub writes_keys : {s t : System} → OtherStep s t → Bool
writes_keys (ticked now h) = false
writes_keys (called i name m e) = false
writes_keys (found i name p e l) = false
writes_keys (missed i name e l) = false
writes_keys (answered i name since e) = false
writes_keys (group_missed name o l) = false
writes_keys (keys_updated n messages store e h) = true
writes_keys (cached_keys_updated name keys sudoer time) = true

module _ (Gives : ℕ → Bytes → KeysAnswer → Type 0) (c : Config) where
  pub data DaemonStep (s : Daemon) : Daemon → Type 0 where
    by_task : {t : System} → TaskStep c s.tasks t → DaemonStep s (record s { tasks = t })
    by_other :
        {t : System} (st : OtherStep s.tasks t)
        → writes_keys st ≡ false
        → DaemonStep s (record s { tasks = t })
    keys_asked :
        (i : ℕ) (name : Bytes)
        → is_made (s.tasks.call 0) ≡ true
        → s.tasks.call i ≡ idle
        → DaemonStep s (ask i name s)
    keys_searched :
        (i : ℕ) (name : Bytes) (result : Result User)
        → s.keys i ≡ searching name
        → s.tasks.call i ≡ returned name result
        → DaemonStep s (search c i name s)
    keys_replied :
        (i : ℕ) (name : Bytes) (p : Pointer) (answer : KeysAnswer) (call : KeysCall)
        → s.keys i ≡ asking name p
        → Gives s.tasks.clock name answer
        → keys_answered name p s.tasks.clock answer s.tasks.store ≡ some call
        → DaemonStep s (reply i name call s)
    cached_written :
        (before after : List CachedKeysUpdate) (u : CachedKeysUpdate)
        → s.pending ≡ before ++ u ∷ after
        → DaemonStep s (write_cached u (before ++ after) s)
    keys_written :
        (n : ℕ) (messages : List Update) (store : CachingStore)
        → s.tasks.key_updates ≡ suc n
        → All (IsMessage Gives) messages
        → update_keys messages s.tasks.store ≡ some store
        → DaemonStep s (record s { tasks = record s.tasks { store = store; key_updates = n } })

  pub data DaemonReach : Daemon → Type 0 where
    started : (now : ℕ) → DaemonReach (start_daemon now)
    stepped : {s t : Daemon} → DaemonReach s → DaemonStep s t → DaemonReach t
