-- ===== src/Tasks/Composed.antt =====
-- The goroutines of the daemon, seen as those of `Tasks`.
use compute_user_accounts.Base.{ℕ, false, ◌≡◌, refl, Bytes}
use compute_user_accounts.Store.State.{Config}
use compute_user_accounts.Store.Keys.{KeysAnswer}
use compute_user_accounts.Tasks.State.{System, wait, answer, request_refresh}
use compute_user_accounts.Tasks.Step.{
  TaskStep, OtherStep, ticked, called, found, missed, answered, group_missed, keys_updated,
  cached_keys_updated, start, by_task, by_other, Reach, reached,
}
use compute_user_accounts.Tasks.Keys.{
  Daemon, start_daemon, ask, search, reply, write_cached, writes_keys, DaemonStep, keys_asked,
  keys_searched, keys_replied, cached_written, keys_written, DaemonReach, started, stepped,
}

Reach-by_task : {c : Config} {s t : System} → Reach c s → TaskStep c s t → Reach c t
Reach-by_task (reached now r) st = reached now (by_task r st)

Reach-by_other : {c : Config} {s t : System} → Reach c s → OtherStep s t → Reach c t
Reach-by_other (reached now r) st = reached now (by_other r st)

module _ {Gives : ℕ → Bytes → KeysAnswer → Type 0} {c : Config} where
  DaemonStep-tasks : {s t : Daemon} → DaemonStep Gives c s t → Reach c s.tasks → Reach c t.tasks
  unfolding ask search reply write_cached
  DaemonStep-tasks (DaemonStep.by_task st) r = Reach-by_task r st
  DaemonStep-tasks (DaemonStep.by_other st k) r = Reach-by_other r st
  DaemonStep-tasks (keys_asked i name m e) r = Reach-by_other r (called i name m e)
  DaemonStep-tasks (keys_searched i name result e f) r = r
  DaemonStep-tasks (keys_replied i name p a call e g k) r = r
  DaemonStep-tasks (cached_written before after u e) r =
      Reach-by_other r (cached_keys_updated u.username u.keys u.sudoer u.refresh_time)
  DaemonStep-tasks (keys_written n messages store e m u) r =
      Reach-by_other r (keys_updated n messages store e u)

  -- With the calls of `AuthorizedKeys` and what starts the key updates, the goroutines of the daemon
  -- run by the steps of `Tasks`: in every state that they reach, the goroutines of the refreshes and of
  -- `UserByName` are in a state that those steps reach from `New`.
  pub DaemonReach-tasks : {s : Daemon} → DaemonReach Gives c s → Reach c s.tasks
  unfolding start_daemon
  DaemonReach-tasks (started now) = reached now start
  DaemonReach-tasks (stepped r st) = DaemonStep-tasks st (DaemonReach-tasks r)

pub OtherStep-store_heap :
    {s t : System} (st : OtherStep s t) → writes_keys st ≡ false → t.store.heap ≡ s.store.heap
unfolding wait answer request_refresh
OtherStep-store_heap (ticked now h) k = refl
OtherStep-store_heap (called i name m e) k = refl
OtherStep-store_heap (found i name p e l) k = refl
OtherStep-store_heap (missed i name e l) k = refl
OtherStep-store_heap (answered i name since e) k = refl
OtherStep-store_heap (group_missed name o l) k = refl
OtherStep-store_heap (keys_updated n messages store e h) k = cc
OtherStep-store_heap (cached_keys_updated name keys sudoer time) k = cc
