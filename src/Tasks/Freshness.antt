-- ===== src/Tasks/Freshness.antt =====
-- How old the accounts are that a call finds when it has waited.
use compute_user_accounts.Base.{
  ℕ, ◌+◌, ◌≤◌, ◌<◌, ◌≡◌, inl, inr, Bool, true, false, [], ◌∷◌, some, none, arith,
}
use compute_user_accounts.Store.State.{Config, now_outside_timespan}
use compute_user_accounts.Tasks.State.{
  System, Phase, selecting, woken, refreshing, finished, Call, made, idle, looking, resumed, init,
  receive, fire, refresh, close, wait, answer, request_refresh,
}
use compute_user_accounts.Tasks.Step.{
  TaskStep, received, fired, skipped, asked, refreshed, closed, OtherStep, ticked, called, found,
  missed, answered, group_missed, keys_updated, cached_keys_updated, Run, start, by_task, by_other,
}
use compute_user_accounts.Tasks.Queue.{in_queue, in_queue-append, holds, is_waiting}
use compute_user_accounts.Tasks.Tries.{
  wait_start, TriedAt, last_refresh-IsTried, has_waited, Run-IsAfter, init-IsAfter,
  init-last_refresh,
}

-- When the round began.
abbrev round_start : Phase → ℕ
round_start selecting = 0
round_start (woken ch at) = at
round_start (refreshing ch at) = at
round_start (finished ch at) = at

abbrev is_finished : Phase → Bool
is_finished (finished ch at) = true
is_finished phase = false

abbrev pub is_resumed : Call → Bool
is_resumed (made since) = true
is_resumed (resumed name since) = true
is_resumed call = false

-- The call has made no channel yet.
abbrev is_early : Call → Bool
is_early idle = true
is_early (looking name) = true
is_early call = false

-- What the states keep of the times, for one call.
record IsTimely (c : Config) (i : ℕ) (s : System) : Type 0 where
  pub refreshed_past : s.last_refresh ≤ s.clock
  pub round_past : round_start s.task ≤ s.clock
  pub wait_past : wait_start (s.call i) ≤ s.clock
  pub not_sent :
      is_early (s.call i) ≡ true → (in_queue i s.queue ≡ false) × (holds i s.task ≡ false)
  pub wait_before_round :
      holds i s.task ≡ true
      → is_waiting (s.call i) ≡ true
      → wait_start (s.call i) ≤ round_start s.task
  pub round_fresh :
      is_finished s.task ≡ true → round_start s.task ≤ s.last_refresh + c.account_refresh_cooldown
  pub call_fresh :
      is_resumed (s.call i) ≡ true
      → wait_start (s.call i) ≤ s.last_refresh + c.account_refresh_cooldown

TaskStep-IsTimely :
    {c : Config} {s t : System} (i : ℕ) → TaskStep c s t → IsTimely c i s → IsTimely c i t
unfolding receive fire refresh close in_queue now_outside_timespan
TaskStep-IsTimely i (received ch rest e q) k = ground arith
TaskStep-IsTimely i (fired e q) k = ground arith
TaskStep-IsTimely i (skipped ch at e d) k = ground arith
TaskStep-IsTimely i (asked ch at e d) k = ground arith
TaskStep-IsTimely i (refreshed ch at api e) k = ground arith
TaskStep-IsTimely i (closed ch at e) k = ground arith

OtherStep-IsTimely :
    {c : Config} {s t : System} (i : ℕ) → OtherStep s t → IsTimely c i s → IsTimely c i t
unfolding wait answer request_refresh in_queue
OtherStep-IsTimely i (ticked now h) k = ground arith
OtherStep-IsTimely i (called j name m e) k = ground arith
OtherStep-IsTimely i (found j name p e l) k = ground arith
OtherStep-IsTimely {s = s} i (missed j name e l) k =
    ground (arith, in_queue-append i s.queue (some j ∷ []))
OtherStep-IsTimely i (answered j name since e) k = ground arith
OtherStep-IsTimely {s = s} i (group_missed name o l) k =
    ground (arith, in_queue-append i s.queue (none ∷ []))
OtherStep-IsTimely i (keys_updated n messages store e h) k = ground arith
OtherStep-IsTimely i (cached_keys_updated name keys sudoer time) k = ground arith

Run-IsTimely :
    {c : Config} {s t : System} {n : ℕ} (i : ℕ) → Run c s n t → IsTimely c i s → IsTimely c i t
Run-IsTimely i start k = k
Run-IsTimely i (by_task r st) k = TaskStep-IsTimely i st (Run-IsTimely i r k)
Run-IsTimely i (by_other r st) k = OtherStep-IsTimely i st (Run-IsTimely i r k)

init-IsTimely : (c : Config) (i now : ℕ) → IsTimely c i (init now)
unfolding init in_queue
init-IsTimely c i now = ground arith

is_resumed-has_waited : (call : Call) → is_resumed call ≡ true → has_waited call ≡ true
is_resumed-has_waited call h = ground arith

-- A call that has been woken, before its second search, and `New` when it returns, find that in the
-- run before `updateAccounts` has asked the API and ended with its answer, good or bad, and this at
-- most the cooldown before the call began to wait; where the daemon starts later than the cooldown
-- after the zero time.
pub woken_is_fresh :
    {c : Config} {s : System} {n : ℕ} (i now : ℕ) (r : Run c (init now) n s)
    → c.account_refresh_cooldown < now
    → is_resumed (s.call i) ≡ true
    → (time : ℕ) × TriedAt r time × (wait_start (s.call i) ≤ time + c.account_refresh_cooldown)
woken_is_fresh {c} {s} i now r late h =
    let fresh = (Run-IsTimely i r (init-IsTimely c i now)).call_fresh h in
    let after = (Run-IsAfter i now r (init-IsAfter i now)).1 (is_resumed-has_waited (s.call i) h) in
    elim (last_refresh-IsTried r (init-last_refresh now)) [
      | inl zero ↦ absurd (omega arith)
      | inr tried ↦ (s.last_refresh, tried, fresh)
    ]
