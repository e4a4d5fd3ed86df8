-- ===== src/Tasks/Tries.antt =====
-- When `updateAccounts` has ended in a run of the goroutines, and that no time is before that of `New`.
use compute_user_accounts.Base.{
  ℕ, ◌≤◌, ◌≡◌, refl, sym, ◌∙◌, subst, ◌⊎◌, inl, inr, Bool, true, false, arith,
}
use compute_user_accounts.Store.State.{Config, zero_time}
use compute_user_accounts.Tasks.State.{
  System, Call, making, made, waiting, resumed, init, receive, fire, refresh, close, wait, answer,
  request_refresh,
}
use compute_user_accounts.Tasks.Step.{
  TaskStep, received, fired, skipped, asked, refreshed, closed, OtherStep, ticked, called, found,
  missed, answered, group_missed, keys_updated, cached_keys_updated, Run, start, by_task, by_other,
}

-- When the call began to wait.
abbrev pub wait_start : Call → ℕ
wait_start (making since) = since
wait_start (made since) = since
wait_start (waiting name since) = since
wait_start (resumed name since) = since
wait_start call = 0

-- The step is the end of `updateAccounts` at this time, when the API has answered.
abbrev pub IsTry : {c : Config} {s t : System} → TaskStep c s t → ℕ → Type 0
IsTry (received ch rest e q) time = ⊥
IsTry (fired e q) time = ⊥
IsTry (skipped ch at e d) time = ⊥
IsTry (asked ch at e d) time = ⊥
IsTry {s = s} (refreshed ch at api e) time = time ≡ s.clock
IsTry (closed ch at e) time = ⊥

-- In the run `updateAccounts` has ended at this time.
abbrev pub TriedAt : {c : Config} {s t : System} {n : ℕ} → Run c s n t → ℕ → Type 0
TriedAt start time = ⊥
TriedAt (by_task r st) time = IsTry st time ⊎ TriedAt r time
TriedAt (by_other r st) time = TriedAt r time

TaskStep-last_refresh :
    {c : Config} {s t : System} (st : TaskStep c s t)
    → IsTry st t.last_refresh ⊎ (t.last_refresh ≡ s.last_refresh)
unfolding receive fire refresh close
TaskStep-last_refresh (received ch rest e q) = inr refl
TaskStep-last_refresh (fired e q) = inr refl
TaskStep-last_refresh (skipped ch at e d) = inr refl
TaskStep-last_refresh (asked ch at e d) = inr refl
TaskStep-last_refresh (refreshed ch at api e) = inl refl
TaskStep-last_refresh (closed ch at e) = inr refl

OtherStep-last_refresh : {s t : System} → OtherStep s t → t.last_refresh ≡ s.last_refresh
unfolding wait answer request_refresh
OtherStep-last_refresh (ticked now h) = refl
OtherStep-last_refresh (called j name m e) = refl
OtherStep-last_refresh (found j name p e l) = refl
OtherStep-last_refresh (missed j name e l) = refl
OtherStep-last_refresh (answered j name since e) = refl
OtherStep-last_refresh (group_missed name o l) = refl
OtherStep-last_refresh (keys_updated n messages store e h) = refl
OtherStep-last_refresh (cached_keys_updated name keys sudoer time) = refl

-- `lastRefresh` is the zero time, or a refresh was tried then.
abbrev pub IsTried : {c : Config} {s t : System} {n : ℕ} → Run c s n t → Type 0
IsTried {t = t} r = (t.last_refresh ≡ zero_time) ⊎ TriedAt r t.last_refresh

last_refresh-by_task :
    {c : Config} {s t u : System} {n : ℕ} (r : Run c s n t) (st : TaskStep c t u)
    → IsTry st u.last_refresh ⊎ (u.last_refresh ≡ t.last_refresh)
    → IsTried r
    → IsTried (by_task r st)
last_refresh-by_task r st (inl new) old = inr (inl new)
last_refresh-by_task r st (inr same) (inl zero) = inl (same ∙ zero)
last_refresh-by_task r st (inr same) (inr old) = inr (inr (subst (TriedAt r) (sym same) old))

last_refresh-by_other :
    {c : Config} {s t u : System} {n : ℕ} (r : Run c s n t) (st : OtherStep t u)
    → IsTried r
    → IsTried (by_other r st)
last_refresh-by_other r st (inl zero) = inl (OtherStep-last_refresh st ∙ zero)
last_refresh-by_other r st (inr old) = inr (subst (TriedAt r) (sym (OtherStep-last_refresh st)) old)

pub last_refresh-IsTried :
    {c : Config} {s t : System} {n : ℕ} (r : Run c s n t) → s.last_refresh ≡ zero_time → IsTried r
last_refresh-IsTried start e = inl e
last_refresh-IsTried (by_task r st) e =
    last_refresh-by_task r st (TaskStep-last_refresh st) (last_refresh-IsTried r e)
last_refresh-IsTried (by_other r st) e = last_refresh-by_other r st (last_refresh-IsTried r e)

-- The call has begun to wait.
abbrev pub has_waited : Call → Bool
has_waited (making since) = true
has_waited (made since) = true
has_waited (waiting name since) = true
has_waited (resumed name since) = true
has_waited call = false

-- No time is before that of `New`.
abbrev pub IsAfter : ℕ → ℕ → System → Type 0
IsAfter i now s = (now ≤ s.clock) × (has_waited (s.call i) ≡ true → now ≤ wait_start (s.call i))

TaskStep-IsAfter :
    {c : Config} {s t : System} (i now : ℕ) → TaskStep c s t → IsAfter i now s → IsAfter i now t
unfolding receive fire refresh close
TaskStep-IsAfter i now (received ch rest e q) k = k
TaskStep-IsAfter i now (fired e q) k = k
TaskStep-IsAfter i now (skipped ch at e d) k = k
TaskStep-IsAfter i now (asked ch at e d) k = k
TaskStep-IsAfter i now (refreshed ch at api e) k = k
TaskStep-IsAfter i now (closed ch at e) k = ground arith

OtherStep-IsAfter : {s t : System} (i now : ℕ) → OtherStep s t → IsAfter i now s → IsAfter i now t
unfolding wait answer request_refresh
OtherStep-IsAfter i now (ticked time h) k = ground arith
OtherStep-IsAfter i now (called j name m e) k = ground arith
OtherStep-IsAfter i now (found j name p e l) k = ground arith
OtherStep-IsAfter i now (missed j name e l) k = ground arith
OtherStep-IsAfter i now (answered j name since e) k = ground arith
OtherStep-IsAfter i now (group_missed name o l) k = k
OtherStep-IsAfter i now (keys_updated n messages store e h) k = k
OtherStep-IsAfter i now (cached_keys_updated name keys sudoer time) k = k

pub Run-IsAfter :
    {c : Config} {s t : System} {n : ℕ} (i now : ℕ)
    → Run c s n t
    → IsAfter i now s
    → IsAfter i now t
Run-IsAfter i now start k = k
Run-IsAfter i now (by_task r st) k = TaskStep-IsAfter i now st (Run-IsAfter i now r k)
Run-IsAfter i now (by_other r st) k = OtherStep-IsAfter i now st (Run-IsAfter i now r k)

pub init-IsAfter : (i now : ℕ) → IsAfter i now (init now)
unfolding init
init-IsAfter i now = ground arith

pub init-last_refresh : (now : ℕ) → (init now).last_refresh ≡ zero_time
unfolding init
init-last_refresh now = refl
