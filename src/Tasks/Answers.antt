-- ===== src/Tasks/Answers.antt =====
-- The store under the goroutines, and what the calls of `UserByName` return.
use compute_user_accounts.Base.{
  ◌≡◌, subst, refl, inl, inr, ℕ, Bool-cases, ◌==◌, Option, Option-cases, some, none, Bytes, nat_key,
  bytes_key,
}
use compute_user_accounts.Accounts.{User, Result, ok, err, username_not_found}
use compute_user_accounts.Store.State.{Pointer, Config, CachingStore, empty_store, deref}
use compute_user_accounts.Store.Query.{user_by_name_impl}
use compute_user_accounts.Store.Calls.{found_user}
use compute_user_accounts.Store.Step
use compute_user_accounts.Store.WellFormed.{WellFormed}
use compute_user_accounts.Tasks.State.{
  System, Call, making, made, idle, looking, waiting, resumed, returned, init, receive, fire,
  refresh, close, wait, answer, request_refresh, resume, resume_at, set_call,
}
use compute_user_accounts.Tasks.Step.{
  TaskStep, received, fired, skipped, asked, refreshed, closed, OtherStep, ticked, called, found,
  missed, answered, group_missed, keys_updated, cached_keys_updated, Run, start, by_task, by_other,
  Reach, reached,
}

TaskStep-store :
    {c : Config} {s t : System}
    → TaskStep c s t
    → Step.Reach empty_store s.store
    → Step.Reach empty_store t.store
unfolding receive fire refresh close
TaskStep-store (received ch rest e q) r = r
TaskStep-store (fired e q) r = r
TaskStep-store (skipped ch at e d) r = r
TaskStep-store (asked ch at e d) r = r
TaskStep-store (refreshed ch at api e) r = Step.Reach.next r (Step.Step.accounts_updated _ api)
TaskStep-store (closed ch at e) r = r

OtherStep-store :
    {s t : System} → OtherStep s t → Step.Reach empty_store s.store → Step.Reach empty_store t.store
unfolding wait answer request_refresh
OtherStep-store (ticked now h) r = r
OtherStep-store (called j name m e) r = r
OtherStep-store (found j name p e l) r = r
OtherStep-store (missed j name e l) r = r
OtherStep-store (answered j name since e) r = r
OtherStep-store (group_missed name o l) r = r
OtherStep-store (keys_updated n messages store e h) r =
    Step.Reach.next r (Step.Step.keys_updated _ store messages h)
OtherStep-store (cached_keys_updated name keys sudoer time) r =
    Step.Reach.next r (Step.Step.cached_keys_updated _ name keys sudoer time)

Run-store :
    {c : Config} {s t : System} {n : ℕ}
    → Run c s n t
    → Step.Reach empty_store s.store
    → Step.Reach empty_store t.store
Run-store start h = h
Run-store (by_task r st) h = TaskStep-store st (Run-store r h)
Run-store (by_other r st) h = OtherStep-store st (Run-store r h)

-- The goroutines, with their channels and their clock, write the store by the steps of `Store.Step`:
-- in every state that they reach, the store is one that those steps reach from the empty store.
pub Reach-store : {c : Config} {s : System} → Reach c s → Step.Reach empty_store s.store
unfolding init
Reach-store (reached now r) = Run-store r Step.Reach.here

-- What a call that has returned has found, by the name that it was asked for.
abbrev pub IsAnswer : Bytes → Result User → Type 0
IsAnswer name (ok u) = u.name ≡ name
IsAnswer name (err e) = e ≡ username_not_found name

abbrev IsHonest : Call → Type 0
IsHonest (returned name result) = IsAnswer name result
IsHonest call = Unit {0}

found-IsAnswer :
    (name : Bytes) (s : CachingStore) (p : Pointer)
    → WellFormed s
    → user_by_name_impl name s ≡ some p
    → IsAnswer name (ok (deref s p).user)
unfolding user_by_name_impl
found-IsAnswer name s p w e = (w.names name p e).1

found_user-IsAnswer :
    (name : Bytes) (s : CachingStore)
    → WellFormed s
    → IsAnswer name (found_user name (user_by_name_impl name s) s)
unfolding found_user
found_user-IsAnswer name s w = elim (Option-cases (user_by_name_impl name s)) [
  | inl e ↦ rw e refl
  | inr (p, e) ↦ rw e (found-IsAnswer name s p w e)
]

-- A call is set, and the others stay.
set_call-IsHonest :
    (i j : ℕ) (x : Call) (call : ℕ → Call)
    → IsHonest x
    → IsHonest (call j)
    → IsHonest (set_call i x call j)
set_call-IsHonest i j x call new old = elim (Bool-cases (i == j)) [
  | inl t ↦ rw t new
  | inr f ↦ rw f old
]

resume-IsHonest : (x : Call) → IsHonest x → IsHonest (resume x)
resume-IsHonest (making since) h = tt
resume-IsHonest (made since) h = tt
resume-IsHonest idle h = tt
resume-IsHonest (looking name) h = tt
resume-IsHonest (waiting name since) h = tt
resume-IsHonest (resumed name since) h = tt
resume-IsHonest (returned name result) h = h

abbrev AllHonest : System → Type 0
AllHonest s = (i : ℕ) → IsHonest (s.call i)

resume_at-IsHonest :
    (ch : Option ℕ) (call : ℕ → Call)
    → ((i : ℕ) → IsHonest (call i))
    → (i : ℕ) → IsHonest (resume_at ch call i)
resume_at-IsHonest none call h i = h i
resume_at-IsHonest (some j) call h i =
    set_call-IsHonest j i (resume (call j)) call (resume-IsHonest (call j) (h j)) (h i)

TaskStep-AllHonest : {c : Config} {s t : System} → TaskStep c s t → AllHonest s → AllHonest t
unfolding receive fire refresh close
TaskStep-AllHonest (received ch rest e q) h = h
TaskStep-AllHonest (fired e q) h = h
TaskStep-AllHonest (skipped ch at e d) h = h
TaskStep-AllHonest (asked ch at e d) h = h
TaskStep-AllHonest (refreshed ch at api e) h = h
TaskStep-AllHonest {s = s} (closed ch at e) h = resume_at-IsHonest ch s.call h

OtherStep-AllHonest :
    {s t : System} → OtherStep s t → WellFormed s.store → AllHonest s → AllHonest t
unfolding wait answer request_refresh
OtherStep-AllHonest (ticked now l) w h i = h i
OtherStep-AllHonest {s} (called j name m e) w h i = set_call-IsHonest j i _ s.call tt (h i)
OtherStep-AllHonest {s} (found j name p e l) w h i =
    set_call-IsHonest j i _ s.call (found-IsAnswer name s.store p w l) (h i)
OtherStep-AllHonest {s} (missed j name e l) w h i = set_call-IsHonest j i _ s.call tt (h i)
OtherStep-AllHonest {s} (answered j name since e) w h i =
    set_call-IsHonest j i _ s.call (found_user-IsAnswer name s.store w) (h i)
OtherStep-AllHonest (group_missed name o l) w h i = h i
OtherStep-AllHonest (keys_updated n messages store e k) w h i = h i
OtherStep-AllHonest (cached_keys_updated name keys sudoer time) w h i = h i

Run-AllHonest : {c : Config} (now : ℕ) {t : System} {n : ℕ} → Run c (init now) n t → AllHonest t
unfolding init
Run-AllHonest now start i = set_call-IsHonest 0 i (making now) (λ j. idle) tt tt
Run-AllHonest now (by_task r st) i = TaskStep-AllHonest st (Run-AllHonest now r) i
Run-AllHonest now (by_other r st) i =
    OtherStep-AllHonest st (Step.Reach-WellFormed (Reach-store (reached now r)))
      (Run-AllHonest now r) i

-- In every state that the goroutines reach, a call of `UserByName` that has returned has returned a
-- user with the name that it was asked for, or the error that no user has that name.
pub returned-IsAnswer :
    {c : Config} {s : System} (i : ℕ) (name : Bytes) (result : Result User)
    → Reach c s
    → s.call i ≡ returned name result
    → IsAnswer name result
returned-IsAnswer i name result (reached now r) e = subst IsHonest e (Run-AllHonest now r i)
