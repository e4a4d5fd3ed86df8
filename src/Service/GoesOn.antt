-- ===== src/Service/GoesOn.antt =====
-- How a call of the store goes on while the goroutines run.
use compute_user_accounts.Base.{
  ℕ, ◌≡◌, refl, subst, inl, inr, Bool-cases, true, false, Option, none, some, Bytes, ◌==◌, arith,
}
use compute_user_accounts.Store.State.{Config, Pointer, CachingStore, deref, now_outside_timespan}
use compute_user_accounts.Store.Keys.{KeysAnswer}
use compute_user_accounts.Tasks.State.{
  System, Call, making, made, idle, looking, waiting, resumed, returned, is_made, receive, fire,
  refresh, close, wait, answer, request_refresh,
}
use compute_user_accounts.Tasks.Step.{
  TaskStep, received, fired, skipped, asked, refreshed, closed as channel_closed, OtherStep, ticked,
  called, found, missed, answered, group_missed, keys_updated, cached_keys_updated,
}
use compute_user_accounts.Tasks.Keys.{
  KeysPhase, unasked, searching, asking, replied, searched, set_keys, search, reply, write_cached,
  Daemon, DaemonStep, by_task, by_other, keys_asked, keys_searched, keys_replied, cached_written,
  keys_written,
}
use compute_user_accounts.Service.Step.{calls_user, makes_call}

-- The name that a call has been made with.
abbrev pub call_name : Call → Option Bytes
call_name (making since) = none
call_name (made since) = none
call_name idle = none
call_name (looking name) = some name
call_name (waiting name since) = some name
call_name (resumed name since) = some name
call_name (returned name result) = some name

-- A call that is not made goes on.
abbrev pub GoesOn : Call → Call → Type 0
GoesOn x y =
    (call_name y ≡ call_name x) × (x ≡ idle → y ≡ idle) × (is_made x ≡ true → is_made y ≡ true)

abbrev GoesOn-refl : (x : Call) → GoesOn x x
GoesOn-refl x = (refl, λ e. e, λ e. e)

pub TaskStep-GoesOn :
    {c : Config} {s t : System} (j : ℕ) → TaskStep c s t → GoesOn (s.call j) (t.call j)
unfolding receive fire refresh close
TaskStep-GoesOn j (received ch rest e q) = (refl, λ e. e, λ e. e)
TaskStep-GoesOn j (fired e q) = (refl, λ e. e, λ e. e)
TaskStep-GoesOn j (skipped ch at e d) = (refl, λ e. e, λ e. e)
TaskStep-GoesOn j (asked ch at e d) = (refl, λ e. e, λ e. e)
TaskStep-GoesOn j (refreshed ch at api e) = (refl, λ e. e, λ e. e)
TaskStep-GoesOn j (channel_closed ch at e) = (ground arith, λ h. ground arith, λ h. ground arith)

OtherStep-GoesOn :
    {s t : System} (j : ℕ) (st : OtherStep s t)
    → calls_user st ≡ false
    → GoesOn (s.call j) (t.call j)
unfolding wait answer request_refresh
OtherStep-GoesOn j (ticked now h) k = (refl, λ e. e, λ e. e)
OtherStep-GoesOn j (called i name m e) k = absurd cc
OtherStep-GoesOn j (found i name p e l) k = (ground arith, λ h. ground arith, λ h. ground arith)
OtherStep-GoesOn j (missed i name e l) k = (ground arith, λ h. ground arith, λ h. ground arith)
OtherStep-GoesOn j (answered i name since e) k =
    (ground arith, λ h. ground arith, λ h. ground arith)
OtherStep-GoesOn j (group_missed name o l) k = (refl, λ e. e, λ e. e)
OtherStep-GoesOn j (keys_updated n messages store e h) k = (refl, λ e. e, λ e. e)
OtherStep-GoesOn j (cached_keys_updated name keys sudoer time) k = (refl, λ e. e, λ e. e)

-- The phases of a call of `AuthorizedKeys` for a name, with its call of `UserByName`.
abbrev pub IsKeysCall : Bytes → Call → KeysPhase → Type 0
IsKeysCall name x unasked = x ≡ idle
IsKeysCall name x (searching n) = (n ≡ name) × (call_name x ≡ some name)
IsKeysCall name x (asking n p) = n ≡ name
IsKeysCall name x (replied n at result) = n ≡ name

-- A call of `AuthorizedKeys` that is not made goes on.
abbrev pub KeysGoOn : KeysPhase → KeysPhase → Type 0
KeysGoOn k l =
    (k ≡ unasked → l ≡ unasked)
    × ((name : Bytes) (x : Call) → IsKeysCall name x k → IsKeysCall name x l)

-- After the second search.
abbrev pub IsSearched : Bytes → KeysPhase → Type 0
IsSearched name unasked = ⊥
IsSearched name (searching n) = ⊥
IsSearched name (asking n p) = n ≡ name
IsSearched name (replied n at result) = n ≡ name

pub searched-IsSearched :
    (c : Config) (name : Bytes) (cell : Option Pointer) (now : ℕ) (s : CachingStore)
    → IsSearched name (searched c name cell now s)
unfolding searched
searched-IsSearched c name none now s = refl
searched-IsSearched c name (some p) now s =
    elim (Bool-cases
      (now_outside_timespan now (deref s p).key_refresh_time c.key_refresh_cooldown)) [
        | inl t ↦ rw t refl
        | inr f ↦ rw f refl
      ]

IsSearched-IsKeysCall :
    (name : Bytes) (x : Call) (k : KeysPhase) → IsSearched name k → IsKeysCall name x k
IsSearched-IsKeysCall name x unasked h = absurd h
IsSearched-IsKeysCall name x (searching n) h = absurd h
IsSearched-IsKeysCall name x (asking n p) h = h
IsSearched-IsKeysCall name x (replied n at result) h = h

set_keys-KeysGoOn :
    (i j : ℕ) (x : KeysPhase) (keys : ℕ → KeysPhase)
    → KeysGoOn (keys j) x
    → KeysGoOn (keys i) (set_keys j x keys i)
set_keys-KeysGoOn i j x keys h = elim (Bool-cases (j == i)) [
  | inl t ↦ rw t (subst (λ n. KeysGoOn (keys n) x) (ground arith) h)
  | inr f ↦ rw f (λ e. e, λ name x' e. e)
]

searched-KeysGoOn :
    (c : Config) (name : Bytes) (k : KeysPhase) (cell : Option Pointer) (now : ℕ) (s : CachingStore)
    → k ≡ searching name
    → KeysGoOn k (searched c name cell now s)
searched-KeysGoOn c name k cell now s e = (
  λ u. absurd cc,
  λ n x h.
      subst (λ m. IsKeysCall m x (searched c name cell now s))
        (let h' : IsKeysCall n x (searching name) = subst (IsKeysCall n x) e h in h'.0)
        (IsSearched-IsKeysCall name x _ (searched-IsSearched c name cell now s)),
)

pub DaemonStep-KeysGoOn :
    {Gives : ℕ → Bytes → KeysAnswer → Type 0} {c : Config} {s t : Daemon} (i : ℕ)
    (st : DaemonStep Gives c s t)
    → makes_call Gives c st ≡ false
    → KeysGoOn (s.keys i) (t.keys i)
unfolding search reply write_cached
DaemonStep-KeysGoOn i (by_task st) k = (λ e. e, λ n x h. h)
DaemonStep-KeysGoOn i (by_other st w) k = (λ e. e, λ n x h. h)
DaemonStep-KeysGoOn i (keys_asked j name m e) k = absurd cc
DaemonStep-KeysGoOn {c = c} {s} i (keys_searched j name result e f) k =
    set_keys-KeysGoOn i j _ s.keys (searched-KeysGoOn c name (s.keys j) _ _ _ e)
DaemonStep-KeysGoOn {s = s} i (keys_replied j name p a call e g q) k =
    set_keys-KeysGoOn i j _ s.keys (λ u. absurd cc, λ n x h. (subst (IsKeysCall n x) e h))
DaemonStep-KeysGoOn i (cached_written before after u e) k = (λ e. e, λ n x h. h)
DaemonStep-KeysGoOn i (keys_written n messages store e m u) k = (λ e. e, λ n x h. h)

pub DaemonStep-GoesOn :
    {Gives : ℕ → Bytes → KeysAnswer → Type 0} {c : Config} {s t : Daemon} (i : ℕ)
    (st : DaemonStep Gives c s t)
    → makes_call Gives c st ≡ false
    → GoesOn (s.tasks.call i) (t.tasks.call i)
unfolding search reply write_cached
DaemonStep-GoesOn i (by_task st) k = TaskStep-GoesOn i st
DaemonStep-GoesOn i (by_other st w) k = OtherStep-GoesOn i st k
DaemonStep-GoesOn i (keys_asked j name m e) k = absurd cc
DaemonStep-GoesOn {s = s} i (keys_searched j name result e f) k = GoesOn-refl (s.tasks.call i)
DaemonStep-GoesOn {s = s} i (keys_replied j name p a call e g q) k = GoesOn-refl (s.tasks.call i)
DaemonStep-GoesOn {s = s} i (cached_written before after u e) k = GoesOn-refl (s.tasks.call i)
DaemonStep-GoesOn {s = s} i (keys_written n messages store e m u) k = GoesOn-refl (s.tasks.call i)
