-- ===== src/Tasks/Queue.antt =====
-- Where a call that waits stands in the queue of `updateWaiters`, and how many steps of `updateTask`
-- it is from its answer.
use compute_user_accounts.Base.{
  ℕ, suc, ◌+◌, ◌*◌, ◌<◌, ◌≡◌, refl, ◌⊎◌, inl, inr, List, [], ◌∷◌, ◌++◌, Bool, true, false, ◌||◌,
  Option, none, some, arith, ◌==◌, if◌then◌else◌, length, Bool-cases,
}
use compute_user_accounts.Store.State.{Config}
use compute_user_accounts.Tasks.State.{
  System, Phase, selecting, woken, refreshing, finished, Call, making, made, waiting, resumed,
  returned, init, receive, fire, refresh, close, wait, answer, request_refresh,
}
use compute_user_accounts.Tasks.Step.{
  TaskStep, received, fired, skipped, asked, refreshed, closed, OtherStep, ticked, called, found,
  missed, answered, group_missed, keys_updated, cached_keys_updated, Run, start, by_task, by_other,
  Reach, reached,
}

abbrev pub is_channel : ℕ → Option ℕ → Bool
is_channel i none = false
is_channel i (some j) = j == i

unfoldable pub in_queue : ℕ → List (Option ℕ) → Bool
in_queue i [] = false
in_queue i (ch ∷ q) = is_channel i ch || in_queue i q

-- The number of sends before the call's.
unfoldable pub place : ℕ → List (Option ℕ) → ℕ
place i [] = 0
place i (ch ∷ q) = let behind = suc (place i q) in if is_channel i ch then 0 else behind

-- A round of `updateTask` for the call is under way.
abbrev pub holds : ℕ → Phase → Bool
holds i selecting = false
holds i (woken ch at) = is_channel i ch
holds i (refreshing ch at) = is_channel i ch
holds i (finished ch at) = is_channel i ch

-- At most so many steps are left of a round.
abbrev pub left : Phase → ℕ
left selecting = 0
left (woken ch at) = 3
left (refreshing ch at) = 2
left (finished ch at) = 1

abbrev pub is_waiting : Call → Bool
is_waiting (making since) = true
is_waiting (waiting name since) = true
is_waiting call = false

abbrev pub is_answered : Call → Bool
is_answered (made since) = true
is_answered (resumed name since) = true
is_answered (returned name result) = true
is_answered call = false

-- At most so many steps of `updateTask` are left until the call's channel is closed.
abbrev pub distance : ℕ → System → ℕ
distance i s = if holds i s.task then left s.task else left s.task + 4 * suc (place i s.queue)

abbrev pub is_placed : ℕ → System → Bool
is_placed i s = holds i s.task || in_queue i s.queue

pub in_queue-append :
    (i : ℕ) (q r : List (Option ℕ)) → in_queue i (q ++ r) ≡ (in_queue i q || in_queue i r)
unfolding in_queue
in_queue-append i [] r = refl
in_queue-append i (ch ∷ q) r = ground (arith, in_queue-append i q r)

place-append : (i : ℕ) (q r : List (Option ℕ)) → in_queue i q ≡ true → place i (q ++ r) ≡ place i q
unfolding in_queue place
place-append i [] r h = cc
place-append i (ch ∷ q) r h = ground (arith, place-append i q r)

pub place-lt-length : (i : ℕ) (q : List (Option ℕ)) → in_queue i q ≡ true → place i q < length q
unfolding in_queue place
place-lt-length i [] h = cc
place-lt-length i (ch ∷ q) h = ground (arith, place-lt-length i q)

-- A call that waits is in the queue or in the round.
abbrev pub IsPlaced : ℕ → System → Type 0
IsPlaced i s = is_waiting (s.call i) ≡ true → is_placed i s ≡ true

-- A step of the task brings a call that waits nearer to its answer, or answers it.
pub TaskStep-distance :
    {c : Config} {s t : System} (i : ℕ)
    → TaskStep c s t
    → is_waiting (s.call i) ≡ true
    → is_placed i s ≡ true
    → (is_answered (t.call i) ≡ true)
      ⊎ ((is_waiting (t.call i) ≡ true) × (is_placed i t ≡ true) × (distance i t < distance i s))
unfolding receive fire refresh close in_queue place
TaskStep-distance i (received ch rest e q) w p = ground arith
TaskStep-distance i (fired e q) w p = ground arith
TaskStep-distance i (skipped ch at e d) w p = ground arith
TaskStep-distance i (asked ch at e d) w p = ground arith
TaskStep-distance i (refreshed ch at api e) w p = ground arith
TaskStep-distance i (closed ch at e) w p = ground arith

-- The other goroutines leave a call that waits where it is: they send behind it.
pub OtherStep-distance :
    {s t : System} (i : ℕ)
    → OtherStep s t
    → is_waiting (s.call i) ≡ true
    → is_placed i s ≡ true
    → (is_waiting (t.call i) ≡ true) × (is_placed i t ≡ true) × (distance i t ≡ distance i s)
unfolding wait answer request_refresh
OtherStep-distance i (ticked now h) w p = (w, p, refl)
OtherStep-distance i (called j name m e) w p = ground arith
OtherStep-distance i (found j name ptr e l) w p = ground arith
OtherStep-distance {s} i (missed j name e l) w p =
    ground (arith, in_queue-append i s.queue (some j ∷ []), place-append i s.queue (some j ∷ []))
OtherStep-distance i (answered j name since e) w p = ground arith
OtherStep-distance {s} i (group_missed name o l) w p =
    ground (arith, in_queue-append i s.queue (none ∷ []), place-append i s.queue (none ∷ []))
OtherStep-distance i (keys_updated n messages store e h) w p = (w, p, refl)
OtherStep-distance i (cached_keys_updated name keys sudoer time) w p = (w, p, refl)

-- An answered call does not wait again.
pub TaskStep-is_answered :
    {c : Config} {s t : System} (i : ℕ)
    → TaskStep c s t
    → is_answered (s.call i) ≡ true
    → is_answered (t.call i) ≡ true
unfolding receive fire refresh close
TaskStep-is_answered i (received ch rest e q) h = h
TaskStep-is_answered i (fired e q) h = h
TaskStep-is_answered i (skipped ch at e d) h = h
TaskStep-is_answered i (asked ch at e d) h = h
TaskStep-is_answered i (refreshed ch at api e) h = h
TaskStep-is_answered i (closed ch at e) h = ground arith

pub OtherStep-is_answered :
    {s t : System} (i : ℕ)
    → OtherStep s t
    → is_answered (s.call i) ≡ true
    → is_answered (t.call i) ≡ true
unfolding wait answer request_refresh
OtherStep-is_answered i (ticked now h) a = a
OtherStep-is_answered i (called j name m e) a = ground arith
OtherStep-is_answered i (found j name p e l) a = ground arith
OtherStep-is_answered i (missed j name e l) a = ground arith
OtherStep-is_answered i (answered j name since e) a = ground arith
OtherStep-is_answered i (group_missed name o l) a = a
OtherStep-is_answered i (keys_updated n messages store e h) a = a
OtherStep-is_answered i (cached_keys_updated name keys sudoer time) a = a

-- A call that begins to wait is placed at the end of the queue.
TaskStep-IsPlaced :
    {c : Config} {s t : System} (i : ℕ) → TaskStep c s t → IsPlaced i s → IsPlaced i t
unfolding receive fire refresh close in_queue
TaskStep-IsPlaced i (received ch rest e q) h w = ground (arith, h w)
TaskStep-IsPlaced i (fired e q) h w = ground (arith, h w)
TaskStep-IsPlaced i (skipped ch at e d) h w = ground (arith, h w)
TaskStep-IsPlaced i (asked ch at e d) h w = ground (arith, h w)
TaskStep-IsPlaced i (refreshed ch at api e) h w = ground (arith, h w)
TaskStep-IsPlaced {s} i (closed ch at e) h w = elim (Bool-cases (is_waiting (s.call i))) [
  | inl t ↦ ground (arith, h t)
  | inr f ↦ ground arith
]

OtherStep-IsPlaced : {s t : System} (i : ℕ) → OtherStep s t → IsPlaced i s → IsPlaced i t
unfolding wait answer request_refresh in_queue
OtherStep-IsPlaced {s} {t} i st h w = elim (Bool-cases (is_waiting (s.call i))) [
  | inl before ↦ (OtherStep-distance i st before (h before)).1
  | inr not_before ↦ begins st not_before w
]
  where
    begins :
        {s t : System}
        → OtherStep s t
        → is_waiting (s.call i) ≡ false
        → is_waiting (t.call i) ≡ true
        → is_placed i t ≡ true
    begins (ticked now h) f a = cc
    begins (called j name m e) f a = ground arith
    begins (found j name p e l) f a = ground arith
    begins {s} (missed j name e l) f a = ground (arith, in_queue-append i s.queue (some j ∷ []))
    begins (answered j name since e) f a = ground arith
    begins (group_missed name o l) f a = cc
    begins (keys_updated n messages store e h) f a = cc
    begins (cached_keys_updated name keys sudoer time) f a = cc

pub Run-IsPlaced :
    {c : Config} {s t : System} {n : ℕ} (i : ℕ) → Run c s n t → IsPlaced i s → IsPlaced i t
Run-IsPlaced i start h = h
Run-IsPlaced i (by_task r st) h = TaskStep-IsPlaced i st (Run-IsPlaced i r h)
Run-IsPlaced i (by_other r st) h = OtherStep-IsPlaced i st (Run-IsPlaced i r h)

pub Reach-IsPlaced : {c : Config} {s : System} (i : ℕ) → Reach c s → IsPlaced i s
unfolding init in_queue
Reach-IsPlaced i (reached now r) = Run-IsPlaced i r (λ w. ground arith)
