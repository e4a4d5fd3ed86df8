-- ===== src/Tasks/Liveness.antt =====
-- A call that waits for a refresh is answered.
use compute_user_accounts.Base.{
  Option, ℕ, suc, ◌+◌, ◌*◌, ◌≤◌, ◌≡◌, refl, ◌⊎◌, inl, inr, true, List, [], ◌∷◌, arith, length,
  Bool-cases, if◌then◌else◌, ◌||◌,
}
use compute_user_accounts.Accounts.{err, message}
use compute_user_accounts.Store.State.{Config}
use compute_user_accounts.Tasks.State.{System, Phase, selecting, woken, refreshing, finished}
use compute_user_accounts.Tasks.Step.{
  TaskStep, received, fired, skipped, asked, refreshed, closed, OtherStep, is_due, Run, start,
  by_task, by_other, Reach,
}
use compute_user_accounts.Tasks.Queue.{
  is_waiting, is_answered, distance, is_placed, holds, left, place, in_queue, place-lt-length,
  TaskStep-distance, OtherStep-distance, TaskStep-is_answered, OtherStep-is_answered,
  Reach-IsPlaced,
}

-- A call in the course of a run: it is answered, or the steps of the task have brought it nearer.
abbrev IsNearer : ℕ → System → ℕ → System → Type 0
IsNearer i s n t =
    (is_answered (t.call i) ≡ true)
    ⊎ ((is_waiting (t.call i) ≡ true) × (is_placed i t ≡ true) × (distance i t + n ≤ distance i s))

TaskStep-IsNearer :
    {c : Config} {t u : System} (i : ℕ) (s : System) (n : ℕ)
    → TaskStep c t u
    → IsNearer i s n t
    → IsNearer i s (suc n) u
TaskStep-IsNearer i s n st (inl a) = inl (TaskStep-is_answered i st a)
TaskStep-IsNearer i s n st (inr (w, p, d)) = elim (TaskStep-distance i st w p) [
  | inl a ↦ inl a
  | inr (w', p', d') ↦ inr (w', p', omega arith)
]

OtherStep-IsNearer :
    {t u : System} (i : ℕ) (s : System) (n : ℕ)
    → OtherStep t u
    → IsNearer i s n t
    → IsNearer i s n u
OtherStep-IsNearer i s n st (inl a) = inl (OtherStep-is_answered i st a)
OtherStep-IsNearer i s n st (inr (w, p, d)) =
    let (w', p', d') = OtherStep-distance i st w p in inr (w', p', omega arith)

Run-IsNearer :
    {c : Config} {s t : System} {n : ℕ} (i : ℕ)
    → is_waiting (s.call i) ≡ true
    → is_placed i s ≡ true
    → Run c s n t
    → IsNearer i s n t
Run-IsNearer i w p start = inr (w, p, omega arith)
Run-IsNearer {s} {n = suc n} i w p (by_task r st) =
    TaskStep-IsNearer i s n st (Run-IsNearer i w p r)
Run-IsNearer {s} {n} i w p (by_other r st) = OtherStep-IsNearer i s n st (Run-IsNearer i w p r)

distance_bound : (i : ℕ) (s : System) → is_placed i s ≡ true → distance i s ≤ 4 * length s.queue + 3
distance_bound i s p = ground (arith, place-lt-length i s.queue)

pub distance_pos : (i : ℕ) (s : System) → is_placed i s ≡ true → 1 ≤ distance i s
distance_pos i s p = waits s.task p
  where
    waits :
        (task : Phase)
        → (holds i task || in_queue i s.queue) ≡ true
        → 1 ≤ (if holds i task then left task else left task + 4 * suc (place i s.queue))
    waits selecting h = omega arith
    waits (woken ch at) h = ground arith
    waits (refreshing ch at) h = ground arith
    waits (finished ch at) h = ground arith

-- Whatever the other goroutines do, a call of `UserByName` that waits for a refresh, and `New`, is
-- answered when `updateTask` has made at most four steps for each send that was in the queue, and
-- three more to end its round.
pub waiting_is_answered :
    {c : Config} {s t : System} (i n : ℕ)
    → Reach c s
    → is_waiting (s.call i) ≡ true
    → Run c s n t
    → 4 * length s.queue + 3 ≤ n
    → is_answered (t.call i) ≡ true
waiting_is_answered {s = s} {t = t} i n reach w r enough =
    let p = Reach-IsPlaced i reach w in
    elim (Run-IsNearer i w p r) [
      | inl a ↦ a
      | inr (w', p', d) ↦ absurd (omega (arith, distance_bound i s p, distance_pos i t p'))
    ]

-- In no state is `updateTask` stuck: it has a step, whatever the other goroutines do.
pub task_moves : (c : Config) (s : System) → (t : System) × TaskStep c s t
task_moves c s = moves s.task s.queue refl refl
  where
    moves :
        (task : Phase) (queue : List (Option ℕ))
        → s.task ≡ task
        → s.queue ≡ queue
        → (t : System) × TaskStep c s t
    moves selecting [] e q = (_, fired e q)
    moves selecting (ch ∷ rest) e q = (_, received ch rest e q)
    moves (woken ch at) queue e q = elim (Bool-cases (is_due c s)) [
      | inl due ↦ (_, asked ch at e due)
      | inr early ↦ (_, skipped ch at e early)
    ]
    moves (refreshing ch at) queue e q = (_, refreshed ch at (err (message [])) e)
    moves (finished ch at) queue e q = (_, closed ch at e)
