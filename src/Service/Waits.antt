-- ===== src/Service/Waits.antt =====
-- The end of a call of `UserByName`, from wherever it stands.
use compute_user_accounts.Base.{
  ℕ, zero, suc, ◌≤◌, ◌≡◌, refl, ap, ◌∙◌, inl, inr, true, some, Bytes, arith, Option-cases,
}
use compute_user_accounts.Go.Map.{RangeOrder}
use compute_user_accounts.Accounts.{Group, User, Result}
use compute_user_accounts.Store.State.{Config, Pointer}
use compute_user_accounts.Store.Query.{user_by_name_impl}
use compute_user_accounts.Store.Keys.{KeysAnswer}
use compute_user_accounts.Server.Serve.{requested, written}
use compute_user_accounts.Tasks.State.{
  Call, idle, looking, waiting, resumed, returned, set_call, answer, wait, making, made,
}
use compute_user_accounts.Tasks.Step.{answered, missed, found}
use compute_user_accounts.Tasks.Queue.{
  is_waiting, is_answered, distance, is_placed, TaskStep-distance, Reach-IsPlaced,
}
use compute_user_accounts.Tasks.Liveness.{task_moves, distance_pos}
use compute_user_accounts.Tasks.Composed.{DaemonReach-tasks}
use compute_user_accounts.Tasks.Keys.{by_task, by_other, KeysPhase}
use compute_user_accounts.Service.GoesOn.{call_name, TaskStep-GoesOn}
use compute_user_accounts.Service.Replies.{ServiceReach-daemon}
use compute_user_accounts.Service.Step.{
  Service, ServiceStep, by_daemon, ServiceReach, stepped, ServiceSteps, ahead,
}

pub set_call-same : (i : ℕ) (x : Call) (call : ℕ → Call) → set_call i x call i ≡ x
set_call-same i x call = ground arith

module _ (Gives : ℕ → Bytes → KeysAnswer → Type 0) (c : Config)
    (users_order : RangeOrder Bytes Pointer) (groups_order : RangeOrder Bytes Group) (i : ℕ)
    (req : Bytes) where
  -- The run can go on until a response has been written.
  abbrev pub CanAnswer : Service → Type 0
  CanAnswer s =
      (t : Service) × (response : Bytes) × ServiceSteps Gives c users_order groups_order s t
      × (t.connection i ≡ written req response)

  pub first :
      {s t : Service} → ServiceStep Gives c users_order groups_order s t → CanAnswer t → CanAnswer s
  first st (u, response, sts, e) = (u, response, ahead st sts, e)

  abbrev pub Stands : KeysPhase → Service → Type 0
  Stands k s = (s.connection i ≡ requested req) × (s.daemon.keys (suc i) ≡ k)

  -- What is left when the call of `UserByName` has returned.
  abbrev pub OnReturn : Bytes → KeysPhase → Type 0
  OnReturn name k =
      (s : Service) (result : Result User)
      → Stands k s
      → s.daemon.tasks.call (suc i) ≡ returned name result
      → CanAnswer s

  module _ (name : Bytes) (k : KeysPhase) (next : OnReturn name k) where
    from_resumed :
        (s : Service) (since : ℕ)
        → Stands k s
        → s.daemon.tasks.call (suc i) ≡ resumed name since
        → CanAnswer s
    unfolding answer
    from_resumed s since h e =
        first (by_daemon (by_other (answered (suc i) name since e) refl) refl)
          (next _ _ h (set_call-same (suc i) _ s.daemon.tasks.call))

    from_answered :
        (s : Service) (x : Call)
        → Stands k s
        → s.daemon.tasks.call (suc i) ≡ x
        → call_name x ≡ some name
        → is_answered x ≡ true
        → CanAnswer s
    from_answered s (making since) h e n a = absurd cc
    from_answered s (made since) h e n a = absurd cc
    from_answered s idle h e n a = absurd cc
    from_answered s (looking m) h e n a = absurd cc
    from_answered s (waiting m since) h e n a = absurd cc
    from_answered s (resumed m since) h e n a = from_resumed s since h cc
    from_answered s (returned m result) h e n a = next s result h cc

    from_waiting :
        (n : ℕ) (s : Service)
        → Stands k s
        → is_waiting (s.daemon.tasks.call (suc i)) ≡ true
        → call_name (s.daemon.tasks.call (suc i)) ≡ some name
        → is_placed (suc i) s.daemon.tasks ≡ true
        → distance (suc i) s.daemon.tasks ≤ n
        → CanAnswer s
    from_waiting zero s h w m p d = absurd (omega (arith, distance_pos (suc i) s.daemon.tasks p))
    from_waiting (suc n) s h w m p d =
        let (t, st) = task_moves c s.daemon.tasks in
        let m' : call_name (t.call (suc i)) ≡ some name = (TaskStep-GoesOn (suc i) st).0 ∙ m in
        first (by_daemon (by_task st) refl) (elim (TaskStep-distance (suc i) st w p) [
          | inl a ↦
              from_answered (record s { daemon = record s.daemon { tasks = t } }) _ h refl m' a
          | inr (w', p', d') ↦
              from_waiting n (record s { daemon = record s.daemon { tasks = t } }) h w' m' p'
                (omega arith)
        ])

    from_queue :
        (s : Service)
        → ServiceReach Gives c users_order groups_order s
        → Stands k s
        → is_waiting (s.daemon.tasks.call (suc i)) ≡ true
        → call_name (s.daemon.tasks.call (suc i)) ≡ some name
        → CanAnswer s
    from_queue s r h w m =
        from_waiting (distance (suc i) s.daemon.tasks) s h w m
          (Reach-IsPlaced (suc i)
            (DaemonReach-tasks (ServiceReach-daemon Gives c users_order groups_order r)) w)
          (omega arith)

    from_looking :
        (s : Service)
        → ServiceReach Gives c users_order groups_order s
        → Stands k s
        → s.daemon.tasks.call (suc i) ≡ looking name
        → CanAnswer s
    unfolding wait
    from_looking s r h e = elim (Option-cases (user_by_name_impl name s.daemon.tasks.store)) [
      | inl f ↦
          let st = missed (suc i) name e f in
          let step : ServiceStep Gives c users_order groups_order s
              (record s { daemon = record s.daemon { tasks = wait (suc i) name s.daemon.tasks } }) =
            by_daemon (by_other st refl) refl in
          let same =
            set_call-same (suc i) (waiting name s.daemon.tasks.clock) s.daemon.tasks.call in
          first step (from_queue _ (stepped r step) h (ap is_waiting same) (ap call_name same))
      | inr (p, f) ↦
          first (by_daemon (by_other (found (suc i) name p e f) refl) refl)
            (next _ _ h (set_call-same (suc i) _ s.daemon.tasks.call))
    ]

    from_call :
        (s : Service) (x : Call)
        → ServiceReach Gives c users_order groups_order s
        → Stands k s
        → s.daemon.tasks.call (suc i) ≡ x
        → call_name x ≡ some name
        → CanAnswer s
    from_call s (making since) r h e n = absurd cc
    from_call s (made since) r h e n = absurd cc
    from_call s idle r h e n = absurd cc
    from_call s (looking m) r h e n = from_looking s r h cc
    from_call s (waiting m since) r h e n = from_queue s r h (ap is_waiting e) (ap call_name e ∙ n)
    from_call s (resumed m since) r h e n = from_resumed s since h cc
    from_call s (returned m result) r h e n = next s result h cc

    pub from_named :
        (s : Service)
        → ServiceReach Gives c users_order groups_order s
        → Stands k s
        → call_name (s.daemon.tasks.call (suc i)) ≡ some name
        → CanAnswer s
    from_named s r h n = from_call s _ r h refl n
