-- ===== src/Service/Progress.antt =====
-- From every state that the daemon reaches, a request that has been read can be answered.
use compute_user_accounts.Base.{
  ℕ, suc, ◌≡◌, ◌≢◌, refl, ap, ◌∙◌, subst, inl, inr, true, Option, none, some, Bytes, List, [],
  arith,
}
use compute_user_accounts.Go.Map.{RangeOrder}
use compute_user_accounts.Accounts.{Group, Result, ok, err}
use compute_user_accounts.Store.State.{Config, Pointer}
use compute_user_accounts.Store.Query.{user_by_name_impl}
use compute_user_accounts.Store.Calls.{keys_answered}
use compute_user_accounts.Store.Keys.{KeysAnswer}
use compute_user_accounts.Server.Serve.{
  Connection, requested, writing, written, write_one, set_connection,
}
use compute_user_accounts.Tasks.State.{is_made, answer}
use compute_user_accounts.Tasks.Keys.{
  KeysPhase, unasked, searching, asking, replied, ask, search, reply, set_keys, keys_searched,
  keys_replied,
}
use compute_user_accounts.Service.Asks.{Asks, user_of, keys_of, other, asks}
use compute_user_accounts.Service.GoesOn.{IsSearched, searched-IsSearched, call_name, IsKeysCall}
use compute_user_accounts.Service.Linked.{IsAsked, IsLinkedAt, ServiceReach-AllLinked}
use compute_user_accounts.Service.Step.{
  Service, ServiceStep, by_daemon, user_called, keys_called, user_responded, keys_responded, wrote,
  responded, ServiceReach, stepped, ServiceSteps, put, here, ahead,
}
use compute_user_accounts.Service.Replies.{IsReply, written-IsReply}
use compute_user_accounts.Service.Waits.{
  CanAnswer, Stands, OnReturn, first, set_call-same, from_named,
}

set_keys-same : (i : ℕ) (x : KeysPhase) (keys : ℕ → KeysPhase) → set_keys i x keys i ≡ x
set_keys-same i x keys = ground arith

set_connection-same : (i : ℕ) (x : Connection) (f : ℕ → Connection) → set_connection i x f i ≡ x
set_connection-same i x f = ground arith

-- The API, asked for the keys of a user, may answer something, whose view is not nil where there is no error.
abbrev pub HasAnswers : (ℕ → Bytes → KeysAnswer → Type 0) → Type 0
HasAnswers Gives = (time : ℕ) (name : Bytes) → (a : KeysAnswer) × Gives time name a × (a ≢ ok none)

module _ (Gives : ℕ → Bytes → KeysAnswer → Type 0) (c : Config)
    (users_order : RangeOrder Bytes Pointer) (groups_order : RangeOrder Bytes Group) (i : ℕ)
    (req : Bytes) where
  put_writing :
      (s : Service) (response : Bytes)
      → ServiceStep Gives c users_order groups_order s (put i (writing req response) s)
      → CanAnswer Gives c users_order groups_order i req s
  put_writing s response st =
      let t = put i (writing req response) s in
      let is_writing : t.connection i ≡ writing req response =
        set_connection-same i _ s.connection in
      let is_written : write_one true (t.connection i) ≡ written req response =
        ap (write_one true) is_writing in
      first Gives c users_order groups_order i req st
        (_, response, ahead (wrote i true) here, set_connection-same i _ t.connection ∙ is_written)

  user_returned :
      (name : Bytes) (k : KeysPhase)
      → asks req ≡ user_of name
      → OnReturn Gives c users_order groups_order i req name k
  user_returned name k a s result (e, q) f =
      put_writing s _ (user_responded i req name result e a f)

  from_user :
      (s : Service) (name : Bytes)
      → ServiceReach Gives c users_order groups_order s
      → s.connection i ≡ requested req
      → asks req ≡ user_of name
      → is_made (s.daemon.tasks.call 0) ≡ true
      → IsAsked (user_of name) (s.daemon.tasks.call (suc i)) (s.daemon.keys (suc i))
      → CanAnswer Gives c users_order groups_order i req s
  from_user s name r e a m (inl h) =
      let st = user_called i req name e a m h in
      first Gives c users_order groups_order i req st (
        from_named Gives c users_order groups_order i req name _ (user_returned name _ a) _
          (stepped r st) (e, refl) (ap call_name (set_call-same (suc i) _ s.daemon.tasks.call)))
  from_user s name r e a m (inr h) =
      from_named Gives c users_order groups_order i req name _ (user_returned name _ a) s r
        (e, refl) h

  module _ (name : Bytes) (a : asks req ≡ keys_of name) where
    from_replied :
        (s : Service) (at : Option ℕ) (result : Result (List Bytes))
        → Stands Gives c users_order groups_order i req (replied name at result) s
        → CanAnswer Gives c users_order groups_order i req s
    from_replied s at result (e, q) = put_writing s _ (keys_responded i req name at result e a q)

    keys_given :
        (s : Service) (p : Pointer) (answer : KeysAnswer)
        → Stands Gives c users_order groups_order i req (asking name p) s
        → Gives s.daemon.tasks.clock name answer
        → answer ≢ ok none
        → CanAnswer Gives c users_order groups_order i req s
    unfolding keys_answered reply
    keys_given s p (ok none) h g n = absurd (n refl)
    keys_given s p (ok (some view)) (e, q) g n =
        first Gives c users_order groups_order i req
          (by_daemon (keys_replied (suc i) name p (ok (some view)) _ q g refl) refl)
          (from_replied _ _ _ (e, set_keys-same (suc i) _ s.daemon.keys))
    keys_given s p (err x) (e, q) g n =
        first Gives c users_order groups_order i req
          (by_daemon (keys_replied (suc i) name p (err x) _ q g refl) refl)
          (from_replied _ _ _ (e, set_keys-same (suc i) _ s.daemon.keys))

    module _ (answers : HasAnswers Gives) where
      from_asking :
          (s : Service) (p : Pointer)
          → Stands Gives c users_order groups_order i req (asking name p) s
          → CanAnswer Gives c users_order groups_order i req s
      from_asking s p h =
          let (answer, g, n) = answers s.daemon.tasks.clock name in keys_given s p answer h g n

      from_searched :
          (s : Service) (k : KeysPhase)
          → Stands Gives c users_order groups_order i req k s
          → IsSearched name k
          → CanAnswer Gives c users_order groups_order i req s
      from_searched s unasked h n = absurd n
      from_searched s (searching m) h n = absurd n
      from_searched s (asking m p) h n =
          from_asking s p
            (subst (λ m. Stands Gives c users_order groups_order i req (asking m p) s) n h)
      from_searched s (replied m at result) h n =
          from_replied s at result
            (subst (λ m. Stands Gives c users_order groups_order i req (replied m at result) s) n h)

      user_searched : OnReturn Gives c users_order groups_order i req name (searching name)
      unfolding search
      user_searched s result (e, q) f =
          first Gives c users_order groups_order i req
            (by_daemon (keys_searched (suc i) name result q f) refl)
            (from_searched _ _ (e, set_keys-same (suc i) _ s.daemon.keys)
              (searched-IsSearched c name (user_by_name_impl name s.daemon.tasks.store)
                s.daemon.tasks.clock s.daemon.tasks.store))

      from_keys :
          (s : Service) (k : KeysPhase)
          → ServiceReach Gives c users_order groups_order s
          → Stands Gives c users_order groups_order i req k s
          → is_made (s.daemon.tasks.call 0) ≡ true
          → IsKeysCall name (s.daemon.tasks.call (suc i)) k
          → CanAnswer Gives c users_order groups_order i req s
      unfolding ask
      from_keys s unasked r (e, q) m h =
          let st = keys_called i req name e a m h in
          first Gives c users_order groups_order i req st (
            from_named Gives c users_order groups_order i req name (searching name) user_searched _
              (stepped r st) (e, set_keys-same (suc i) _ s.daemon.keys)
              (ap call_name (set_call-same (suc i) _ s.daemon.tasks.call)))
      from_keys s (searching n) r (e, q) m (same, h) =
          from_named Gives c users_order groups_order i req name (searching name) user_searched s r
            (e, q ∙ ap searching same) h
      from_keys s (asking n p) r h m same = from_searched s (asking n p) h same
      from_keys s (replied n at result) r h m same = from_searched s (replied n at result) h same

  from_asked :
      (s : Service) (a : Asks)
      → HasAnswers Gives
      → ServiceReach Gives c users_order groups_order s
      → s.connection i ≡ requested req
      → asks req ≡ a
      → is_made (s.daemon.tasks.call 0) ≡ true
      → IsAsked a (s.daemon.tasks.call (suc i)) (s.daemon.keys (suc i))
      → CanAnswer Gives c users_order groups_order i req s
  from_asked s (user_of name) answers r e a m h = from_user s name r e a m h
  from_asked s (keys_of name) answers r e a m h =
      from_keys name a answers s (s.daemon.keys (suc i)) r (e, refl) m h
  from_asked s other answers r e a m h =
      put_writing s _ (responded i req (λ store. store) (λ name store. (ok [], store)) e a)

ServiceSteps-Reach :
    {Gives : ℕ → Bytes → KeysAnswer → Type 0} {c : Config} {users_order : RangeOrder Bytes Pointer}
    {groups_order : RangeOrder Bytes Group} {s t : Service}
    → ServiceReach Gives c users_order groups_order s
    → ServiceSteps Gives c users_order groups_order s t
    → ServiceReach Gives c users_order groups_order t
ServiceSteps-Reach r here = r
ServiceSteps-Reach r (ahead st sts) = ServiceSteps-Reach (stepped r st) sts

-- In no state is a request stuck: when a connection has read one, the run can go on, from whatever
-- state the daemon has reached, until the connection has been written a response with `IsReply` for
-- what it asks, where the API, asked for the keys of a user, may answer something that does not make
-- the store panic.
pub request_can_be_answered :
    {Gives : ℕ → Bytes → KeysAnswer → Type 0} {c : Config} {users_order : RangeOrder Bytes Pointer}
    {groups_order : RangeOrder Bytes Group} {s : Service} (i : ℕ) (req : Bytes)
    → HasAnswers Gives
    → ServiceReach Gives c users_order groups_order s
    → s.connection i ≡ requested req
    → (t : Service) × (response : Bytes) × ServiceSteps Gives c users_order groups_order s t
      × (t.connection i ≡ written req response)
      × IsReply Gives c users_order groups_order (t.daemon.keys (suc i)) req response (asks req)
request_can_be_answered {Gives} {c} {users_order} {groups_order} {s} i req answers r e =
    let (m, asked) =
      subst (λ x. IsLinkedAt i x s.daemon) e
        (ServiceReach-AllLinked Gives c users_order groups_order r i) in
    let (t, response, sts, is_written) =
      from_asked Gives c users_order groups_order i req s (asks req) answers r e refl m asked in
    (
      t,
      response,
      sts,
      is_written,
      written-IsReply i req response (ServiceSteps-Reach r sts) is_written,
    )
