-- ===== src/Service/Replies.antt =====
-- What the connections get, whatever the interleaving of their handlers and of the store's goroutines.
use compute_user_accounts.Base.{
  ℕ, suc, ◌≡◌, refl, sym, ap, subst, ◌∙◌, inl, inr, Bool, Bool-cases, true, false, List, [], ◌∷◌,
  Option, none, some, Bytes, ◌==◌, arith,
}
use compute_user_accounts.Go.Map.{RangeOrder}
use compute_user_accounts.Accounts.{User, Group, Result}
use compute_user_accounts.Store.State.{Config, Pointer, CachingStore, empty_store}
use compute_user_accounts.Store.Keys.{KeysAnswer}
use compute_user_accounts.Store.Provider.{store_provider}
use compute_user_accounts.Store.Step
use compute_user_accounts.Server.Respond.{reply_user, reply_lines, respond}
use compute_user_accounts.Server.Serve.{
  Connection, absent, reading, requested, writing, closed, written, set_connection, accept_one,
  read_one, request_read, write_one,
}
use compute_user_accounts.Service.Asks.{Asks, user_of, keys_of, other, asks, respond-other}
use compute_user_accounts.Service.Step.{
  Service, start_service, ServiceStep, by_daemon, accepted, read, wrote, user_called, keys_called,
  user_responded, keys_responded, responded, ServiceReach, started, stepped,
}
use compute_user_accounts.Service.Kept.{KeepsReply, set_keys-other, DaemonStep-KeepsReply}
use compute_user_accounts.Tasks.Step.{called}
use compute_user_accounts.Tasks.Answers.{Reach-store, IsAnswer, returned-IsAnswer}
use compute_user_accounts.Tasks.Keys as Keys
use compute_user_accounts.Tasks.Keys.{DaemonReach, KeysPhase, replied, searching, set_keys, ask}
use compute_user_accounts.Tasks.Composed.{DaemonReach-tasks}
use compute_user_accounts.Tasks.KeysGiven.{IsKeysAnswer}
use compute_user_accounts.Tasks.Provenance.{replied_keys-IsGiven}

module _ (Gives : ℕ → Bytes → KeysAnswer → Type 0) (c : Config)
    (users_order : RangeOrder Bytes Pointer) (groups_order : RangeOrder Bytes Group) where
  -- The response to a request that asks this, where the call of `AuthorizedKeys` for the connection
  -- stands like this.
  abbrev pub IsReply : KeysPhase → Bytes → Bytes → Asks → Type 0
  IsReply k req response (user_of name) =
      (result : Result User) × IsAnswer name result × (response ≡ (reply_user (result, tt {0})).0)
  IsReply k req response (keys_of name) =
      (result : Result (List Bytes)) × (at : Option ℕ) × (k ≡ replied name at result)
      × IsKeysAnswer Gives c name at result
      × (response ≡ (reply_lines (λ k. k) (result, tt {0})).0)
  IsReply k req response other =
      (store : CachingStore) × Step.Reach empty_store store
      × ((wait : CachingStore → CachingStore)
            (call : Bytes → CachingStore → Result (List Bytes) × CachingStore)
          → response ≡ (respond (store_provider wait users_order groups_order call) req store).0)

  abbrev IsHonest : KeysPhase → Connection → Type 0
  IsHonest k (writing req response) = IsReply k req response (asks req)
  IsHonest k (written req response) = IsReply k req response (asks req)
  IsHonest k x = Unit {0}

  abbrev AllHonest : Service → Type 0
  AllHonest s = (i : ℕ) → IsHonest (s.daemon.keys (suc i)) (s.connection i)

  IsReply-kept :
      (k l : KeysPhase) (req response : Bytes) (a : Asks)
      → KeepsReply k l
      → IsReply k req response a
      → IsReply l req response a
  IsReply-kept k l req response (user_of name) kept h = h
  IsReply-kept k l req response (keys_of name) kept (result, at, e, g, h) =
      (result, at, kept name at result e, g, h)
  IsReply-kept k l req response other kept h = h

  IsHonest-kept : (k l : KeysPhase) (x : Connection) → KeepsReply k l → IsHonest k x → IsHonest l x
  IsHonest-kept k l absent kept h = h
  IsHonest-kept k l reading kept h = h
  IsHonest-kept k l (requested req) kept h = h
  IsHonest-kept k l (writing req response) kept h = IsReply-kept k l req response (asks req) kept h
  IsHonest-kept k l closed kept h = h
  IsHonest-kept k l (written req response) kept h = IsReply-kept k l req response (asks req) kept h

  set_connection-IsHonest :
      (i j : ℕ) (x : Connection) (connection : ℕ → Connection) (keys : ℕ → KeysPhase)
      → IsHonest (keys (suc i)) x
      → IsHonest (keys (suc j)) (connection j)
      → IsHonest (keys (suc j)) (set_connection i x connection j)
  set_connection-IsHonest i j x connection keys new old = elim (Bool-cases (i == j)) [
    | inl t ↦ rw t (subst (λ n. IsHonest (keys (suc n)) x) (ground arith) new)
    | inr f ↦ rw f old
  ]

  -- A connection whose request has been read has been written nothing.
  asked-IsHonest :
      (i j : ℕ) (req name : Bytes) (connection : ℕ → Connection) (keys : ℕ → KeysPhase)
      → connection i ≡ requested req
      → IsHonest (keys (suc j)) (connection j)
      → IsHonest (set_keys (suc i) (searching name) keys (suc j)) (connection j)
  asked-IsHonest i j req name connection keys e h = elim (Bool-cases (i == j)) [
    | inl t ↦
        let same : i ≡ j = ground arith in
        subst (IsHonest _) (sym (sym (ap connection same) ∙ e)) tt
    | inr f ↦ IsHonest-kept _ _ (connection j) (set_keys-other i j (searching name) keys f) h
  ]

  accept_one-IsHonest : (k : KeysPhase) (x : Connection) → IsHonest k x → IsHonest k (accept_one x)
  accept_one-IsHonest k absent h = tt
  accept_one-IsHonest k reading h = h
  accept_one-IsHonest k (requested req) h = h
  accept_one-IsHonest k (writing req response) h = h
  accept_one-IsHonest k closed h = h
  accept_one-IsHonest k (written req response) h = h

  request_read-IsHonest :
      (k : KeysPhase) (incoming : Option Bytes) → IsHonest k (request_read incoming)
  request_read-IsHonest k none = tt
  request_read-IsHonest k (some []) = tt
  request_read-IsHonest k (some (c ∷ incoming)) = tt

  read_one-IsHonest :
      (k : KeysPhase) (incoming : Option Bytes) (x : Connection)
      → IsHonest k x
      → IsHonest k (read_one incoming x)
  read_one-IsHonest k incoming absent h = h
  read_one-IsHonest k incoming reading h = request_read-IsHonest k incoming
  read_one-IsHonest k incoming (requested req) h = h
  read_one-IsHonest k incoming (writing req response) h = h
  read_one-IsHonest k incoming closed h = h
  read_one-IsHonest k incoming (written req response) h = h

  write_one-IsHonest :
      (k : KeysPhase) (done : Bool) (x : Connection) → IsHonest k x → IsHonest k (write_one done x)
  write_one-IsHonest k done absent h = h
  write_one-IsHonest k done reading h = h
  write_one-IsHonest k done (requested req) h = h
  write_one-IsHonest k true (writing req response) h = h
  write_one-IsHonest k false (writing req response) h = tt
  write_one-IsHonest k done closed h = h
  write_one-IsHonest k done (written req response) h = h

  ServiceStep-daemon :
      {s t : Service}
      → ServiceStep Gives c users_order groups_order s t
      → DaemonReach Gives c s.daemon
      → DaemonReach Gives c t.daemon
  ServiceStep-daemon (by_daemon st k) r = Keys.stepped r st
  ServiceStep-daemon (accepted i m) r = r
  ServiceStep-daemon (read i incoming) r = r
  ServiceStep-daemon (wrote i done) r = r
  ServiceStep-daemon (user_called i req name e a m k) r =
      Keys.stepped r (Keys.by_other (called (suc i) name m k) refl)
  ServiceStep-daemon (keys_called i req name e a m k) r =
      Keys.stepped r (Keys.keys_asked (suc i) name m k)
  ServiceStep-daemon (user_responded i req name result e a k) r = r
  ServiceStep-daemon (keys_responded i req name at result e a k) r = r
  ServiceStep-daemon (responded i req wait call e a) r = r

  -- Under the connections the goroutines of the store run as they do by themselves.
  pub ServiceReach-daemon :
      {s : Service} → ServiceReach Gives c users_order groups_order s → DaemonReach Gives c s.daemon
  unfolding start_service
  ServiceReach-daemon (started now) = Keys.started now
  ServiceReach-daemon (stepped r st) = ServiceStep-daemon st (ServiceReach-daemon r)

  ServiceStep-AllHonest :
      {s t : Service}
      → ServiceStep Gives c users_order groups_order s t
      → DaemonReach Gives c s.daemon
      → AllHonest s
      → AllHonest t
  unfolding ask
  ServiceStep-AllHonest {s} (by_daemon st k) r h j =
      IsHonest-kept _ _ (s.connection j) (DaemonStep-KeepsReply (suc j) st k) (h j)
  ServiceStep-AllHonest {s} (accepted i m) r h j =
      set_connection-IsHonest i j _ s.connection s.daemon.keys
        (accept_one-IsHonest (s.daemon.keys (suc i)) (s.connection i) (h i)) (h j)
  ServiceStep-AllHonest {s} (read i incoming) r h j =
      set_connection-IsHonest i j _ s.connection s.daemon.keys
        (read_one-IsHonest (s.daemon.keys (suc i)) incoming (s.connection i) (h i)) (h j)
  ServiceStep-AllHonest {s} (wrote i done) r h j =
      set_connection-IsHonest i j _ s.connection s.daemon.keys
        (write_one-IsHonest (s.daemon.keys (suc i)) done (s.connection i) (h i)) (h j)
  ServiceStep-AllHonest (user_called i req name e a m k) r h j = h j
  ServiceStep-AllHonest {s} (keys_called i req name e a m k) r h j =
      asked-IsHonest i j req name s.connection s.daemon.keys e (h j)
  ServiceStep-AllHonest {s} (user_responded i req name result e a k) r h j =
      set_connection-IsHonest i j _ s.connection s.daemon.keys
        (subst (IsReply _ req _) (sym a)
          (result, returned-IsAnswer (suc i) name result (DaemonReach-tasks r) k, refl))
        (h j)
  ServiceStep-AllHonest {s} (keys_responded i req name at result e a k) r h j =
      set_connection-IsHonest i j _ s.connection s.daemon.keys
        (subst (IsReply _ req _) (sym a)
          (result, at, k, replied_keys-IsGiven (suc i) name at result r k, refl))
        (h j)
  ServiceStep-AllHonest {s} (responded i req wait call e a) r h j =
      set_connection-IsHonest i j _ s.connection s.daemon.keys
        (subst (IsReply _ req _) (sym a) (
          s.daemon.tasks.store,
          Reach-store (DaemonReach-tasks r),
          λ wait' call'.
              ap (λ x. x.0)
                (respond-other wait wait' users_order groups_order call call' req
                  s.daemon.tasks.store a),
        ))
        (h j)

  ServiceReach-AllHonest :
      {s : Service} → ServiceReach Gives c users_order groups_order s → AllHonest s
  unfolding start_service
  ServiceReach-AllHonest (started now) j = tt
  ServiceReach-AllHonest (stepped r st) j =
      ServiceStep-AllHonest st (ServiceReach-daemon r) (ServiceReach-AllHonest r) j

-- However the handlers of the connections, the refreshes, the key updates and the calls that wait for
-- them are interleaved: a connection that asked for a user by name has been written a user with that
-- name or the error that there is none; one that asked for keys, what the call of `AuthorizedKeys` for
-- this connection has returned, which is that error, or keys. If this call returned them due to the
-- cooldown, the API had given them for that name, or the zero time of no keys is, at most the cooldown
-- before its search; otherwise the API has given them to a question for that name, or it has answered
-- such a question with an error, and has given the keys for that name at some time, if there are any.
-- And any other connection has been written what the server makes of the request from one store that
-- the daemon reaches.
pub written-IsReply :
    {Gives : ℕ → Bytes → KeysAnswer → Type 0} {c : Config} {users_order : RangeOrder Bytes Pointer}
    {groups_order : RangeOrder Bytes Group} {s : Service} (i : ℕ) (req response : Bytes)
    → ServiceReach Gives c users_order groups_order s
    → s.connection i ≡ written req response
    → IsReply Gives c users_order groups_order (s.daemon.keys (suc i)) req response (asks req)
written-IsReply {Gives} {c} {users_order} {groups_order} {s} i req response r e =
    subst (IsHonest Gives c users_order groups_order (s.daemon.keys (suc i))) e
      (ServiceReach-AllHonest Gives c users_order groups_order r i)
