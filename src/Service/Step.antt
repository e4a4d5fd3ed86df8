-- ===== src/Service/Step.antt =====
-- The connections that `Serve` has accepted, and the goroutines of the store, interleaved. A call of the
-- store that the handler of a connection makes has the number of the connection, and one more, since the
-- number zero is that of `New`. The orders of `range` are parameters.
use compute_user_accounts.Base.{ℕ, suc, Bool, true, false, ◌≡◌, List, Option, Bytes}
use compute_user_accounts.Go.Map.{RangeOrder}
use compute_user_accounts.Accounts.{User, Group, Result}
use compute_user_accounts.Store.State.{Config, Pointer, CachingStore}
use compute_user_accounts.Store.Keys.{KeysAnswer}
use compute_user_accounts.Store.Provider.{store_provider}
use compute_user_accounts.Server.Respond.{reply_user, reply_lines, respond}
use compute_user_accounts.Server.Serve.{
  Connection, absent, requested, writing, set_connection, accept_one, read_one, write_one,
}
use compute_user_accounts.Service.Asks.{user_of, keys_of, other, asks}
use compute_user_accounts.Tasks.State.{System, idle, looking, returned, is_made, set_call}
use compute_user_accounts.Tasks.Step.{
  OtherStep, ticked, called, found, missed, answered, group_missed, keys_updated,
  cached_keys_updated,
}
use compute_user_accounts.Tasks.Keys.{
  Daemon, start_daemon, ask, replied, DaemonStep, by_task, by_other, keys_asked, keys_searched,
  keys_replied, cached_written, keys_written,
}

pub record Service : Type 0 where
  pub daemon : Daemon
  pub connection : ℕ → Connection

unfoldable pub start_service : ℕ → Service
start_service now = record { daemon = start_daemon now; connection = λ i. absent }

-- Calls are made by connections alone.
abbrev pub calls_user : {s t : System} → OtherStep s t → Bool
calls_user (ticked now h) = false
calls_user (called i name m e) = true
calls_user (found i name p e l) = false
calls_user (missed i name e l) = false
calls_user (answered i name since e) = false
calls_user (group_missed name o l) = false
calls_user (keys_updated n messages store e h) = false
calls_user (cached_keys_updated name keys sudoer time) = false

abbrev pub put : ℕ → Connection → Service → Service
put i x s = record s { connection = set_connection i x s.connection }

module _ (Gives : ℕ → Bytes → KeysAnswer → Type 0) (c : Config) where
  abbrev pub makes_call : {s t : Daemon} → DaemonStep Gives c s t → Bool
  makes_call (by_task st) = false
  makes_call (by_other st k) = calls_user st
  makes_call (keys_asked i name m e) = true
  makes_call (keys_searched i name result e f) = false
  makes_call (keys_replied i name p a call e g k) = false
  makes_call (cached_written before after u e) = false
  makes_call (keys_written n messages store e m u) = false

module _ (Gives : ℕ → Bytes → KeysAnswer → Type 0) (c : Config)
    (users_order : RangeOrder Bytes Pointer) (groups_order : RangeOrder Bytes Group) where
  pub data ServiceStep (s : Service) : Service → Type 0 where
    by_daemon :
        {t : Daemon} (st : DaemonStep Gives c s.daemon t)
        → makes_call Gives c st ≡ false
        → ServiceStep s (record s { daemon = t })
    -- `Serve` starts after `New`.
    accepted :
        (i : ℕ)
        → is_made (s.daemon.tasks.call 0) ≡ true
        → ServiceStep s (put i (accept_one (s.connection i)) s)
    read :
        (i : ℕ) (incoming : Option Bytes)
        → ServiceStep s (put i (read_one incoming (s.connection i)) s)
    wrote : (i : ℕ) (done : Bool) → ServiceStep s (put i (write_one done (s.connection i)) s)
    -- The handler calls `UserByName` or `AuthorizedKeys` of the store.
    user_called :
        (i : ℕ) (req name : Bytes)
        → s.connection i ≡ requested req
        → asks req ≡ user_of name
        → is_made (s.daemon.tasks.call 0) ≡ true
        → s.daemon.tasks.call (suc i) ≡ idle
        → ServiceStep s (record s {
          daemon = record s.daemon {
            tasks = record s.daemon.tasks {
              call = set_call (suc i) (looking name) s.daemon.tasks.call;
            };
          };
        })
    keys_called :
        (i : ℕ) (req name : Bytes)
        → s.connection i ≡ requested req
        → asks req ≡ keys_of name
        → is_made (s.daemon.tasks.call 0) ≡ true
        → s.daemon.tasks.call (suc i) ≡ idle
        → ServiceStep s (record s { daemon = ask (suc i) name s.daemon })
    -- The call has returned.
    user_responded :
        (i : ℕ) (req name : Bytes) (result : Result User)
        → s.connection i ≡ requested req
        → asks req ≡ user_of name
        → s.daemon.tasks.call (suc i) ≡ returned name result
        → ServiceStep s (put i (writing req (reply_user (result, tt {0})).0) s)
    keys_responded :
        (i : ℕ) (req name : Bytes) (at : Option ℕ) (result : Result (List Bytes))
        → s.connection i ≡ requested req
        → asks req ≡ keys_of name
        → s.daemon.keys (suc i) ≡ replied name at result
        → ServiceStep s (put i (writing req (reply_lines (λ k. k) (result, tt {0})).0) s)
    -- Any other request is answered at once. What the other two calls would do makes no difference.
    responded :
        (i : ℕ) (req : Bytes) (wait : CachingStore → CachingStore)
        (call : Bytes → CachingStore → Result (List Bytes) × CachingStore)
        → s.connection i ≡ requested req
        → asks req ≡ other
        → ServiceStep s (
            put i
              (writing req
                (respond
                  (store_provider wait users_order groups_order call)
                  req
                  s.daemon.tasks.store).0)
              s)

  pub data ServiceReach : Service → Type 0 where
    started : (now : ℕ) → ServiceReach (start_service now)
    stepped : {s t : Service} → ServiceReach s → ServiceStep s t → ServiceReach t

  -- A continuation of a run.
  pub data ServiceSteps : Service → Service → Type 0 where
    here : {s : Service} → ServiceSteps s s
    ahead : {s t u : Service} → ServiceStep s t → ServiceSteps t u → ServiceSteps s u
