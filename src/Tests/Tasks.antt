-- ===== src/Tests/Tasks.antt =====
-- A run of the goroutines: `New`, a round that the timer starts, and a call for user2.
use compute_user_accounts.Base.{
  ℕ, ◌+◌, ◌≤◌, ◌≡◌, refl, [], ◌∷◌, true, false, Bytes, some, none, arith, codes, bytes_eq,
  bytes_key, nat_key,
}
use compute_user_accounts.Go.Map.{lookup, insert}
use compute_user_accounts.Accounts.{ok}
use compute_user_accounts.Testbase.{jane}
use compute_user_accounts.Store.State.{AuthorizedKeysView, cell, now_outside_timespan}
use compute_user_accounts.Store.Refresh.{
  update_accounts, add_users, add_groups, store_user, carry, to_user, cached_in,
}
use compute_user_accounts.Store.Query.{user_by_name_impl}
use compute_user_accounts.Tasks.State.{
  System, looking, refreshing, finished, returned, set_call, init, receive, fire, refresh, close,
}
use compute_user_accounts.Tasks.Step.{
  received, fired, skipped, asked, refreshed, closed, called, found, Run, start, by_task, by_other,
  reached,
}
use compute_user_accounts.Tasks.Queue.{is_answered}
use compute_user_accounts.Tasks.Liveness.{waiting_is_answered}
use compute_user_accounts.Tasks.Tries.{wait_start, TriedAt}
use compute_user_accounts.Tasks.Freshness.{woken_is_fresh}
use compute_user_accounts.Tasks.Keys.{
  Daemon, start_daemon, ask, search, searched, reply, DaemonStep, keys_asked, keys_searched,
  keys_replied, DaemonReach, started, stepped,
}
use compute_user_accounts.Tasks.Provenance.{replied_keys-IsGiven}
use compute_user_accounts.Tasks.KeysGiven.{IsGivenAt}
use compute_user_accounts.Store.Keys.{KeysAnswer}
use compute_user_accounts.Store.Calls.{KeysCall, keys_answered}
use compute_user_accounts.Tests.Samples.{config, user_views}

abbrev pub asking : System
asking = record (receive (some 0) [] (init 100)) { task = refreshing (some 0) 100 }

-- When `New` returns.
abbrev pub constructed : System
constructed = close (some 0) (refresh (some 0) 100 (ok (user_views, [])) asking)

constructed_run : Run config (init 100) 4 constructed
unfolding init receive refresh now_outside_timespan
constructed_run =
    by_task
      (by_task
        (by_task (by_task start (received (some 0) [] refl refl)) (asked (some 0) 100 refl refl))
        (refreshed (some 0) 100 (ok (user_views, [])) refl))
      (closed (some 0) 100 refl)

-- The timer starts a round, within the cooldown.
abbrev idle_round : System
idle_round = close none (record (fire constructed) { task = finished none 100 })

idle_run : Run config (init 100) 7 idle_round
unfolding init receive refresh close fire now_outside_timespan
idle_run =
    by_task (by_task (by_task constructed_run (fired refl refl)) (skipped none 100 refl refl))
      (closed none 100 refl)

-- A call for user2 finds him at once.
abbrev looked : System
looked = record constructed { call = set_call 1 (looking (codes "user2")) constructed.call }

abbrev answered_call : System
answered_call = record looked { call = set_call 1 (returned (codes "user2") (ok jane)) looked.call }

answered_run : Run config (init 100) 4 answered_call
unfolding init receive refresh close user_by_name_impl update_accounts add_users add_groups lookup
    insert bytes_eq store_user cell carry cached_in to_user
answered_run =
    by_other (by_other constructed_run (called 1 (codes "user2") refl refl))
      (found 1 (codes "user2") 1 refl refl)

waiting_is_answered_example : is_answered (idle_round.call 0) ≡ true
unfolding init
waiting_is_answered_example =
    waiting_is_answered 0 7 (reached 100 start) refl idle_run (omega arith)

woken_is_fresh_example :
    (time : ℕ) × TriedAt constructed_run time × (wait_start (constructed.call 0) ≤ time + 10)
unfolding init receive refresh close
woken_is_fresh_example = woken_is_fresh 0 100 constructed_run (omega arith) refl

abbrev pub jane_view : AuthorizedKeysView
jane_view = record { keys = codes "key2" ∷ []; sudoer = false }

-- The API knows the keys of user2 alone.
abbrev pub JaneAnswer : ℕ → Bytes → KeysAnswer → Type 0
JaneAnswer time name answer = (name ≡ codes "user2") × (answer ≡ ok (some jane_view))

abbrev pub made_daemon : Daemon
made_daemon = record (start_daemon 100) { tasks = constructed }

made_daemon_run : DaemonReach JaneAnswer config made_daemon
unfolding init receive refresh now_outside_timespan start_daemon
made_daemon_run =
    stepped
      (stepped
        (stepped (stepped (started 100) (DaemonStep.by_task (received (some 0) [] refl refl)))
          (DaemonStep.by_task (asked (some 0) 100 refl refl)))
        (DaemonStep.by_task (refreshed (some 0) 100 (ok (user_views, [])) refl)))
      (DaemonStep.by_task (closed (some 0) 100 refl))

abbrev pub asked_daemon : Daemon
asked_daemon = ask 1 (codes "user2") made_daemon

abbrev pub found_daemon : Daemon
found_daemon = record asked_daemon {
  tasks = record asked_daemon.tasks {
    call = set_call 1 (returned (codes "user2") (ok jane)) asked_daemon.tasks.call;
  };
}

abbrev pub jane_call : KeysCall
jane_call = record {
  result = ok (codes "key2" ∷ []);
  store = constructed.store;
  started = some (record {
    username = codes "user2";
    keys = codes "key2" ∷ [];
    sudoer = false;
    refresh_time = 100;
  });
}

abbrev pub replied_daemon : Daemon
replied_daemon = reply 1 (codes "user2") jane_call (search config 1 (codes "user2") found_daemon)

replied_daemon_run : DaemonReach JaneAnswer config replied_daemon
unfolding init receive refresh close user_by_name_impl update_accounts add_users add_groups lookup
    insert bytes_eq store_user cell carry cached_in to_user ask search searched now_outside_timespan
    start_daemon reply keys_answered
replied_daemon_run =
    stepped
      (stepped
        (stepped (stepped made_daemon_run (keys_asked 1 (codes "user2") refl refl))
          (DaemonStep.by_other (found 1 (codes "user2") 1 refl refl) refl))
        (keys_searched 1 (codes "user2") (ok jane) refl refl))
      (keys_replied 1 (codes "user2") 1 (ok (some jane_view)) jane_call refl (refl, refl) refl)

replied_keys-IsGiven_example : IsGivenAt JaneAnswer config (codes "user2") none (codes "key2" ∷ [])
unfolding reply
replied_keys-IsGiven_example =
    replied_keys-IsGiven 1 (codes "user2") none (ok (codes "key2" ∷ [])) replied_daemon_run refl
