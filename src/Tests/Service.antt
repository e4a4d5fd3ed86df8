-- ===== src/Tests/Service.antt =====
-- A run of the daemon as a whole: a client asks for the keys of user2.
use compute_user_accounts.Base.{
  sym, subst, All, Lacks, ℕ, ◌≡◌, refl, List, [], ◌∷◌, true, Bytes, Option, some, none, arith,
  codes, bytes_eq, bytes_key, nat_key,
}
use compute_user_accounts.Go.Map.{lookup, insert}
use compute_user_accounts.Go.Strings.{split}
use compute_user_accounts.Accounts.{Result, ok, err, message}
use compute_user_accounts.Testbase.{jane}
use compute_user_accounts.Store.State.{cell, now_outside_timespan}
use compute_user_accounts.Store.Refresh.{
  update_accounts, add_users, add_groups, store_user, carry, to_user, cached_in,
}
use compute_user_accounts.Store.Query.{user_by_name_impl}
use compute_user_accounts.Store.Keys.{KeysAnswer}
use compute_user_accounts.Store.Calls.{keys_answered}
use compute_user_accounts.Client.Calls
use compute_user_accounts.ApiClient.Calls as Api
use compute_user_accounts.ApiClient.Calls.{
  replied, instance_info, keys_replied as keys_from, authorized_keys,
}
use compute_user_accounts.Service.ApiKeys.{
  GivesKeys, IsServed, HasPlainViews, client_gets_replied_keys,
}
use compute_user_accounts.Tests.Api.{client, machine}
use compute_user_accounts.Client.Send.{received}
use compute_user_accounts.Server.Respond.{reply_lines}
use compute_user_accounts.Server.Marshal.{write_lines}
use compute_user_accounts.Server.Serve.{
  Connection, absent, reading, requested, writing, written, set_connection,
}
use compute_user_accounts.Tasks.State.{init, receive, refresh, close}
use compute_user_accounts.Tasks.Step.{received as received_send, asked, refreshed, closed, found}
use compute_user_accounts.Tasks.Keys.{
  start_daemon, ask, search, searched, reply, by_task, by_other, keys_searched, keys_replied,
  replied as returned_keys,
}
use compute_user_accounts.EndToEnd.{arrived}
use compute_user_accounts.Service.Asks.{asks}
use compute_user_accounts.Service.Step.{
  Service, start_service, by_daemon, accepted, read, wrote, keys_called, keys_responded,
  ServiceReach, started, stepped, ServiceSteps,
}
use compute_user_accounts.Service.Replies.{IsReply, written-IsReply}
use compute_user_accounts.Service.Progress.{request_can_be_answered}
use compute_user_accounts.Tests.Samples.{config, in_order, user_views}
use compute_user_accounts.Tests.Tasks.{
  JaneAnswer, jane_view, jane_call, made_daemon, replied_daemon,
}

abbrev request : Bytes
request = codes "keys user2"

abbrev response : Bytes
response = codes "200\nkey2"

abbrev requested_one : ℕ → Connection
requested_one = set_connection 0 (requested request) (set_connection 0 reading (λ i. absent))

abbrev served : Service
served = record {
  daemon = replied_daemon;
  connection =
      set_connection 0 (written request response)
        (set_connection 0 (writing request response) requested_one);
}

served_run :
    {Gives : ℕ → Bytes → KeysAnswer → Type 0}
    → Gives 100 (codes "user2") (ok (some jane_view))
    → ServiceReach Gives config in_order in_order served
unfolding init receive refresh close user_by_name_impl update_accounts add_users add_groups lookup
    insert bytes_eq store_user cell carry cached_in to_user ask search searched now_outside_timespan
    start_daemon reply keys_answered start_service asks split reply_lines write_lines
served_run given =
    stepped
      (stepped
        (stepped
          (stepped
            (stepped
              (stepped
                (stepped
                  (stepped
                    (stepped
                      (stepped
                        (stepped
                          (stepped (started 100)
                            (by_daemon (by_task (received_send (some 0) [] refl refl)) refl))
                          (by_daemon (by_task (asked (some 0) 100 refl refl)) refl))
                        (by_daemon (by_task (refreshed (some 0) 100 (ok (user_views, [])) refl))
                          refl))
                      (by_daemon (by_task (closed (some 0) 100 refl)) refl))
                    (accepted 0 refl))
                  (read 0 (some request)))
                (keys_called 0 request (codes "user2") refl refl refl refl))
              (by_daemon (by_other (found 1 (codes "user2") 1 refl refl) refl) refl))
            (by_daemon (keys_searched 1 (codes "user2") (ok jane) refl refl) refl))
          (by_daemon
            (keys_replied 1 (codes "user2") 1 (ok (some jane_view)) jane_call refl given refl)
            refl))
        (keys_responded 0 request (codes "user2") none (ok (codes "key2" ∷ [])) refl refl refl))
      (wrote 0 true)

jane_run : ServiceReach JaneAnswer config in_order in_order served
jane_run = served_run (refl, refl)

written-IsReply_example :
    IsReply JaneAnswer config in_order in_order
      (served.daemon.keys 1)
      request
      response
      (asks request)
written-IsReply_example = written-IsReply 0 request response jane_run refl

-- The API fails.
abbrev FailedAnswer : ℕ → Bytes → KeysAnswer → Type 0
FailedAnswer time name answer = answer ≡ err (message (codes "down"))

abbrev requested_state : Service
requested_state = record { daemon = made_daemon; connection = requested_one }

requested_run : ServiceReach FailedAnswer config in_order in_order requested_state
unfolding init receive refresh close now_outside_timespan start_daemon start_service
requested_run =
    stepped
      (stepped
        (stepped
          (stepped
            (stepped
              (stepped (started 100)
                (by_daemon (by_task (received_send (some 0) [] refl refl)) refl))
              (by_daemon (by_task (asked (some 0) 100 refl refl)) refl))
            (by_daemon (by_task (refreshed (some 0) 100 (ok (user_views, [])) refl)) refl))
          (by_daemon (by_task (closed (some 0) 100 refl)) refl))
        (accepted 0 refl))
      (read 0 (some request))

request_can_be_answered_example :
    (t : Service) × (response : Bytes) × ServiceSteps FailedAnswer config in_order in_order
      requested_state t
    × (t.connection 0 ≡ written request response)
    × IsReply FailedAnswer config in_order in_order
        (t.daemon.keys 1)
        request
        response
        (asks request)
request_can_be_answered_example =
    request_can_be_answered 0 request (λ time name. (err (message (codes "down")), refl, λ e. cc))
      requested_run refl

-- A service that replies with the keys of user2 for everybody.
abbrev jane_service : Api.Service
jane_service = record {
  linux_account_views = λ project zone instance. replied none;
  authorized_keys_view = λ project zone username instance. replied (some jane_view);
}

jane_given :
    GivesKeys client
      (λ time. machine)
      (λ time. jane_service)
      100
      (codes "user2")
      (ok (some jane_view))
unfolding authorized_keys keys_from instance_info
jane_given = refl

plain_views : HasPlainViews client (λ time. machine) (λ time. jane_service)
plain_views time name view (i, m, e) =
    let same : view ≡ jane_view = cc in
    subst (λ v. All (Lacks b'\n') v.keys) (sym same) (omega arith)

client_gets_replied_keys_example :
    (result : Result (List Bytes)) × (at : Option ℕ) × (served.daemon.keys 1
      ≡ returned_keys (codes "user2") at result)
    × IsServed client (λ time. machine) (λ time. jane_service) config (codes "user2") at result
    × ((Calls.authorized_keys (λ req extend t. (received response, t)) (codes "user2") (tt {0})).0
        ≡ arrived result)
client_gets_replied_keys_example =
    client_gets_replied_keys client (λ time. machine) (λ time. jane_service) 0 (codes "user2")
      response plain_views (omega arith) (served_run jane_given) refl
