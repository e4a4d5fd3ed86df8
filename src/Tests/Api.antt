-- ===== src/Tests/Api.antt =====
-- The API client under the store, and the command authorizedkeys.
use compute_user_accounts.Base.{
  ◌≡◌, refl, [], ◌∷◌, true, some, arith, codes, bytes_eq, bytes_key, nat_key,
}
use compute_user_accounts.Go.Strings.{split, join}
use compute_user_accounts.Go.Paths.{is_rooted, clean_step, clean, IsPlain}
use compute_user_accounts.Go.Map.{lookup, insert}
use compute_user_accounts.Accounts.{ok, message}
use compute_user_accounts.Store.State.{cell, now_outside_timespan}
use compute_user_accounts.Store.Refresh.{
  update_accounts, add_users, add_groups, store_user, carry, to_user, cached_in,
}
use compute_user_accounts.Store.Query.{user_by_name_impl}
use compute_user_accounts.Store.Calls.{user_by_name}
use compute_user_accounts.Store.Calls
use compute_user_accounts.Store.Cached.{cached, last_view, after_refresh}
use compute_user_accounts.Store.Panic.{is_none}
use compute_user_accounts.Store.Step.{Reach-WellFormed}
use compute_user_accounts.Testbase.{machine1_key, machine2_key, mock_provider, exp_provider}
use compute_user_accounts.Protocol.Wire.{direct}
use compute_user_accounts.ApiClient.Calls.{
  ApiClient, Metadata, Service, replied, google_api_error, users_and_groups, authorized_keys,
}
use compute_user_accounts.ApiClient.Instance.{IsAnswered}
use compute_user_accounts.ApiClient.Daemon.{daemon_panics, refresh-cached}
use compute_user_accounts.AuthorizedKeysCommand.{command, printed_lines, command-keys}
use compute_user_accounts.Tests.Samples.{sample, sudo_sample, sample_run, config, user_views}

abbrev pub client : ApiClient
client = record {
  config = record {
    api_base = codes "https://api/";
    instance_base = codes "https://compute//";
    user_agent = codes "gcua/1";
    timeout = 20;
  };
  base_path = codes "https://api/projects/";
  user_agent = codes "gcua/1";
  http_timeout = 20;
}

abbrev pub machine : Metadata
machine = record {
  project_id = ok (codes "p");
  zone = ok (codes "z");
  instance_name = ok (codes "i");
}

-- A service that knows the accounts, and no keys.
abbrev service : Service
service = record {
  linux_account_views = λ project zone instance_path. replied (some (user_views, []));
  authorized_keys_view = λ project zone username instance_path. google_api_error 404 (message []);
}

machine-IsAnswered : IsAnswered machine (codes "p") (codes "z") (codes "i")
machine-IsAnswered = record { has_project = refl; has_zone = refl; has_name = refl }

plain : IsPlain (codes "p") × IsPlain (codes "z") × IsPlain (codes "i")
unfolding bytes_eq
plain = (
  (omega arith, refl, refl, refl),
  (omega arith, refl, refl, refl),
  (omega arith, refl, refl, refl),
)

dots_are_cleaned : clean (codes "/a//./b/../c/") ≡ codes "/a/c"
unfolding clean bytes_eq is_rooted join split clean_step
dots_are_cleaned = refl

daemon_panics_example :
    is_none (
      Calls.authorized_keys config
        (λ s. s)
        (λ s. s)
        (λ s. s)
        100
        101
        (authorized_keys client machine service (codes "user2"))
        (codes "user2")
        sample)
    ≡ true
unfolding user_by_name user_by_name_impl update_accounts add_users add_groups lookup insert bytes_eq
    store_user cell carry cached_in now_outside_timespan to_user
daemon_panics_example =
    daemon_panics client machine service (codes "p") (codes "z") (codes "i") machine-IsAnswered
      config (λ s. s) (λ s. s) (λ s. s) 100 101 (codes "user2") sample

refresh-cached_example :
    cached (codes "user1") (update_accounts (users_and_groups client machine service) sudo_sample)
    ≡ after_refresh (cached (codes "user1") sudo_sample) (last_view (codes "user1") user_views)
refresh-cached_example =
    refresh-cached client machine service (codes "p") (codes "z") (codes "i") machine-IsAnswered
      sudo_sample (codes "user1") (Reach-WellFormed sample_run)

command-keys_example :
    printed_lines
      (command [] (direct (mock_provider exp_provider)) (codes "prog" ∷ codes "user1" ∷ []) tt).0
    ≡ some (machine1_key ∷ machine2_key ∷ [] ∷ [])
unfolding mock_provider bytes_eq
command-keys_example =
    command-keys (mock_provider exp_provider) [] (codes "prog") (codes "user1") tt (omega arith)
      (omega arith) (omega arith)
