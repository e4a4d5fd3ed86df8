-- ===== src/ApiClient/Daemon.antt =====
-- The API client under the store: what the API's replies do to the daemon.
use compute_user_accounts.Base.{
  ℕ, ◌≡◌, refl, ap, ◌∙◌, [], Bool, false, ◌&&◌, ◌||◌, ltb, ◌+◌, ◌==◌, Option, none, some, arith,
  Bytes, nat_key,
}
use compute_user_accounts.Store.State.{Config, AuthorizedKeysView, CachedUser, CachingStore}
use compute_user_accounts.Store.Refresh.{Views, update_accounts}
use compute_user_accounts.Store.Keys.{KeysAnswer}
use compute_user_accounts.Store.Calls.{user_by_name}
use compute_user_accounts.Store.Calls
use compute_user_accounts.Store.WellFormed.{WellFormed}
use compute_user_accounts.Store.Cached.{cached, last_view, after_refresh, update_accounts-cached}
use compute_user_accounts.Store.Panic.{is_none}
use compute_user_accounts.Store.Lookups.{is_fatal_call, is_nil_view, authorized_keys-is_none}
use compute_user_accounts.ApiClient.Instance.{IsAnswered}
use compute_user_accounts.ApiClient.Calls.{
  ApiClient, Metadata, Reply, replied, google_api_error, other_error, Service, instance_url,
  instance_info, views_replied, users_and_groups, keys_replied, authorized_keys,
}

abbrev pub is_not_found : Reply AuthorizedKeysView → Bool
is_not_found (google_api_error code e) = code == 404
is_not_found (other_error e) = false
is_not_found (replied r) = false

-- The keys of a known user come from the future, or are older than the cooldown.
abbrev pub is_stale : Config → ℕ → Option CachedUser → Bool
is_stale c now none = false
is_stale c now (some cu) =
    ltb now cu.key_refresh_time || ltb (cu.key_refresh_time + c.key_refresh_cooldown) now

is_nil_view-keys_replied :
    (username : Bytes) (r : Reply AuthorizedKeysView)
    → is_nil_view (keys_replied username r) ≡ is_not_found r
unfolding keys_replied
is_nil_view-keys_replied username (replied none) = refl
is_nil_view-keys_replied username (replied (some v)) = refl
is_nil_view-keys_replied username (google_api_error code e) = ground arith
is_nil_view-keys_replied username (other_error e) = refl

is_fatal_call_lem :
    (c : Config) (now : ℕ) (a : KeysAnswer) (cu : Option CachedUser)
    → is_fatal_call c now a cu ≡ (is_stale c now cu && is_nil_view a)
is_fatal_call_lem c now a none = refl
is_fatal_call_lem c now a (some cu) = refl

module _ (client : ApiClient) (m : Metadata) (service : Service) (project zone name : Bytes)
    (answered : IsAnswered m project zone name) where
  -- The reply to the call for the keys of a user.
  abbrev keys_reply : Bytes → Reply AuthorizedKeysView
  keys_reply username =
      service.authorized_keys_view project zone username (instance_url client project zone name)

  authorized_keys_lem :
      (username : Bytes)
      → authorized_keys client m service username ≡ keys_replied username (keys_reply username)
  unfolding authorized_keys instance_info
  authorized_keys_lem username =
      rw (answered.has_project, answered.has_zone, answered.has_name) refl

  -- Where the metadata server names the machine, and whatever is written meanwhile, `AuthorizedKeys` of
  -- the store panics exactly if, at its second search, the user is known with keys outside the cooldown,
  -- and the service replies 404 to the call for his keys.
  pub daemon_panics :
      (c : Config) (wait between during : CachingStore → CachingStore) (now done : ℕ)
      (username : Bytes) (s : CachingStore)
      → is_none (
          Calls.authorized_keys c wait between during now done
            (authorized_keys client m service username)
            username
            s)
        ≡ (is_stale c now (cached username (between (user_by_name wait username s).1))
            && is_not_found (
                service.authorized_keys_view project zone username
                  (instance_url client project zone name)))
  daemon_panics c wait between during now done username s =
      let known = cached username (between (user_by_name wait username s).1) in
      authorized_keys-is_none c wait between during now done _ username s
      ∙ is_fatal_call_lem c now (authorized_keys client m service username) known
      ∙ ap (λ a. is_stale c now known && is_nil_view a) (authorized_keys_lem username)
      ∙ ap (λ b. is_stale c now known && b)
          (is_nil_view-keys_replied username (keys_reply username))

-- What a name is bound to after the reply to a call for the accounts.
abbrev pub after_reply : Bytes → Reply Views → Option CachedUser → Option CachedUser
after_reply name (google_api_error code e) c = c
after_reply name (other_error e) c = c
after_reply name (replied none) c = none
after_reply name (replied (some views)) c = after_refresh c (last_view name views.0)

replied-cached :
    (r : Reply Views) (s : CachingStore) (name : Bytes)
    → WellFormed s
    → cached name (update_accounts (views_replied r) s) ≡ after_reply name r (cached name s)
unfolding views_replied
replied-cached (google_api_error code e) s name w = unfold update_accounts in refl
replied-cached (other_error e) s name w = unfold update_accounts in refl
replied-cached (replied none) s name w =
    update_accounts-cached [] [] s name w ∙ (unfold last_view in refl)
replied-cached (replied (some (us, gs))) s name w = update_accounts-cached us gs s name w

-- Where the metadata server names the machine, a refresh of a well-formed store with what the service
-- replies leaves every name as it was if the reply is an error, unbinds every name if the reply has no
-- resource, and else binds a name exactly if the reply has a view of it: to the user of the last such
-- view, with the keys, the sudo flag and the refresh time that the name had before.
pub refresh-cached :
    (client : ApiClient) (m : Metadata) (service : Service) (project zone name : Bytes)
    → IsAnswered m project zone name
    → (s : CachingStore) (username : Bytes) → WellFormed s
    → cached username (update_accounts (users_and_groups client m service) s)
      ≡ after_reply username
          (service.linux_account_views project zone (instance_url client project zone name))
          (cached username s)
unfolding users_and_groups instance_info
refresh-cached client m service project zone name answered s username w =
    rw (answered.has_project, answered.has_zone, answered.has_name)
      (replied-cached
        (service.linux_account_views project zone (instance_url client project zone name)) s
        username w)
