-- ===== src/Service/ApiKeys.antt =====
-- The whole program: a client, the daemon, and the API client of apiclient/apiclient.go under it. The
-- metadata server and the service may change with the time.
use compute_user_accounts.Base.{
  ℕ, suc, ◌+◌, ◌≤◌, ◌≡◌, refl, sym, ◌∙◌, inl, inr, List, [], ◌++◌, Option, none, some, Bytes, codes,
  All, Lacks, ◌⊎◌, arith, nat_key,
}
use compute_user_accounts.Go.Map.{RangeOrder}
use compute_user_accounts.Accounts.{Group, Error, Result, ok, err, username_not_found}
use compute_user_accounts.ApiClient.Calls as Api
use compute_user_accounts.ApiClient.Calls.{
  ApiClient, Metadata, Reply, replied, google_api_error, other_error, InstanceInfo, instance_info,
  keys_replied, authorized_keys,
}
use compute_user_accounts.Store.State.{AuthorizedKeysView, Config, Pointer, zero_time}
use compute_user_accounts.Store.Keys.{KeysAnswer}
use compute_user_accounts.Client.Send.{received}
use compute_user_accounts.Client.Calls
use compute_user_accounts.Server.Serve.{written}
use compute_user_accounts.Store.Evolution.{IsGiven}
use compute_user_accounts.Tasks.Keys as Keys
use compute_user_accounts.Tasks.KeysGiven.{IsKeysAnswer}
use compute_user_accounts.Service.Step.{Service, ServiceReach}
use compute_user_accounts.Service.Keys.{HasPlainKeys, client_gets_keys}
use compute_user_accounts.EndToEnd.{arrived}

keys_replied-some :
    (name : Bytes) (r : Reply AuthorizedKeysView) (view : AuthorizedKeysView)
    → keys_replied name r ≡ ok (some view)
    → r ≡ replied (some view)
unfolding keys_replied
keys_replied-some name (replied none) view e = absurd cc
keys_replied-some name (replied (some v)) view e = cc
keys_replied-some name (google_api_error code x) view e = ground arith
keys_replied-some name (other_error x) view e = absurd cc

module _ (client : ApiClient) (metadata : ℕ → Metadata) (service : ℕ → Api.Service) where
  -- What the API client answers at a time.
  abbrev pub GivesKeys : ℕ → Bytes → KeysAnswer → Type 0
  GivesKeys time name answer = answer ≡ authorized_keys client (metadata time) (service time) name

  -- The service replies at this time with this view, asked for the keys of this name, with the project,
  -- the zone and the instance that the metadata server names.
  abbrev pub IsReplied : ℕ → Bytes → AuthorizedKeysView → Type 0
  IsReplied time name view =
      (i : InstanceInfo) × (instance_info client (metadata time) ≡ ok i)
      × ((service time).authorized_keys_view i.project i.zone name i.instance_path
          ≡ replied (some view))

  GivesKeys-of_info :
      (time : ℕ) (name : Bytes) (view : AuthorizedKeysView) (info : Result InstanceInfo)
      → instance_info client (metadata time) ≡ info
      → GivesKeys time name (ok (some view))
      → IsReplied time name view
  unfolding authorized_keys
  GivesKeys-of_info time name view (err x) e g =
      absurd (let h : ok (some view) ≡ err x = g ∙ rw (e, authorized_keys) refl in cc)
  GivesKeys-of_info time name view (ok i) e g =
      (i, e, keys_replied-some name _ view (sym (g ∙ rw (e, authorized_keys) refl)))

  GivesKeys-IsReplied :
      (time : ℕ) (name : Bytes) (view : AuthorizedKeysView)
      → GivesKeys time name (ok (some view))
      → IsReplied time name view
  GivesKeys-IsReplied time name view g = GivesKeys-of_info time name view _ refl g

  -- Keys of a view that the service has replied with at this time, or none at the zero time.
  abbrev pub IsServedAt : Bytes → List Bytes → ℕ → Type 0
  IsServedAt name keys time =
      ((keys ≡ []) × (time ≡ zero_time))
      ⊎ ((view : AuthorizedKeysView) × IsReplied time name view × (view.keys ≡ keys))

  -- Keys returned due to the cooldown, with the time of the search, that are no older than it; other
  -- keys, that the service has replied with, or that are kept because the API client has answered with
  -- an error; or the error that no user has the name.
  abbrev pub IsServed : Config → Bytes → Option ℕ → Result (List Bytes) → Type 0
  IsServed c name (some now) (ok keys) =
      (time : ℕ) × IsServedAt name keys time × (time ≤ now) × (now ≤ time + c.key_refresh_cooldown)
  IsServed c name none (ok keys) =
      ((time : ℕ) × (view : AuthorizedKeysView) × IsReplied time name view × (view.keys ≡ keys))
      ⊎ (((time : ℕ) × (e : Error) × (authorized_keys client (metadata time) (service time) name
              ≡ err e))
          × ((time : ℕ) × IsServedAt name keys time))
  IsServed c name at (err e) = e ≡ username_not_found name

  IsGiven-IsServedAt :
      (name : Bytes) (keys : List Bytes) (time : ℕ)
      → IsGiven GivesKeys name keys time
      → IsServedAt name keys time
  IsGiven-IsServedAt name keys time (inl none_yet) = inl none_yet
  IsGiven-IsServedAt name keys time (inr (view, g, same)) =
      inr (view, GivesKeys-IsReplied time name view g, same)

  IsKeysAnswer-IsServed :
      (c : Config) (name : Bytes) (at : Option ℕ) (result : Result (List Bytes))
      → IsKeysAnswer GivesKeys c name at result
      → IsServed c name at result
  IsKeysAnswer-IsServed c name (some now) (ok keys) (time, g, past, recent) =
      (time, IsGiven-IsServedAt name keys time g, past, recent)
  IsKeysAnswer-IsServed c name none (ok keys) (inl (time, view, g, same)) =
      inl (time, view, GivesKeys-IsReplied time name view g, same)
  IsKeysAnswer-IsServed c name none (ok keys) (inr ((now, e, f), (time, g))) =
      inr ((now, e, sym f), (time, IsGiven-IsServedAt name keys time g))
  IsKeysAnswer-IsServed c name at (err e) h = h

  -- No key of a view that the service replies with holds a line feed.
  abbrev pub HasPlainViews : Type 0
  HasPlainViews =
      (time : ℕ) (name : Bytes) (view : AuthorizedKeysView)
      → IsReplied time name view
      → All (Lacks b'\n') view.keys

  -- With the API client under the daemon, a metadata server and a service that change with the time, and
  -- no line feed in the keys of the service: what `AuthorizedKeys` of a client returns for a name without
  -- a space, when the daemon has written a response to its request, is what the call of `AuthorizedKeys`
  -- of the store for this connection has returned, with an error of the kind not found kept as such;
  -- however the daemon has interleaved what it does for this client with the rest. This is the error that
  -- no user has the name, or keys. If the call returned them due to the cooldown, they are those of a view
  -- that the service has replied with when it was asked for that name on the machine that the metadata
  -- server named, or the zero time of no keys, and this at most the cooldown before the search of the
  -- call; otherwise the service has replied with them so, or the API client has answered for that name
  -- with an error, and the service has replied with them so at some time, if there are any.
  pub client_gets_replied_keys :
      {c : Config} {users_order : RangeOrder Bytes Pointer} {groups_order : RangeOrder Bytes Group}
      {s : Service} (i : ℕ) (name response : Bytes)
      → HasPlainViews
      → Lacks b' ' name
      → ServiceReach GivesKeys c users_order groups_order s
      → s.connection i ≡ written (codes "keys " ++ name) response
      → (result : Result (List Bytes)) × (at : Option ℕ) × (s.daemon.keys (suc i)
          ≡ Keys.replied name at result)
        × IsServed c name at result
        × ((Calls.authorized_keys (λ req extend t. (received response, t)) name (tt {0})).0
            ≡ arrived result)
  client_gets_replied_keys {c} i name response plain h r e =
      let plain_answers : HasPlainKeys GivesKeys =
        λ time n view g. plain time n view (GivesKeys-IsReplied time n view g) in
      let (result, at, returned, given, same) =
        client_gets_keys GivesKeys c plain_answers i name response h r e in
      (result, at, returned, IsKeysAnswer-IsServed c name at result given, same)
