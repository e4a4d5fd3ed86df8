-- ===== src/ApiClient/Calls.antt =====
-- `New`, `instanceInfo`, `UsersAndGroups` and `AuthorizedKeys`.
use compute_user_accounts.Base.{
  ℕ, [], ◌∷◌, ◌++◌, ◌==◌, Option, none, some, Bytes, codes, nat_key, if◌then◌else◌,
}
use compute_user_accounts.Go.Paths.{trim_slashes, path_join}
use compute_user_accounts.Accounts.{Error, Result, ok, err, message}
use compute_user_accounts.Store.State.{AuthorizedKeysView}
use compute_user_accounts.Store.Refresh.{Views}
use compute_user_accounts.Store.Keys.{KeysAnswer}

pub record Config : Type 0 where
  pub api_base : Bytes
  pub instance_base : Bytes
  pub user_agent : Bytes
  pub timeout : ℕ

-- The client, with the fields of its service that `New` sets, and the timeout of its HTTP client.
pub record ApiClient : Type 0 where
  pub config : Config
  pub base_path : Bytes
  pub user_agent : Bytes
  pub http_timeout : ℕ

-- `made` is the error of `cua.New`.
unfoldable pub new : (made : Option Error) → Config → Result ApiClient
new (some e) config = err e
new none config = ok (record {
  config = config;
  base_path = trim_slashes config.api_base ++ codes "/projects/";
  user_agent = config.user_agent;
  http_timeout = config.timeout;
})

-- What the metadata server answers.
pub record Metadata : Type 0 where
  pub project_id : Result Bytes
  pub zone : Result Bytes
  pub instance_name : Result Bytes

-- How a call of the service ends: with the resource of a view, which may be nil, with a
-- `*googleapi.Error` that has a code, or with an error of another type.
pub data Reply (A : Type 0) : Type 0 where
  replied : Option A → Reply A
  google_api_error : ℕ → Error → Reply A
  other_error : Error → Reply A

-- The two calls of the service: the arguments are in the order of `GetLinuxAccountViews` and of
-- `GetAuthorizedKeysView`.
pub record Service : Type 0 where
  pub linux_account_views : (project zone instance : Bytes) → Reply Views
  pub authorized_keys_view : (project zone username instance : Bytes) → Reply AuthorizedKeysView

unfoldable pub instance_url : ApiClient → (project zone name : Bytes) → Bytes
instance_url c project zone name =
    trim_slashes c.config.instance_base
    ++ b'/'
      ∷ path_join
          (codes "projects" ∷ project ∷ codes "zones" ∷ zone ∷ codes "instances" ∷ name ∷ [])

-- The project, the zone and the instance.
pub record InstanceInfo : Type 0 where
  pub project : Bytes
  pub zone : Bytes
  pub instance_path : Bytes

unfoldable pub instance_info : ApiClient → Metadata → Result InstanceInfo
instance_info c metadata = elim metadata.project_id [
  | err e ↦ err e
  | ok project ↦ elim metadata.zone [
    | err e ↦ err e
    | ok zone ↦ elim metadata.instance_name [
      | err e ↦ err e
      | ok name ↦ ok (record {
        project = project;
        zone = zone;
        instance_path = instance_url c project zone name;
      })
    ]
  ]
]

-- A nil resource: no users or groups.
unfoldable pub views_replied : Reply Views → Result Views
views_replied (google_api_error code e) = err e
views_replied (other_error e) = err e
views_replied (replied none) = ok ([], [])
views_replied (replied (some views)) = ok views

unfoldable pub users_and_groups : ApiClient → Metadata → Service → Result Views
unfolding views_replied
users_and_groups c metadata service = elim (instance_info c metadata) [
  | err e ↦ err e
  | ok i ↦ views_replied (service.linux_account_views i.project i.zone i.instance_path)
]

-- A code of 404 is a nil view without an error.
unfoldable pub keys_replied : Bytes → Reply AuthorizedKeysView → KeysAnswer
keys_replied username (replied none) =
    err (message (codes "Invalid authorized keys returned for " ++ (username ++ codes ".")))
keys_replied username (replied (some view)) = ok (some view)
keys_replied username (google_api_error code e) = if code == 404 then ok none else err e
keys_replied username (other_error e) = err e

unfoldable pub authorized_keys : ApiClient → Metadata → Service → Bytes → KeysAnswer
unfolding keys_replied
authorized_keys c metadata service username = elim (instance_info c metadata) [
  | err e ↦ err e
  | ok i ↦
      keys_replied username (service.authorized_keys_view i.project i.zone username i.instance_path)
]
