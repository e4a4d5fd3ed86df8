-- ===== src/Store/State.antt =====
-- The state of `cachingStore`, its configuration, and the views that the API client returns.
-- A `*cachedUser` is an index into a heap of cells: both user maps hold the same pointers, and the
-- keys of a user are written through one of them.
use compute_user_accounts.Base.{
  ℕ, zero, suc, ◌+◌, ◌||◌, Bool, false, List, [], ◌∷◌, Bytes, codes, ltb,
}
use compute_user_accounts.Go.Map.{GoMap}
use compute_user_accounts.Accounts.{User, Group}

abbrev pub sudoers_group_name : Bytes
sudoers_group_name = codes "gce-sudoers"

abbrev pub sudoers_group_gid : ℕ
sudoers_group_gid = 4001

-- A time is the nanoseconds since the zero `time.Time`, and a duration is not negative.
abbrev pub zero_time : ℕ
zero_time = 0

pub record Config : Type 0 where
  pub account_refresh_frequency : ℕ
  pub account_refresh_cooldown : ℕ
  pub key_refresh_frequency : ℕ
  pub key_refresh_cooldown : ℕ

-- What the store reads of the API's views; an integer of the API is its bits.
pub record LinuxUserView : Type 0 where
  pub username : Bytes
  pub uid : ℕ
  pub gid : ℕ
  pub gecos : Bytes
  pub home_directory : Bytes
  pub shell : Bytes

pub record LinuxGroupView : Type 0 where
  pub group_name : Bytes
  pub gid : ℕ
  pub members : List Bytes

pub record AuthorizedKeysView : Type 0 where
  pub keys : List Bytes
  pub sudoer : Bool

pub record CachedUser : Type 0 where
  pub user : User
  pub keys : List Bytes
  pub sudoer : Bool
  pub key_refresh_time : ℕ

abbrev pub Pointer : Type 0
Pointer = ℕ

pub record CachingStore : Type 0 where
  pub heap : List CachedUser
  pub users_by_name : GoMap Bytes Pointer
  pub users_by_uid : GoMap ℕ Pointer
  pub groups_by_name : GoMap Bytes Group
  pub groups_by_gid : GoMap ℕ Group

-- `&cachingStore{…}`, whose maps are nil.
abbrev pub empty_store : CachingStore
empty_store = record {
  heap = [];
  users_by_name = [];
  users_by_uid = [];
  groups_by_name = [];
  groups_by_gid = [];
}

abbrev zero_user : User
zero_user = record { name = []; uid = 0; gid = 0; gecos = []; home_directory = []; shell = [] }

-- `&cachedUser{user: user}`.
abbrev pub fresh : User → CachedUser
fresh u = record { user = u; keys = []; sudoer = false; key_refresh_time = zero_time }

-- A pointer is never dangling in Go; here it may be, and then it reads as the zero value.
unfoldable pub cell : List CachedUser → Pointer → CachedUser
cell [] p = fresh zero_user
cell (c ∷ h) zero = c
cell (c ∷ h) (suc p) = cell h p

abbrev pub deref : CachingStore → Pointer → CachedUser
deref s p = cell s.heap p

-- The reading of the clock, the start and the length of the span.
unfoldable pub now_outside_timespan : ℕ → ℕ → ℕ → Bool
now_outside_timespan now start duration = let end = start + duration in ltb now start || ltb end now
