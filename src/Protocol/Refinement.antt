-- ===== src/Protocol/Refinement.antt =====
-- The client as an `AccountProvider`, against the provider behind the server.
use compute_user_accounts.Base.{ℕ, ◌≤◌, ◌≡◌, arith, Bytes, All, Lacks, length}
use compute_user_accounts.Accounts.{AccountProvider, max_uint32}
use compute_user_accounts.Client.Calls.{client}
use compute_user_accounts.Protocol.Safe.{IsSafeUser, IsSafeGroup}
use compute_user_accounts.Protocol.Wire.{over_wire, IsOk, direct}
use compute_user_accounts.Protocol.Answers.{is_name_over_wire}
use compute_user_accounts.Protocol.Calls.{
  user_by_name-over_wire, user_by_uid-over_wire, users-over_wire, group_by_name-over_wire,
  group_by_gid-over_wire, groups-over_wire, names-over_wire, is_name-over_wire,
  authorized_keys-over_wire,
}

module _ {S : Type 0} (p : AccountProvider S) where
  -- What the provider answers in a state, to calls with this name and this number, has only texts
  -- that the line format carries.
  pub record IsSafeAt (name : Bytes) (id : ℕ) (s : S) : Type 0 where
    pub user_named : IsOk IsSafeUser (p.user_by_name name s).0
    pub user_numbered : IsOk IsSafeUser (p.user_by_uid id s).0
    pub all_users : IsOk (All IsSafeUser) (p.users s).0
    pub group_named : IsOk IsSafeGroup (p.group_by_name name s).0
    pub group_numbered : IsOk IsSafeGroup (p.group_by_gid id s).0
    pub all_groups : IsOk (All IsSafeGroup) (p.groups s).0
    pub all_names : IsOk (All (Lacks b'\n')) (p.names s).0
    pub keys : IsOk (All (Lacks b'\n')) (p.authorized_keys name s).0

  -- For a name without a space of at most 114 bytes, a number of 32 bits, and a state in which the
  -- provider's answers have only texts that the line format carries, each of the nine calls of the
  -- client, over the socket, answers as the provider does and leaves the state that the provider
  -- leaves, up to the text of an error, and but that `IsName` makes of not found the answer false.
  pub client-refines :
      (name : Bytes) (id : ℕ) (s : S)
      → IsSafeAt name id s
      → Lacks b' ' name
      → length name ≤ 114
      → id ≤ max_uint32
      → let c = client (direct p) in
        (c.user_by_name name s ≡ over_wire (p.user_by_name name s))
        × (c.user_by_uid id s ≡ over_wire (p.user_by_uid id s))
        × (c.users s ≡ over_wire (p.users s))
        × (c.group_by_name name s ≡ over_wire (p.group_by_name name s))
        × (c.group_by_gid id s ≡ over_wire (p.group_by_gid id s))
        × (c.groups s ≡ over_wire (p.groups s))
        × (c.names s ≡ over_wire (p.names s))
        × (c.is_name name s ≡ is_name_over_wire (p.is_name name s))
        × (c.authorized_keys name s ≡ over_wire (p.authorized_keys name s))
  unfolding client
  client-refines name id s safe h fits small = (
    user_by_name-over_wire p name s h (omega arith) safe.user_named,
    user_by_uid-over_wire p id s small safe.user_numbered,
    users-over_wire p s safe.all_users,
    group_by_name-over_wire p name s h (omega arith) safe.group_named,
    group_by_gid-over_wire p id s small safe.group_numbered,
    groups-over_wire p s safe.all_groups,
    names-over_wire p s safe.all_names,
    is_name-over_wire p name s h (omega arith),
    authorized_keys-over_wire p name s h (omega arith) safe.keys,
  )
