-- ===== src/Protocol/Safe.antt =====
-- The texts that the line format of the protocol is made for.
use compute_user_accounts.Base.{◌≤◌, ◌≢◌, [], ◌∷◌, Bytes, All, Lacks}
use compute_user_accounts.Accounts.{User, Group, max_uint32}

-- A field of a line.
abbrev pub IsField : Bytes → Type 0
IsField s = Lacks b':' s × Lacks b'\n' s

pub record IsSafeUser (u : User) : Type 0 where
  pub name : IsField u.name
  pub gecos : IsField u.gecos
  pub home_directory : IsField u.home_directory
  pub shell : IsField u.shell
  pub uid : u.uid ≤ max_uint32
  pub gid : u.gid ≤ max_uint32

abbrev pub IsMember : Bytes → Type 0
IsMember s = Lacks b':' s × Lacks b'\n' s × Lacks b',' s

-- One empty member is written like none.
pub record IsSafeGroup (g : Group) : Type 0 where
  pub name : IsField g.name
  pub members : All IsMember g.members
  pub several : g.members ≢ [] ∷ []
  pub gid : g.gid ≤ max_uint32
