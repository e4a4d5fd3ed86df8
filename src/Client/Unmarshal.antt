-- ===== src/Client/Unmarshal.antt =====
-- `unmarshalUser` and `unmarshalGroup`.
use compute_user_accounts.Base.{
  List, [], ◌∷◌, ◌++◌, none, some, Bytes, codes, bytes_eq, if◌then◌else◌,
}
use compute_user_accounts.Go.Strings.{split}
use compute_user_accounts.Go.Strconv.{parse_uint}
use compute_user_accounts.Accounts.{User, Group, Result, ok, err, message, uint32}

unfoldable pub read_user : Bytes → Bytes → Bytes → Bytes → Bytes → Bytes → Bytes → Result User
read_user line name uid gid gecos home shell = elim (parse_uint uid) [
  | none ↦ err (message (codes "invalid UID in response: " ++ line))
  | some u ↦ elim (parse_uint gid) [
    | none ↦ err (message (codes "invalid GID in response: " ++ line))
    | some g ↦ ok (record {
      name = name;
      uid = uint32 u;
      gid = uint32 g;
      gecos = gecos;
      home_directory = home;
      shell = shell;
    })
  ]
]

-- `len(parts) != 6` is refused.
unfoldable pub user_parts : Bytes → List Bytes → Result User
unfolding read_user
user_parts line (name ∷ uid ∷ gid ∷ gecos ∷ home ∷ shell ∷ []) =
    read_user line name uid gid gecos home shell
user_parts line _ = err (message (codes "invalid user in response: " ++ line))

unfoldable pub unmarshal_user : Bytes → Result User
unfolding user_parts
unmarshal_user line = user_parts line (split line b':')

unfoldable pub read_members : Bytes → List Bytes
read_members mem = if bytes_eq mem [] then [] else split mem b','

unfoldable pub read_group : Bytes → Bytes → Bytes → Bytes → Result Group
unfolding read_members
read_group line name gid mem = elim (parse_uint gid) [
  | none ↦ err (message (codes "invalid GID in response: " ++ line))
  | some g ↦ ok (record { name = name; gid = uint32 g; members = read_members mem })
]

-- `len(parts) != 3` is refused.
unfoldable pub group_parts : Bytes → List Bytes → Result Group
unfolding read_group
group_parts line (name ∷ gid ∷ mem ∷ []) = read_group line name gid mem
group_parts line _ = err (message (codes "invalid group in response: " ++ line))

unfoldable pub unmarshal_group : Bytes → Result Group
unfolding group_parts
unmarshal_group line = group_parts line (split line b':')
