-- ===== src/Server/Marshal.antt =====
-- The lines of a response: `marshalError`, `marshalUser`, `marshalGroup`.
use compute_user_accounts.Base.{List, [], ◌∷◌, ◌++◌, Bytes, codes}
use compute_user_accounts.Go.Strings.{join}
use compute_user_accounts.Go.Strconv.{format_uint}
use compute_user_accounts.Accounts.{User, Group, Error, not_found, message}

unfoldable pub marshal_error : Error → Bytes
marshal_error (not_found e) = codes "404"
marshal_error (message m) = codes "500"

unfoldable pub marshal_user : User → Bytes
marshal_user u =
    join
      (u.name ∷ format_uint u.uid ∷ format_uint u.gid ∷ u.gecos ∷ u.home_directory ∷ u.shell ∷ [])
      b':'

unfoldable pub marshal_group : Group → Bytes
marshal_group g = join (g.name ∷ format_uint g.gid ∷ join g.members b',' ∷ []) b':'

-- The loops over `bytes.Buffer` of `users`, `groups`, `names` and `authorizedKeys`: each line behind
-- a line feed.
unfoldable pub write_lines : List Bytes → Bytes
write_lines [] = []
write_lines (l ∷ ls) = b'\n' ∷ (l ++ write_lines ls)
