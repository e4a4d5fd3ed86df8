-- ===== src/Server/Request.antt =====
-- The arguments of a request: `parseName` and `parseID`. Their errors' texts go to the log only, so
-- an error is `none`.
use compute_user_accounts.Base.{ℕ, List, [], ◌∷◌, Option, none, some, Bytes}
use compute_user_accounts.Go.Strconv.{parse_uint}
use compute_user_accounts.Accounts.{uint32}

unfoldable pub parse_name : List Bytes → Option Bytes
parse_name [] = none
parse_name (arg ∷ args) = some arg

unfoldable pub parse_id : List Bytes → Option ℕ
parse_id [] = none
parse_id (arg ∷ args) = elim (parse_uint arg) [ none ↦ none | some val ↦ some (uint32 val) ]
