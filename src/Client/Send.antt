-- ===== src/Client/Send.antt =====
-- `send` and `checkHeader`. The socket is a parameter: what one exchange over it yields.
use compute_user_accounts.Base.{
  ℕ, ◌*◌, Bool, List, [], ◌∷◌, Option, none, some, Bytes, codes, bytes_eq, if◌then◌else◌,
}
use compute_user_accounts.Go.Strings.{split}
use compute_user_accounts.Accounts.{Error, not_found, message, zero_not_found, Result, ok, err}

-- In milliseconds.
abbrev pub client_timeout : ℕ
client_timeout = 1000

abbrev pub extended_timeout : ℕ
extended_timeout = 5 * 1000

unfoldable pub read_timeout : Bool → ℕ
read_timeout extend_timeout = if extend_timeout then extended_timeout else client_timeout

-- How an exchange ends: `DialUnix`, `Write` or `ReadAll` fails, or all of the response is read.
pub data Exchange : Type 0 where
  dial_failed : Error → Exchange
  write_failed : Error → Exchange
  read_failed : Error → Exchange
  received : Bytes → Exchange

-- The request, the time that the response may take, and the state at the other end.
abbrev pub Network : Type 0 → Type 0
Network S = Bytes → ℕ → S → Exchange × S

-- `none` is nil.
unfoldable pub check_header : List Bytes → Option Error
check_header [] = some (message (codes "incomplete response"))
check_header (status ∷ lines) =
    if bytes_eq status (codes "200")
    then none
    else if bytes_eq status (codes "404")
    then some (not_found zero_not_found)
    else some (message (codes "request failed"))

-- `resp[1:]`.
unfoldable pub body : List Bytes → List Bytes
body [] = []
body (status ∷ lines) = lines

unfoldable pub read_response : List Bytes → Result (List Bytes)
unfolding body
read_response resp = elim (check_header resp) [ some e ↦ err e | none ↦ ok (body resp) ]

unfoldable pub finish : Exchange → Result (List Bytes)
unfolding read_response
finish (dial_failed e) = err e
finish (write_failed e) = err e
finish (read_failed e) = err e
finish (received bytes) = read_response (split bytes b'\n')

unfoldable pub send : {S : Type 0} → Network S → Bytes → Bool → S → Result (List Bytes) × S
unfolding finish
send net req extend_timeout s =
    let (x, s') = net req (read_timeout extend_timeout) s in (finish x, s')
