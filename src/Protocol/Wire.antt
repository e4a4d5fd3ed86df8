-- ===== src/Protocol/Wire.antt =====
-- The socket that joins `Client.send` to `Server.handle`, and one exchange over it.
use compute_user_accounts.Base.{
  ℕ, ◌≤◌, ◌≡◌, refl, List, [], ◌∷◌, ◌++◌, Bool, Option, none, some, arith, Bytes, codes, bytes_eq,
  ltb, if◌then◌else◌, false, take, length, All, Lacks, suc, zero, ap,
}
use compute_user_accounts.Go.Strings.{split, split-append, split-Lacks}
use compute_user_accounts.Accounts.{
  Error, not_found, message, zero_not_found, Result, ok, err, AccountProvider,
}
use compute_user_accounts.Server.Marshal.{marshal_error, write_lines}
use compute_user_accounts.Server.Respond.{
  respond, respond_parts, dispatch, handle, max_request_size,
}
use compute_user_accounts.Client.Send.{
  Exchange, read_failed, received, Network, check_header, finish, send,
}

-- What the client sees of an error: its kind, and not its text.
abbrev pub wire_error : Error → Error
wire_error (not_found e) = not_found zero_not_found
wire_error (message m) = message (codes "request failed")

abbrev pub over_wire : {A S : Type 0} → Result A × S → Result A × S
over_wire (ok a, s) = (ok a, s)
over_wire (err e, s) = (err (wire_error e), s)

-- A property of the value of an answer; an error has it.
abbrev pub IsOk : {A : Type 0} → (A → Type 0) → Result A → Type 0
IsOk P (ok a) = P a
IsOk P (err e) = Unit {0}

module _ {S : Type 0} where
  -- A closed connection with nothing written reads as no bytes.
  abbrev pub deliver : Option Bytes × S → Exchange × S
  deliver (none, s) = (received [], s)
  deliver (some resp, s) = (received resp, s)

  -- The server reads the client's request in one piece, and nothing else fails or times out. Of a
  -- request that is longer than the server's buffer the rest is unread when the server closes the
  -- connection, so that the client's read ends in an error.
  abbrev pub direct : AccountProvider S → Network S
  direct p req timeout s =
      let (answer, s') = handle p (some req) s in
      if ltb max_request_size (length req)
      then (read_failed (message (codes "connection reset by peer")), s')
      else deliver (answer, s')

  abbrev pub finish_reply : Bytes × S → Result (List Bytes) × S
  finish_reply (resp, s) = (finish (received resp), s)

pub take_all : (n : ℕ) (xs : Bytes) → length xs ≤ n → take n xs ≡ xs
take_all zero [] h = refl
take_all zero (x ∷ xs) h = absurd (omega arith)
take_all (suc n) [] h = refl
take_all (suc n) (x ∷ xs) h = ap (◌∷◌ x) (take_all n xs (omega arith))

module _ {S : Type 0} (p : AccountProvider S) where
  -- A request that fits is answered by `respond`.
  pub send-direct :
      (req : Bytes) (extend : Bool) (s : S)
      → length req ≤ max_request_size
      → send (direct p) req extend s ≡ finish_reply (respond p req s)
  unfolding send handle
  send-direct [] extend s h =
      unfold split respond respond_parts dispatch bytes_eq check_header in refl
  send-direct (c ∷ req) extend s h =
      let fits : ltb max_request_size (length (c ∷ req)) ≡ false = ground arith in
      rw (fits, take_all max_request_size (c ∷ req) h) refl

  pub respond_bare : (cmd : Bytes) (s : S) → Lacks b' ' cmd → respond p cmd s ≡ dispatch p cmd [] s
  unfolding respond
  respond_bare cmd s h = rw (split-Lacks cmd b' ' h)

  pub respond_arg :
      (cmd arg : Bytes) (s : S)
      → Lacks b' ' cmd
      → Lacks b' ' arg
      → respond p (cmd ++ b' ' ∷ arg) s ≡ dispatch p cmd (arg ∷ []) s
  unfolding respond
  respond_arg cmd arg s h k = rw (split-append cmd arg b' ' h, split-Lacks arg b' ' k)

pub finish-marshal_error : (e : Error) → finish (received (marshal_error e)) ≡ err (wire_error e)
unfolding finish marshal_error check_header bytes_eq split
finish-marshal_error (not_found e) = refl
finish-marshal_error (message m) = refl

pub split-write_lines :
    (l : Bytes) (ls : List Bytes)
    → Lacks b'\n' l
    → All (Lacks b'\n') ls
    → split (l ++ write_lines ls) b'\n' ≡ l ∷ ls
unfolding write_lines
split-write_lines l [] h k = rw mathlib.Core.List.append-nil (split-Lacks l b'\n' h)
split-write_lines l (m ∷ ls) h k =
    rw (split-append l (m ++ write_lines ls) b'\n' h) (ap (◌∷◌ l) (split-write_lines m ls k.0 k.1))

-- The lines of a `200` are what `send` returns.
pub finish_lines :
    (ls : List Bytes)
    → All (Lacks b'\n') ls
    → finish (received (codes "200" ++ write_lines ls)) ≡ ok ls
unfolding finish check_header bytes_eq
finish_lines ls h = rw (split-write_lines (codes "200") ls (omega arith) h)

pub finish_line : (l : Bytes) → Lacks b'\n' l → finish (received (codes "200\n" ++ l)) ≡ ok (l ∷ [])
unfolding finish check_header bytes_eq
finish_line l h = rw (split-append (codes "200") l b'\n' (omega arith), split-Lacks l b'\n' h)
