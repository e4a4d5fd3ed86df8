-- ===== src/Protocol/Answers.antt =====
-- What the client makes of each kind of answer of the server.
use mathlib.Core.List.{map}
use compute_user_accounts.Base.{
  ◌≡◌, refl, ap, List, [], ◌∷◌, Bool, true, false, Bytes, codes, bytes_eq, All, Lacks,
}
use compute_user_accounts.Go.Strings.{split}
use compute_user_accounts.Accounts.{User, Group, not_found, message, Result, ok, err}
use compute_user_accounts.Server.Marshal.{marshal_error, marshal_user, marshal_group}
use compute_user_accounts.Server.Respond.{reply_user, reply_group, reply_lines, reply_is}
use compute_user_accounts.Client.Send.{finish, check_header}
use compute_user_accounts.Client.Unmarshal.{unmarshal_user, unmarshal_group}
use compute_user_accounts.Client.Calls.{first_line, each_line, all_lines, found}
use compute_user_accounts.Protocol.Safe.{IsSafeUser, IsSafeGroup}
use compute_user_accounts.Protocol.RoundTrip.{
  unmarshal-marshal_user, unmarshal-marshal_group, marshal_user-Lacks, marshal_group-Lacks,
}
use compute_user_accounts.Protocol.Wire.{
  wire_error, over_wire, IsOk, finish_reply, finish-marshal_error, finish_lines, finish_line,
}

-- What the client makes of a pair of an answer and a state.
abbrev pub on_answer : {A B S : Type 0} → (A → B) → A × S → B × S
on_answer f r = (f r.0, r.1)

module _ {S : Type 0} where
  pub wire_user :
      (r : Result User × S)
      → IsOk IsSafeUser r.0
      → on_answer
          (first_line (codes "no user in response") unmarshal_user)
          (finish_reply (reply_user r))
        ≡ over_wire r
  unfolding reply_user first_line
  wire_user (ok u, s) safe =
      rw (finish_line (marshal_user u) (marshal_user-Lacks u safe), unmarshal-marshal_user u safe)
  wire_user (err e, s) safe = rw (finish-marshal_error e)

  pub wire_group :
      (r : Result Group × S)
      → IsOk IsSafeGroup r.0
      → on_answer
          (first_line (codes "no group in response") unmarshal_group)
          (finish_reply (reply_group r))
        ≡ over_wire r
  unfolding reply_group first_line
  wire_group (ok g, s) safe =
      rw
        (finish_line (marshal_group g) (marshal_group-Lacks g safe), unmarshal-marshal_group g safe)
  wire_group (err e, s) safe = rw (finish-marshal_error e)

module _ {A : Type 0} (P : A → Type 0) (write : A → Bytes) (read : Bytes → Result A)
    (one_line : (a : A) → P a → Lacks b'\n' (write a))
    (back : (a : A) → P a → read (write a) ≡ ok a) where
  All-one_line : (xs : List A) → All P xs → All (Lacks b'\n') (map write xs)
  All-one_line [] h = tt
  All-one_line (x ∷ xs) h = (one_line x h.0, All-one_line xs h.1)

  each-map : (xs : List A) → All P xs → each_line read (map write xs) ≡ ok xs
  unfolding each_line
  each-map [] h = refl
  each-map (x ∷ xs) h = rw (back x h.0, each-map xs h.1)

  pub wire-All :
      {S : Type 0} (r : Result (List A) × S)
      → IsOk (All P) r.0
      → on_answer (all_lines read) (finish_reply (reply_lines write r)) ≡ over_wire r
  unfolding reply_lines all_lines
  wire-All (ok xs, s) safe =
      rw (finish_lines (map write xs) (All-one_line xs safe), each-map xs safe)
  wire-All (err e, s) safe = rw (finish-marshal_error e)

map_id : (xs : List Bytes) → map (λ x. x) xs ≡ xs
map_id [] = refl
map_id (x ∷ xs) = ap (◌∷◌ x) (map_id xs)

pub wire_texts :
    {S : Type 0} (r : Result (List Bytes) × S)
    → IsOk (All (Lacks b'\n')) r.0
    → finish_reply (reply_lines (λ x. x) r) ≡ over_wire r
unfolding reply_lines
wire_texts (ok xs, s) safe = rw (map_id xs, finish_lines xs safe)
wire_texts (err e, s) safe = rw (finish-marshal_error e)

-- Not found is the answer false.
abbrev pub is_name_over_wire : {S : Type 0} → Result Bool × S → Result Bool × S
is_name_over_wire (ok b, s) = (ok b, s)
is_name_over_wire (err (not_found e), s) = (ok false, s)
is_name_over_wire (err (message m), s) = (err (wire_error (message m)), s)

pub wire_is :
    {S : Type 0} (r : Result Bool × S)
    → on_answer found (finish_reply (reply_is r)) ≡ is_name_over_wire r
unfolding reply_is found finish split check_header bytes_eq marshal_error
wire_is (ok true, s) = refl
wire_is (ok false, s) = refl
wire_is (err (not_found e), s) = refl
wire_is (err (message m), s) = refl
