-- ===== src/Protocol/Received.antt =====
-- What the client makes of whatever bytes it receives.
use compute_user_accounts.Base.{
  ℕ, ◌≤◌, ◌≢◌, inl, inr, List, [], ◌∷◌, Option-cases, arith, Bytes, bytes_eq, All, Lacks,
}
use compute_user_accounts.Go.Strings.{split, split-no_separator, split-All_Lacks, split-ne-empty}
use compute_user_accounts.Go.Strconv.{parse_uint}
use compute_user_accounts.Accounts.{Result, ok, err, max_uint32, uint32}
use compute_user_accounts.Client.Send.{
  Exchange, dial_failed, write_failed, read_failed, received, Network, check_header, body,
  read_response, finish, send,
}
use compute_user_accounts.Client.Unmarshal.{
  read_user, user_parts, unmarshal_user, read_members, read_group, group_parts, unmarshal_group,
}
use compute_user_accounts.Client.Calls.{first_line, cons_result, each_line, all_lines, client}
use compute_user_accounts.Client.Calls
use compute_user_accounts.Protocol.Safe.{IsField, IsSafeUser, IsMember, IsSafeGroup}
use compute_user_accounts.Protocol.Wire.{IsOk}
use compute_user_accounts.Protocol.Refinement.{IsSafeAt}

uint32-le : (n : ℕ) → uint32 n ≤ max_uint32
uint32-le n = omega arith

All-zip :
    {A : Type 0} (P Q : A → Type 0) (xs : List A) → All P xs → All Q xs → All (λ a. P a × Q a) xs
All-zip P Q [] h k = tt
All-zip P Q (x ∷ xs) h k = ((h.0, k.0), All-zip P Q xs h.1 k.1)

-- The parts of a line of a response.
line_parts : (line : Bytes) → Lacks b'\n' line → All IsField (split line b':')
line_parts line h =
    All-zip (Lacks b':') (Lacks b'\n') (split line b':') (split-no_separator line b':')
      (split-All_Lacks b'\n' line b':' h)

read_user-IsSafe :
    (line name uid gid gecos home shell : Bytes)
    → IsField name
    → IsField gecos
    → IsField home
    → IsField shell
    → IsOk IsSafeUser (read_user line name uid gid gecos home shell)
unfolding read_user
read_user-IsSafe line name uid gid gecos home shell n g h s = elim (Option-cases (parse_uint uid)) [
  | inl e ↦ rw (e, read_user) tt
  | inr (u, e) ↦ elim (Option-cases (parse_uint gid)) [
    | inl f ↦ rw (e, read_user, f) tt
    | inr (v, f) ↦
        rw (e, read_user, f)
          (record {
            name = n;
            gecos = g;
            home_directory = h;
            shell = s;
            uid = uint32-le u;
            gid = uint32-le v;
          })
  ]
]

user_parts-IsSafe :
    (line : Bytes) (parts : List Bytes)
    → All IsField parts
    → IsOk IsSafeUser (user_parts line parts)
unfolding user_parts
user_parts-IsSafe line [] h = tt
user_parts-IsSafe line (name ∷ []) h = tt
user_parts-IsSafe line (name ∷ uid ∷ []) h = tt
user_parts-IsSafe line (name ∷ uid ∷ gid ∷ []) h = tt
user_parts-IsSafe line (name ∷ uid ∷ gid ∷ gecos ∷ []) h = tt
user_parts-IsSafe line (name ∷ uid ∷ gid ∷ gecos ∷ home ∷ []) h = tt
user_parts-IsSafe line (name ∷ uid ∷ gid ∷ gecos ∷ home ∷ shell ∷ [])
      (n, (u, (g, (o, (d, (s, r)))))) =
    read_user-IsSafe line name uid gid gecos home shell n o d s
user_parts-IsSafe line (name ∷ uid ∷ gid ∷ gecos ∷ home ∷ shell ∷ x ∷ xs) h = tt

-- A line that `unmarshalUser` accepts gives a user that `marshalUser` can write.
unmarshal_user-IsSafe : (line : Bytes) → Lacks b'\n' line → IsOk IsSafeUser (unmarshal_user line)
unfolding unmarshal_user
unmarshal_user-IsSafe line h = user_parts-IsSafe line (split line b':') (line_parts line h)

-- Parts that hold none of the three separators.
All-IsMember :
    (ms : List Bytes)
    → All (Lacks b':') ms
    → All (Lacks b'\n') ms
    → All (Lacks b',') ms
    → All IsMember ms
All-IsMember [] h k l = tt
All-IsMember (m ∷ ms) h k l = ((h.0, k.0, l.0), All-IsMember ms h.1 k.1 l.1)

read_members-IsMember :
    (mem : Bytes) → IsField mem → All IsMember (read_members mem) × (read_members mem ≢ [] ∷ [])
unfolding read_members bytes_eq
read_members-IsMember [] h = (tt, λ e. cc)
read_members-IsMember (c ∷ mem) (colon, feed) = (
  All-IsMember (split (c ∷ mem) b',') (split-All_Lacks b':' (c ∷ mem) b',' colon)
      (split-All_Lacks b'\n' (c ∷ mem) b',' feed) (split-no_separator (c ∷ mem) b','),
  split-ne-empty c mem b',',
)

read_group-IsSafe :
    (line name gid mem : Bytes)
    → IsField name
    → IsField mem
    → IsOk IsSafeGroup (read_group line name gid mem)
unfolding read_group
read_group-IsSafe line name gid mem n h = elim (Option-cases (parse_uint gid)) [
  | inl e ↦ rw (e, read_group) tt
  | inr (g, e) ↦
      let (members, several) = read_members-IsMember mem h in
      rw (e, read_group)
        (record { name = n; members = members; several = several; gid = uint32-le g })
]

group_parts-IsSafe :
    (line : Bytes) (parts : List Bytes)
    → All IsField parts
    → IsOk IsSafeGroup (group_parts line parts)
unfolding group_parts
group_parts-IsSafe line [] h = tt
group_parts-IsSafe line (name ∷ []) h = tt
group_parts-IsSafe line (name ∷ gid ∷ []) h = tt
group_parts-IsSafe line (name ∷ gid ∷ mem ∷ []) (n, (g, (m, r))) =
    read_group-IsSafe line name gid mem n m
group_parts-IsSafe line (name ∷ gid ∷ mem ∷ x ∷ xs) h = tt

unmarshal_group-IsSafe : (line : Bytes) → Lacks b'\n' line → IsOk IsSafeGroup (unmarshal_group line)
unfolding unmarshal_group
unmarshal_group-IsSafe line h = group_parts-IsSafe line (split line b':') (line_parts line h)

body-All : (P : Bytes → Type 0) (resp : List Bytes) → All P resp → All P (body resp)
unfolding body
body-All P [] h = tt
body-All P (status ∷ lines) h = h.1

-- The lines of a response hold no line feed, however the exchange ends.
finish-lines : (x : Exchange) → IsOk (All (Lacks b'\n')) (finish x)
unfolding finish
finish-lines (dial_failed e) = tt
finish-lines (write_failed e) = tt
finish-lines (read_failed e) = tt
finish-lines (received bytes) = elim (Option-cases (check_header (split bytes b'\n'))) [
  | inl e ↦
      rw (e, read_response)
        (body-All (Lacks b'\n') (split bytes b'\n') (split-no_separator bytes b'\n'))
  | inr (x, e) ↦ rw (e, read_response) tt
]

module _ {A : Type 0} (P : A → Type 0) (f : Bytes → Result A)
    (safe : (line : Bytes) → Lacks b'\n' line → IsOk P (f line)) where
  first_line-IsOk :
      (missing : Bytes) (r : Result (List Bytes))
      → IsOk (All (Lacks b'\n')) r
      → IsOk P (first_line missing f r)
  unfolding first_line
  first_line-IsOk missing (err e) h = tt
  first_line-IsOk missing (ok []) h = tt
  first_line-IsOk missing (ok (l ∷ ls)) h = safe l h.0

  cons_result-IsOk :
      (a : Result A) (rest : Result (List A))
      → IsOk P a
      → IsOk (All P) rest
      → IsOk (All P) (cons_result a rest)
  unfolding cons_result
  cons_result-IsOk (err e) rest h k = tt
  cons_result-IsOk (ok a) (err e) h k = tt
  cons_result-IsOk (ok a) (ok xs) h k = (h, k)

  each_line-IsOk : (ls : List Bytes) → All (Lacks b'\n') ls → IsOk (All P) (each_line f ls)
  unfolding each_line
  each_line-IsOk [] h = tt
  each_line-IsOk (l ∷ ls) h =
      cons_result-IsOk (f l) (each_line f ls) (safe l h.0) (each_line-IsOk ls h.1)

  all_lines-IsOk :
      (r : Result (List Bytes)) → IsOk (All (Lacks b'\n')) r → IsOk (All P) (all_lines f r)
  unfolding all_lines
  all_lines-IsOk (err e) h = tt
  all_lines-IsOk (ok ls) h = each_line-IsOk ls h

-- Whatever the other end of the socket does, and whatever bytes it sends: the calls of the client return
-- an error, or users and groups that the line format carries: no text has a colon or a line feed, no
-- member a comma, the numbers have 32 bits, and names and keys have no line feed. So the client can stand
-- as the provider behind another server.
pub client-IsSafe :
    {S : Type 0} (net : Network S) (name : Bytes) (id : ℕ) (s : S) → IsSafeAt (client net) name id s
unfolding client Calls.user_by_name Calls.user_by_uid Calls.user Calls.users Calls.group_by_name
    Calls.group_by_gid Calls.group Calls.groups Calls.names Calls.authorized_keys send
client-IsSafe net name id s = record {
  user_named = first_line-IsOk IsSafeUser unmarshal_user unmarshal_user-IsSafe _ _ (finish-lines _);
  user_numbered =
      first_line-IsOk IsSafeUser unmarshal_user unmarshal_user-IsSafe _ _ (finish-lines _);
  all_users = all_lines-IsOk IsSafeUser unmarshal_user unmarshal_user-IsSafe _ (finish-lines _);
  group_named =
      first_line-IsOk IsSafeGroup unmarshal_group unmarshal_group-IsSafe _ _ (finish-lines _);
  group_numbered =
      first_line-IsOk IsSafeGroup unmarshal_group unmarshal_group-IsSafe _ _ (finish-lines _);
  all_groups = all_lines-IsOk IsSafeGroup unmarshal_group unmarshal_group-IsSafe _ (finish-lines _);
  all_names = finish-lines _;
  keys = finish-lines _;
}
