-- ===== src/Protocol/RoundTrip.antt =====
-- The lines of `marshalUser` and `marshalGroup` under `unmarshalUser` and `unmarshalGroup`.
use mathlib.Core.List.{cons-ne-nil}
use compute_user_accounts.Base.{
  ℕ, ◌≤◌, ◌≡◌, ◌≢◌, refl, Bool-cases, inl, inr, List, [], ◌∷◌, some, arith, Bytes, bytes_eq,
  bytes_eq_sound, All, All-map, Lacks,
}
use compute_user_accounts.Go.Strings.{split, join, split-join, join-Lacks}
use compute_user_accounts.Go.Strconv.{
  parse_uint, format_uint, parse-format, IsDigit, format_uint-Lacks,
}
use compute_user_accounts.Accounts.{User, Group, ok, max_uint32, uint32}
use compute_user_accounts.Server.Marshal.{marshal_user, marshal_group}
use compute_user_accounts.Client.Unmarshal.{
  unmarshal_user, unmarshal_group, read_user, read_group, read_members,
}
use compute_user_accounts.Protocol.Safe.{IsSafeUser, IsMember, IsSafeGroup}

colon_not_digit : (c : ℕ) → IsDigit c → c ≡ b':' → ⊥
colon_not_digit c d e = omega arith

line_feed_not_digit : (c : ℕ) → IsDigit c → c ≡ b'\n' → ⊥
line_feed_not_digit c d e = omega arith

pub uint32-small : (n : ℕ) → n ≤ max_uint32 → uint32 n ≡ n
uint32-small n h = omega arith

pub parse-uint32 : (n : ℕ) → n ≤ max_uint32 → parse_uint (format_uint n) ≡ some n
parse-uint32 n h = parse-format n (omega arith)

abbrev pub user_fields : User → List Bytes
user_fields u =
    u.name ∷ format_uint u.uid ∷ format_uint u.gid ∷ u.gecos ∷ u.home_directory ∷ u.shell ∷ []

abbrev pub group_fields : Group → List Bytes
group_fields g = g.name ∷ format_uint g.gid ∷ join g.members b',' ∷ []

pub split-marshal_user : (u : User) → IsSafeUser u → split (marshal_user u) b':' ≡ user_fields u
unfolding marshal_user
split-marshal_user u safe = split-join (user_fields u) b':' (cons-ne-nil _ _) (
  safe.name.0,
  (
    format_uint-Lacks b':' u.uid colon_not_digit,
    (
      format_uint-Lacks b':' u.gid colon_not_digit,
      (safe.gecos.0, (safe.home_directory.0, (safe.shell.0, tt))),
    ),
  ),
)

read_user_lem :
    (line : Bytes) (u : User) (uid gid : Bytes)
    → parse_uint uid ≡ some u.uid
    → parse_uint gid ≡ some u.gid
    → u.uid ≤ max_uint32
    → u.gid ≤ max_uint32
    → read_user line u.name uid gid u.gecos u.home_directory u.shell ≡ ok u
unfolding read_user
read_user_lem line u uid gid e f h k =
    rw (e, read_user, f, uint32-small u.uid h, uint32-small u.gid k)

-- A user whose texts hold no colon and no line feed, and whose UID and GID have 32 bits, is read back
-- from the line that `marshalUser` writes.
pub unmarshal-marshal_user : (u : User) → IsSafeUser u → unmarshal_user (marshal_user u) ≡ ok u
unfolding unmarshal_user
unmarshal-marshal_user u safe = rw (split-marshal_user u safe) (
    read_user_lem (marshal_user u) u _ _ (parse-uint32 u.uid safe.uid) (parse-uint32 u.gid safe.gid)
      safe.uid safe.gid)

join-ne-nil : (ms : List Bytes) → ms ≢ [] → ms ≢ [] ∷ [] → join ms b',' ≢ []
unfolding join
join-ne-nil [] h k e = h refl
join-ne-nil ([] ∷ []) h k e = k refl
join-ne-nil ((c ∷ m) ∷ []) h k e = cc
join-ne-nil ([] ∷ q ∷ ms) h k e = cc
join-ne-nil ((c ∷ m) ∷ q ∷ ms) h k e = cc

pub read-join :
    (ms : List Bytes) → All IsMember ms → ms ≢ [] ∷ [] → read_members (join ms b',') ≡ ms
unfolding read_members bytes_eq
read-join [] h k = unfold join in refl
read-join (m ∷ ms) h k = elim (Bool-cases (bytes_eq (join (m ∷ ms) b',') [])) [
  | inl empty ↦ absurd (join-ne-nil (m ∷ ms) (λ e. cc) k (bytes_eq_sound _ _ empty))
  | inr full ↦
      rw full (split-join (m ∷ ms) b',' (λ e. cc) (All-map IsMember _ (λ s p. p.2) (m ∷ ms) h))
]

members-Lacks : (ms : List Bytes) → All IsMember ms → Lacks b':' (join ms b',')
members-Lacks ms h =
    join-Lacks b':' b',' ms (λ e. omega arith) (All-map IsMember _ (λ s p. p.0) ms h)

pub split-marshal_group :
    (g : Group) → IsSafeGroup g → split (marshal_group g) b':' ≡ group_fields g
unfolding marshal_group
split-marshal_group g safe = split-join (group_fields g) b':' (cons-ne-nil _ _) (
  safe.name.0,
  (format_uint-Lacks b':' g.gid colon_not_digit, (members-Lacks g.members safe.members, tt)),
)

read_group_lem :
    (line : Bytes) (g : Group) (gid mem : Bytes)
    → parse_uint gid ≡ some g.gid
    → g.gid ≤ max_uint32
    → read_members mem ≡ g.members
    → read_group line g.name gid mem ≡ ok g
unfolding read_group
read_group_lem line g gid mem e h k = rw (e, read_group, uint32-small g.gid h, k)

-- A group whose name and members hold no separator, whose members are not one empty name, and whose
-- GID has 32 bits, is read back from the line that `marshalGroup` writes.
pub unmarshal-marshal_group : (g : Group) → IsSafeGroup g → unmarshal_group (marshal_group g) ≡ ok g
unfolding unmarshal_group
unmarshal-marshal_group g safe = rw (split-marshal_group g safe) (
    read_group_lem (marshal_group g) g _ _ (parse-uint32 g.gid safe.gid) safe.gid
      (read-join g.members safe.members safe.several))

-- A line is one line: it holds no line feed.
pub marshal_user-Lacks : (u : User) → IsSafeUser u → Lacks b'\n' (marshal_user u)
unfolding marshal_user
marshal_user-Lacks u safe =
    join-Lacks b'\n' b':' (user_fields u) (λ e. omega arith)
      (
        safe.name.1,
        (
          format_uint-Lacks b'\n' u.uid line_feed_not_digit,
          (
            format_uint-Lacks b'\n' u.gid line_feed_not_digit,
            (safe.gecos.1, (safe.home_directory.1, (safe.shell.1, tt))),
          ),
        ),
      )

pub marshal_group-Lacks : (g : Group) → IsSafeGroup g → Lacks b'\n' (marshal_group g)
unfolding marshal_group
marshal_group-Lacks g safe =
    join-Lacks b'\n' b':' (group_fields g) (λ e. omega arith)
      (
        safe.name.1,
        (
          format_uint-Lacks b'\n' g.gid line_feed_not_digit,
          (
            join-Lacks b'\n' b',' g.members (λ e. omega arith)
                (All-map IsMember _ (λ s p. p.1) g.members safe.members),
            tt,
          ),
        ),
      )
