-- ===== src/Nss/Groups.antt =====
-- What `GroupLineToGroupStruct` makes of the line of a group, and when it fits.
use compute_user_accounts.Base.{
  ℕ, ◌+◌, ◌*◌, ◌≤◌, ◌<◌, ◌≡◌, ◌≢◌, refl, sym, ap, ◌∙◌, inl, inr, ◌⊎◌, List, [], ◌∷◌, Bytes,
  bytes_eq, Bool-cases, ltb, arith, some, length,
}
use compute_user_accounts.Go.Strings.{split, join}
use compute_user_accounts.Go.Strconv.{format_uint}
use compute_user_accounts.Accounts
use compute_user_accounts.Server.Marshal.{marshal_group}
use compute_user_accounts.Client.Unmarshal.{read_members}
use compute_user_accounts.Protocol.Safe.{IsSafeGroup}
use compute_user_accounts.Protocol.RoundTrip.{
  split-marshal_group, read-join, group_fields as fields,
}
use compute_user_accounts.Nss.Outcome.{done, thrown, length_error}
use compute_user_accounts.Nss.Strings.{tokenize_string, parse_id}
use compute_user_accounts.Nss.Tokens.{tokenize_string-split}
use compute_user_accounts.Nss.Buffer.{BufferManager, pointers}
use compute_user_accounts.Nss.Convert.{Group, group_fields, group_line_to_group_struct}
use compute_user_accounts.Nss.Entries.{behind, password, append_string-fits, append_string-full}
use compute_user_accounts.Nss.Vector.{
  total, vector_of, places, behind_array, append_vector-fits, append_vector-full, HoldsAll,
  vector_of-HoldsAll, vector_of-bounds, chunk_at-behind_all,
}
use compute_user_accounts.Nss.Held.{chunk_at, Holds}
use compute_user_accounts.Nss.Answers.{parse_id-uint32}

-- The bytes that the strings and the array of an entry take.
abbrev pub group_needed : Accounts.Group → ℕ
group_needed g = length g.name + 1 + 2 + ((length g.members + 1) * 8 + total g.members)

abbrev pub before_members : Accounts.Group → BufferManager → BufferManager
before_members g b = behind password (behind g.name b)

abbrev group_of : Accounts.Group → BufferManager → Group
group_of g b = record {
  gr_name = b.address;
  gr_passwd = (behind g.name b).address;
  gr_gid = g.gid;
  gr_mem = (before_members g b).address;
}

abbrev group_buffer : Accounts.Group → BufferManager → BufferManager
group_buffer g b = vector_of g.members (before_members g b)

-- The pointer array of the members holds their names, in order.
pub record IsGroupEntry (g : Accounts.Group) (b : BufferManager) (grp : Group) (b' : BufferManager)
    : Type 0 where
  pub name : Holds grp.gr_name g.name b'
  pub passwd : Holds grp.gr_passwd password b'
  pub gid : grp.gr_gid ≡ g.gid
  pub places : List ℕ
  pub array : chunk_at grp.gr_mem b'.chunks ≡ some (pointers places)
  pub members : HoldsAll places g.members b'.chunks
  pub bounds : b'.address + b'.size ≡ b.address + b.size

group_of-IsGroupEntry :
    (g : Accounts.Group) (b : BufferManager)
    → group_needed g ≤ b.size
    → IsGroupEntry g b (group_of g b) (group_buffer g b)
group_of-IsGroupEntry g b h =
    let c = before_members g b in
    record {
      name = ground (arith, chunk_at-behind_all g.members (behind_array g.members c) b.address);
      passwd = ground (
        arith,
        chunk_at-behind_all g.members (behind_array g.members c) (behind g.name b).address,
      );
      gid = refl;
      places = places g.members (behind_array g.members c);
      array = ground arith;
      members = vector_of-HoldsAll g.members c;
      bounds = vector_of-bounds g.members c (omega arith) ∙ omega arith;
    }

tokenize_string-members : (s : Bytes) → tokenize_string s b',' ≡ read_members s
unfolding read_members bytes_eq
tokenize_string-members [] = unfold tokenize_string in refl
tokenize_string-members (c ∷ s) = tokenize_string-split (c ∷ s) b',' (λ e. cc)

marshal_group-ne-nil : (g : Accounts.Group) → IsSafeGroup g → marshal_group g ≢ []
unfolding split
marshal_group-ne-nil g safe e =
    let parts : split [] b':' ≡ fields g =
      ap (λ s. split s b':') (sym e) ∙ split-marshal_group g safe in
    cc

group_fields-fits :
    (g : Accounts.Group) (gid mem : Bytes) (b : BufferManager)
    → parse_id gid ≡ done g.gid
    → tokenize_string mem b',' ≡ g.members
    → group_needed g ≤ b.size
    → group_fields (g.name ∷ gid ∷ mem ∷ []) b ≡ done (group_of g b, group_buffer g b)
unfolding group_fields
group_fields-fits g gid mem b e f h =
    rw
      (
        append_string-fits g.name b (omega arith),
        append_string-fits password (behind g.name b) (omega arith),
        e,
        f,
        append_vector-fits g.members (before_members g b) (omega arith),
      )
      refl

group_fields-full :
    (g : Accounts.Group) (gid mem : Bytes) (b : BufferManager)
    → parse_id gid ≡ done g.gid
    → tokenize_string mem b',' ≡ g.members
    → b.size < group_needed g
    → group_fields (g.name ∷ gid ∷ mem ∷ []) b ≡ thrown length_error
unfolding group_fields
group_fields-full g gid mem b e f h = elim (Bool-cases (ltb b.size (length g.name + 1))) [
  | inl t ↦ rw (append_string-full g.name b (ground arith)) refl
  | inr t ↦ elim (Bool-cases (ltb (behind g.name b).size 2)) [
    | inl u ↦
        rw
          (
            append_string-fits g.name b (ground arith),
            append_string-full password (behind g.name b) (ground arith),
          )
          refl
    | inr u ↦
        rw
          (
            append_string-fits g.name b (ground arith),
            append_string-fits password (behind g.name b) (ground arith),
            e,
            f,
            append_vector-full g.members (before_members g b) (ground arith),
          )
          refl
  ]
]

-- The line of a group is converted exactly if the buffer has room for its strings and for the array of
-- its members; then the pointers of the entry hold the name and the names of the members, up to a null
-- byte, and what was written is what was free.
pub group_line-IsGroupEntry :
    (g : Accounts.Group) (b : BufferManager)
    → IsSafeGroup g
    → ((group_needed g ≤ b.size)
        × (grp : Group) × (b' : BufferManager) × (group_line_to_group_struct (marshal_group g) b
            ≡ done (grp, b'))
        × IsGroupEntry g b grp b')
      ⊎ ((b.size < group_needed g)
          × (group_line_to_group_struct (marshal_group g) b ≡ thrown length_error))
unfolding group_line_to_group_struct
group_line-IsGroupEntry g b safe =
    let line : tokenize_string (marshal_group g) b':' ≡ fields g =
      tokenize_string-split (marshal_group g) b':' (marshal_group-ne-nil g safe)
      ∙ split-marshal_group g safe in
    let members : tokenize_string (join g.members b',') b',' ≡ g.members =
      tokenize_string-members (join g.members b',')
      ∙ read-join g.members safe.members safe.several in
    let gid = parse_id-uint32 g.gid safe.gid in
    elim (Bool-cases (ltb b.size (group_needed g))) [
      | inl small ↦
          let too_small : b.size < group_needed g = ground arith in
          inr (
            too_small,
            rw line (
                group_fields-full g (format_uint g.gid) (join g.members b',') b gid members
                  too_small),
          )
      | inr room ↦
          let fits : group_needed g ≤ b.size = ground arith in
          inl (
            fits,
            group_of g b,
            group_buffer g b,
            rw line
                (group_fields-fits g (format_uint g.gid) (join g.members b',') b gid members fits),
            group_of-IsGroupEntry g b fits,
          )
    ]
