-- ===== src/Nss/Held.antt =====
-- What stands in the buffer behind the pointers of an entry.
use compute_user_accounts.Base.{
  ℕ, ◌+◌, ◌≤◌, ◌<◌, ◌≡◌, refl, ◌∙◌, inl, inr, ◌⊎◌, List, [], ◌∷◌, Bytes, Bool-cases, ltb, ◌==◌,
  if◌then◌else◌, arith, Option, some, none,
}
use compute_user_accounts.Accounts.{User}
use compute_user_accounts.Server.Marshal.{marshal_user}
use compute_user_accounts.Protocol.Safe.{IsSafeUser}
use compute_user_accounts.Nss.Outcome.{done, thrown, length_error}
use compute_user_accounts.Nss.Buffer.{BufferManager, Chunk, text, c_string}
use compute_user_accounts.Nss.Convert.{Passwd, user_line_to_passwd_struct}
use compute_user_accounts.Nss.Entries.{needed, entry_of, buffer_of, password}
use compute_user_accounts.Nss.Answers.{user_line-fitted}

-- The last chunk that was written at an address.
abbrev pub chunk_at : ℕ → List (ℕ × Chunk) → Option Chunk
chunk_at a [] = none
chunk_at a ((place, chunk) ∷ chunks) =
    let rest = chunk_at a chunks in if place == a then some chunk else rest

abbrev pub Holds : ℕ → Bytes → BufferManager → Type 0
Holds a value b = chunk_at a b.chunks ≡ some (text (c_string value))

-- The buffer between its states before and after: what is written is what was free.
pub record IsEntry (u : User) (b : BufferManager) (pwd : Passwd) (b' : BufferManager) : Type 0 where
  pub name : Holds pwd.pw_name u.name b'
  pub passwd : Holds pwd.pw_passwd password b'
  pub uid : pwd.pw_uid ≡ u.uid
  pub gid : pwd.pw_gid ≡ u.gid
  pub gecos : Holds pwd.pw_gecos u.gecos b'
  pub dir : Holds pwd.pw_dir u.home_directory b'
  pub shell : Holds pwd.pw_shell u.shell b'
  pub bounds : b'.address + b'.size ≡ b.address + b.size

entry_of-IsEntry :
    (u : User) (b : BufferManager) → needed u ≤ b.size → IsEntry u b (entry_of u b) (buffer_of u b)
entry_of-IsEntry u b h = record {
  name = ground arith;
  passwd = ground arith;
  uid = refl;
  gid = refl;
  gecos = ground arith;
  dir = ground arith;
  shell = ground arith;
  bounds = omega arith;
}

-- The line of a user is converted exactly if the buffer has room for its strings; then the pointers of
-- the entry hold the user's texts, up to a null byte, and what was written is what was free.
pub user_line-IsEntry :
    (u : User) (b : BufferManager)
    → IsSafeUser u
    → ((needed u ≤ b.size)
        × (pwd : Passwd) × (b' : BufferManager) × (user_line_to_passwd_struct (marshal_user u) b
            ≡ done (pwd, b'))
        × IsEntry u b pwd b')
      ⊎ ((b.size < needed u)
          × (user_line_to_passwd_struct (marshal_user u) b ≡ thrown length_error))
user_line-IsEntry u b safe = elim (Bool-cases (ltb b.size (needed u))) [
  | inl small ↦ inr (ground arith, user_line-fitted u b safe ∙ rw small refl)
  | inr room ↦
      let fits : needed u ≤ b.size = ground arith in
      inl (
        fits,
        entry_of u b,
        buffer_of u b,
        user_line-fitted u b safe ∙ rw room refl,
        entry_of-IsEntry u b fits,
      )
]
