-- ===== src/Nss/Entries.antt =====
-- What `UserLineToPasswdStruct` writes into the buffer, and when it fits.
use compute_user_accounts.Base.{
  ℕ, ◌+◌, ◌-◌, ◌≤◌, ◌<◌, ◌≡◌, refl, [], ◌∷◌, Bytes, codes, length, arith,
}
use compute_user_accounts.Accounts.{User}
use compute_user_accounts.Nss.Outcome.{done, thrown, length_error}
use compute_user_accounts.Nss.Strings.{parse_id}
use compute_user_accounts.Nss.Buffer.{BufferManager, text, c_string, reserve, append_string}
use compute_user_accounts.Nss.Convert.{Passwd, passwd_fields}

-- The buffer behind a string.
abbrev pub behind : Bytes → BufferManager → BufferManager
behind v b = record {
  address = b.address + (length v + 1);
  size = b.size - (length v + 1);
  chunks = (b.address, text (c_string v)) ∷ b.chunks;
}

pub append_string-fits :
    (v : Bytes) (b : BufferManager)
    → length v + 1 ≤ b.size
    → append_string v b ≡ done (b.address, behind v b)
unfolding append_string reserve
append_string-fits v b h = ground arith

pub append_string-full :
    (v : Bytes) (b : BufferManager)
    → b.size < length v + 1
    → append_string v b ≡ thrown length_error
unfolding append_string reserve
append_string-full v b h = ground arith

-- The bytes that the strings of an entry take.
abbrev pub needed : User → ℕ
needed u =
    length u.name
    + 1
    + 2
    + (length u.gecos + 1)
    + (length u.home_directory + 1)
    + (length u.shell + 1)

abbrev pub password : Bytes
password = codes "x"

abbrev pub entry_of : User → BufferManager → Passwd
entry_of u b = record {
  pw_name = b.address;
  pw_passwd = (behind u.name b).address;
  pw_uid = u.uid;
  pw_gid = u.gid;
  pw_gecos = (behind password (behind u.name b)).address;
  pw_dir = (behind u.gecos (behind password (behind u.name b))).address;
  pw_shell = (behind u.home_directory (behind u.gecos (behind password (behind u.name b)))).address;
}

abbrev pub buffer_of : User → BufferManager → BufferManager
buffer_of u b =
    behind u.shell (behind u.home_directory (behind u.gecos (behind password (behind u.name b))))

pub passwd_fields-fits :
    (u : User) (uid gid : Bytes) (b : BufferManager)
    → parse_id uid ≡ done u.uid
    → parse_id gid ≡ done u.gid
    → needed u ≤ b.size
    → passwd_fields (u.name ∷ uid ∷ gid ∷ u.gecos ∷ u.home_directory ∷ u.shell ∷ []) b
      ≡ done (entry_of u b, buffer_of u b)
unfolding passwd_fields
passwd_fields-fits u uid gid b e f h =
    let b1 = behind u.name b in
    let b2 = behind password b1 in
    let b3 = behind u.gecos b2 in
    let b4 = behind u.home_directory b3 in
    rw
      (
        append_string-fits u.name b (omega arith),
        append_string-fits password b1 (omega arith),
        e,
        f,
        append_string-fits u.gecos b2 (omega arith),
        append_string-fits u.home_directory b3 (omega arith),
        append_string-fits u.shell b4 (omega arith),
      )
      refl

pub passwd_fields-full :
    (u : User) (uid gid : Bytes) (b : BufferManager)
    → parse_id uid ≡ done u.uid
    → parse_id gid ≡ done u.gid
    → b.size < needed u
    → passwd_fields (u.name ∷ uid ∷ gid ∷ u.gecos ∷ u.home_directory ∷ u.shell ∷ []) b
      ≡ thrown length_error
unfolding passwd_fields append_string reserve
passwd_fields-full u uid gid b e f h = ground arith
