-- ===== src/Nss/Ids.antt =====
-- `ParseId` on the numbers that the daemon writes.
use compute_user_accounts.Base.{
  ℕ, suc, ◌+◌, ◌-◌, ◌*◌, ◌≤◌, ◌≡◌, [], ◌∷◌, some, Bytes, true, false, ◌==◌, length, arith,
}
use compute_user_accounts.Go.Strconv.{parse_digits, parse_uint}
use compute_user_accounts.Accounts.{uint32}
use compute_user_accounts.Nss.Outcome.{done}
use compute_user_accounts.Nss.Strings.{
  max_int64, is_digit, is_space, scan_digits, long_at, signed_long, spaced_long, strtol, parse_id,
}

-- What `strconv.ParseUint` reads, `strtol` scans to the end.
scan-parse_digits :
    (n m read : ℕ) (s : Bytes)
    → parse_digits n s ≡ some m
    → scan_digits n read s ≡ (m, read + length s)
unfolding parse_digits scan_digits
scan-parse_digits n m read [] e = ground arith
scan-parse_digits n m read (c ∷ s) e =
    ground (arith, scan-parse_digits (n * 10 + (c - b'0')) m (suc read) s)

parse_digits-head : (n m c : ℕ) (s : Bytes) → parse_digits n (c ∷ s) ≡ some m → is_digit c ≡ true
unfolding parse_digits
parse_digits-head n m c s e = ground arith

digit_starts :
    (c : ℕ)
    → is_digit c ≡ true
    → (is_space c ≡ false) × ((c == b'-') ≡ false) × ((c == b'+') ≡ false)
digit_starts c d = (ground arith, ground arith, ground arith)

strtol-parse_digits :
    (m c : ℕ) (s : Bytes)
    → parse_digits 0 (c ∷ s) ≡ some m
    → m ≤ max_int64
    → strtol (c ∷ s) ≡ record { negative = false; magnitude = m; end = length (c ∷ s) }
unfolding strtol spaced_long signed_long long_at
strtol-parse_digits m c s e h =
    let (space, minus, plus) = digit_starts c (parse_digits-head 0 m c s e) in
    let scanned : scan_digits 0 0 (c ∷ s) ≡ (m, 0 + length (c ∷ s)) =
      scan-parse_digits 0 m 0 (c ∷ s) e in
    rw (space, minus, plus, scanned) (ground arith)

-- A number that the Go side writes or accepts, of less than 64 bits, is read as its low 32 bits.
pub parse_id-parse_uint :
    (value : Bytes) (m : ℕ)
    → parse_uint value ≡ some m
    → m ≤ max_int64
    → parse_id value ≡ done (uint32 m)
unfolding parse_uint parse_id
parse_id-parse_uint [] m e h = absurd cc
parse_id-parse_uint (c ∷ s) m e h = rw (strtol-parse_digits m c s e h) (ground arith)
