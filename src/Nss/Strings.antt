-- ===== src/Nss/Strings.antt =====
-- `TokenizeString` and `ParseId`, with `std::string::find` and `std::strtol` at the base ten.
use compute_user_accounts.Base.{
  ℕ, zero, suc, ◌+◌, ◌-◌, ◌*◌, ◌^◌, List, [], ◌∷◌, Bool, true, false, not, ◌&&◌, ◌||◌, Option, none,
  some, Bytes, ltb, leb, ◌==◌, if◌then◌else◌, length, take,
}
use compute_user_accounts.Accounts.{uint32}
use compute_user_accounts.Nss.Outcome.{Outcome, done, thrown, runtime_error}

-- The place of the first byte that is `delim`; `none` is `npos`.
unfoldable pub find : ℕ → Bytes → Option ℕ
find delim [] = none
find delim (c ∷ s) =
    let rest = find delim s in
    if c == delim then some 0 else elim rest [ none ↦ none | some n ↦ some (suc n) ]

abbrev pub drop : ℕ → Bytes → Bytes
drop zero s = s
drop (suc n) [] = []
drop (suc n) (c ∷ s) = drop n s

-- The loop, on the text from `start_pos` on: a round for each token.
unfoldable pub tokens : (fuel : ℕ) → ℕ → Bytes → List Bytes
unfolding find
tokens zero delim s = []
tokens (suc fuel) delim s = elim (find delim s) [
  | none ↦ s ∷ []
  | some n ↦ take n s ∷ tokens fuel delim (drop (suc n) s)
]

unfoldable pub tokenize_string : Bytes → ℕ → List Bytes
unfolding tokens
tokenize_string [] delim = []
tokenize_string (c ∷ s) delim = tokens (suc (length (c ∷ s))) delim (c ∷ s)

abbrev pub max_int64 : ℕ
max_int64 = 2 ^ 63 - 1

-- What `strtol` returns, by sign and magnitude, and how far it has read.
pub record Long : Type 0 where
  pub negative : Bool
  pub magnitude : ℕ
  pub end : ℕ

abbrev pub is_digit : ℕ → Bool
is_digit c = leb b'0' c && leb c b'9'

abbrev pub is_space : ℕ → Bool
is_space c = c == b' ' || (leb 9 c && leb c 13)

-- The number that the digits at the front make, and how many they are.
unfoldable pub scan_digits : (n read : ℕ) → Bytes → ℕ × ℕ
scan_digits n read [] = (n, read)
scan_digits n read (c ∷ s) =
    let next = scan_digits (n * 10 + (c - b'0')) (suc read) s in
    if is_digit c then next else (n, read)

-- Out of range, the nearest number is returned.
abbrev pub clamp : Bool → ℕ → ℕ
clamp negative n =
    let limit = if negative then suc max_int64 else max_int64 in if ltb limit n then limit else n

-- Behind the sign, with `skipped` bytes before.
unfoldable pub long_at : Bool → ℕ → Bytes → Long
unfolding scan_digits
long_at negative skipped s =
    let (n, read) = scan_digits 0 0 s in
    if read == 0
    then record { negative = false; magnitude = 0; end = 0 }
    else record { negative = negative; magnitude = clamp negative n; end = skipped + read }

unfoldable pub signed_long : ℕ → Bytes → Long
unfolding long_at
signed_long skipped [] = long_at false skipped []
signed_long skipped (c ∷ s) =
    if c == b'-'
    then long_at true (suc skipped) s
    else if c == b'+'
    then long_at false (suc skipped) s
    else long_at false skipped (c ∷ s)

unfoldable pub spaced_long : ℕ → Bytes → Long
unfolding signed_long
spaced_long skipped [] = signed_long skipped []
spaced_long skipped (c ∷ s) =
    let rest = spaced_long (suc skipped) s in
    if is_space c then rest else signed_long skipped (c ∷ s)

unfoldable pub strtol : Bytes → Long
unfolding spaced_long
strtol value = spaced_long 0 value

unfoldable pub parse_id : Bytes → Outcome ℕ
unfolding strtol
parse_id [] = thrown runtime_error
parse_id (c ∷ s) =
    let id = strtol (c ∷ s) in
    if not (id.end == length (c ∷ s)) || (id.negative && ltb 0 id.magnitude)
    then thrown runtime_error
    else done (uint32 id.magnitude)
