-- ===== src/Go/Strconv.antt =====
-- `strconv.ParseUint(s, 10, 0)`, on a machine whose int has 64 bits, and `strconv.FormatUint(n, 10)`.
use native.Mathlib.Nat.{pow-suc}
use compute_user_accounts.Base.{
  ℕ, zero, suc, ◌+◌, ◌-◌, ◌*◌, ◌/◌, ◌%◌, ◌^◌, ◌≤◌, ◌<◌, ◌≡◌, refl, ap, ◌∙◌, inl, inr, ◌&&◌, [], ◌∷◌,
  ◌++◌, Option, none, some, arith, Bytes, Bool-cases, ltb, leb, if◌then◌else◌, All, All-append,
  All-map, Lacks, length, length-append,
}

abbrev pub max_uint64 : ℕ
max_uint64 = 2 ^ 64 - 1

abbrev pub IsDigit : ℕ → Type 0
IsDigit c = (b'0' ≤ c) × (c ≤ b'9')

-- `none` is an error: no digit, another byte than a digit, or a value out of range.
unfoldable pub parse_digits : ℕ → Bytes → Option ℕ
parse_digits n [] = some n
parse_digits n (c ∷ s) =
    let m = n * 10 + (c - b'0') in
    let rest = parse_digits m s in
    if leb b'0' c && leb c b'9' && leb m max_uint64 then rest else none

unfoldable pub parse_uint : Bytes → Option ℕ
unfolding parse_digits
parse_uint [] = none
parse_uint (c ∷ s) = parse_digits 0 (c ∷ s)

-- At most `fuel` digits are written; a uint64 has at most 20.
unfoldable pub format_digits : ℕ → ℕ → Bytes
format_digits zero n = []
format_digits (suc fuel) n =
    let more = format_digits fuel (n / 10) ++ (b'0' + n % 10) ∷ [] in
    if ltb n 10 then (b'0' + n) ∷ [] else more

unfoldable pub format_uint : ℕ → Bytes
unfolding format_digits
format_uint n = format_digits 20 n

parse_last :
    (s : Bytes) (n m d : ℕ)
    → d < 10
    → m * 10 + d ≤ max_uint64
    → parse_digits n s ≡ some m
    → parse_digits n (s ++ (b'0' + d) ∷ []) ≡ some (m * 10 + d)
unfolding parse_digits
parse_last [] n m d h fits e = ground arith
parse_last (c ∷ s) n m d h fits e = ground (arith, parse_last s (n * 10 + (c - b'0')) m d h fits)

parse_small : (n : ℕ) → n < 10 → parse_digits 0 ((b'0' + n) ∷ []) ≡ some n
unfolding parse_digits
parse_small n h = ground arith

tenth_below : (fuel n : ℕ) → n < 10 ^ suc fuel → n / 10 < 10 ^ fuel
tenth_below fuel n h = omega (arith, pow-suc 10 fuel)

parse-format_digits :
    (fuel n : ℕ)
    → n < 10 ^ suc fuel
    → n ≤ max_uint64
    → parse_digits 0 (format_digits (suc fuel) n) ≡ some n
unfolding format_digits
parse-format_digits zero n lt fits = ground (arith, parse_small n)
parse-format_digits (suc fuel) n lt fits = elim (Bool-cases (ltb n 10)) [
  | inl small ↦ rw small (parse_small n (ground arith))
  | inr large ↦ rw large (
      parse_last (format_digits (suc fuel) (n / 10)) 0 (n / 10) (n % 10) (omega arith) (omega arith)
        (parse-format_digits fuel (n / 10) (tenth_below (suc fuel) n lt) (omega arith))
      ∙ ap some (omega arith))
]

decimal-IsDigit : (d : ℕ) → d < 10 → IsDigit (b'0' + d)
decimal-IsDigit d h = omega arith

format_digits-IsDigit : (fuel n : ℕ) → All IsDigit (format_digits fuel n)
unfolding format_digits
format_digits-IsDigit zero n = tt
format_digits-IsDigit (suc fuel) n = elim (Bool-cases (ltb n 10)) [
  | inl small ↦ rw small (decimal-IsDigit n (ground arith), tt)
  | inr large ↦ rw large (
      All-append IsDigit _ _ (format_digits-IsDigit fuel (n / 10))
        (decimal-IsDigit (n % 10) (omega arith), tt))
]

length-format_digits : (fuel n : ℕ) → length (format_digits fuel n) ≤ fuel
unfolding format_digits
length-format_digits zero n = omega arith
length-format_digits (suc fuel) n = elim (Bool-cases (ltb n 10)) [
  | inl small ↦ rw small (omega arith)
  | inr large ↦
      rw (large, length-append (format_digits fuel (n / 10)) ((b'0' + n % 10) ∷ []))
        (omega (arith, length-format_digits fuel (n / 10)))
]

pub length-format_uint : (n : ℕ) → length (format_uint n) ≤ 20
unfolding format_uint
length-format_uint n = length-format_digits 20 n

-- The decimal print of a number holds digits alone.
pub format_uint-IsDigit : (n : ℕ) → All IsDigit (format_uint n)
unfolding format_uint
format_uint-IsDigit n = format_digits-IsDigit 20 n

pub format_uint-Lacks : (b n : ℕ) → ((c : ℕ) → IsDigit c → c ≡ b → ⊥) → Lacks b (format_uint n)
format_uint-Lacks b n h = All-map IsDigit _ h (format_uint n) (format_uint-IsDigit n)

parse_uint-append : (s : Bytes) (c : ℕ) → parse_uint (s ++ c ∷ []) ≡ parse_digits 0 (s ++ c ∷ [])
unfolding parse_uint
parse_uint-append [] c = refl
parse_uint-append (d ∷ s) c = refl

parse_uint-format_digits :
    (fuel n : ℕ)
    → parse_uint (format_digits (suc fuel) n) ≡ parse_digits 0 (format_digits (suc fuel) n)
unfolding format_digits
parse_uint-format_digits fuel n = elim (Bool-cases (ltb n 10)) [
  | inl small ↦ rw small (parse_uint-append [] _)
  | inr large ↦ rw large (parse_uint-append (format_digits fuel (n / 10)) _)
]

-- A uint64 is read back from its decimal print.
pub parse-format : (n : ℕ) → n ≤ max_uint64 → parse_uint (format_uint n) ≡ some n
unfolding format_uint
parse-format n h = parse_uint-format_digits 19 n ∙ parse-format_digits 19 n (omega arith) h
