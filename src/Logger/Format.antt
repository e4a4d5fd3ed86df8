-- ===== src/Logger/Format.antt =====
-- `fmt.Sprint` and `fmt.Sprintf` on the values that the program logs: texts, numbers, errors and
-- signals. The program uses the verb `%v` alone, once for each value.
use compute_user_accounts.Base.{
  ℕ, List, [], ◌∷◌, ◌++◌, Bool, true, false, ◌||◌, ◌&&◌, Bytes, codes, ◌==◌, if◌then◌else◌,
}
use compute_user_accounts.Go.Strconv.{format_uint}
use compute_user_accounts.Accounts.{Error, error_text}

-- A value of `interface{}`; of a signal, its name.
pub data Value : Type 0 where
  text : Bytes → Value
  number : ℕ → Value
  error : Error → Value
  signal : Bytes → Value

unfoldable pub format_value : Value → Bytes
unfolding error_text
format_value (text s) = s
format_value (number n) = format_uint n
format_value (error e) = error_text e
format_value (signal name) = name

abbrev is_text : Value → Bool
is_text (text s) = true
is_text v = false

-- A space stands between two values of which neither is a string.
abbrev separator : Value → Value → Bytes
separator v w = if is_text v || is_text w then [] else b' ' ∷ []

unfoldable pub sprint : List Value → Bytes
unfolding format_value
sprint [] = []
sprint (v ∷ []) = format_value v
sprint (v ∷ w ∷ vs) = format_value v ++ (separator v w ++ sprint (w ∷ vs))

-- A verb without a value is written as such. Values without a verb do not occur.
unfoldable pub sprintf : Bytes → List Value → Bytes
unfolding format_value
sprintf [] vs = []
sprintf (c ∷ []) vs = c ∷ []
sprintf (c ∷ d ∷ format) [] =
    let plain = c ∷ sprintf (d ∷ format) [] in
    let missing = codes "%!v(MISSING)" ++ sprintf format [] in
    if c == b'%' && d == b'v' then missing else plain
sprintf (c ∷ d ∷ format) (v ∷ vs) =
    let plain = c ∷ sprintf (d ∷ format) (v ∷ vs) in
    let put = format_value v ++ sprintf format vs in if c == b'%' && d == b'v' then put else plain
