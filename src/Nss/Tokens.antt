-- ===== src/Nss/Tokens.antt =====
-- `TokenizeString` against `strings.Split`.
use compute_user_accounts.Base.{
  ℕ, zero, suc, ◌+◌, ◌≤◌, ◌<◌, ◌≡◌, ◌≢◌, refl, sym, ap, ◌∙◌, inl, inr, List, [], ◌∷◌, Option, none,
  some, Bytes, Bool-cases, ◌==◌, length, take, arith,
}
use compute_user_accounts.Go.Strings.{split, cons_head}
use compute_user_accounts.Nss.Strings.{find, drop, tokens, tokenize_string}

abbrev next_parts : Bytes → ℕ → Option ℕ → List Bytes
next_parts s delim none = s ∷ []
next_parts s delim (some n) = take n s ∷ split (drop (suc n) s) delim

-- The first token, and the rest.
split-find : (s : Bytes) (delim : ℕ) → split s delim ≡ next_parts s delim (find delim s)
unfolding split find cons_head
split-find [] delim = refl
split-find (c ∷ s) delim = elim (Bool-cases (c == delim)) [
  | inl t ↦ rw t refl
  | inr f ↦ rw f (grown c (find delim s) (split-find s delim))
]
  where
    grown :
        (c : ℕ) (o : Option ℕ)
        → split s delim ≡ next_parts s delim o
        → cons_head c (split s delim)
          ≡ next_parts (c ∷ s) delim (elim o [ none ↦ none | some n ↦ some (suc n) ])
    grown c none e = rw e refl
    grown c (some n) e = rw e refl

find-lt-length : (s : Bytes) (delim n : ℕ) → find delim s ≡ some n → n < length s
unfolding find
find-lt-length [] delim n e = absurd cc
find-lt-length (c ∷ s) delim zero e = omega arith
find-lt-length (c ∷ s) delim (suc n) e = ground (arith, find-lt-length s delim n)

length-drop : (n : ℕ) (s : Bytes) → n ≤ length s → n + length (drop n s) ≡ length s
length-drop zero s h = omega arith
length-drop (suc n) [] h = absurd (omega arith)
length-drop (suc n) (c ∷ s) h = omega (arith, length-drop n s)

-- As many rounds as there are bytes, and one more, are enough.
tokens-split : (fuel delim : ℕ) (s : Bytes) → length s < fuel → tokens fuel delim s ≡ split s delim
unfolding tokens
tokens-split zero delim s h = absurd (omega arith)
tokens-split (suc fuel) delim s h = go (tokens-split fuel delim) (find delim s) refl
  where
    go :
        ((t : Bytes) → length t < fuel → tokens fuel delim t ≡ split t delim)
        → (o : Option ℕ) → find delim s ≡ o
        → tokens (suc fuel) delim s ≡ split s delim
    go rests none e = rw (e, tokens) (sym (split-find s delim ∙ rw e refl))
    go rests (some n) e =
        let lt = find-lt-length s delim n e in
        let shorter = length-drop (suc n) s lt in
        let rest = rests (drop (suc n) s) (omega (arith, shorter, lt)) in
        rw (e, tokens) (ap (λ l. take n s ∷ l) rest ∙ sym (split-find s delim ∙ rw e refl))

-- `TokenizeString` cuts as `strings.Split` does, but that the empty text has no token.
pub tokenize_string-split :
    (s : Bytes) (delim : ℕ) → s ≢ [] → tokenize_string s delim ≡ split s delim
unfolding tokenize_string
tokenize_string-split [] delim h = absurd (h refl)
tokenize_string-split (c ∷ s) delim h =
    tokens-split (suc (length (c ∷ s))) delim (c ∷ s) (omega arith)
