-- ===== src/Go/Strings.antt =====
-- `strings.Split` and `strings.Join` at a separator of one byte.
use compute_user_accounts.Base.{
  ℕ, ◌≡◌, ◌≢◌, refl, sym, ap, ◌∙◌, List, [], ◌∷◌, ◌++◌, arith, Bytes, inl, inr, Bool-cases, ◌==◌,
  if◌then◌else◌, All, All-append, Lacks,
}

unfoldable pub cons_head : ℕ → List Bytes → List Bytes
cons_head c [] = (c ∷ []) ∷ []
cons_head c (p ∷ ps) = (c ∷ p) ∷ ps

unfoldable pub split : Bytes → ℕ → List Bytes
unfolding cons_head
split [] sep = [] ∷ []
split (c ∷ s) sep = let rest = split s sep in if c == sep then [] ∷ rest else cons_head c rest

unfoldable pub join : List Bytes → ℕ → Bytes
join [] sep = []
join (p ∷ []) sep = p
join (p ∷ q ∷ ps) sep = p ++ sep ∷ join (q ∷ ps) sep

-- A text without the separator is one part.
pub split-Lacks : (p : Bytes) (sep : ℕ) → Lacks sep p → split p sep ≡ p ∷ []
unfolding split
split-Lacks [] sep h = refl
split-Lacks (c ∷ p) sep h = ground (arith, split-Lacks p sep h.1)

-- A text is cut behind the first part.
pub split-append :
    (p s : Bytes) (sep : ℕ) → Lacks sep p → split (p ++ sep ∷ s) sep ≡ p ∷ split s sep
unfolding split
split-append [] s sep h = ground arith
split-append (c ∷ p) s sep h = ground (arith, split-append p s sep h.1)

pub split-join :
    (ps : List Bytes) (sep : ℕ) → ps ≢ [] → All (Lacks sep) ps → split (join ps sep) sep ≡ ps
unfolding join
split-join [] sep h _ = absurd (h refl)
split-join (p ∷ []) sep h l = split-Lacks p sep l.0
split-join (p ∷ q ∷ ps) sep h l =
    rw (split-append p (join (q ∷ ps) sep) sep l.0)
      (ap (◌∷◌ p) (split-join (q ∷ ps) sep (λ e. cc) l.1))

-- Where the parts lack a byte other than the separator, so does the join.
pub join-Lacks :
    (b sep : ℕ) (ps : List Bytes) → (sep ≡ b → ⊥) → All (Lacks b) ps → Lacks b (join ps sep)
unfolding join
join-Lacks b sep [] h l = tt
join-Lacks b sep (p ∷ []) h l = l.0
join-Lacks b sep (p ∷ q ∷ ps) h l =
    All-append _ p (sep ∷ join (q ∷ ps) sep) l.0 (h, join-Lacks b sep (q ∷ ps) h l.1)

All-cons_head :
    (P : Bytes → Type 0) (c : ℕ) (ps : List Bytes)
    → ((p : Bytes) → P p → P (c ∷ p))
    → P []
    → All P ps
    → All P (cons_head c ps)
unfolding cons_head
All-cons_head P c [] add empty h = (add [] empty, tt)
All-cons_head P c (p ∷ ps) add empty h = (add p h.0, h.1)

-- No part holds the separator.
pub split-no_separator : (s : Bytes) (sep : ℕ) → All (Lacks sep) (split s sep)
unfolding split
split-no_separator [] sep = (tt, tt)
split-no_separator (c ∷ s) sep = elim (Bool-cases (c == sep)) [
  | inl t ↦ rw t (tt, split-no_separator s sep)
  | inr f ↦ rw f (
      All-cons_head (Lacks sep) c (split s sep) (λ p h. (ground arith, h)) tt
        (split-no_separator s sep))
]

-- No part holds a byte that the text does not hold.
pub split-All_Lacks : (b : ℕ) (s : Bytes) (sep : ℕ) → Lacks b s → All (Lacks b) (split s sep)
unfolding split
split-All_Lacks b [] sep h = (tt, tt)
split-All_Lacks b (c ∷ s) sep h = elim (Bool-cases (c == sep)) [
  | inl t ↦ rw t (tt, split-All_Lacks b s sep h.1)
  | inr f ↦
      rw f
        (All-cons_head (Lacks b) c (split s sep) (λ p k. (h.0, k)) tt (split-All_Lacks b s sep h.1))
]

split-ne-nil : (s : Bytes) (sep : ℕ) → split s sep ≢ []
unfolding split
split-ne-nil [] sep e = cc
split-ne-nil (c ∷ s) sep e = elim (Bool-cases (c == sep)) [
  | inl t ↦ ground arith
  | inr f ↦ cons_head-ne-nil c (split s sep) (sym (rw f refl) ∙ e)
]
  where
    cons_head-ne-nil : (c : ℕ) (ps : List Bytes) → cons_head c ps ≢ []
    cons_head-ne-nil c [] e = cc
    cons_head-ne-nil c (p ∷ ps) e = cc

cons_head-ne-empty : (c : ℕ) (ps : List Bytes) → cons_head c ps ≢ [] ∷ []
unfolding cons_head
cons_head-ne-empty c [] e = cc
cons_head-ne-empty c (p ∷ ps) e = cc

-- A text that is not empty is not cut into one empty part.
pub split-ne-empty : (c : ℕ) (s : Bytes) (sep : ℕ) → split (c ∷ s) sep ≢ [] ∷ []
unfolding split
split-ne-empty c s sep e = elim (Bool-cases (c == sep)) [
  | inl t ↦ split-ne-nil s sep (ground arith)
  | inr f ↦ cons_head-ne-empty c (split s sep) (sym (rw f refl) ∙ e)
]
