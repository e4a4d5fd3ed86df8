-- ===== src/Store/Index.antt =====
-- Laws of the heap of cells, and of a map into it that is keyed by a field of the user.
use compute_user_accounts.Base.{
  ℕ, zero, suc, ◌<◌, ◌≡◌, refl, ap, subst, ◌∙◌, inl, inr, Bool, List, [], ◌∷◌, ◌++◌, some, arith,
  Bytes, length, length-append, set, Eq,
}
use compute_user_accounts.Go.Map.{GoMap, lookup, insert, insert_cases}
use compute_user_accounts.Accounts.{User}
use compute_user_accounts.Store.State.{CachedUser, Pointer, cell}

pub cell-append_old :
    (h : List CachedUser) (c : CachedUser) (p : ℕ) → p < length h → cell (h ++ c ∷ []) p ≡ cell h p
unfolding cell
cell-append_old [] c p lt = absurd (omega arith)
cell-append_old (d ∷ h) c zero lt = refl
cell-append_old (d ∷ h) c (suc p) lt = cell-append_old h c p (omega arith)

pub cell-append_new : (h : List CachedUser) (c : CachedUser) → cell (h ++ c ∷ []) (length h) ≡ c
unfolding cell
cell-append_new [] c = refl
cell-append_new (d ∷ h) c = cell-append_new h c

-- The cell `c` with other keys.
abbrev pub rekeyed : List Bytes → Bool → ℕ → CachedUser → CachedUser
rekeyed keys sudoer time c = record c { keys = keys; sudoer = sudoer; key_refresh_time = time }

module _ (keys : List Bytes) (sudoer : Bool) (time : ℕ) where
  abbrev pub write : List CachedUser → Pointer → List CachedUser
  write h p = set h p (rekeyed keys sudoer time (cell h p))

  pub length-write : (h : List CachedUser) (p : ℕ) → length (write h p) ≡ length h
  unfolding cell
  length-write [] p = refl
  length-write (c ∷ h) zero = refl
  length-write (c ∷ h) (suc p) = ap suc (length-write h p)

  pub user-write : (h : List CachedUser) (p q : ℕ) → (cell (write h p) q).user ≡ (cell h q).user
  unfolding cell
  user-write [] p q = refl
  user-write (c ∷ h) zero zero = refl
  user-write (c ∷ h) zero (suc q) = refl
  user-write (c ∷ h) (suc p) zero = refl
  user-write (c ∷ h) (suc p) (suc q) = user-write h p q

  pub cell-write_self :
      (h : List CachedUser) (p : ℕ)
      → p < length h
      → cell (write h p) p ≡ rekeyed keys sudoer time (cell h p)
  unfolding cell
  cell-write_self [] p lt = absurd (omega arith)
  cell-write_self (c ∷ h) zero lt = refl
  cell-write_self (c ∷ h) (suc p) lt = cell-write_self h p (omega arith)

  pub cell-write_ne : (h : List CachedUser) (p q : ℕ) → (p ≡ q → ⊥) → cell (write h p) q ≡ cell h q
  unfolding cell
  cell-write_ne [] p q ne = refl
  cell-write_ne (c ∷ h) zero zero ne = absurd (ne refl)
  cell-write_ne (c ∷ h) zero (suc q) ne = refl
  cell-write_ne (c ∷ h) (suc p) zero ne = refl
  cell-write_ne (c ∷ h) (suc p) (suc q) ne = cell-write_ne h p q (λ e. ne (ap suc e))

-- Every pointer of the map is allocated.
abbrev pub IsAllocated : {K : Type 0} ⦃e : Eq K⦄ → GoMap K Pointer → List CachedUser → Type 0
IsAllocated m h = (k : _) (p : Pointer) → lookup k m ≡ some p → p < length h

module _ {K : Type 0} ⦃e : Eq K⦄ (field : User → K) where
  -- Every pointer of the map leads to a user whose field is the key.
  abbrev pub IsIndex : GoMap K Pointer → List CachedUser → Type 0
  IsIndex m h =
      (k : K) (p : Pointer) → lookup k m ≡ some p → (p < length h) × (field (cell h p).user ≡ k)

  pub IsIndex-nil : (h : List CachedUser) → IsIndex [] h
  IsIndex-nil h k p q = unfold lookup in cc

  pub IsIndex-append :
      (m : GoMap K Pointer) (h : List CachedUser) (c : CachedUser)
      → IsIndex m h
      → IsIndex (insert (field c.user) (length h) m) (h ++ c ∷ [])
  IsIndex-append m h c ix k p q = elim (insert_cases (field c.user) k (length h) p m q) [
    | inl (t, new) ↦
        subst (λ x. (x < length (h ++ c ∷ [])) × (field (cell (h ++ c ∷ []) x).user ≡ k)) new
          (
            omega (arith, length-append h (c ∷ [])),
            ap (λ d. field d.user) (cell-append_new h c) ∙ t,
          )
    | inr old ↦
        let (lt, same) = ix k p old in
        (
          omega (arith, length-append h (c ∷ [])),
          ap (λ d. field d.user) (cell-append_old h c p lt) ∙ same,
        )
  ]

  pub IsIndex-write :
      (keys : List Bytes) (sudoer : Bool) (time : ℕ) (m : GoMap K Pointer) (h : List CachedUser)
      (p : Pointer)
      → IsIndex m h
      → IsIndex m (write keys sudoer time h p)
  IsIndex-write keys sudoer time m h p ix k q found =
      rw (length-write keys sudoer time h p, user-write keys sudoer time h p q) (ix k q found)
