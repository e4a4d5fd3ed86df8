-- ===== src/Go/Map.antt =====
-- Go's maps, as lists of entries, and `range` over them, whose order Go leaves open.
use mathlib.Core.List.{Mem, Perm, mem-cons, mem-cons_self, mem-cons_of_mem, not-mem-nil, map}
use mathlib.Core.Logic.Or
use compute_user_accounts.Base.{
  subst, ◌≡◌, refl, ap, ◌↔◌, ◌⊎◌, inl, inr, Bool, true, false, Bool-cases, List, [], ◌∷◌, Option,
  none, some, arith, Eq, if◌then◌else◌,
}

abbrev pub GoMap : Type 0 → Type 0 → Type 0
GoMap K V = List (K × V)

abbrev is_some : {A : Type 0} → Option A → Bool
is_some none = false
is_some (some a) = true

abbrev pub keys : {K V : Type 0} → GoMap K V → List K
keys m = map (λ entry. entry.0) m

module _ {K V : Type 0} ⦃e : Eq K⦄ where
  unfoldable pub lookup : K → GoMap K V → Option V
  lookup k [] = none
  lookup k ((j, v) ∷ m) = if e.beq j k then some v else lookup k m

  -- `m[k] = v`.
  unfoldable pub insert : K → V → GoMap K V → GoMap K V
  insert k v [] = (k, v) ∷ []
  insert k v ((j, w) ∷ m) = if e.beq j k then (j, v) ∷ m else (j, w) ∷ insert k v m

  -- `_, ok := m[k]`.
  unfoldable pub has : K → GoMap K V → Bool
  unfolding lookup
  has k m = is_some (lookup k m)

  -- No key stands twice.
  unfoldable pub Unique : GoMap K V → Type 0
  Unique [] = Unit
  Unique ((k, v) ∷ m) = (has k m ≡ false) × Unique m

  pub lookup-insert :
      (k j : K) (v : V) (m : GoMap K V)
      → lookup j (insert k v m) ≡ (if e.beq k j then some v else lookup j m)
  unfolding lookup insert
  lookup-insert k j v [] = refl
  lookup-insert k j v ((i, w) ∷ m) =
      ground (arith, lookup-insert k j v m, e.beq_iff i k, e.beq_iff i j, e.beq_iff k j)

  -- What is found after a write is what was written, or was there before.
  pub insert_cases :
      (k j : K) (v w : V) (m : GoMap K V)
      → lookup j (insert k v m) ≡ some w
      → ((k ≡ j) × (v ≡ w)) ⊎ (lookup j m ≡ some w)
  insert_cases k j v w m h = elim (Bool-cases (e.beq k j)) [
    | inl t ↦ inl ((e.beq_iff k j).0 t, ground (arith, lookup-insert k j v m))
    | inr f ↦ inr (ground (arith, lookup-insert k j v m))
  ]

  pub lookup-insert_self : (k : K) (v : V) (m : GoMap K V) → lookup k (insert k v m) ≡ some v
  lookup-insert_self k v m = ground (arith, lookup-insert k k v m, e.beq_iff k k)

  pub has-insert :
      (k j : K) (v : V) (m : GoMap K V)
      → has j (insert k v m) ≡ (if e.beq k j then true else has j m)
  unfolding has
  has-insert k j v m = ground (arith, lookup-insert k j v m)

  pub insert-Unique : (k : K) (v : V) (m : GoMap K V) → Unique m → Unique (insert k v m)
  unfolding Unique insert has
  insert-Unique k v [] u = (refl, tt)
  insert-Unique k v ((j, w) ∷ m) u =
      ground (arith, insert-Unique k v m u.1, has-insert k j v m, e.beq_iff j k, e.beq_iff k j)

  has-cons :
      (k j : K) (v : V) (m : GoMap K V) → has k ((j, v) ∷ m) ≡ (if e.beq j k then true else has k m)
  unfolding has lookup
  has-cons k j v m = ground arith

  -- `has` is membership of the keys.
  pub mem-keys : (k : K) (m : GoMap K V) → Mem k (keys m) ↔ (has k m ≡ true)
  mem-keys k [] = (λ h. absurd (not-mem-nil h), λ h. unfold has lookup in cc)
  mem-keys k ((j, v) ∷ m) = (
    λ h.
        Or.elim (hlevel) (mem-cons.0 h) (λ q. ground (arith, has-cons k j v m, e.beq_iff j k))
          (λ t. ground (arith, has-cons k j v m, (mem-keys k m).0 t)),
    λ h. elim (Bool-cases (e.beq j k)) [
      | inl t ↦ rw ((e.beq_iff j k).0 t) mem-cons_self
      | inr f ↦ mem-cons_of_mem j ((mem-keys k m).1 (ground (arith, has-cons k j v m)))
    ],
  )

  has-lookup : (k : K) (v : V) (m : GoMap K V) → lookup k m ≡ some v → has k m ≡ true
  unfolding has
  has-lookup k v m h = rw h

  lookup-tail :
      (k j : K) (v w : V) (m : GoMap K V)
      → has j m ≡ false
      → lookup k m ≡ some v
      → lookup k ((j, w) ∷ m) ≡ some v
  unfolding lookup
  lookup-tail k j v w m new h = elim (Bool-cases (e.beq j k)) [
    | inl t ↦ ground (arith, has-lookup k v m h, e.beq_iff j k)
    | inr f ↦ rw f h
  ]

  -- The entries are what `lookup` finds, where no key stands twice.
  pub mem-lookup :
      IsSet (Option V)
      → (k : K) (v : V) (m : GoMap K V) → Unique m
      → Mem (k, v) m ↔ (lookup k m ≡ some v)
  unfolding Unique lookup
  mem-lookup set k v [] u = (λ h. absurd (not-mem-nil h), λ h. cc)
  mem-lookup set k v ((j, w) ∷ m) u = (
    λ h.
        Or.elim (set _ _) (mem-cons.0 h)
          (λ q. ground (arith, ap (λ p. p.0) q, ap (λ p. p.1) q, e.beq_iff j k))
          (λ t. lookup-tail k j v w m u.0 ((mem-lookup set k v m u.1).0 t)),
    λ h. elim (Bool-cases (e.beq j k)) [
      | inl t ↦
          rw ((e.beq_iff j k).0 t)
            (subst (λ x. Mem (k, x) ((k, w) ∷ m)) (ground arith) mem-cons_self)
      | inr f ↦ mem-cons_of_mem (j, w) ((mem-lookup set k v m u.1).1 (ground arith))
    ],
  )

-- What `range` yields: the entries, each once, in an order that is not specified.
pub record RangeOrder (K V : Type 0) : Type 0 where
  pub range : GoMap K V → List (K × V)
  pub range-perm : (m : GoMap K V) → Perm (range m) m
