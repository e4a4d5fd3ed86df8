-- ===== src/Store/KeysDue.antt =====
-- Whose keys `keysRequiringRefresh` finds to be due.
use mathlib.Core.List.{Mem, mem-cons, mem-cons_self, mem-cons_of_mem, not-mem-nil}
use mathlib.Core.Bool.{false≢true}
use mathlib.Core.Logic.{∥∥₁_elim, ∥∥₁_map}
use mathlib.Core.Logic.Or
use compute_user_accounts.Base.{
  ℕ, ◌+◌, ◌<◌, ◌⊎◌, ltb, ◌||◌, arith, Bool-cases, ◌≡◌, ◌↔◌, sym, ap, subst, ◌∙◌, inl, inr, List, [],
  ◌∷◌, Bool, true, false, Option, Option-cases, none, some, Bytes, nat_key, bytes_key,
}
use compute_user_accounts.Go.Map.{lookup, RangeOrder}
use compute_user_accounts.Store.State.{
  Config, CachedUser, Pointer, CachingStore, deref, now_outside_timespan,
}
use compute_user_accounts.Store.Keys.{names_requiring_refresh, keys_requiring_refresh}
use compute_user_accounts.Store.WellFormed.{WellFormed}
use compute_user_accounts.Store.Cached.{cached, cached_in-none, cached_in-some}
use compute_user_accounts.Store.Members.{mem_if, mem_if_tail, mem-range}

abbrev pub is_due : Config → ℕ → Option CachedUser → Bool
is_due c now none = false
is_due c now (some cu) =
    ltb now cu.key_refresh_time || ltb (cu.key_refresh_time + c.key_refresh_frequency) now

-- The keys of a known user are due when they come from the future, or are older than the frequency.
abbrev pub IsDue : Config → ℕ → Option CachedUser → Type 0
IsDue c now none = ⊥
IsDue c now (some cu) =
    (now < cu.key_refresh_time) ⊎ (cu.key_refresh_time + c.key_refresh_frequency < now)

outside-timespan_iff :
    (now start duration : ℕ)
    → ((ltb now start || ltb (start + duration) now) ≡ true)
      ↔ ((now < start) ⊎ (start + duration < now))
outside-timespan_iff now start duration = (
  λ e. elim (Bool-cases (ltb now start)) [
    | inl t ↦ inl (ground arith)
    | inr f ↦ inr (ground arith)
  ],
  λ h. elim h [ inl early ↦ ground arith | inr late ↦ ground arith ],
)

is_due_iff :
    (c : Config) (now : ℕ) (cu : Option CachedUser) → (is_due c now cu ≡ true) ↔ IsDue c now cu
is_due_iff c now none = (λ e. cc, λ h. absurd h)
is_due_iff c now (some cu) = outside-timespan_iff now cu.key_refresh_time c.key_refresh_frequency

module _ (c : Config) (clock : Bytes → ℕ) (s : CachingStore) where
  mem-names_requiring_refresh :
      (name : Bytes) (entries : List (Bytes × Pointer))
      → Mem name (names_requiring_refresh c clock s entries)
      → ∥ (
          (p : Pointer) × Mem (name, p) entries
          × (is_due c (clock name) (some (deref s p)) ≡ true)) ∥₁
  unfolding names_requiring_refresh now_outside_timespan
  mem-names_requiring_refresh name [] h = absurd (not-mem-nil h)
  mem-names_requiring_refresh name ((n, p) ∷ entries) h =
      Or.elim squash₁
        (mem_if (is_due c (clock n) (some (deref s p))) name n
          (names_requiring_refresh c clock s entries) h)
        (λ here. ∣ (
          p,
          subst (λ m. Mem (name, p) ((m, p) ∷ entries)) here.0 mem-cons_self,
          ap (λ m. is_due c (clock m) (some (deref s p))) here.0 ∙ here.1,
        ) ∣₁)
        (λ rest.
          ∥∥₁_map (mem-names_requiring_refresh name entries rest)
            (λ found. (found.0, mem-cons_of_mem (n, p) found.1, found.2)))

  names_requiring_refresh-mem :
      (name : Bytes) (p : Pointer) (entries : List (Bytes × Pointer))
      → Mem (name, p) entries
      → is_due c (clock name) (some (deref s p)) ≡ true
      → Mem name (names_requiring_refresh c clock s entries)
  unfolding names_requiring_refresh now_outside_timespan
  names_requiring_refresh-mem name p [] h e = absurd (not-mem-nil h)
  names_requiring_refresh-mem name p ((n, q) ∷ entries) h e =
      Or.elim squash₁ (mem-cons.0 h)
        (λ same. rw (sym (ap (λ x. is_due c (clock x.0) (some (deref s x.1))) same) ∙ e) (
          subst (λ m. Mem name (m ∷ names_requiring_refresh c clock s entries)) (ap (λ x. x.0) same)
            mem-cons_self))
        (λ rest.
          mem_if_tail (is_due c (clock n) (some (deref s q))) name n
            (names_requiring_refresh c clock s entries)
            (names_requiring_refresh-mem name p entries rest e))

pub keys_requiring_refresh-mem_is_due :
    (order : RangeOrder Bytes Pointer) (c : Config) (clock : Bytes → ℕ) (s : CachingStore)
    (name : Bytes)
    → WellFormed s
    → Mem name (keys_requiring_refresh order c clock s)
      ↔ (is_due c (clock name) (cached name s) ≡ true)
unfolding keys_requiring_refresh
keys_requiring_refresh-mem_is_due order c clock s name w = (
  λ h. ∥∥₁_elim (mem-names_requiring_refresh c clock s name _ h) (hlevel) (λ found.
      ap (is_due c (clock name)) (
        cached_in-some s.users_by_name name s found.0
          ((mem-range order s w name found.0).0 found.1))
      ∙ found.2),
  λ e. elim (Option-cases (lookup name s.users_by_name)) [
    | inl missing ↦ absurd (
        false≢true
          (sym (ap (is_due c (clock name)) (cached_in-none s.users_by_name name s missing)) ∙ e))
    | inr (p, found) ↦
        names_requiring_refresh-mem c clock s name p _ ((mem-range order s w name p).1 found)
          (sym (ap (is_due c (clock name)) (cached_in-some s.users_by_name name s p found)) ∙ e)
  ],
)

-- In a well-formed store, and whatever the order of the range over the map, `keysRequiringRefresh`
-- lists exactly the names that are bound to a user whose keys come from the future, or are older than
-- the frequency, by the clock when the loop comes to the name.
pub keys_requiring_refresh-mem :
    (order : RangeOrder Bytes Pointer) (c : Config) (clock : Bytes → ℕ) (s : CachingStore)
    (name : Bytes)
    → WellFormed s
    → Mem name (keys_requiring_refresh order c clock s) ↔ IsDue c (clock name) (cached name s)
keys_requiring_refresh-mem order c clock s name w =
    let (listed, due) = keys_requiring_refresh-mem_is_due order c clock s name w in
    let (there, back) = is_due_iff c (clock name) (cached name s) in
    (λ h. there (listed h), λ h. due (back h))
