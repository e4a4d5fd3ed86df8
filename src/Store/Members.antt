-- ===== src/Store/Members.antt =====
-- The members of the sudoers group, and the users and groups that are listed, against what a search
-- finds. The order of a listing is open.
use mathlib.Core.List.{
  Mem, map, mem-cons, mem-cons_self, mem-cons_of_mem, mem-append, mem-append_left, mem-append_right,
  mem-map, not-mem-nil,
}
use mathlib.Core.Bool.{false≢true}
use mathlib.Core.List.Perm
use mathlib.Core.Option.{some-injective}
use mathlib.Core.Logic.{∥∥₁_elim, ∥∥₁_map, ◌∨₁◌}
use mathlib.Core.Logic.Or
use native.Mathlib.Decide.{ℕ_discrete}
use compute_user_accounts.Base.{
  ◌≡◌, ◌↔◌, refl, sym, ap, subst, ◌∙◌, inl, inr, List, [], ◌∷◌, ◌++◌, Bool, true, false, Option,
  Option-cases, none, some, arith, Bytes, nat_key, bytes_key, if◌then◌else◌,
}
use compute_user_accounts.Go.Map.{lookup, mem-lookup, RangeOrder}
use compute_user_accounts.Accounts.{User, Group, ok}
use compute_user_accounts.Store.State.{CachedUser, Pointer, CachingStore, deref}
use compute_user_accounts.Store.Query.{sudoer_names, users, sudoers_group, groups}
use compute_user_accounts.Store.WellFormed.{WellFormed}
use compute_user_accounts.Store.Cached.{cached, cached_in-none, cached_in-some}

-- A sudoer is a user who is known, with the flag.
abbrev pub is_sudoer : Option CachedUser → Bool
is_sudoer none = false
is_sudoer (some c) = c.sudoer

abbrev pub user_in : Option CachedUser → Option User
user_in none = none
user_in (some c) = some c.user

Pointer?-set : IsSet (Option Pointer)
Pointer?-set = hlevel ℕ_discrete

User?-set : IsSet (Option User)
User?-set = hlevel ℕ_discrete

pub mem_if :
    (b : Bool) (name n : Bytes) (rest : List Bytes)
    → Mem name (if b then n ∷ rest else rest)
    → ((name ≡ n) × (b ≡ true)) ∨₁ Mem name rest
mem_if true name n rest h = Or.elim squash₁ (mem-cons.0 h) (λ e. Or.inl (e, refl)) (λ r. Or.inr r)
mem_if false name n rest h = Or.inr h

pub mem_if_tail :
    (b : Bool) (name n : Bytes) (rest : List Bytes)
    → Mem name rest
    → Mem name (if b then n ∷ rest else rest)
mem_if_tail true name n rest h = mem-cons_of_mem n h
mem_if_tail false name n rest h = h

module _ (s : CachingStore) where
  -- The loop keeps the names of the entries with the flag.
  mem-sudoer_names :
      (name : Bytes) (entries : List (Bytes × Pointer))
      → Mem name (sudoer_names s entries)
      → ∥ ((p : Pointer) × Mem (name, p) entries × ((deref s p).sudoer ≡ true)) ∥₁
  unfolding sudoer_names
  mem-sudoer_names name [] h = absurd (not-mem-nil h)
  mem-sudoer_names name ((n, p) ∷ entries) h =
      Or.elim squash₁ (mem_if (deref s p).sudoer name n (sudoer_names s entries) h)
        (λ here.
          ∣ (p, subst (λ m. Mem (name, p) ((m, p) ∷ entries)) here.0 mem-cons_self, here.1) ∣₁)
        (λ rest.
          ∥∥₁_map (mem-sudoer_names name entries rest)
            (λ found. (found.0, mem-cons_of_mem (n, p) found.1, found.2)))

  sudoer_names-mem :
      (name : Bytes) (p : Pointer) (entries : List (Bytes × Pointer))
      → Mem (name, p) entries
      → (deref s p).sudoer ≡ true
      → Mem name (sudoer_names s entries)
  unfolding sudoer_names
  sudoer_names-mem name p [] h e = absurd (not-mem-nil h)
  sudoer_names-mem name p ((n, q) ∷ entries) h e =
      Or.elim squash₁ (mem-cons.0 h)
        (λ same.
          rw (sym (ap (λ r. (deref s r).sudoer) (ap (λ x. x.1) same)) ∙ e)
            (subst (λ m. Mem name (m ∷ sudoer_names s entries)) (ap (λ x. x.0) same) mem-cons_self))
        (λ rest.
          mem_if_tail (deref s q).sudoer name n (sudoer_names s entries)
            (sudoer_names-mem name p entries rest e))

module _ (order : RangeOrder Bytes Pointer) (s : CachingStore) (w : WellFormed s) where
  pub mem-range :
      (name : Bytes) (p : Pointer)
      → Mem (name, p) (order.range s.users_by_name) ↔ (lookup name s.users_by_name ≡ some p)
  mem-range name p =
      let by_lookup = mem-lookup Pointer?-set name p s.users_by_name w.unique_names in
      let same = Perm.mem_iff {a = (name, p)} (order.range-perm s.users_by_name) in
      (λ h. by_lookup.0 (same.0 h), λ h. same.1 (by_lookup.1 h))

  -- In a well-formed store, and whatever the order of the range over the map, the sudoers group has
  -- as members exactly the names that are bound to a user with the sudo flag.
  pub sudoers_group-mem :
      (name : Bytes) → Mem name (sudoers_group order s).members ↔ (is_sudoer (cached name s) ≡ true)
  unfolding sudoers_group
  sudoers_group-mem name = (
    λ h. ∥∥₁_elim (mem-sudoer_names s name _ h) (hlevel) (λ found.
        ap is_sudoer
          (cached_in-some s.users_by_name name s found.0 ((mem-range name found.0).0 found.1))
        ∙ found.2),
    λ e. elim (Option-cases (lookup name s.users_by_name)) [
      | inl missing ↦
          absurd
            (false≢true (sym (ap is_sudoer (cached_in-none s.users_by_name name s missing)) ∙ e))
      | inr (p, found) ↦
          sudoer_names-mem s name p _ ((mem-range name p).1 found)
            (sym (ap is_sudoer (cached_in-some s.users_by_name name s p found)) ∙ e)
    ],
  )

  -- In a well-formed store, and whatever the order of the range over the map, where `Users` lists
  -- users it lists exactly those that are bound to their names.
  pub users-mem :
      (u : User) (listed : List User)
      → users order s ≡ ok listed
      → Mem u listed ↔ (user_in (cached u.name s) ≡ some u)
  unfolding users
  users-mem u listed h =
      let same : map user_of (order.range s.users_by_name) ≡ listed = ground arith in
      (
        λ m. ∥∥₁_elim (mem-map.0 (subst (Mem u) (sym same) m)) (User?-set _ _) found_by_name,
        λ e. subst (Mem u) same (listed_by_name e),
      )
    where
      user_of : Bytes × Pointer → User
      user_of entry = (deref s entry.1).user

      found_by_name :
          (entry : Bytes × Pointer) × Mem entry (order.range s.users_by_name) × (user_of entry ≡ u)
          → user_in (cached u.name s) ≡ some u
      found_by_name found =
          let look = (mem-range found.0.0 found.0.1).0 found.1 in
          let named : u.name ≡ found.0.0 =
            sym (ap (λ x. x.name) found.2) ∙ (w.names found.0.0 found.0.1 look).1 in
          let there : lookup u.name s.users_by_name ≡ some found.0.1 =
            subst (λ n. lookup n s.users_by_name ≡ some found.0.1) (sym named) look in
          ap user_in (cached_in-some s.users_by_name u.name s found.0.1 there) ∙ ap some found.2

      listed_by_name :
          user_in (cached u.name s) ≡ some u → Mem u (map user_of (order.range s.users_by_name))
      listed_by_name e = elim (Option-cases (lookup u.name s.users_by_name)) [
        | inl missing ↦ cc (sym (ap user_in (cached_in-none s.users_by_name u.name s missing)) ∙ e)
        | inr (p, there) ↦ mem-map.1 ∣ (
          (u.name, p),
          (mem-range u.name p).1 there,
          some-injective _ _
              (sym (ap user_in (cached_in-some s.users_by_name u.name s p there)) ∙ e),
        ) ∣₁
      ]

pub Group?-set : IsSet (Option Group)
Group?-set = hlevel ℕ_discrete

module _ (order : RangeOrder Bytes Group) (s : CachingStore) (w : WellFormed s) where
  abbrev group_entries : List Group
  group_entries = map (λ entry. entry.1) (order.range s.groups_by_name)

  mem-range_group :
      (name : Bytes) (g : Group)
      → Mem (name, g) (order.range s.groups_by_name) ↔ (lookup name s.groups_by_name ≡ some g)
  mem-range_group name g =
      let by_lookup = mem-lookup Group?-set name g s.groups_by_name w.unique_group_names in
      let same = Perm.mem_iff {a = (name, g)} (order.range-perm s.groups_by_name) in
      (λ h. by_lookup.0 (same.0 h), λ h. same.1 (by_lookup.1 h))

  mem-group_entries : (g : Group) → Mem g group_entries ↔ (lookup g.name s.groups_by_name ≡ some g)
  mem-group_entries g = (
    λ m. ∥∥₁_elim (mem-map.0 m) (Group?-set _ _) under_name,
    λ e. mem-map.1 ∣ ((g.name, g), (mem-range_group g.name g).1 e, refl) ∣₁,
  )
    where
      under_name :
          (entry : Bytes × Group) × Mem entry (order.range s.groups_by_name) × (entry.1 ≡ g)
          → lookup g.name s.groups_by_name ≡ some g
      under_name found =
          let look = (mem-range_group found.0.0 found.0.1).0 found.1 in
          let named : found.0.0 ≡ g.name =
            sym (w.group_names found.0.0 found.0.1 look) ∙ ap (λ x. x.name) found.2 in
          ap (λ n. lookup n s.groups_by_name) (sym named) ∙ look ∙ ap some found.2

-- In a well-formed store, and whatever the order of the ranges over the maps, where `Groups` lists
-- groups it lists exactly those that the map of names binds to their names, and the sudoers group.
pub groups-mem :
    (order : RangeOrder Bytes Pointer) (groups_order : RangeOrder Bytes Group) (s : CachingStore)
    → WellFormed s
    → (g : Group) (listed : List Group) → groups order groups_order s ≡ ok listed
    → Mem g listed ↔ ((lookup g.name s.groups_by_name ≡ some g) ∨₁ (g ≡ sudoers_group order s))
unfolding groups
groups-mem order groups_order s w g listed h =
    let same : group_entries groups_order s w ++ sudoers_group order s ∷ [] ≡ listed =
      ground arith in
    (
      λ m.
          Or.elim squash₁ (mem-append.0 (subst (Mem g) (sym same) m))
            (λ e. Or.inl ((mem-group_entries groups_order s w g).0 e))
            (λ l. Or.elim squash₁ (mem-cons.0 l) (λ e. Or.inr e) (λ n. absurd (not-mem-nil n))),
      λ o. subst (Mem g) same (
          Or.elim squash₁ o
            (λ e.
              mem-append_left (sudoers_group order s ∷ [])
                ((mem-group_entries groups_order s w g).1 e))
            (λ e.
              mem-append_right (group_entries groups_order s w)
                (subst (λ x. Mem x (sudoers_group order s ∷ [])) (sym e) mem-cons_self))),
    )
