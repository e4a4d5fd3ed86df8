-- ===== src/Store/Listings.antt =====
-- The calls that list the store, against the calls that search it. The order of a listing is open.
use mathlib.Core.List.{
  Mem, mem-cons, mem-cons_self, mem-append, mem-append_left, mem-append_right, not-mem-nil,
}
use mathlib.Core.List.Perm
use mathlib.Core.Logic.Or
use compute_user_accounts.Base.{
  ◌≡◌, ◌↔◌, sym, ap, subst, ◌∙◌, inl, inr, List, [], ◌∷◌, ◌++◌, Bool, true, ◌||◌, Bool-cases, arith,
  Bytes, nat_key, bytes_key, bytes_eq, bytes_eq_iff,
}
use compute_user_accounts.Go.Map.{GoMap, has, keys, mem-keys, RangeOrder}
use compute_user_accounts.Accounts.{Group, ok}
use compute_user_accounts.Store.State.{Pointer, CachingStore, sudoers_group_name}
use compute_user_accounts.Store.Query.{is_name, names}

abbrev is_known : Bytes → CachingStore → Bool
is_known name s =
    bytes_eq name sudoers_group_name || (has name s.users_by_name || has name s.groups_by_name)

is_name-known : (name : Bytes) (s : CachingStore) → is_name name s ≡ ok (is_known name s)
unfolding is_name
is_name-known name s = ground arith

mem-range_keys :
    {V : Type 0} (order : RangeOrder Bytes V) (m : GoMap Bytes V) (name : Bytes)
    → Mem name (keys (order.range m)) ↔ (has name m ≡ true)
mem-range_keys order m name =
    let same = Perm.mem_iff (Perm.map (λ entry. entry.0) (order.range-perm m)) in
    (λ h. (mem-keys name m).0 (same.0 h), λ h. same.1 ((mem-keys name m).1 h))

known_user :
    (name : Bytes) (s : CachingStore) → has name s.users_by_name ≡ true → is_known name s ≡ true
known_user name s h = ground arith

known_group :
    (name : Bytes) (s : CachingStore) → has name s.groups_by_name ≡ true → is_known name s ≡ true
known_group name s h = ground arith

known_sudoers :
    (name : Bytes) (s : CachingStore) → name ≡ sudoers_group_name → is_known name s ≡ true
known_sudoers name s e = rw ((bytes_eq_iff name sudoers_group_name).1 e)

module _ (users_order : RangeOrder Bytes Pointer) (groups_order : RangeOrder Bytes Group)
    (s : CachingStore) where
  abbrev user_names : List Bytes
  user_names = keys (users_order.range s.users_by_name)

  abbrev group_names : List Bytes
  group_names = keys (groups_order.range s.groups_by_name)

  all_names : List Bytes
  all_names = user_names ++ (group_names ++ sudoers_group_name ∷ [])

  mem-all_names : (name : Bytes) → Mem name all_names ↔ (is_known name s ≡ true)
  unfolding all_names
  mem-all_names name = (
    λ h.
        Or.elim (hlevel) (mem-append.0 h)
          (λ u. known_user name s ((mem-range_keys users_order s.users_by_name name).0 u))
          (λ t.
            Or.elim (hlevel) (mem-append.0 t)
              (λ g. known_group name s ((mem-range_keys groups_order s.groups_by_name name).0 g))
              (λ l.
                Or.elim (hlevel) (mem-cons.0 l) (known_sudoers name s)
                  (λ n. absurd (not-mem-nil n)))),
    λ h. elim (Bool-cases (has name s.users_by_name)) [
      | inl u ↦
          mem-append_left (group_names ++ sudoers_group_name ∷ [])
            ((mem-range_keys users_order s.users_by_name name).1 u)
      | inr not_user ↦
          mem-append_right user_names {t = group_names ++ sudoers_group_name ∷ []}
            (elim (Bool-cases (has name s.groups_by_name)) [
              | inl g ↦
                  mem-append_left (sudoers_group_name ∷ [])
                    ((mem-range_keys groups_order s.groups_by_name name).1 g)
              | inr not_group ↦ mem-append_right group_names (
                  subst (λ n. Mem n (sudoers_group_name ∷ []))
                    (sym ((bytes_eq_iff name sudoers_group_name).0 (ground arith))) mem-cons_self)
            ])
    ],
  )

  -- Whatever the order of the ranges over the maps, where `Names` lists names, `IsName` accepts
  -- exactly those.
  pub is_name-names :
      (name : Bytes) (listed : List Bytes)
      → names users_order groups_order s ≡ ok listed
      → (is_name name s ≡ ok true) ↔ Mem name listed
  unfolding names all_names
  is_name-names name listed h =
      let same : all_names ≡ listed = ground arith in
      (
        λ e. subst (Mem name) same ((mem-all_names name).1 (ground (arith, is_name-known name s))),
        λ m. is_name-known name s ∙ ap ok ((mem-all_names name).0 (subst (Mem name) (sym same) m)),
      )
