-- ===== src/Store/Groups.antt =====
-- The search of a group by its name, against the list of the groups.
use mathlib.Core.List.{Mem}
use mathlib.Core.Bool.{false≢true}
use mathlib.Core.Logic.Or
use compute_user_accounts.Base.{
  ◌≡◌, ◌↔◌, refl, sym, ap, ◌∙◌, List, false, some, arith, Bytes, bytes_eq, bytes_eq_refl, bytes_key,
}
use compute_user_accounts.Go.Map.{lookup, RangeOrder}
use compute_user_accounts.Accounts.{Group, ok}
use compute_user_accounts.Store.State.{Pointer, CachingStore, sudoers_group_name}
use compute_user_accounts.Store.Query.{group_by_name, groups, sudoers_group}
use compute_user_accounts.Store.WellFormed.{WellFormed}
use compute_user_accounts.Store.Members.{Group?-set, groups-mem}

group_by_name-lookup :
    (order : RangeOrder Bytes Pointer) (s : CachingStore) (name : Bytes) (g : Group)
    → bytes_eq name sudoers_group_name ≡ false
    → (group_by_name order name s ≡ (ok g, false)) ↔ (lookup name s.groups_by_name ≡ some g)
unfolding group_by_name
group_by_name-lookup order s name g other = (λ e. ground arith, λ e. ground arith)

sudoers_group-named :
    (order : RangeOrder Bytes Pointer) (s : CachingStore)
    → (sudoers_group order s).name ≡ sudoers_group_name
unfolding sudoers_group
sudoers_group-named order s = refl

-- In a well-formed store, and whatever the order of the ranges over the maps, where `Groups` lists
-- groups, a group that is not named like the sudoers group is listed exactly if `GroupByName` returns
-- it for its name, without requesting a refresh.
pub group_by_name-groups :
    (order : RangeOrder Bytes Pointer) (groups_order : RangeOrder Bytes Group) (s : CachingStore)
    (g : Group) (listed : List Group)
    → WellFormed s
    → bytes_eq g.name sudoers_group_name ≡ false
    → groups order groups_order s ≡ ok listed
    → Mem g listed ↔ (group_by_name order g.name s ≡ (ok g, false))
group_by_name-groups order groups_order s g listed w other h =
    let by_list = groups-mem order groups_order s w g listed h in
    let by_name = group_by_name-lookup order s g.name g other in
    (
      λ m. by_name.1 (
          Or.elim (Group?-set _ _) (by_list.0 m) (λ found. found)
            (λ same. absurd (
              false≢true (
                sym other
                ∙ ap (λ n. bytes_eq n sudoers_group_name)
                    (ap (λ x. x.name) same ∙ sudoers_group-named order s)
                ∙ bytes_eq_refl sudoers_group_name)))),
      λ e. by_list.1 (Or.inl (by_name.0 e)),
    )
