-- ===== src/Store/WellFormed.antt =====
-- The invariant of the store, and the writes under the lock against it.
use mathlib.Core.Option.{some-injective}
use compute_user_accounts.Base.{
  subst, sym, ◌∙◌, ℕ, ◌≡◌, refl, inl, inr, List, [], ◌∷◌, Bool, Option, Option-cases, none, some,
  Bytes, Eq, nat_key, bytes_key,
}
use compute_user_accounts.Go.Map.{GoMap, lookup, insert, insert_cases, Unique, insert-Unique}
use compute_user_accounts.Accounts.{User, Group, Result, ok, err}
use compute_user_accounts.Store.State.{
  LinuxUserView, LinuxGroupView, CachedUser, Pointer, CachingStore, empty_store,
}
use compute_user_accounts.Store.Index.{IsIndex, IsIndex-nil, IsIndex-append, IsIndex-write}
use compute_user_accounts.Store.Refresh.{
  to_user, to_group, carry, cached_in, store_user, add_user, add_users, add_group, add_groups,
  cleared, Views, update_accounts,
}
use compute_user_accounts.Store.Updates.{apply_update_writes, apply_updates_nil, apply_updates_cons}
use compute_user_accounts.Store.Keys.{
  Update, write_keys, apply_update, apply_updates, update_cached_keys,
}

-- Every group is found under its own field.
abbrev pub IsKeyed : {K : Type 0} ⦃e : Eq K⦄ → (Group → K) → GoMap K Group → Type 0
IsKeyed field m = (k : _) (g : Group) → lookup k m ≡ some g → field g ≡ k

-- Each map holds a key once, and finds under it an object with that key.
pub record WellFormed (s : CachingStore) : Type 0 where
  pub names : IsIndex (λ u. u.name) s.users_by_name s.heap
  pub uids : IsIndex (λ u. u.uid) s.users_by_uid s.heap
  pub group_names : IsKeyed (λ g. g.name) s.groups_by_name
  pub gids : IsKeyed (λ g. g.gid) s.groups_by_gid
  pub unique_names : Unique s.users_by_name
  pub unique_uids : Unique s.users_by_uid
  pub unique_group_names : Unique s.groups_by_name
  pub unique_gids : Unique s.groups_by_gid

pub cleared-WellFormed : (s : CachingStore) → WellFormed (cleared s)
unfolding lookup Unique
cleared-WellFormed s = record {
  names = IsIndex-nil (λ u. u.name) s.heap;
  uids = IsIndex-nil (λ u. u.uid) s.heap;
  group_names = λ k g h. cc;
  gids = λ k g h. cc;
  unique_names = tt;
  unique_uids = tt;
  unique_group_names = tt;
  unique_gids = tt;
}

pub empty_store-WellFormed : WellFormed empty_store
empty_store-WellFormed = cleared-WellFormed empty_store

pub carry-user : (o : Option CachedUser) (u : User) → (carry o u).user ≡ u
unfolding carry
carry-user none u = refl
carry-user (some old) u = refl

store_user-WellFormed :
    (s : CachingStore) (cu : CachedUser) → WellFormed s → WellFormed (store_user cu.user cu s)
unfolding store_user
store_user-WellFormed s cu w = record {
  names = IsIndex-append (λ u. u.name) s.users_by_name s.heap cu w.names;
  uids = IsIndex-append (λ u. u.uid) s.users_by_uid s.heap cu w.uids;
  group_names = w.group_names;
  gids = w.gids;
  unique_names = insert-Unique cu.user.name _ s.users_by_name w.unique_names;
  unique_uids = insert-Unique cu.user.uid _ s.users_by_uid w.unique_uids;
  unique_group_names = w.unique_group_names;
  unique_gids = w.unique_gids;
}

pub add_user-WellFormed :
    (old : GoMap Bytes Pointer) (v : LinuxUserView) (s : CachingStore)
    → WellFormed s
    → WellFormed (add_user old v s)
unfolding add_user
add_user-WellFormed old v s w =
    let cu = carry (cached_in old (to_user v).name s) (to_user v) in
    subst (λ u. WellFormed (store_user u cu s)) (carry-user _ (to_user v))
      (store_user-WellFormed s cu w)

add_users-WellFormed :
    (old : GoMap Bytes Pointer) (vs : List LinuxUserView) (s : CachingStore)
    → WellFormed s
    → WellFormed (add_users old vs s)
unfolding add_users
add_users-WellFormed old [] s w = w
add_users-WellFormed old (v ∷ vs) s w =
    add_users-WellFormed old vs (add_user old v s) (add_user-WellFormed old v s w)

IsKeyed-insert :
    {K : Type 0} ⦃e : Eq K⦄ (field : Group → K) (m : GoMap K Group) (g : Group)
    → IsKeyed field m
    → IsKeyed field (insert (field g) g m)
IsKeyed-insert field m g keyed k h found = elim (insert_cases (field g) k g h m found) [
  | inl (same, new) ↦ subst (λ x. field x ≡ k) new same
  | inr old ↦ keyed k h old
]

add_group-WellFormed :
    (v : LinuxGroupView) (s : CachingStore) → WellFormed s → WellFormed (add_group v s)
unfolding add_group
add_group-WellFormed v s w = record {
  names = w.names;
  uids = w.uids;
  group_names = IsKeyed-insert (λ g. g.name) s.groups_by_name (to_group v) w.group_names;
  gids = IsKeyed-insert (λ g. g.gid) s.groups_by_gid (to_group v) w.gids;
  unique_names = w.unique_names;
  unique_uids = w.unique_uids;
  unique_group_names = insert-Unique _ (to_group v) s.groups_by_name w.unique_group_names;
  unique_gids = insert-Unique _ (to_group v) s.groups_by_gid w.unique_gids;
}

add_groups-WellFormed :
    (vs : List LinuxGroupView) (s : CachingStore) → WellFormed s → WellFormed (add_groups vs s)
unfolding add_groups
add_groups-WellFormed [] s w = w
add_groups-WellFormed (v ∷ vs) s w =
    add_groups-WellFormed vs (add_group v s) (add_group-WellFormed v s w)

pub update_accounts-WellFormed :
    (answer : Result Views) (s : CachingStore)
    → WellFormed s
    → WellFormed (update_accounts answer s)
unfolding update_accounts
update_accounts-WellFormed (err e) s w = w
update_accounts-WellFormed (ok (us, gs)) s w =
    add_groups-WellFormed gs _
      (add_users-WellFormed s.users_by_name us (cleared s) (cleared-WellFormed s))

pub write_keys-WellFormed :
    (p : Pointer) (keys : List Bytes) (sudoer : Bool) (time : ℕ) (s : CachingStore)
    → WellFormed s
    → WellFormed (write_keys p keys sudoer time s)
unfolding write_keys
write_keys-WellFormed p keys sudoer time s w = record {
  names = IsIndex-write (λ u. u.name) keys sudoer time s.users_by_name s.heap p w.names;
  uids = IsIndex-write (λ u. u.uid) keys sudoer time s.users_by_uid s.heap p w.uids;
  group_names = w.group_names;
  gids = w.gids;
  unique_names = w.unique_names;
  unique_uids = w.unique_uids;
  unique_group_names = w.unique_group_names;
  unique_gids = w.unique_gids;
}

pub apply_update-WellFormed :
    (rk : Update) (s t : CachingStore) → apply_update rk s ≡ some t → WellFormed s → WellFormed t
apply_update-WellFormed rk s t h w = elim (apply_update_writes rk s t h) [
  | inl same ↦ subst WellFormed same w
  | inr (p, v, found, view, written) ↦
      subst WellFormed written (write_keys-WellFormed p v.keys v.sudoer rk.time s w)
]

pub apply_updates-WellFormed :
    (rks : List Update) (s t : CachingStore)
    → apply_updates rks s ≡ some t
    → WellFormed s
    → WellFormed t
apply_updates-WellFormed [] s t h w =
    subst WellFormed (some-injective _ _ (sym (apply_updates_nil s) ∙ h)) w
apply_updates-WellFormed (rk ∷ rks) s t h w =
    let (s', first, rest) = apply_updates_cons rk s rks t h in
    apply_updates-WellFormed rks s' t rest (apply_update-WellFormed rk s s' first w)

pub update_cached_keys-WellFormed :
    (name : Bytes) (keys : List Bytes) (sudoer : Bool) (time : ℕ) (s : CachingStore)
    → WellFormed s
    → WellFormed (update_cached_keys name keys sudoer time s)
unfolding update_cached_keys
update_cached_keys-WellFormed name keys sudoer time s w =
    elim (Option-cases (lookup name s.users_by_name)) [
      | inl e ↦ rw (e, update_cached_keys) w
      | inr (p, e) ↦ rw (e, update_cached_keys) (write_keys-WellFormed p keys sudoer time s w)
    ]
