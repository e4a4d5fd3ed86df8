-- ===== src/Store/Refreshed.antt =====
-- The other three maps after a refresh, against the last view of each key.
use compute_user_accounts.Base.{
  ℕ, ◌≡◌, ◌==◌, ◌%◌, ◌^◌, refl, sym, ap, ◌∙◌, inl, inr, List, [], ◌∷◌, ◌++◌, Bool-cases, Option,
  Option-cases, none, some, Bytes, length, bytes_eq, nat_key, bytes_key, if◌then◌else◌, if_true,
  if_false,
}
use compute_user_accounts.Go.Map.{GoMap, lookup, lookup-insert}
use compute_user_accounts.Accounts.{User, Group, Result, ok, err, uid_not_found, uint32}
use compute_user_accounts.Store.State.{
  LinuxUserView, LinuxGroupView, CachedUser, Pointer, CachingStore, cell, deref,
}
use compute_user_accounts.Store.Index.{cell-append_old, cell-append_new}
use compute_user_accounts.Store.Refresh.{
  to_user, to_group, carry, cached_in, store_user, add_user, add_users, add_group, add_groups,
  cleared, update_accounts,
}
use compute_user_accounts.Store.Query.{user_by_uid}
use compute_user_accounts.Store.Cached.{viewed}
use compute_user_accounts.Store.WellFormed.{
  WellFormed, add_user-WellFormed, cleared-WellFormed, carry-user,
}

-- The user of the last view with a UID, or else what was found before.
unfoldable pub last_with_uid : ℕ → List LinuxUserView → Result User → Result User
last_with_uid uid [] found = found
last_with_uid uid (v ∷ vs) found =
    last_with_uid uid vs (if v.uid % 2 ^ 32 == uid then ok (viewed v) else found)

uid_bound :
    (uid : ℕ) (p : Pointer) (s : CachingStore)
    → lookup uid s.users_by_uid ≡ some p
    → user_by_uid uid s ≡ ok (deref s p).user
unfolding user_by_uid
uid_bound uid p s e = rw (e, user_by_uid)

uid_unbound :
    (uid : ℕ) (s : CachingStore)
    → lookup uid s.users_by_uid ≡ none
    → user_by_uid uid s ≡ err (uid_not_found uid)
unfolding user_by_uid
uid_unbound uid s e = rw (e, user_by_uid)

module _ (old : GoMap Bytes Pointer) (v : LinuxUserView) (s : CachingStore) where
  added : CachedUser
  added = carry (cached_in old v.username s) (to_user v)

  uid_looked_up :
      (uid : ℕ)
      → lookup uid (add_user old v s).users_by_uid
        ≡ (if uint32 v.uid == uid then some (length s.heap) else lookup uid s.users_by_uid)
  unfolding add_user store_user to_user
  uid_looked_up uid = lookup-insert (uint32 v.uid) uid (length s.heap) s.users_by_uid

  grown : (add_user old v s).heap ≡ s.heap ++ added ∷ []
  unfolding add_user store_user to_user added
  grown = refl

  added-user : added.user ≡ viewed v
  unfolding added to_user
  added-user = carry-user _ (viewed v)

  user_by_uid-add_user :
      (uid : ℕ)
      → WellFormed s
      → user_by_uid uid (add_user old v s)
        ≡ (if v.uid % 2 ^ 32 == uid then ok (viewed v) else user_by_uid uid s)
  user_by_uid-add_user uid w = elim (Bool-cases (uint32 v.uid == uid)) [
    | inl t ↦
        uid_bound uid (length s.heap) (add_user old v s) (uid_looked_up uid ∙ if_true _ _ t)
        ∙ ap ok (
            ap (λ h. (cell h (length s.heap)).user) grown
            ∙ ap (λ c. c.user) (cell-append_new s.heap added)
            ∙ added-user)
        ∙ sym (if_true _ _ t)
    | inr f ↦ elim (Option-cases (lookup uid s.users_by_uid)) [
      | inl e ↦
          uid_unbound uid (add_user old v s) (uid_looked_up uid ∙ if_false _ _ f ∙ e)
          ∙ sym (uid_unbound uid s e)
          ∙ sym (if_false _ _ f)
      | inr (p, e) ↦
          uid_bound uid p (add_user old v s) (uid_looked_up uid ∙ if_false _ _ f ∙ e)
          ∙ ap ok (
              ap (λ h. (cell h p).user) grown
              ∙ ap (λ c. c.user) (cell-append_old s.heap added p (w.uids uid p e).0))
          ∙ sym (uid_bound uid p s e)
          ∙ sym (if_false _ _ f)
    ]
  ]

user_by_uid-add_users :
    (old : GoMap Bytes Pointer) (vs : List LinuxUserView) (s : CachingStore) (uid : ℕ)
    → WellFormed s
    → user_by_uid uid (add_users old vs s) ≡ last_with_uid uid vs (user_by_uid uid s)
unfolding add_users last_with_uid
user_by_uid-add_users old [] s uid w = refl
user_by_uid-add_users old (v ∷ vs) s uid w =
    user_by_uid-add_users old vs (add_user old v s) uid (add_user-WellFormed old v s w)
    ∙ ap (last_with_uid uid vs) (user_by_uid-add_user old v s uid w)

user_by_uid-add_groups :
    (gs : List LinuxGroupView) (s : CachingStore) (uid : ℕ)
    → user_by_uid uid (add_groups gs s) ≡ user_by_uid uid s
unfolding add_groups user_by_uid
user_by_uid-add_groups [] s uid = refl
user_by_uid-add_groups (g ∷ gs) s uid = user_by_uid-add_groups gs (add_group g s) uid

user_by_uid-cleared :
    (uid : ℕ) (s : CachingStore) → user_by_uid uid (cleared s) ≡ err (uid_not_found uid)
unfolding user_by_uid lookup
user_by_uid-cleared uid s = refl

-- After a refresh that succeeds, a UID finds the user of the last view whose UID it is, its low 32 bits
-- taken, and nothing if there is none.
pub user_by_uid-update_accounts :
    (us : List LinuxUserView) (gs : List LinuxGroupView) (s : CachingStore) (uid : ℕ)
    → user_by_uid uid (update_accounts (ok (us, gs)) s)
      ≡ last_with_uid uid us (err (uid_not_found uid))
unfolding update_accounts
user_by_uid-update_accounts us gs s uid =
    user_by_uid-add_groups gs (add_users s.users_by_name us (cleared s)) uid
    ∙ user_by_uid-add_users s.users_by_name us (cleared s) uid (cleared-WellFormed s)
    ∙ ap (last_with_uid uid us) (user_by_uid-cleared uid s)

-- The group that a view describes.
abbrev pub viewed_group : LinuxGroupView → Group
viewed_group g = record { name = g.group_name; gid = g.gid % 2 ^ 32; members = g.members }

-- The group of the last view with a name, and with a GID.
unfoldable pub last_named : Bytes → List LinuxGroupView → Option Group → Option Group
last_named name [] found = found
last_named name (v ∷ vs) found =
    last_named name vs (if bytes_eq v.group_name name then some (viewed_group v) else found)

unfoldable pub last_with_gid : ℕ → List LinuxGroupView → Option Group → Option Group
last_with_gid gid [] found = found
last_with_gid gid (v ∷ vs) found =
    last_with_gid gid vs (if v.gid % 2 ^ 32 == gid then some (viewed_group v) else found)

lookup-add_groups :
    (gs : List LinuxGroupView) (s : CachingStore) (name : Bytes) (gid : ℕ)
    → (lookup name (add_groups gs s).groups_by_name
        ≡ last_named name gs (lookup name s.groups_by_name))
      × (lookup gid (add_groups gs s).groups_by_gid
          ≡ last_with_gid gid gs (lookup gid s.groups_by_gid))
unfolding add_groups add_group to_group last_named last_with_gid
lookup-add_groups [] s name gid = (refl, refl)
lookup-add_groups (g ∷ gs) s name gid =
    let (by_name, by_gid) = lookup-add_groups gs (add_group g s) name gid in
    (
      by_name
          ∙ ap (last_named name gs)
              (lookup-insert g.group_name name (viewed_group g) s.groups_by_name),
      by_gid
          ∙ ap (last_with_gid gid gs)
              (lookup-insert (uint32 g.gid) gid (viewed_group g) s.groups_by_gid),
    )

groups-add_users :
    (old : GoMap Bytes Pointer) (vs : List LinuxUserView) (s : CachingStore)
    → ((add_users old vs s).groups_by_name ≡ s.groups_by_name)
      × ((add_users old vs s).groups_by_gid ≡ s.groups_by_gid)
unfolding add_users add_user store_user
groups-add_users old [] s = (refl, refl)
groups-add_users old (v ∷ vs) s = groups-add_users old vs (add_user old v s)

-- After a refresh that succeeds, the maps of groups hold the last view of each name and of each GID,
-- its low 32 bits taken, and nothing else.
pub groups-update_accounts :
    (us : List LinuxUserView) (gs : List LinuxGroupView) (s : CachingStore) (name : Bytes) (gid : ℕ)
    → (lookup name (update_accounts (ok (us, gs)) s).groups_by_name ≡ last_named name gs none)
      × (lookup gid (update_accounts (ok (us, gs)) s).groups_by_gid ≡ last_with_gid gid gs none)
unfolding update_accounts lookup
groups-update_accounts us gs s name gid =
    let (by_name, by_gid) =
      lookup-add_groups gs (add_users s.users_by_name us (cleared s)) name gid in
    let (names, gids) = groups-add_users s.users_by_name us (cleared s) in
    (
      by_name ∙ ap (λ m. last_named name gs (lookup name m)) names,
      by_gid ∙ ap (λ m. last_with_gid gid gs (lookup gid m)) gids,
    )
