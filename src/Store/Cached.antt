-- ===== src/Store/Cached.antt =====
-- What a refresh makes of the cache, against a description of it by the last
-- view of each name.
use mathlib.Core.Path.{ap₂}
use compute_user_accounts.Base.{
  ◌≡◌, ◌%◌, ◌^◌, false, refl, sym, ap, ◌∙◌, inl, inr, List, [], ◌∷◌, ◌++◌, Bool-cases, Option,
  Option-cases, none, some, arith, Bytes, length, length-append, bytes_eq, bytes_eq_sound, if_true,
  if_false, nat_key, bytes_key, if◌then◌else◌,
}
use compute_user_accounts.Go.Map.{GoMap, lookup, lookup-insert}
use compute_user_accounts.Accounts.{User, ok}
use compute_user_accounts.Store.State.{
  LinuxUserView, LinuxGroupView, CachedUser, Pointer, CachingStore, cell, deref, zero_time,
}
use compute_user_accounts.Store.Index.{IsAllocated, cell-append_old, cell-append_new}
use compute_user_accounts.Store.Refresh.{
  to_user, carry, cached_in, store_user, add_user, add_users, add_group, add_groups, cleared,
  update_accounts,
}
use compute_user_accounts.Store.WellFormed.{WellFormed, add_user-WellFormed, cleared-WellFormed}

-- What the store holds of a name.
abbrev pub cached : Bytes → CachingStore → Option CachedUser
cached name s = cached_in s.users_by_name name s

-- The last view of a name.
unfoldable pub last_view : Bytes → List LinuxUserView → Option LinuxUserView
last_view name [] = none
last_view name (u ∷ us) = elim (last_view name us) [
  | some v ↦ some v
  | none ↦ if bytes_eq u.username name then some u else none
]

-- The user that a view describes.
abbrev pub viewed : LinuxUserView → User
viewed v = record {
  name = v.username;
  uid = v.uid % 2 ^ 32;
  gid = v.gid % 2 ^ 32;
  gecos = v.gecos;
  home_directory = v.home_directory;
  shell = v.shell;
}

-- The cell of a name after a refresh, from the cell before and the last view of the name.
abbrev pub after_refresh : Option CachedUser → Option LinuxUserView → Option CachedUser
after_refresh old none = none
after_refresh none (some v) =
    some (record { user = viewed v; keys = []; sudoer = false; key_refresh_time = zero_time })
after_refresh (some c) (some v) = some (record c { user = viewed v })

-- The cell in the course of the loop over the users.
abbrev refreshed : Option CachedUser → Option LinuxUserView → Option CachedUser → Option CachedUser
refreshed old none otherwise = otherwise
refreshed old (some v) otherwise = some (carry old (to_user v))

pub cached_in-none :
    (m : GoMap Bytes Pointer) (name : Bytes) (s : CachingStore)
    → lookup name m ≡ none
    → cached_in m name s ≡ none
unfolding cached_in
cached_in-none m name s e = rw (e, cached_in)

pub cached_in-some :
    (m : GoMap Bytes Pointer) (name : Bytes) (s : CachingStore) (p : Pointer)
    → lookup name m ≡ some p
    → cached_in m name s ≡ some (deref s p)
unfolding cached_in
cached_in-some m name s p e = rw (e, cached_in)

-- Cells are added behind those that are there.
cached_in-append :
    (m : GoMap Bytes Pointer) (name : Bytes) (s t : CachingStore) (c : CachedUser)
    → IsAllocated m s.heap
    → t.heap ≡ s.heap ++ c ∷ []
    → cached_in m name t ≡ cached_in m name s
cached_in-append m name s t c alloc grown = elim (Option-cases (lookup name m)) [
  | inl e ↦ cached_in-none m name t e ∙ sym (cached_in-none m name s e)
  | inr (p, e) ↦
      cached_in-some m name t p e
      ∙ ap some (ap (λ h. cell h p) grown ∙ cell-append_old s.heap c p (alloc name p e))
      ∙ sym (cached_in-some m name s p e)
]

cached_in-lookup :
    (m n : GoMap Bytes Pointer) (name : Bytes) (s : CachingStore)
    → lookup name m ≡ lookup name n
    → cached_in m name s ≡ cached_in n name s
unfolding cached_in
cached_in-lookup m n name s e = rw (e, cached_in)

module _ (old : GoMap Bytes Pointer) (v : LinuxUserView) (s : CachingStore) where
  looked_up :
      (name : Bytes)
      → lookup name (add_user old v s).users_by_name
        ≡ (if bytes_eq v.username name then some (length s.heap) else lookup name s.users_by_name)
  unfolding add_user store_user to_user
  looked_up name = lookup-insert v.username name (length s.heap) s.users_by_name

  grown : (add_user old v s).heap ≡ s.heap ++ carry (cached_in old v.username s) (to_user v) ∷ []
  unfolding add_user store_user to_user
  grown = refl

  -- A round of the loop binds the name of its view.
  cached-add_user :
      (name : Bytes)
      → IsAllocated s.users_by_name s.heap
      → cached name (add_user old v s) ≡ (
          if bytes_eq v.username name
          then some (carry (cached_in old name s) (to_user v))
          else cached name s)
  cached-add_user name alloc = elim (Bool-cases (bytes_eq v.username name)) [
    | inl t ↦ rw t (
        cached_in-some _ name (add_user old v s) (length s.heap) (looked_up name ∙ if_true _ _ t)
        ∙ ap some (
            ap (λ h. cell h (length s.heap)) grown
            ∙ cell-append_new s.heap _
            ∙ ap (λ n. carry (cached_in old n s) (to_user v)) (bytes_eq_sound _ _ t)))
    | inr f ↦ rw f (
        cached_in-lookup _ s.users_by_name name (add_user old v s) (looked_up name ∙ if_false _ _ f)
        ∙ cached_in-append s.users_by_name name s (add_user old v s) _ alloc grown)
  ]

add_user-IsAllocated :
    (m old : GoMap Bytes Pointer) (v : LinuxUserView) (s : CachingStore)
    → IsAllocated m s.heap
    → IsAllocated m (add_user old v s).heap
add_user-IsAllocated m old v s alloc k p found = omega (
  arith,
  alloc k p found,
  ap length (grown old v s),
  length-append s.heap (carry (cached_in old v.username s) (to_user v) ∷ []),
)

-- The last view counts, of those behind the first and of all.
refreshed_step :
    (old otherwise : Option CachedUser) (v : LinuxUserView) (name : Bytes) (us : List LinuxUserView)
    → refreshed old
        (last_view name us)
        (if bytes_eq v.username name then some (carry old (to_user v)) else otherwise)
      ≡ refreshed old (last_view name (v ∷ us)) otherwise
unfolding last_view
refreshed_step old otherwise v name us = ground arith

add_users-cached :
    (old : GoMap Bytes Pointer) (us : List LinuxUserView) (s : CachingStore) (name : Bytes)
    → WellFormed s
    → IsAllocated old s.heap
    → cached name (add_users old us s)
      ≡ refreshed (cached_in old name s) (last_view name us) (cached name s)
unfolding add_users
add_users-cached old [] s name w alloc = unfold last_view in refl
add_users-cached old (v ∷ us) s name w alloc =
    add_users-cached old us (add_user old v s) name (add_user-WellFormed old v s w)
      (add_user-IsAllocated old old v s alloc)
    ∙ rw
        (
          cached_in-append old name s (add_user old v s) _ alloc (grown old v s),
          cached-add_user old v s name (λ k p found. (w.names k p found).0),
        )
        (refreshed_step (cached_in old name s) (cached name s) v name us)

add_groups-cached :
    (gs : List LinuxGroupView) (s : CachingStore) (name : Bytes)
    → cached name (add_groups gs s) ≡ cached name s
unfolding add_groups cached_in
add_groups-cached [] s name = refl
add_groups-cached (g ∷ gs) s name = add_groups-cached gs (add_group g s) name

cached-cleared : (name : Bytes) (s : CachingStore) → cached name (cleared s) ≡ none
unfolding cached_in lookup
cached-cleared name s = refl

cached_in-cleared :
    (m : GoMap Bytes Pointer) (name : Bytes) (s : CachingStore)
    → cached_in m name (cleared s) ≡ cached_in m name s
unfolding cached_in
cached_in-cleared m name s = refl

refreshed_lem :
    (old : Option CachedUser) (v : Option LinuxUserView)
    → refreshed old v none ≡ after_refresh old v
unfolding carry to_user
refreshed_lem old none = refl
refreshed_lem none (some v) = refl
refreshed_lem (some c) (some v) = refl

-- From a well-formed store, after a refresh that succeeds, a name is bound exactly if the answer has a
-- view of it: to the user of the last such view, with the keys, the sudo flag and the refresh time of
-- the user who had the name before, or with none if nobody had.
pub update_accounts-cached :
    (us : List LinuxUserView) (gs : List LinuxGroupView) (s : CachingStore) (name : Bytes)
    → WellFormed s
    → cached name (update_accounts (ok (us, gs)) s)
      ≡ after_refresh (cached name s) (last_view name us)
unfolding update_accounts
update_accounts-cached us gs s name w =
    add_groups-cached gs (add_users s.users_by_name us (cleared s)) name
    ∙ add_users-cached s.users_by_name us (cleared s) name (cleared-WellFormed s)
        (λ k p found. (w.names k p found).0)
    ∙ ap₂ (λ a b. refreshed a (last_view name us) b) (cached_in-cleared s.users_by_name name s)
        (cached-cleared name s)
    ∙ refreshed_lem (cached name s) (last_view name us)
