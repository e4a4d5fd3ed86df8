-- ===== src/Store/Refines.antt =====
-- The store against its specification.
use mathlib.Core.Path.{fun_ext}
use mathlib.Core.Option.{some-injective}
use mathlib.Core.List.{foldl}
use compute_user_accounts.Base.{
  ℕ, ◌≡◌, refl, sym, ap, subst, ◌∙◌, inl, inr, List, [], ◌∷◌, Bool, Option, Option-cases, some,
  Bytes, bytes_key, nat_key, arith,
}
use compute_user_accounts.Go.Map.{lookup}
use compute_user_accounts.Accounts.{Result, ok, err}
use compute_user_accounts.Store.State.{Pointer, CachedUser, CachingStore, empty_store}
use compute_user_accounts.Store.Index.{user-write}
use compute_user_accounts.Store.Refresh.{Views, cached_in, update_accounts}
use compute_user_accounts.Store.Keys.{
  Update, write_keys, apply_updates, refreshed_keys, update_keys, update_cached_keys,
}
use compute_user_accounts.Store.Query.{user_by_uid}
use compute_user_accounts.Store.Updates.{apply_update_writes, apply_updates_nil, apply_updates_cons}
use compute_user_accounts.Store.WellFormed.{
  WellFormed, empty_store-WellFormed, update_accounts-WellFormed, apply_updates-WellFormed,
  update_cached_keys-WellFormed,
}
use compute_user_accounts.Store.Cached.{cached, update_accounts-cached}
use compute_user_accounts.Store.Refreshed.{user_by_uid-update_accounts, groups-update_accounts}
use compute_user_accounts.Store.KeyWrites.{update_keys-cached, update_cached_keys-cached}
use compute_user_accounts.Store.Spec.{
  Content, content, no_content, StoreWrite, accounts, keys, cached_keys, write_one, write_all, spec,
  spec_all,
}

same_content :
    (c d : Content)
    → ((name : Bytes) → c.named name ≡ d.named name)
    → ((uid : ℕ) → c.numbered uid ≡ d.numbered uid)
    → ((name : Bytes) → c.group_named name ≡ d.group_named name)
    → ((gid : ℕ) → c.group_numbered gid ≡ d.group_numbered gid)
    → c ≡ d
same_content c d h k l m = λ i. record {
  named = fun_ext h i;
  numbered = fun_ext k i;
  group_named = fun_ext l i;
  group_numbered = fun_ext m i;
}

-- The maps but that of the names, which a write of keys leaves alone.
record SameOthers (s t : CachingStore) : Type 0 where
  numbers : (uid : ℕ) → user_by_uid uid t ≡ user_by_uid uid s
  names : t.groups_by_name ≡ s.groups_by_name
  gids : t.groups_by_gid ≡ s.groups_by_gid

SameOthers-refl : (s : CachingStore) → SameOthers s s
SameOthers-refl s = record { numbers = λ uid. refl; names = refl; gids = refl }

SameOthers-trans : (s t u : CachingStore) → SameOthers s t → SameOthers t u → SameOthers s u
SameOthers-trans s t u h k = record {
  numbers = λ uid. k.numbers uid ∙ h.numbers uid;
  names = k.names ∙ h.names;
  gids = k.gids ∙ h.gids;
}

write_keys-SameOthers :
    (p : Pointer) (ks : List Bytes) (sudoer : Bool) (time : ℕ) (s : CachingStore)
    → SameOthers s (write_keys p ks sudoer time s)
unfolding write_keys user_by_uid
write_keys-SameOthers p ks sudoer time s = record {
  numbers = λ uid. elim (Option-cases (lookup uid s.users_by_uid)) [
    | inl e ↦ rw (e, user_by_uid) refl
    | inr (q, e) ↦ rw (e, user_by_uid) (ap ok (user-write ks sudoer time s.heap p q))
  ];
  names = refl;
  gids = refl;
}

apply_updates-SameOthers :
    (ups : List Update) (s t : CachingStore) → apply_updates ups s ≡ some t → SameOthers s t
apply_updates-SameOthers [] s t h =
    subst (SameOthers s) (some-injective _ _ (sym (apply_updates_nil s) ∙ h)) (SameOthers-refl s)
apply_updates-SameOthers (up ∷ ups) s t h =
    let (u, first, rest) = apply_updates_cons up s ups t h in
    SameOthers-trans s u t
      (elim (apply_update_writes up s u first) [
        | inl same ↦ subst (SameOthers s) same (SameOthers-refl s)
        | inr (p, v, found, view, done) ↦
            subst (SameOthers s) done (write_keys-SameOthers p v.keys v.sudoer up.time s)
      ])
      (apply_updates-SameOthers ups u t rest)

update_cached_keys-SameOthers :
    (name : Bytes) (ks : List Bytes) (sudoer : Bool) (time : ℕ) (s : CachingStore)
    → SameOthers s (update_cached_keys name ks sudoer time s)
unfolding update_cached_keys
update_cached_keys-SameOthers name ks sudoer time s =
    elim (Option-cases (lookup name s.users_by_name)) [
      | inl e ↦ rw (e, update_cached_keys) (SameOthers-refl s)
      | inr (p, e) ↦ rw (e, update_cached_keys) (write_keys-SameOthers p ks sudoer time s)
    ]

-- A write of keys, by what it makes of the map of the names.
keys-content :
    (s t : CachingStore) (named : Bytes → Option CachedUser)
    → SameOthers s t
    → ((name : Bytes) → cached name t ≡ named name)
    → content t ≡ record (content s) { named = named }
keys-content s t named o h =
    same_content (content t) (record (content s) { named = named }) h o.numbers
      (λ name. ap (lookup name) o.names) (λ gid. ap (lookup gid) o.gids)

accounts-content :
    (answer : Result Views) (s : CachingStore)
    → WellFormed s
    → content (update_accounts answer s) ≡ spec (content s) (accounts answer)
unfolding spec update_accounts
accounts-content (err e) s w = refl
accounts-content (ok (us, gs)) s w =
    same_content _ _ (λ name. update_accounts-cached us gs s name w)
      (λ uid. user_by_uid-update_accounts us gs s uid)
      (λ name. (groups-update_accounts us gs s name 0).0)
      (λ gid. (groups-update_accounts us gs s [] gid).1)

write_one-content :
    (x : StoreWrite) (s t : CachingStore)
    → WellFormed s
    → write_one x s ≡ some t
    → WellFormed t × (content t ≡ spec (content s) x)
unfolding write_one spec update_keys
write_one-content (accounts answer) s t w h =
    subst (λ u. WellFormed u × (content u ≡ spec (content s) (accounts answer)))
      (some-injective _ _ h) (update_accounts-WellFormed answer s w, accounts-content answer s w)
write_one-content (keys received) s t w h = (
  apply_updates-WellFormed (refreshed_keys received) s t h w,
  keys-content s t _ (apply_updates-SameOthers (refreshed_keys received) s t h)
      (λ name. update_keys-cached received s t name w h),
)
write_one-content (cached_keys username ks sudoer time) s t w h =
    subst (λ u. WellFormed u × (content u ≡ spec (content s) (cached_keys username ks sudoer time)))
      (some-injective _ _ h)
      (
        update_cached_keys-WellFormed username ks sudoer time s w,
        keys-content s _ _ (update_cached_keys-SameOthers username ks sudoer time s)
            (λ name. update_cached_keys-cached ks sudoer time s w username name),
      )

write_all-from :
    (xs : List StoreWrite) (s t : CachingStore)
    → WellFormed s
    → write_all xs s ≡ some t
    → content t ≡ foldl spec (content s) xs
unfolding write_all
write_all-from [] s t w h = ap content (sym (some-injective _ _ h))
write_all-from (x ∷ xs) s t w h = elim (Option-cases (write_one x s)) [
  | inl e ↦ ground arith
  | inr (u, e) ↦
      let (v, same) = write_one-content x s u w e in
      write_all-from xs u t v (sym (rw (e, write_all) refl) ∙ h) ∙ ap (λ c. foldl spec c xs) same
]

-- After any sequence of its writes that does not panic, from the empty store, the store holds exactly
-- what the specification makes of the same writes: for each name a user with his keys, for each UID a
-- user, and for each group name and each GID a group, or none.
pub write_all-content :
    (xs : List StoreWrite) (t : CachingStore)
    → write_all xs empty_store ≡ some t
    → content t ≡ spec_all xs no_content
unfolding spec_all user_by_uid lookup cached_in
write_all-content xs t h = write_all-from xs empty_store t empty_store-WellFormed h
