-- ===== src/Store/KeyWrites.antt =====
-- What the key updates, `updateKeys` and `updateCachedKeys`, make of the cache.
use mathlib.Core.Option.{some-injective}
use compute_user_accounts.Base.{
  ℕ, zero, suc, ◌≡◌, refl, sym, ap, subst, ◌∙◌, inl, inr, List, [], ◌∷◌, ◌++◌, Bool, true, false,
  Bool-cases, Option, Option-cases, none, some, Bytes, length, replicate, bytes_eq, bytes_eq_sound,
  bytes_eq_iff, nat_key, bytes_key, if◌then◌else◌, if_true, if_false,
}
use compute_user_accounts.Go.Map.{lookup}
use compute_user_accounts.Accounts.{Error}
use compute_user_accounts.Store.State.{AuthorizedKeysView, CachedUser, Pointer, CachingStore, deref}
use compute_user_accounts.Store.Index.{rekeyed, cell-write_self, cell-write_ne}
use compute_user_accounts.Store.Keys.{
  Update, zero_update, write_keys, apply_update, apply_updates, update_keys, refreshed_keys,
  without_error, update_cached_keys,
}
use compute_user_accounts.Store.Updates.{
  apply_update_unknown, apply_update_known, apply_update_panic, apply_updates_cons,
  apply_updates_nil,
}
use compute_user_accounts.Store.WellFormed.{WellFormed, apply_update-WellFormed}
use compute_user_accounts.Store.Cached.{cached, cached_in-none, cached_in-some}

abbrev pub rekeyed? : List Bytes → Bool → ℕ → Option CachedUser → Option CachedUser
rekeyed? keys sudoer time none = none
rekeyed? keys sudoer time (some c) = some (rekeyed keys sudoer time c)

-- Two names do not share a cell.
distinct_cells :
    (s : CachingStore) (name other : Bytes) (p q : Pointer)
    → WellFormed s
    → lookup name s.users_by_name ≡ some p
    → lookup other s.users_by_name ≡ some q
    → p ≡ q
    → name ≡ other
distinct_cells s name other p q w e f same =
    sym (w.names name p e).1 ∙ ap (λ r. (deref s r).user.name) same ∙ (w.names other q f).1

-- An update of an unknown user touches nothing.
untouched :
    (f : Option CachedUser → Option CachedUser) (s : CachingStore) (known name : Bytes)
    → f none ≡ none
    → lookup known s.users_by_name ≡ none
    → (if bytes_eq known name then f (cached name s) else cached name s) ≡ cached name s
untouched f s known name strict e = elim (Bool-cases (bytes_eq known name)) [
  | inl t ↦
      let missing =
        cached_in-none s.users_by_name name s
          (subst (λ n. lookup n s.users_by_name ≡ none) (bytes_eq_sound known name t) e) in
      if_true _ _ t ∙ ap f missing ∙ strict ∙ sym missing
  | inr f ↦ if_false _ _ f
]

module _ (keys : List Bytes) (sudoer : Bool) (time : ℕ) (s : CachingStore) (w : WellFormed s) where
  cached-write_keys :
      (known : Bytes) (p : Pointer) (name : Bytes)
      → lookup known s.users_by_name ≡ some p
      → cached name (write_keys p keys sudoer time s)
        ≡ (if bytes_eq known name then rekeyed? keys sudoer time (cached name s) else cached name s)
  unfolding write_keys
  cached-write_keys known p name e = elim (Bool-cases (bytes_eq known name)) [
    | inl t ↦
        let here = subst (λ n. lookup n s.users_by_name ≡ some p) (bytes_eq_sound known name t) e in
        cached_in-some s.users_by_name name (write_keys p keys sudoer time s) p here
        ∙ ap some (cell-write_self keys sudoer time s.heap p (w.names name p here).0)
        ∙ sym (ap (rekeyed? keys sudoer time) (cached_in-some s.users_by_name name s p here))
        ∙ sym (if_true _ _ t)
    | inr f ↦ elim (Option-cases (lookup name s.users_by_name)) [
      | inl missing ↦
          cached_in-none s.users_by_name name (write_keys p keys sudoer time s) missing
          ∙ sym (cached_in-none s.users_by_name name s missing)
          ∙ sym (if_false _ _ f)
      | inr (q, found) ↦
          cached_in-some s.users_by_name name (write_keys p keys sudoer time s) q found
          ∙ ap some (
              cell-write_ne keys sudoer time s.heap p q (λ same.
                let one =
                  (bytes_eq_iff known name).1 (distinct_cells s known name p q w e found same) in
                cc))
          ∙ sym (cached_in-some s.users_by_name name s q found)
          ∙ sym (if_false _ _ f)
    ]
  ]

  -- In a well-formed store, `updateCachedKeys` sets the keys, the sudo flag and the refresh time of the
  -- user named, if he is known, and leaves what every other name is bound to.
  pub update_cached_keys-cached :
      (username name : Bytes)
      → cached name (update_cached_keys username keys sudoer time s) ≡ (
          if bytes_eq username name
          then rekeyed? keys sudoer time (cached name s)
          else cached name s)
  unfolding update_cached_keys
  update_cached_keys-cached username name = elim (Option-cases (lookup username s.users_by_name)) [
    | inl missing ↦
        rw (missing, update_cached_keys)
          (sym (untouched (rekeyed? keys sudoer time) s username name refl missing))
    | inr (p, found) ↦ rw (found, update_cached_keys) (cached-write_keys username p name found)
  ]

-- The view of an update, put into a cell.
abbrev pub applied : Option AuthorizedKeysView → ℕ → Option CachedUser → Option CachedUser
applied none time c = c
applied (some v) time c = rekeyed? v.keys v.sudoer time c

applied-none : (v : Option AuthorizedKeysView) (time : ℕ) → applied v time none ≡ none
applied-none none time = refl
applied-none (some v) time = refl

-- A name's cell after updates in this order.
unfoldable after_updates : Bytes → List Update → Option CachedUser → Option CachedUser
after_updates name [] c = c
after_updates name (rk ∷ rks) c =
    after_updates name rks (if bytes_eq rk.name name then applied rk.view rk.time c else c)

apply_update-cached :
    (rk : Update) (s t : CachingStore) (name : Bytes)
    → WellFormed s
    → apply_update rk s ≡ some t
    → cached name t
      ≡ (if bytes_eq rk.name name then applied rk.view rk.time (cached name s) else cached name s)
apply_update-cached rk s t name w h = elim (Option-cases (lookup rk.name s.users_by_name)) [
  | inl missing ↦
      ap (cached name) (some-injective _ _ (sym h ∙ apply_update_unknown rk s missing))
      ∙ sym (
          untouched (applied rk.view rk.time) s rk.name name (applied-none rk.view rk.time) missing)
  | inr (p, found) ↦ elim (Option-cases rk.view) [
    | inl nil ↦ cc (apply_update_panic rk s p found nil)
    | inr (v, view) ↦
        ap (cached name) (some-injective _ _ (sym h ∙ apply_update_known rk s p v found view))
        ∙ cached-write_keys v.keys v.sudoer rk.time s w rk.name p name found
        ∙ ap
            (λ x.
              if bytes_eq rk.name name then applied x rk.time (cached name s) else cached name s)
            (sym view)
  ]
]

apply_updates-cached :
    (rks : List Update) (s t : CachingStore) (name : Bytes)
    → WellFormed s
    → apply_updates rks s ≡ some t
    → cached name t ≡ after_updates name rks (cached name s)
unfolding after_updates
apply_updates-cached [] s t name w h =
    ap (cached name) (some-injective _ _ (sym h ∙ apply_updates_nil s))
apply_updates-cached (rk ∷ rks) s t name w h =
    let (s', first, rest) = apply_updates_cons rk s rks t h in
    apply_updates-cached rks s' t name (apply_update-WellFormed rk s s' first w) rest
    ∙ ap (after_updates name rks) (apply_update-cached rk s s' name w first)

if_same : {A : Type 0} (b : Bool) (x : A) → (if b then x else x) ≡ x
if_same true x = refl
if_same false x = refl

after_zero_updates :
    (n : ℕ) (rks : List Update) (name : Bytes) (c : Option CachedUser)
    → after_updates name (replicate n zero_update ++ rks) c ≡ after_updates name rks c
unfolding after_updates
after_zero_updates zero rks name c = refl
after_zero_updates (suc n) rks name c =
    ap (after_updates name (replicate n zero_update ++ rks)) (if_same (bytes_eq [] name) c)
    ∙ after_zero_updates n rks name c

-- The answer of a message, put into a cell: nothing of one with an error.
abbrev pub answered :
    Option Error → Option AuthorizedKeysView → ℕ → Option CachedUser → Option CachedUser
answered (some e) v time c = c
answered none v time c = applied v time c

-- A name's cell after messages in this order.
unfoldable pub after_messages : Bytes → List Update → Option CachedUser → Option CachedUser
after_messages name [] c = c
after_messages name (up ∷ ups) c =
    after_messages name ups
      (if bytes_eq up.name name then answered up.error up.view up.time c else c)

after_updates-without_error :
    (name : Bytes) (ups : List Update) (c : Option CachedUser)
    → after_updates name (without_error ups) c ≡ after_messages name ups c
unfolding after_updates without_error after_messages
after_updates-without_error name [] c = refl
after_updates-without_error name (up ∷ ups) c = elim (Option-cases up.error) [
  | inl e ↦ rw e (after_updates-without_error name ups _)
  | inr (x, e) ↦ rw e (
      after_updates-without_error name ups c
      ∙ ap (after_messages name ups) (sym (if_same (bytes_eq up.name name) c)))
]

-- In a well-formed store, where `updateKeys` does not panic, the keys, the sudo flag and the refresh
-- time of a user are those of the last answer for him, in the order of arrival, answers with an error
-- left out, and a user without an answer keeps what he had.
pub update_keys-cached :
    (received : List Update) (s t : CachingStore) (name : Bytes)
    → WellFormed s
    → update_keys received s ≡ some t
    → cached name t ≡ after_messages name received (cached name s)
unfolding update_keys refreshed_keys
update_keys-cached received s t name w h =
    apply_updates-cached (refreshed_keys received) s t name w h
    ∙ after_zero_updates (length received) (without_error received) name (cached name s)
    ∙ after_updates-without_error name received (cached name s)
