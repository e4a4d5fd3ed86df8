-- ===== src/Store/Updates.antt =====
-- The three ways of one key update, and the loop over the updates taken apart.
use mathlib.Core.Option.{some-injective}
use compute_user_accounts.Base.{
  ◌≡◌, refl, sym, ◌∙◌, inl, inr, List, [], ◌∷◌, Option-cases, none, some, arith, ◌⊎◌, bytes_key,
}
use compute_user_accounts.Go.Map.{lookup}
use compute_user_accounts.Store.State.{AuthorizedKeysView, Pointer, CachingStore}
use compute_user_accounts.Store.Keys.{Update, write_keys, apply_update, apply_updates}

module _ (rk : Update) (s : CachingStore) where
  pub apply_update_unknown : lookup rk.name s.users_by_name ≡ none → apply_update rk s ≡ some s
  unfolding apply_update
  apply_update_unknown e = rw (e, apply_update)

  pub apply_update_known :
      (p : Pointer) (v : AuthorizedKeysView)
      → lookup rk.name s.users_by_name ≡ some p
      → rk.view ≡ some v
      → apply_update rk s ≡ some (write_keys p v.keys v.sudoer rk.time s)
  unfolding apply_update
  apply_update_known p v e f = ground arith

  pub apply_update_panic :
      (p : Pointer)
      → lookup rk.name s.users_by_name ≡ some p
      → rk.view ≡ none
      → apply_update rk s ≡ none
  unfolding apply_update
  apply_update_panic p e f = ground arith

  -- An update that does not panic leaves the store as it is, or writes the keys of its view through
  -- the pointer of its name.
  pub apply_update_writes :
      (t : CachingStore)
      → apply_update rk s ≡ some t
      → (s ≡ t)
        ⊎ ((p : Pointer) × (v : AuthorizedKeysView) × (lookup rk.name s.users_by_name ≡ some p)
            × (rk.view ≡ some v)
            × (write_keys p v.keys v.sudoer rk.time s ≡ t))
  apply_update_writes t h = elim (Option-cases (lookup rk.name s.users_by_name)) [
    | inl e ↦ inl (some-injective _ _ (sym (apply_update_unknown e) ∙ h))
    | inr (p, e) ↦ elim (Option-cases rk.view) [
      | inl f ↦ cc (apply_update_panic p e f)
      | inr (v, f) ↦ inr (p, v, e, f, some-injective _ _ (sym (apply_update_known p v e f) ∙ h))
    ]
  ]

  pub apply_updates_cons :
      (rks : List Update) (t : CachingStore)
      → apply_updates (rk ∷ rks) s ≡ some t
      → (s' : CachingStore) × (apply_update rk s ≡ some s') × (apply_updates rks s' ≡ some t)
  unfolding apply_updates
  apply_updates_cons rks t h = elim (Option-cases (apply_update rk s)) [
    | inl e ↦ ground arith
    | inr (s', e) ↦ (s', e, ground arith)
  ]

pub apply_updates_nil : (s : CachingStore) → apply_updates [] s ≡ some s
unfolding apply_updates
apply_updates_nil s = refl
