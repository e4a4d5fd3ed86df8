-- ===== src/Store/Provenance.antt =====
-- What the writes of the store do to its heap, when every key that they write was given for the user of
-- the cell.
use mathlib.Core.Option.{some-injective}
use compute_user_accounts.Base.{
  ℕ, zero, suc, ◌≡◌, refl, sym, subst, ◌∙◌, inl, inr, List, [], ◌∷◌, Bool, Option, Option-cases,
  none, some, Bytes, All, All-append, length, replicate, nat_key, bytes_key, arith,
}
use compute_user_accounts.Go.Map.{GoMap, lookup}
use compute_user_accounts.Accounts.{Result, ok, err}
use compute_user_accounts.Store.State.{
  AuthorizedKeysView, CachedUser, LinuxUserView, LinuxGroupView, Pointer, CachingStore, cell,
}
use compute_user_accounts.Store.Index.{IsIndex}
use compute_user_accounts.Store.Refresh.{
  Views, to_user, carry, cached_in, store_user, add_user, add_users, add_group, add_groups, cleared,
  update_accounts,
}
use compute_user_accounts.Store.Keys.{
  KeysAnswer, Update, zero_update, without_error, refreshed_keys, write_keys, apply_update,
  apply_updates, update_keys, update_cached_keys,
}
use compute_user_accounts.Store.Evolution.{
  IsNamed, IsGiven, AllGiven, Evolves, same, appended, written, IsCellGiven, Evolves-AllGiven,
  Evolves-IsNamed,
}
use compute_user_accounts.Store.Updates.{apply_update_writes, apply_updates_nil, apply_updates_cons}
use compute_user_accounts.Store.WellFormed.{WellFormed, apply_update-WellFormed}

module _ (Gives : ℕ → Bytes → KeysAnswer → Type 0) where
  carry-IsCellGiven :
      (o : Option CachedUser) (v : LinuxUserView)
      → ((c : CachedUser) → o ≡ some c → IsGiven Gives v.username c.keys c.key_refresh_time)
      → IsCellGiven Gives (carry o (to_user v))
  unfolding carry to_user
  carry-IsCellGiven none v h = inl (refl, refl)
  carry-IsCellGiven (some c) v h = h c refl

  module _ (old : GoMap Bytes Pointer) (h : List CachedUser) (known : IsIndex (λ u. u.name) old h)
      (all : AllGiven Gives h) where
    cached_in-IsGiven :
        (name : Bytes) (s : CachingStore) (c : CachedUser)
        → Evolves Gives h s.heap
        → cached_in old name s ≡ some c
        → IsGiven Gives name c.keys c.key_refresh_time
    unfolding cached_in
    cached_in-IsGiven name s c e t = elim (Option-cases (lookup name old)) [
      | inl f ↦ ground arith
      | inr (p, f) ↦
          let (lt, m) = Evolves-IsNamed Gives name p e (known name p f) in
          subst (λ d. IsGiven Gives name d.keys d.key_refresh_time)
            (some-injective (cell s.heap p) c (sym (rw (f, cached_in) refl) ∙ t))
            (subst (λ n. IsGiven Gives n (cell s.heap p).keys (cell s.heap p).key_refresh_time) m
              (Evolves-AllGiven Gives e all p))
    ]

    add_user-Evolves :
        (v : LinuxUserView) (s : CachingStore)
        → Evolves Gives h s.heap
        → Evolves Gives h (add_user old v s).heap
    unfolding add_user store_user to_user
    add_user-Evolves v s e =
        appended s.heap (carry (cached_in old (to_user v).name s) (to_user v)) e
          (carry-IsCellGiven _ v (λ c. cached_in-IsGiven v.username s c e))

    add_users-Evolves :
        (vs : List LinuxUserView) (s : CachingStore)
        → Evolves Gives h s.heap
        → Evolves Gives h (add_users old vs s).heap
    unfolding add_users
    add_users-Evolves [] s e = e
    add_users-Evolves (v ∷ vs) s e =
        add_users-Evolves vs (add_user old v s) (add_user-Evolves v s e)

  add_groups-heap : (vs : List LinuxGroupView) (s : CachingStore) → (add_groups vs s).heap ≡ s.heap
  unfolding add_groups add_group
  add_groups-heap [] s = refl
  add_groups-heap (v ∷ vs) s = add_groups-heap vs (add_group v s)

  pub update_accounts-Evolves :
      (api : Result Views) (s : CachingStore)
      → WellFormed s
      → AllGiven Gives s.heap
      → Evolves Gives s.heap (update_accounts api s).heap
  unfolding update_accounts
  update_accounts-Evolves (err e) s w all = same
  update_accounts-Evolves (ok (us, gs)) s w all =
      subst (Evolves Gives s.heap) (sym (add_groups-heap gs _))
        (add_users-Evolves s.users_by_name s.heap w.names all us (cleared s) same)

  -- A write through a pointer to a cell of the user.
  write_keys-Evolves :
      (name : Bytes) (p : Pointer) (keys : List Bytes) (sudoer : Bool) (time : ℕ)
      (h : List CachedUser) (s : CachingStore)
      → Evolves Gives h s.heap
      → IsNamed name p s.heap
      → IsGiven Gives name keys time
      → Evolves Gives h (write_keys p keys sudoer time s).heap
  unfolding write_keys
  write_keys-Evolves name p keys sudoer time h s e (lt, m) new =
      written s.heap p keys sudoer time e (subst (λ n. IsGiven Gives n keys time) (sym m) new)

  pub update_cached_keys-Evolves :
      (name : Bytes) (keys : List Bytes) (sudoer : Bool) (time : ℕ) (s : CachingStore)
      → WellFormed s
      → IsGiven Gives name keys time
      → Evolves Gives s.heap (update_cached_keys name keys sudoer time s).heap
  unfolding update_cached_keys
  update_cached_keys-Evolves name keys sudoer time s w new =
      elim (Option-cases (lookup name s.users_by_name)) [
        | inl e ↦ rw (e, update_cached_keys) same
        | inr (p, e) ↦
            rw (e, update_cached_keys)
              (write_keys-Evolves name p keys sudoer time s.heap s same (w.names name p e) new)
      ]

  -- The view of an update was given for its name.
  abbrev IsSound : Update → Type 0
  IsSound up =
      (view : AuthorizedKeysView) → up.view ≡ some view → IsGiven Gives up.name view.keys up.time

  apply_update-Evolves :
      (up : Update) (h : List CachedUser) (s t : CachingStore)
      → Evolves Gives h s.heap
      → WellFormed s
      → IsSound up
      → apply_update up s ≡ some t
      → Evolves Gives h t.heap
  apply_update-Evolves up h s t e w sound a = elim (apply_update_writes up s t a) [
    | inl unchanged ↦ subst (λ r. Evolves Gives h r.heap) unchanged e
    | inr (p, v, found, view, done) ↦
        subst (λ r. Evolves Gives h r.heap) done
          (write_keys-Evolves up.name p v.keys v.sudoer up.time h s e (w.names up.name p found)
            (sound v view))
  ]

  apply_updates-Evolves :
      (ups : List Update) (h : List CachedUser) (s t : CachingStore)
      → Evolves Gives h s.heap
      → WellFormed s
      → All IsSound ups
      → apply_updates ups s ≡ some t
      → Evolves Gives h t.heap
  apply_updates-Evolves [] h s t e w sound a =
      subst (λ r. Evolves Gives h r.heap) (some-injective _ _ (sym (apply_updates_nil s) ∙ a)) e
  apply_updates-Evolves (up ∷ ups) h s t e w (sound, rest) a =
      let (s', first, then) = apply_updates_cons up s ups t a in
      apply_updates-Evolves ups h s' t (apply_update-Evolves up h s s' e w sound first)
        (apply_update-WellFormed up s s' first w) rest then

  -- A worker's message has an error, or an answer that the API has given.
  abbrev pub IsMessage : Update → Type 0
  IsMessage up = up.error ≡ none → Gives up.time up.name (ok up.view)

  without_error-IsSound : (ups : List Update) → All IsMessage ups → All IsSound (without_error ups)
  unfolding without_error
  without_error-IsSound [] m = tt
  without_error-IsSound (up ∷ ups) (m, ms) = elim (Option-cases up.error) [
    | inl e ↦ rw e (
      (λ view f. inr (view, subst (λ o. Gives up.time up.name (ok o)) f (m e), refl)),
      without_error-IsSound ups ms,
    )
    | inr (x, e) ↦ rw e (without_error-IsSound ups ms)
  ]

  zero_updates-IsSound : (n : ℕ) → All IsSound (replicate n zero_update)
  zero_updates-IsSound zero = tt
  zero_updates-IsSound (suc n) = ((λ view e. ground arith), zero_updates-IsSound n)

  pub update_keys-Evolves :
      (messages : List Update) (s t : CachingStore)
      → WellFormed s
      → All IsMessage messages
      → update_keys messages s ≡ some t
      → Evolves Gives s.heap t.heap
  unfolding update_keys refreshed_keys
  update_keys-Evolves messages s t w sound a =
      apply_updates-Evolves (refreshed_keys messages) s.heap s t same w
        (All-append IsSound (replicate (length messages) zero_update) (without_error messages)
          (zero_updates-IsSound (length messages)) (without_error-IsSound messages sound))
        a
