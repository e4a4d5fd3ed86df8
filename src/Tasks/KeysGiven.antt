-- ===== src/Tasks/KeysGiven.antt =====
-- What is known of the keys of one call of `AuthorizedKeys`, at its search and at its reply.
use mathlib.Core.Option.{some-injective}
use compute_user_accounts.Base.{
  false, arith, ◌≤◌, ◌+◌, ℕ, List, [], ◌≡◌, refl, subst, inl, inr, ◌⊎◌, Option, Option-cases,
  Bool-cases, none, some, Bytes, All, ◌==◌,
}
use compute_user_accounts.Accounts.{Result, Error, username_not_found, ok, err}
use compute_user_accounts.Store.State.{
  AuthorizedKeysView, Config, CachedUser, CachingStore, Pointer, deref, now_outside_timespan,
}
use compute_user_accounts.Store.Keys.{KeysAnswer}
use compute_user_accounts.Store.Query.{user_by_name_impl}
use compute_user_accounts.Store.Calls.{CachedKeysUpdate, KeysCall, keys_answered}
use compute_user_accounts.Store.WellFormed.{WellFormed}
use compute_user_accounts.Store.Evolution.{
  IsNamed, IsGiven, AllGiven, Evolves, same, Evolves-IsNamed,
}
use compute_user_accounts.Store.Provenance.{update_accounts-Evolves}
use compute_user_accounts.Tasks.State.{System, refresh, receive, fire, close}
use compute_user_accounts.Tasks.Step.{TaskStep, received, fired, skipped, asked, refreshed, closed}
use compute_user_accounts.Tasks.Keys.{
  KeysPhase, unasked, searching, asking, replied, set_keys, searched, start_update,
}

recent :
    (now time cooldown : ℕ)
    → now_outside_timespan now time cooldown ≡ false
    → (time ≤ now) × (now ≤ time + cooldown)
unfolding now_outside_timespan
recent now time cooldown f = (ground arith, ground arith)

module _ (Gives : ℕ → Bytes → KeysAnswer → Type 0) (c : Config) where
  -- Keys that are returned due to the cooldown, with the time of the search, were given at most the
  -- cooldown before; other keys, in the answer that the call got from the API, or at any time before if
  -- this answer was an error.
  abbrev pub IsGivenAt : Bytes → Option ℕ → List Bytes → Type 0
  IsGivenAt name (some now) keys =
      (time : ℕ) × IsGiven Gives name keys time
      × (time ≤ now)
      × (now ≤ time + c.key_refresh_cooldown)
  IsGivenAt name none keys =
      ((time : ℕ) × (view : AuthorizedKeysView) × Gives time name (ok (some view))
        × (view.keys ≡ keys))
      ⊎ (((time : ℕ) × (e : Error) × Gives time name (err e))
          × ((time : ℕ) × IsGiven Gives name keys time))

  -- Keys that were given, or the error that no user has the name.
  abbrev pub IsKeysAnswer : Bytes → Option ℕ → Result (List Bytes) → Type 0
  IsKeysAnswer name at (ok keys) = IsGivenAt name at keys
  IsKeysAnswer name at (err e) = e ≡ username_not_found name

  abbrev pub IsPhaseGiven : List CachedUser → KeysPhase → Type 0
  IsPhaseGiven h unasked = Unit {0}
  IsPhaseGiven h (searching name) = Unit {0}
  IsPhaseGiven h (asking name p) = IsNamed name p h
  IsPhaseGiven h (replied name at result) = IsKeysAnswer name at result

  abbrev pub IsUpdateGiven : CachedKeysUpdate → Type 0
  IsUpdateGiven u = IsGiven Gives u.username u.keys u.refresh_time

  pub Evolves-IsPhaseGiven :
      {h g : List CachedUser} (x : KeysPhase)
      → Evolves Gives h g
      → IsPhaseGiven h x
      → IsPhaseGiven g x
  Evolves-IsPhaseGiven unasked e k = tt
  Evolves-IsPhaseGiven (searching name) e k = tt
  Evolves-IsPhaseGiven (asking name p) e k = Evolves-IsNamed Gives name p e k
  Evolves-IsPhaseGiven (replied name at result) e k = k

  pub set_keys-IsPhaseGiven :
      (h : List CachedUser) (i j : ℕ) (x : KeysPhase) (keys : ℕ → KeysPhase)
      → IsPhaseGiven h x
      → IsPhaseGiven h (keys j)
      → IsPhaseGiven h (set_keys i x keys j)
  set_keys-IsPhaseGiven h i j x keys new old = elim (Bool-cases (i == j)) [
    | inl t ↦ rw t new
    | inr f ↦ rw f old
  ]

  pub TaskStep-Evolves :
      {s t : System}
      → TaskStep c s t
      → WellFormed s.store
      → AllGiven Gives s.store.heap
      → Evolves Gives s.store.heap t.store.heap
  unfolding receive fire refresh close
  TaskStep-Evolves (received ch rest e q) w all = same
  TaskStep-Evolves (fired e q) w all = same
  TaskStep-Evolves (skipped ch at e d) w all = same
  TaskStep-Evolves (asked ch at e d) w all = same
  TaskStep-Evolves {s = s} (refreshed ch at api e) w all =
      update_accounts-Evolves Gives api s.store w all
  TaskStep-Evolves (closed ch at e) w all = same

  -- The second search finds a cell of the user, whose keys are his.
  pub searched-IsPhaseGiven :
      (name : Bytes) (now : ℕ) (s : CachingStore)
      → WellFormed s
      → AllGiven Gives s.heap
      → IsPhaseGiven s.heap (searched c name (user_by_name_impl name s) now s)
  unfolding searched user_by_name_impl
  searched-IsPhaseGiven name now s w all = elim (Option-cases (user_by_name_impl name s)) [
    | inl e ↦ rw e refl
    | inr (p, e) ↦
        elim (Bool-cases
          (now_outside_timespan now (deref s p).key_refresh_time c.key_refresh_cooldown)) [
            | inl t ↦ rw (e, t) (w.names name p e)
            | inr f ↦
                rw (e, f)
                  (
                    (deref s p).key_refresh_time,
                    subst (λ n. IsGiven Gives n (deref s p).keys (deref s p).key_refresh_time)
                        (w.names name p e).1 (all p),
                    (recent now _ c.key_refresh_cooldown f).0,
                    (recent now _ c.key_refresh_cooldown f).1,
                  )
          ]
  ]

  pub keys_answered-IsGiven :
      (name : Bytes) (p : Pointer) (now : ℕ) (answer : KeysAnswer) (s : CachingStore)
      (call : KeysCall)
      → IsNamed name p s.heap
      → AllGiven Gives s.heap
      → Gives now name answer
      → keys_answered name p now answer s ≡ some call
      → IsPhaseGiven s.heap (replied name none call.result)
        × All IsUpdateGiven (start_update call.started [])
  unfolding keys_answered
  keys_answered-IsGiven name p now (err e) s call n all g k =
      subst
        (λ k.
          IsPhaseGiven s.heap (replied name none k.result)
          × All IsUpdateGiven (start_update k.started []))
        (some-injective _ _ k)
        (
          inr (
            (now, e, g),
            (
              _,
              subst (λ x. IsGiven Gives x (deref s p).keys (deref s p).key_refresh_time) n.1
                  (all p),
            ),
          ),
          tt,
        )
  keys_answered-IsGiven name p now (ok none) s call n all g k = cc
  keys_answered-IsGiven name p now (ok (some view)) s call n all g k =
      subst
        (λ k.
          IsPhaseGiven s.heap (replied name none k.result)
          × All IsUpdateGiven (start_update k.started []))
        (some-injective _ _ k) (inl (now, view, g, refl), (inr (view, g, refl), tt))
