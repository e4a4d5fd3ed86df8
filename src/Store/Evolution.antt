-- ===== src/Store/Evolution.antt =====
-- How the heap of the store evolves, when every key that is written was given for the user of the cell.
use compute_user_accounts.Base.{
  ℕ, zero, suc, ◌<◌, ◌≡◌, ◌⊎◌, refl, ap, ◌∙◌, inl, List, [], ◌∷◌, ◌++◌, Bool, some, Bytes, length,
  length-append, nat_key, bytes_key, arith,
}
use compute_user_accounts.Accounts.{ok}
use compute_user_accounts.Store.State.{zero_time, AuthorizedKeysView, CachedUser, Pointer, cell}
use compute_user_accounts.Store.Index.{cell-append_old, length-write, user-write, write}
use compute_user_accounts.Store.Keys.{KeysAnswer}

-- The pointer is one of a cell of the user with the name.
abbrev pub IsNamed : Bytes → Pointer → List CachedUser → Type 0
IsNamed name p h = (p < length h) × ((cell h p).user.name ≡ name)

-- `Gives time name answer`: the API may answer so, when it is asked for the keys of the name, and the
-- clock reads this time when the answer has come.
module _ (Gives : ℕ → Bytes → KeysAnswer → Type 0) where
  -- The keys with the time of their refresh: the API has given them for the name at that time, or there
  -- are none, and the time is zero.
  abbrev pub IsGiven : Bytes → List Bytes → ℕ → Type 0
  IsGiven name keys time =
      ((keys ≡ []) × (time ≡ zero_time))
      ⊎ ((view : AuthorizedKeysView) × Gives time name (ok (some view)) × (view.keys ≡ keys))

  abbrev pub IsCellGiven : CachedUser → Type 0
  IsCellGiven c = IsGiven c.user.name c.keys c.key_refresh_time

  abbrev pub AllGiven : List CachedUser → Type 0
  AllGiven h = (p : Pointer) → IsCellGiven (cell h p)

  pub AllGiven-nil : AllGiven []
  unfolding cell
  AllGiven-nil p = inl (refl, refl)

  -- New cells, and writes of keys.
  pub data Evolves (h : List CachedUser) : List CachedUser → Type 0 where
    same : Evolves h h
    appended :
        (g : List CachedUser) (c : CachedUser)
        → Evolves h g
        → IsCellGiven c
        → Evolves h (g ++ c ∷ [])
    written :
        (g : List CachedUser) (p : Pointer) (keys : List Bytes) (sudoer : Bool) (time : ℕ)
        → Evolves h g
        → IsGiven (cell g p).user.name keys time
        → Evolves h (write keys sudoer time g p)

  AllGiven-append :
      (h : List CachedUser) (c : CachedUser) → AllGiven h → IsCellGiven c → AllGiven (h ++ c ∷ [])
  unfolding cell
  AllGiven-append [] c all new zero = new
  AllGiven-append [] c all new (suc p) = inl (refl, refl)
  AllGiven-append (d ∷ h) c all new zero = all 0
  AllGiven-append (d ∷ h) c all new (suc p) = AllGiven-append h c (λ q. all (suc q)) new p

  AllGiven-write :
      (keys : List Bytes) (sudoer : Bool) (time : ℕ) (h : List CachedUser) (p : Pointer)
      → IsGiven (cell h p).user.name keys time
      → AllGiven h
      → AllGiven (write keys sudoer time h p)
  unfolding cell
  AllGiven-write keys sudoer time [] p new all q = all q
  AllGiven-write keys sudoer time (c ∷ h) zero new all zero = new
  AllGiven-write keys sudoer time (c ∷ h) zero new all (suc q) = all (suc q)
  AllGiven-write keys sudoer time (c ∷ h) (suc p) new all zero = all 0
  AllGiven-write keys sudoer time (c ∷ h) (suc p) new all (suc q) =
      AllGiven-write keys sudoer time h p new (λ r. all (suc r)) q

  pub Evolves-AllGiven : {h g : List CachedUser} → Evolves h g → AllGiven h → AllGiven g
  Evolves-AllGiven same all = all
  Evolves-AllGiven (appended g c e new) all = AllGiven-append g c (Evolves-AllGiven e all) new
  Evolves-AllGiven (written g p keys sudoer time e new) all =
      AllGiven-write keys sudoer time g p new (Evolves-AllGiven e all)

  pub Evolves-IsNamed :
      {h g : List CachedUser} (name : Bytes) (q : Pointer)
      → Evolves h g
      → IsNamed name q h
      → IsNamed name q g
  Evolves-IsNamed name q same n = n
  Evolves-IsNamed name q (appended g c e new) n =
      let (lt, m) = Evolves-IsNamed name q e n in
      (
        omega (arith, length-append g (c ∷ [])),
        ap (λ d. d.user.name) (cell-append_old g c q lt) ∙ m,
      )
  Evolves-IsNamed name q (written g p keys sudoer time e new) n =
      let (lt, m) = Evolves-IsNamed name q e n in
      (
        omega (arith, length-write keys sudoer time g p),
        ap (λ u. u.name) (user-write keys sudoer time g p q) ∙ m,
      )
