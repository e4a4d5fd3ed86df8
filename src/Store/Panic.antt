-- ===== src/Store/Panic.antt =====
-- When `updateKeys` and `AuthorizedKeys` dereference a nil view, which ends the daemon.
use compute_user_accounts.Base.{
  ℕ, zero, suc, ◌≡◌, refl, ap, ◌∙◌, inl, inr, List, [], ◌∷◌, ◌++◌, Bool, true, false, ◌&&◌, ◌||◌,
  Option, Option-cases, none, some, arith, length, replicate, nat_key, bytes_key,
}
use compute_user_accounts.Go.Map.{has}
use compute_user_accounts.Store.State.{CachingStore}
use compute_user_accounts.Store.Keys.{
  Update, zero_update, write_keys, apply_update, apply_updates, update_keys, refreshed_keys,
  without_error,
}

abbrev pub is_none : {A : Type 0} → Option A → Bool
is_none none = true
is_none (some a) = false

-- A nil view for a known user.
abbrev is_fatal : CachingStore → Update → Bool
is_fatal s rk = has rk.name s.users_by_name && is_none rk.view

unfoldable any_fatal : CachingStore → List Update → Bool
any_fatal s [] = false
any_fatal s (rk ∷ rks) = is_fatal s rk || any_fatal s rks

apply_update-is_none :
    (rk : Update) (s : CachingStore) → is_none (apply_update rk s) ≡ is_fatal s rk
unfolding apply_update has
apply_update-is_none rk s = ground arith

-- A write leaves the names as they are.
apply_update-names :
    (rk : Update) (s t : CachingStore)
    → apply_update rk s ≡ some t
    → t.users_by_name ≡ s.users_by_name
unfolding apply_update write_keys
apply_update-names rk s t h = ground arith

any_fatal-names :
    (rks : List Update) (s t : CachingStore)
    → t.users_by_name ≡ s.users_by_name
    → any_fatal t rks ≡ any_fatal s rks
unfolding any_fatal
any_fatal-names [] s t e = refl
any_fatal-names (rk ∷ rks) s t e =
    ap (λ m. (has rk.name m && is_none rk.view) || any_fatal t rks) e
    ∙ ap (λ b. is_fatal s rk || b) (any_fatal-names rks s t e)

apply_updates-is_none :
    (rks : List Update) (s : CachingStore) → is_none (apply_updates rks s) ≡ any_fatal s rks
unfolding apply_updates any_fatal
apply_updates-is_none [] s = refl
apply_updates-is_none (rk ∷ rks) s = elim (Option-cases (apply_update rk s)) [
  | inl e ↦ ground (arith, apply_update-is_none rk s)
  | inr (t, e) ↦ ground (
    arith,
    apply_update-is_none rk s,
    apply_updates-is_none rks t,
    any_fatal-names rks s t (apply_update-names rk s t e),
  )
]

any_fatal-append :
    (s : CachingStore) (xs ys : List Update)
    → any_fatal s (xs ++ ys) ≡ (any_fatal s xs || any_fatal s ys)
unfolding any_fatal
any_fatal-append s [] ys = refl
any_fatal-append s (x ∷ xs) ys = ground (arith, any_fatal-append s xs ys)

any_fatal-zero :
    (s : CachingStore) (n : ℕ)
    → any_fatal s (replicate (suc n) zero_update) ≡ has [] s.users_by_name
unfolding any_fatal
any_fatal-zero s zero = ground arith
any_fatal-zero s (suc n) = ground (arith, any_fatal-zero s n)

-- A message without an error, of a nil view for a known user.
abbrev pub is_fatal_message : CachingStore → Update → Bool
is_fatal_message s up = is_none up.error && (has up.name s.users_by_name && is_none up.view)

unfoldable pub any_fatal_message : CachingStore → List Update → Bool
any_fatal_message s [] = false
any_fatal_message s (up ∷ ups) = is_fatal_message s up || any_fatal_message s ups

any_fatal-without_error :
    (s : CachingStore) (ups : List Update)
    → any_fatal s (without_error ups) ≡ any_fatal_message s ups
unfolding any_fatal without_error any_fatal_message
any_fatal-without_error s [] = refl
any_fatal-without_error s (up ∷ ups) = ground (arith, any_fatal-without_error s ups)

-- With a message or more, `updateKeys` panics exactly if a user with an empty name is known, since the
-- slice starts with zero updates, or an answer without an error has a nil view for a known user.
pub update_keys-is_none :
    (up : Update) (ups : List Update) (s : CachingStore)
    → is_none (update_keys (up ∷ ups) s)
      ≡ (has [] s.users_by_name || any_fatal_message s (up ∷ ups))
unfolding update_keys refreshed_keys
update_keys-is_none up ups s =
    apply_updates-is_none (refreshed_keys (up ∷ ups)) s
    ∙ any_fatal-append s (replicate (suc (length ups)) zero_update) (without_error (up ∷ ups))
    ∙ ap (λ b. b || any_fatal s (without_error (up ∷ ups))) (any_fatal-zero s (length ups))
    ∙ ap (λ b. has [] s.users_by_name || b) (any_fatal-without_error s (up ∷ ups))
