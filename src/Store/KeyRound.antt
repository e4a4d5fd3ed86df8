-- ===== src/Store/KeyRound.antt =====
-- A whole round of `updateKeys`: from the names that `keysRequiringRefresh` lists, over the workers'
-- messages, whose order of arrival is open, to the store.
use mathlib.Core.List.{
  Perm, Mem, map, mem-cons, mem-cons_self, mem-cons_of_mem, mem-map, not-mem-nil,
}
use mathlib.Core.Bool.{false≢true}
use mathlib.Core.List.Perm
use mathlib.Core.Logic.{∥∥₁_elim, ∥∥₁_map}
use mathlib.Core.Logic.Or
use native.Mathlib.Decide.{ℕ_discrete}
use compute_user_accounts.Base.{
  ℕ, ◌≡◌, ◌↔◌, refl, sym, ap, subst, ◌∙◌, inl, inr, List, [], ◌∷◌, Bool, Bool-cases, true, false,
  Option, none, some, arith, Bytes, bytes_eq, bytes_eq_iff, nat_key, bytes_key, if◌then◌else◌,
  if_true, if_false,
}
use compute_user_accounts.Go.Map.{RangeOrder}
use compute_user_accounts.Accounts.{ok, err}
use compute_user_accounts.Store.State.{Config, CachedUser, Pointer, CachingStore}
use compute_user_accounts.Store.Keys.{KeysAnswer, Update, keys_requiring_refresh, work, update_keys}
use compute_user_accounts.Store.WellFormed.{WellFormed}
use compute_user_accounts.Store.Cached.{cached}
use compute_user_accounts.Store.KeyWrites.{rekeyed?, answered, after_messages, update_keys-cached}
use compute_user_accounts.Store.KeysDue.{is_due, keys_requiring_refresh-mem_is_due}

-- What the API answers for a user, put into his cell at the time of the answer.
abbrev pub answer_for : KeysAnswer → ℕ → Option CachedUser → Option CachedUser
answer_for (err e) now c = c
answer_for (ok none) now c = c
answer_for (ok (some v)) now c = rekeyed? v.keys v.sudoer now c

-- Whether a message for the name has arrived.
unfoldable any_named : Bytes → List Update → Bool
any_named name [] = false
any_named name (up ∷ ups) = if bytes_eq up.name name then true else any_named name ups

mem-any_named :
    (name : Bytes) (ups : List Update)
    → any_named name ups ≡ true
    → ∥ ((up : Update) × Mem up ups × (up.name ≡ name)) ∥₁
unfolding any_named
mem-any_named name [] h = absurd (false≢true h)
mem-any_named name (up ∷ ups) h = elim (Bool-cases (bytes_eq up.name name)) [
  | inl t ↦ ∣ (up, mem-cons_self, (bytes_eq_iff up.name name).0 t) ∣₁
  | inr f ↦
      ∥∥₁_map (mem-any_named name ups (sym (if_false _ _ f) ∙ h))
        (λ found. (found.0, mem-cons_of_mem up found.1, found.2))
]

any_named-mem :
    (name : Bytes) (up : Update) (ups : List Update)
    → Mem up ups
    → up.name ≡ name
    → any_named name ups ≡ true
unfolding any_named
any_named-mem name up [] h e = absurd (not-mem-nil h)
any_named-mem name up (x ∷ ups) h e = elim (Bool-cases (bytes_eq x.name name)) [
  | inl t ↦ if_true _ _ t
  | inr f ↦
      if_false _ _ f
      ∙ Or.elim (hlevel) (mem-cons.0 h)
          (λ same.
            absurd
              (false≢true (sym f ∙ (bytes_eq_iff x.name name).1 (ap (λ u. u.name) (sym same) ∙ e))))
          (λ rest. any_named-mem name up ups rest e)
]

CachedUser?-set : IsSet (Option CachedUser)
CachedUser?-set = hlevel ℕ_discrete

same_tests : (a b : Bool) → (a ≡ true → b ≡ true) → (b ≡ true → a ≡ true) → a ≡ b
same_tests true b h k = sym (h refl)
same_tests false true h k = k refl
same_tests false false h k = refl

if_either : {A : Type 0} {x y : A} (b : Bool) → x ≡ y → (if b then x else y) ≡ y
if_either true e = e
if_either false e = refl

-- The messages of the workers, in any order.
abbrev pub Arrival : (Bytes → KeysAnswer) → (Bytes → ℕ) → List Bytes → List Update → Type 0
Arrival api now names received = Perm received (map (work api now) names)

module _ (api : Bytes → KeysAnswer) (now : Bytes → ℕ) where
  work-name : (n : Bytes) → (work api now n).name ≡ n
  unfolding work
  work-name n = ground arith

  work-answered :
      (n : Bytes) (c : Option CachedUser)
      → answered (work api now n).error (work api now n).view (work api now n).time c
        ≡ answer_for (api n) (now n) c
  unfolding work
  work-answered n c = ground arith

  answer_for-again :
      (a : KeysAnswer) (t : ℕ) (c : Option CachedUser)
      → answer_for a t (answer_for a t c) ≡ answer_for a t c
  answer_for-again (err e) t c = refl
  answer_for-again (ok none) t c = refl
  answer_for-again (ok (some v)) t none = refl
  answer_for-again (ok (some v)) t (some c) = refl

  -- A message says what the API answers for its name.
  abbrev IsHonest : Update → Type 0
  IsHonest up =
      (c : Option CachedUser)
      → answered up.error up.view up.time c ≡ answer_for (api up.name) (now up.name) c

  work-IsHonest : (n : Bytes) → IsHonest (work api now n)
  work-IsHonest n c = work-answered n c ∙ ap (λ m. answer_for (api m) (now m) c) (sym (work-name n))

  -- Of messages that the workers made, those for the name count, and all of them alike.
  after_messages-any_named :
      (name : Bytes) (ups : List Update) (c : Option CachedUser)
      → ((up : Update) → Mem up ups → IsHonest up)
      → after_messages name ups c
        ≡ (if any_named name ups then answer_for (api name) (now name) c else c)
  unfolding after_messages any_named
  after_messages-any_named name [] c made = refl
  after_messages-any_named name (up ∷ ups) c made =
      let rest : (d : Option CachedUser)
          → after_messages name ups d
            ≡ (if any_named name ups then answer_for (api name) (now name) d else d) =
        λ d. after_messages-any_named name ups d (λ u m. made u (mem-cons_of_mem up m)) in
      elim (Bool-cases (bytes_eq up.name name)) [
        | inl t ↦ rw t (
            ap (after_messages name ups) (
              made up mem-cons_self c
              ∙ ap (λ n. answer_for (api n) (now n) c) ((bytes_eq_iff up.name name).0 t))
            ∙ rest (answer_for (api name) (now name) c)
            ∙ if_either (any_named name ups) (answer_for-again (api name) (now name) c))
        | inr f ↦ rw f (rest c)
      ]

  made_by_workers :
      (names : List Bytes) (received : List Update)
      → Arrival api now names received
      → (up : Update) → Mem up received
      → ∥ ((n : Bytes) × Mem n names × (work api now n ≡ up)) ∥₁
  made_by_workers names received p up m =
      ∥∥₁_map (mem-map.0 ((Perm.mem_iff {a = up} p).0 m)) (λ x. x)

  made-IsHonest :
      (names : List Bytes) (received : List Update)
      → Arrival api now names received
      → (up : Update) → Mem up received
      → IsHonest up
  made-IsHonest names received p up m c =
      ∥∥₁_elim (made_by_workers names received p up m) (CachedUser?-set _ _)
        (λ origin. subst IsHonest origin.2 (work-IsHonest origin.0) c)

  any_named-names :
      (names : List Bytes) (received : List Update) (name : Bytes)
      → Arrival api now names received
      → (any_named name received ≡ true) ↔ Mem name names
  any_named-names names received name p = (
    λ h. ∥∥₁_elim (mem-any_named name received h) (hlevel) (λ found.
        ∥∥₁_elim (made_by_workers names received p found.0 found.1) (hlevel) (λ origin.
          subst (λ x. Mem x names) (sym (work-name origin.0) ∙ ap (λ u. u.name) origin.2 ∙ found.2)
            origin.1)),
    λ m.
        any_named-mem name (work api now name) received
          ((Perm.mem_iff {a = work api now name} p).1 (mem-map.1 ∣ (name, m, refl) ∣₁))
          (work-name name),
  )

  -- The messages of a round that listed the names leave an answer for each name, and nothing else.
  after_messages-Arrival :
      (names : List Bytes) (received : List Update) (name : Bytes) (due : Bool)
      (c : Option CachedUser)
      → Arrival api now names received
      → Mem name names ↔ (due ≡ true)
      → after_messages name received c ≡ (if due then answer_for (api name) (now name) c else c)
  after_messages-Arrival names received name due c p listed =
      let named = any_named-names names received name p in
      after_messages-any_named name received c (made-IsHonest names received p)
      ∙ ap (λ b. if b then answer_for (api name) (now name) c else c)
          (same_tests (any_named name received) due (λ e. listed.0 (named.0 e))
            (λ e. named.1 (listed.1 e)))

-- In well-formed stores, let a round of `updateKeys` list its names in one store, get the workers'
-- messages in any order, and write the answers, without a panic, to a store that other goroutines may
-- have changed meanwhile. Then a name whose keys were due when the names were listed has the keys that
-- the API answers for it, if it is still known and the answer is no error, and every other name keeps
-- what it had.
pub key_round-cached :
    (order : RangeOrder Bytes Pointer) (c : Config) (clock : Bytes → ℕ) (api : Bytes → KeysAnswer)
    (now : Bytes → ℕ) (listed s t : CachingStore) (received : List Update) (name : Bytes)
    → WellFormed listed
    → WellFormed s
    → Arrival api now (keys_requiring_refresh order c clock listed) received
    → update_keys received s ≡ some t
    → cached name t ≡ (
        if is_due c (clock name) (cached name listed)
        then answer_for (api name) (now name) (cached name s)
        else cached name s)
key_round-cached order c clock api now listed s t received name w v arrived h =
    update_keys-cached received s t name v h
    ∙ after_messages-Arrival api now (keys_requiring_refresh order c clock listed) received name
        (is_due c (clock name) (cached name listed)) (cached name s) arrived
        (keys_requiring_refresh-mem_is_due order c clock listed name w)
