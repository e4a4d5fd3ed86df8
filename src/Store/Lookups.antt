-- ===== src/Store/Lookups.antt =====
-- What the calls that wait, `UserByName` and `AuthorizedKeys`, and the rounds of `updateTask` promise.
use compute_user_accounts.Base.{
  subst, ℕ, ◌+◌, ◌≤◌, ◌≡◌, refl, sym, ap, ◌∙◌, List, Bool, true, false, ◌&&◌, ◌||◌, ltb, Option,
  none, some, arith, Bytes, nat_key, bytes_key, if_true, bytes_eq_refl,
}
use compute_user_accounts.Accounts.{User, Result, ok, err, username_not_found}
use compute_user_accounts.Store.State.{
  Config, LinuxUserView, LinuxGroupView, CachedUser, CachingStore, now_outside_timespan,
}
use compute_user_accounts.Store.Refresh.{cached_in, Views, update_accounts}
use compute_user_accounts.Store.Keys.{KeysAnswer, update_cached_keys}
use compute_user_accounts.Store.Query.{user_by_name_impl}
use compute_user_accounts.Store.Calls.{
  Task, update_round, user_by_name, found_user, CachedKeysUpdate, KeysCall, authorized_keys,
}
use compute_user_accounts.Store.WellFormed.{WellFormed}
use compute_user_accounts.Store.Cached.{
  cached, last_view, viewed, after_refresh, update_accounts-cached,
}
use compute_user_accounts.Store.KeyWrites.{rekeyed?, update_cached_keys-cached}
use compute_user_accounts.Store.Panic.{is_none}

-- The answer to a search by name, from the cell of the name.
abbrev pub user_answer : Bytes → Option CachedUser → Result User
user_answer name none = err (username_not_found name)
user_answer name (some c) = ok c.user

found_user-answer :
    (name : Bytes) (s : CachingStore)
    → found_user name (user_by_name_impl name s) s ≡ user_answer name (cached name s)
unfolding found_user user_by_name_impl cached_in
found_user-answer name s = ground arith

-- The first look at the cache decides, or else the one after the wait.
abbrev pub first_answer : Option CachedUser → Result User → Result User
first_answer (some c) later = ok c.user
first_answer none later = later

user_by_name-answer :
    (wait : CachingStore → CachingStore) (name : Bytes) (s : CachingStore)
    → (user_by_name wait name s).0
      ≡ first_answer (cached name s) (user_answer name (cached name (wait s)))
unfolding user_by_name user_by_name_impl cached_in found_user
user_by_name-answer wait name s = ground arith

abbrev pub view_answer : Bytes → Option LinuxUserView → Result User
view_answer name none = err (username_not_found name)
view_answer name (some v) = ok (viewed v)

user_answer-after_refresh :
    (name : Bytes) (old : Option CachedUser) (v : Option LinuxUserView)
    → user_answer name (after_refresh old v) ≡ view_answer name v
user_answer-after_refresh name old none = refl
user_answer-after_refresh name none (some v) = refl
user_answer-after_refresh name (some c) (some v) = refl

-- In a well-formed store, `UserByName` returns a user who is known as he is; for another, where the
-- refresh that the call waits for succeeds and nothing else is written, it returns the user of the last
-- view of the name in the answer, or reports that there is none.
pub user_by_name-refreshed :
    (us : List LinuxUserView) (gs : List LinuxGroupView) (name : Bytes) (s : CachingStore)
    → WellFormed s
    → (user_by_name (update_accounts (ok (us, gs))) name s).0
      ≡ first_answer (cached name s) (view_answer name (last_view name us))
user_by_name-refreshed us gs name s w =
    user_by_name-answer (update_accounts (ok (us, gs))) name s
    ∙ ap (first_answer (cached name s)) (
        ap (user_answer name) (update_accounts-cached us gs s name w)
        ∙ user_answer-after_refresh name (cached name s) (last_view name us))

-- After a round of `updateTask` that refreshed, a round whose clock shows no earlier time than the
-- refresh, and no later time than the end of the cooldown, changes nothing.
pub update_round-cooldown :
    (c : Config) (now done now' done' : ℕ) (api api' : Result Views) (t : Task)
    → now_outside_timespan now t.last_refresh c.account_refresh_cooldown ≡ true
    → done ≤ now'
    → now' ≤ done + c.account_refresh_cooldown
    → update_round c now' done' api' (update_round c now done api t)
      ≡ record { last_refresh = done; store = update_accounts api t.store }
unfolding update_round now_outside_timespan
update_round-cooldown c now done now' done' api api' t due after before = ground arith

abbrev pub is_nil_view : KeysAnswer → Bool
is_nil_view (ok none) = true
is_nil_view (ok (some v)) = false
is_nil_view (err e) = false

-- The cell of a name, and the answer of the API, at which the call panics.
abbrev pub is_fatal_call : Config → ℕ → KeysAnswer → Option CachedUser → Bool
is_fatal_call c now api none = false
is_fatal_call c now api (some cu) =
    (ltb now cu.key_refresh_time || ltb (cu.key_refresh_time + c.key_refresh_cooldown) now)
    && is_nil_view api

-- Whatever is written meanwhile, `AuthorizedKeys` panics exactly if, at the second search by name, the
-- user is known, his keys are older than the cooldown or come from the future, and the API answers with
-- a nil view and no error.
pub authorized_keys-is_none :
    (c : Config) (wait between during : CachingStore → CachingStore) (now done : ℕ)
    (api : KeysAnswer) (name : Bytes) (s : CachingStore)
    → is_none (authorized_keys c wait between during now done api name s)
      ≡ is_fatal_call c now api (cached name (between (user_by_name wait name s).1))
unfolding authorized_keys cached_in user_by_name_impl now_outside_timespan
authorized_keys-is_none c wait between during now done api name s = ground arith

known_user_by_name :
    (wait : CachingStore → CachingStore) (name : Bytes) (s : CachingStore) (cu : CachedUser)
    → cached name s ≡ some cu
    → (user_by_name wait name s).1 ≡ s
unfolding user_by_name user_by_name_impl cached_in
known_user_by_name wait name s cu e = ground arith

-- Within the cooldown the cached keys are returned, whatever the API would answer, and nothing changes.
authorized_keys_cached :
    (c : Config) (wait during : CachingStore → CachingStore) (now done : ℕ) (api : KeysAnswer)
    (name : Bytes) (s : CachingStore) (cu : CachedUser)
    → cached name s ≡ some cu
    → now_outside_timespan now cu.key_refresh_time c.key_refresh_cooldown ≡ false
    → authorized_keys c wait (λ r. r) during now done api name s
      ≡ some (record { result = ok cu.keys; store = s; started = none })
unfolding authorized_keys cached_in user_by_name user_by_name_impl
authorized_keys_cached c wait during now done api name s cu e inside = ground arith

started_lem :
    (c : Config) (wait between during : CachingStore → CachingStore) (now done : ℕ)
    (api : KeysAnswer) (name : Bytes) (s : CachingStore) (k : KeysCall) (u : CachedKeysUpdate)
    → authorized_keys c wait between during now done api name s ≡ some k
    → k.started ≡ some u
    → (k.result ≡ ok u.keys) × (u.username ≡ name) × (u.refresh_time ≡ done)
unfolding authorized_keys
started_lem c wait between during now done api name s k u h started = ground arith

-- The store after the goroutine that a call started.
abbrev pub settled : CachedKeysUpdate → CachingStore → CachingStore
settled u s = update_cached_keys u.username u.keys u.sudoer u.refresh_time s

settled-cached :
    (u : CachedKeysUpdate) (s : CachingStore) (cu : CachedUser)
    → WellFormed s
    → cached u.username s ≡ some cu
    → cached u.username (settled u s) ≡ rekeyed? u.keys u.sudoer u.refresh_time (some cu)
settled-cached u s cu w e =
    update_cached_keys-cached u.keys u.sudoer u.refresh_time s w u.username u.username
    ∙ if_true _ _ (bytes_eq_refl u.username)
    ∙ ap (rekeyed? u.keys u.sudoer u.refresh_time) e

inside_cooldown :
    (now start duration : ℕ)
    → start ≤ now
    → now ≤ start + duration
    → now_outside_timespan now start duration ≡ false
unfolding now_outside_timespan
inside_cooldown now start duration after before = ground arith

-- Where a call of `AuthorizedKeys` has started the goroutine that caches the keys, and the goroutine
-- has run at the end of the call, in a well-formed store that knows the user, a call within the cooldown
-- returns the same result, whatever the API would answer, starts nothing, and changes nothing, if
-- nothing else is written between its two searches.
pub authorized_keys_again :
    (c : Config) (wait between during wait' during' : CachingStore → CachingStore)
    (now done now' done' : ℕ) (api api' : KeysAnswer) (name : Bytes) (s : CachingStore)
    (k : KeysCall) (u : CachedKeysUpdate) (cu : CachedUser)
    → authorized_keys c wait between during now done api name s ≡ some k
    → k.started ≡ some u
    → WellFormed k.store
    → cached name k.store ≡ some cu
    → done ≤ now'
    → now' ≤ done + c.key_refresh_cooldown
    → authorized_keys c wait' (λ r. r) during' now' done' api' name (settled u k.store)
      ≡ some (record { result = k.result; store = settled u k.store; started = none })
authorized_keys_again c wait between during wait' during' now done now' done' api api' name s k u cu
      h started w known after before =
    let (answer, same, time) =
      started_lem c wait between during now done api name s k u h started in
    let there =
      subst (λ n. cached n (settled u k.store) ≡ rekeyed? u.keys u.sudoer u.refresh_time (some cu))
        same
        (settled-cached u k.store cu w
          (subst (λ n. cached n k.store ≡ some cu) (sym same) known)) in
    authorized_keys_cached c wait' during' now' done' api' name (settled u k.store) _ there
      (inside_cooldown now' u.refresh_time c.key_refresh_cooldown (omega arith) (omega arith))
    ∙ ap (λ r. some (record { result = r; store = settled u k.store; started = none })) (sym answer)
