-- ===== src/Service/Linked.antt =====
-- A connection and the call of the store that its handler makes stay in step.
use compute_user_accounts.Base.{
  [], ◌∷◌, ℕ, suc, ◌≡◌, refl, sym, ◌∙◌, subst, inl, inr, ◌⊎◌, Bool, Bool-cases, true, false, Option,
  none, some, Bytes, ◌==◌, arith,
}
use compute_user_accounts.Go.Map.{RangeOrder}
use compute_user_accounts.Accounts.{Group}
use compute_user_accounts.Store.State.{Config, Pointer}
use compute_user_accounts.Store.Keys.{KeysAnswer}
use compute_user_accounts.Server.Serve.{
  Connection, absent, reading, requested, writing, closed, written, set_connection, accept_one,
  read_one, request_read, write_one,
}
use compute_user_accounts.Tasks.State.{Call, idle, looking, is_made, set_call, init}
use compute_user_accounts.Tasks.Keys.{
  Daemon, start_daemon, KeysPhase, unasked, searching, asking, replied, ask, set_keys,
}
use compute_user_accounts.Service.Asks.{Asks, user_of, keys_of, other, asks}
use compute_user_accounts.Service.GoesOn.{
  call_name, GoesOn, KeysGoOn, IsKeysCall, DaemonStep-GoesOn, DaemonStep-KeysGoOn,
}
use compute_user_accounts.Service.Step.{
  Service, start_service, ServiceStep, by_daemon, accepted, read, wrote, user_called, keys_called,
  user_responded, keys_responded, responded, ServiceReach, started, stepped,
}

-- Where the calls of a connection stand that has made this request.
abbrev pub IsAsked : Asks → Call → KeysPhase → Type 0
IsAsked (user_of name) x k = (x ≡ idle) ⊎ (call_name x ≡ some name)
IsAsked (keys_of name) x k = IsKeysCall name x k
IsAsked other x k = Unit {0}

-- The call of `New`, and the calls of a connection.
abbrev pub IsLinked : Connection → Call → Call → KeysPhase → Type 0
IsLinked absent new x k = (x ≡ idle) × (k ≡ unasked)
IsLinked reading new x k = (is_made new ≡ true) × (x ≡ idle) × (k ≡ unasked)
IsLinked (requested req) new x k = (is_made new ≡ true) × IsAsked (asks req) x k
IsLinked (writing req response) new x k = Unit {0}
IsLinked closed new x k = Unit {0}
IsLinked (written req response) new x k = Unit {0}

IsKeysCall-GoesOn :
    (name : Bytes) {x y : Call} (k : KeysPhase)
    → GoesOn x y
    → IsKeysCall name x k
    → IsKeysCall name y k
IsKeysCall-GoesOn name unasked (n, d, m) h = d h
IsKeysCall-GoesOn name (searching n') (n, d, m) (e, f) = (e, n ∙ f)
IsKeysCall-GoesOn name (asking n' p) g h = h
IsKeysCall-GoesOn name (replied n' at result) g h = h

IsAsked-GoesOn :
    (a : Asks) {x y : Call} {k l : KeysPhase}
    → GoesOn x y
    → KeysGoOn k l
    → IsAsked a x k
    → IsAsked a y l
IsAsked-GoesOn (user_of name) (n, d, m) q (inl e) = inl (d e)
IsAsked-GoesOn (user_of name) (n, d, m) q (inr e) = inr (n ∙ e)
IsAsked-GoesOn (keys_of name) {x} {y} {k} {l} g (u, q) h = q name y (IsKeysCall-GoesOn name k g h)
IsAsked-GoesOn other g q h = tt

IsLinked-GoesOn :
    (x : Connection) (new new' call call' : Call) (k l : KeysPhase)
    → GoesOn new new'
    → GoesOn call call'
    → KeysGoOn k l
    → IsLinked x new call k
    → IsLinked x new' call' l
IsLinked-GoesOn absent a a' b b' k l (n, d, m) (n', d', m') (u, q) (e, f) = (d' e, u f)
IsLinked-GoesOn reading a a' b b' k l (n, d, m) (n', d', m') (u, q) (w, e, f) = (m w, d' e, u f)
IsLinked-GoesOn (requested req) a a' b b' k l (n, d, m) g q (w, h) =
    (m w, IsAsked-GoesOn (asks req) g q h)
IsLinked-GoesOn (writing req response) a a' b b' k l g g' q h = tt
IsLinked-GoesOn closed a a' b b' k l g g' q h = tt
IsLinked-GoesOn (written req response) a a' b b' k l g g' q h = tt

unasked-IsAsked : (a : Asks) {x : Call} {k : KeysPhase} → x ≡ idle → k ≡ unasked → IsAsked a x k
unasked-IsAsked (user_of name) e f = inl e
unasked-IsAsked (keys_of name) {x} e f = subst (IsKeysCall name x) (sym f) e
unasked-IsAsked other e f = tt

module _ (new call : Call) (k : KeysPhase) where
  accept_one-IsLinked :
      (x : Connection)
      → is_made new ≡ true
      → IsLinked x new call k
      → IsLinked (accept_one x) new call k
  accept_one-IsLinked absent m (e, f) = (m, e, f)
  accept_one-IsLinked reading m h = h
  accept_one-IsLinked (requested req) m h = h
  accept_one-IsLinked (writing req response) m h = h
  accept_one-IsLinked closed m h = h
  accept_one-IsLinked (written req response) m h = h

  request_read-IsLinked :
      (incoming : Option Bytes)
      → IsLinked reading new call k
      → IsLinked (request_read incoming) new call k
  request_read-IsLinked none h = tt
  request_read-IsLinked (some []) h = tt
  request_read-IsLinked (some (c ∷ incoming)) (m, e, f) = (m, unasked-IsAsked (asks _) e f)

  read_one-IsLinked :
      (incoming : Option Bytes) (x : Connection)
      → IsLinked x new call k
      → IsLinked (read_one incoming x) new call k
  read_one-IsLinked incoming absent h = h
  read_one-IsLinked incoming reading h = request_read-IsLinked incoming h
  read_one-IsLinked incoming (requested req) h = h
  read_one-IsLinked incoming (writing req response) h = h
  read_one-IsLinked incoming closed h = h
  read_one-IsLinked incoming (written req response) h = h

  write_one-IsLinked :
      (done : Bool) (x : Connection)
      → IsLinked x new call k
      → IsLinked (write_one done x) new call k
  write_one-IsLinked done absent h = h
  write_one-IsLinked done reading h = h
  write_one-IsLinked done (requested req) h = h
  write_one-IsLinked true (writing req response) h = tt
  write_one-IsLinked false (writing req response) h = tt
  write_one-IsLinked done closed h = h
  write_one-IsLinked done (written req response) h = h

abbrev pub IsLinkedAt : ℕ → Connection → Daemon → Type 0
IsLinkedAt i x d = IsLinked x (d.tasks.call 0) (d.tasks.call (suc i)) (d.keys (suc i))

abbrev AllLinked : Service → Type 0
AllLinked s = (i : ℕ) → IsLinkedAt i (s.connection i) s.daemon

set_connection-IsLinked :
    (i j : ℕ) (x : Connection) (s : Service)
    → IsLinkedAt i x s.daemon
    → AllLinked s
    → IsLinkedAt j (set_connection i x s.connection j) s.daemon
set_connection-IsLinked i j x s new old = elim (Bool-cases (i == j)) [
  | inl t ↦ rw t (subst (λ n. IsLinkedAt n x s.daemon) (ground arith) new)
  | inr f ↦ rw f (old j)
]

requested-IsLinked :
    (req : Bytes) (x : Connection) (a : Asks) (new call : Call) (k : KeysPhase)
    → x ≡ requested req
    → asks req ≡ a
    → is_made new ≡ true
    → IsAsked a call k
    → IsLinked x new call k
requested-IsLinked req x a new call k e f m h =
    subst (λ x. IsLinked x new call k) (sym e) (m, subst (λ a. IsAsked a call k) (sym f) h)

-- A step that moves the calls of one connection only.
moved-IsLinked :
    (i j : ℕ) (s : Service) (call : Call) (k : KeysPhase)
    → IsLinked (s.connection i) (s.daemon.tasks.call 0) call k
    → AllLinked s
    → IsLinked
        (s.connection j)
        (set_call (suc i) call s.daemon.tasks.call 0)
        (set_call (suc i) call s.daemon.tasks.call (suc j))
        (set_keys (suc i) k s.daemon.keys (suc j))
moved-IsLinked i j s call k new old =
    let other_call : (suc i == 0) ≡ false = ground arith in
    rw other_call (elim (Bool-cases (i == j)) [
      | inl t ↦
          let same : i ≡ j = ground arith in
          let here : (suc i == suc j) ≡ true = ground arith in
          rw here (subst (λ n. IsLinked (s.connection n) (s.daemon.tasks.call 0) call k) same new)
      | inr f ↦ let there : (suc i == suc j) ≡ false = ground arith in rw there (old j)
    ])

set_keys-same : (i j : ℕ) (keys : ℕ → KeysPhase) → set_keys i (keys i) keys j ≡ keys j
set_keys-same i j keys = ground arith

module _ (Gives : ℕ → Bytes → KeysAnswer → Type 0) (c : Config)
    (users_order : RangeOrder Bytes Pointer) (groups_order : RangeOrder Bytes Group) where
  ServiceStep-AllLinked :
      {s t : Service} → ServiceStep Gives c users_order groups_order s t → AllLinked s → AllLinked t
  unfolding ask
  ServiceStep-AllLinked {s} (by_daemon st k) h j =
      IsLinked-GoesOn (s.connection j) _ _ _ _ _ _ (DaemonStep-GoesOn 0 st k)
        (DaemonStep-GoesOn (suc j) st k) (DaemonStep-KeysGoOn (suc j) st k) (h j)
  ServiceStep-AllLinked {s} (accepted i m) h j =
      set_connection-IsLinked i j _ s (accept_one-IsLinked _ _ _ (s.connection i) m (h i)) h
  ServiceStep-AllLinked {s} (read i incoming) h j =
      set_connection-IsLinked i j _ s (read_one-IsLinked _ _ _ incoming (s.connection i) (h i)) h
  ServiceStep-AllLinked {s} (wrote i done) h j =
      set_connection-IsLinked i j _ s (write_one-IsLinked _ _ _ done (s.connection i) (h i)) h
  ServiceStep-AllLinked {s} (user_called i req name e a m k) h j =
      subst
        (λ l.
          IsLinked (s.connection j) (set_call (suc i) (looking name) s.daemon.tasks.call 0)
            (set_call (suc i) (looking name) s.daemon.tasks.call (suc j)) l)
        (set_keys-same (suc i) (suc j) s.daemon.keys)
        (moved-IsLinked i j s (looking name) (s.daemon.keys (suc i))
          (requested-IsLinked req _ _ _ _ _ e a m (inr refl)) h)
  ServiceStep-AllLinked {s} (keys_called i req name e a m k) h j =
      moved-IsLinked i j s (looking name) (searching name)
        (requested-IsLinked req _ _ _ _ _ e a m (refl, refl)) h
  ServiceStep-AllLinked {s} (user_responded i req name result e a k) h j =
      set_connection-IsLinked i j _ s tt h
  ServiceStep-AllLinked {s} (keys_responded i req name at result e a k) h j =
      set_connection-IsLinked i j _ s tt h
  ServiceStep-AllLinked {s} (responded i req wait call e a) h j =
      set_connection-IsLinked i j _ s tt h

  pub ServiceReach-AllLinked :
      {s : Service} → ServiceReach Gives c users_order groups_order s → AllLinked s
  unfolding start_service start_daemon init
  ServiceReach-AllLinked (started now) j = (ground arith, refl)
  ServiceReach-AllLinked (stepped r st) j = ServiceStep-AllLinked st (ServiceReach-AllLinked r) j
