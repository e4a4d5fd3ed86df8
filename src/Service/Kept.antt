-- ===== src/Service/Kept.antt =====
-- What a call of `AuthorizedKeys` has returned stays as it is.
use compute_user_accounts.Base.{
  ℕ, suc, ◌≡◌, inl, inr, Bool-cases, false, List, Option, Bytes, ◌==◌, arith, subst,
}
use compute_user_accounts.Accounts.{Result}
use compute_user_accounts.Store.State.{Config}
use compute_user_accounts.Store.Keys.{KeysAnswer}
use compute_user_accounts.Tasks.Keys.{
  KeysPhase, replied, Daemon, set_keys, search, reply, write_cached, DaemonStep, by_task, by_other,
  keys_asked, keys_searched, keys_replied, cached_written, keys_written,
}
use compute_user_accounts.Service.Step.{makes_call}

abbrev pub KeepsReply : KeysPhase → KeysPhase → Type 0
KeepsReply k l =
    (name : Bytes) (at : Option ℕ) (result : Result (List Bytes))
    → k ≡ replied name at result
    → l ≡ replied name at result

set_keys-KeepsReply :
    (i j : ℕ) (x : KeysPhase) (keys : ℕ → KeysPhase)
    → KeepsReply (keys j) x
    → KeepsReply (keys i) (set_keys j x keys i)
set_keys-KeepsReply i j x keys h = elim (Bool-cases (j == i)) [
  | inl t ↦ rw t (subst (λ n. KeepsReply (keys n) x) (ground arith) h)
  | inr f ↦ rw f (λ name at result e. e)
]

pub set_keys-other :
    (i j : ℕ) (x : KeysPhase) (keys : ℕ → KeysPhase)
    → (i == j) ≡ false
    → KeepsReply (keys (suc j)) (set_keys (suc i) x keys (suc j))
set_keys-other i j x keys f = λ name at result e. ground arith

pub DaemonStep-KeepsReply :
    {Gives : ℕ → Bytes → KeysAnswer → Type 0} {c : Config} {s t : Daemon} (i : ℕ)
    (st : DaemonStep Gives c s t)
    → makes_call Gives c st ≡ false
    → KeepsReply (s.keys i) (t.keys i)
unfolding search reply write_cached
DaemonStep-KeepsReply i (by_task st) k = λ n a r e. e
DaemonStep-KeepsReply i (by_other st w) k = λ n a r e. e
DaemonStep-KeepsReply i (keys_asked j name m e) k = absurd cc
DaemonStep-KeepsReply {s = s} i (keys_searched j name result e f) k =
    set_keys-KeepsReply i j _ s.keys (λ n a r q. absurd cc)
DaemonStep-KeepsReply {s = s} i (keys_replied j name p a call e g q) k =
    set_keys-KeepsReply i j _ s.keys (λ n at r q'. absurd cc)
DaemonStep-KeepsReply i (cached_written before after u e) k = λ n a r q. q
DaemonStep-KeepsReply i (keys_written n messages store e m u) k = λ n a r q. q
