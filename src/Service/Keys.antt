-- ===== src/Service/Keys.antt =====
-- What a client gets for the keys of a user from the daemon as a whole.
use compute_user_accounts.Base.{
  ℕ, suc, ◌≡◌, sym, ap, subst, ◌∙◌, inl, inr, List, ◌++◌, ◌∷◌, Option, none, some, Bytes, codes,
  bytes_eq, All, Lacks, arith,
}
use compute_user_accounts.Go.Map.{RangeOrder}
use compute_user_accounts.Go.Strings.{split-append, split-Lacks}
use compute_user_accounts.Accounts.{Group, Result, ok, err}
use compute_user_accounts.Store.State.{AuthorizedKeysView, Config, Pointer}
use compute_user_accounts.Store.Keys.{KeysAnswer}
use compute_user_accounts.Store.Evolution.{IsGiven}
use compute_user_accounts.Client.Send.{received, finish, send}
use compute_user_accounts.Client.Calls
use compute_user_accounts.Server.Serve.{written}
use compute_user_accounts.Protocol.Wire.{IsOk}
use compute_user_accounts.Protocol.Answers.{wire_texts}
use compute_user_accounts.Tasks.KeysGiven.{IsKeysAnswer}
use compute_user_accounts.Tasks.Keys.{replied}
use compute_user_accounts.Service.Asks.{asks, asks_parts, keys_of}
use compute_user_accounts.Service.Step.{Service, ServiceReach}
use compute_user_accounts.Service.Replies.{IsReply, written-IsReply}
use compute_user_accounts.EndToEnd.{arrived, over_wire-arrived}

asks-keys : (name : Bytes) → Lacks b' ' name → asks (codes "keys " ++ name) ≡ keys_of name
unfolding asks asks_parts bytes_eq
asks-keys name h = ap asks_parts (
    split-append (codes "keys") name b' ' (omega arith)
    ∙ ap (λ l. codes "keys" ∷ l) (split-Lacks name b' ' h))

-- No key of the service holds a line feed.
abbrev pub HasPlainKeys : (ℕ → Bytes → KeysAnswer → Type 0) → Type 0
HasPlainKeys Gives =
    (time : ℕ) (name : Bytes) (view : AuthorizedKeysView)
    → Gives time name (ok (some view))
    → All (Lacks b'\n') view.keys

module _ (Gives : ℕ → Bytes → KeysAnswer → Type 0) (c : Config) (plain : HasPlainKeys Gives) where
  IsGiven-plain :
      (name : Bytes) (keys : List Bytes) (time : ℕ)
      → IsGiven Gives name keys time
      → All (Lacks b'\n') keys
  IsGiven-plain name keys time (inl (e, t)) = subst (All (Lacks b'\n')) (sym e) tt
  IsGiven-plain name keys time (inr (view, g, e)) =
      subst (All (Lacks b'\n')) e (plain time name view g)

  IsKeysAnswer-plain :
      (name : Bytes) (at : Option ℕ) (result : Result (List Bytes))
      → IsKeysAnswer Gives c name at result
      → IsOk (All (Lacks b'\n')) result
  IsKeysAnswer-plain name (some now) (ok keys) (time, g, r, q) = IsGiven-plain name keys time g
  IsKeysAnswer-plain name none (ok keys) (inl (time, view, g, e)) =
      subst (All (Lacks b'\n')) e (plain time name view g)
  IsKeysAnswer-plain name none (ok keys) (inr (failed, (time, g))) = IsGiven-plain name keys time g
  IsKeysAnswer-plain name at (err e) h = tt

  -- Where no key of the service holds a line feed: what `AuthorizedKeys` of a client returns for a name
  -- without a space, when the daemon has written a response to its request, is what the call of
  -- `AuthorizedKeys` of the store for this connection has returned, with an error of the kind not found
  -- kept as such; however the daemon has interleaved what it does for this client with the rest.
  pub client_gets_keys :
      {users_order : RangeOrder Bytes Pointer} {groups_order : RangeOrder Bytes Group} {s : Service}
      (i : ℕ) (name response : Bytes)
      → Lacks b' ' name
      → ServiceReach Gives c users_order groups_order s
      → s.connection i ≡ written (codes "keys " ++ name) response
      → (result : Result (List Bytes)) × (at : Option ℕ) × (s.daemon.keys (suc i)
          ≡ replied name at result)
        × IsKeysAnswer Gives c name at result
        × ((Calls.authorized_keys (λ req extend t. (received response, t)) name (tt {0})).0
            ≡ arrived result)
  unfolding Calls.authorized_keys send
  client_gets_keys {users_order} {groups_order} {s} i name response h r e =
      let (result, at, returned, answer, same) =
        subst (IsReply Gives c users_order groups_order (s.daemon.keys (suc i)) _ response)
          (asks-keys name h) (written-IsReply i _ response r e) in
      (
        result,
        at,
        returned,
        answer,
        ap (λ x. finish (received x)) same
            ∙ ap (λ x. x.0) (wire_texts (result, tt {0}) (IsKeysAnswer-plain name at result answer))
            ∙ over_wire-arrived (result, tt {0}),
      )
