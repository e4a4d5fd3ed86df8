-- ===== src/Service/Asks.antt =====
-- What the handler of a request asks of the store: a call that waits for other goroutines, or one that
-- only reads.
use compute_user_accounts.Base.{
  ◌≡◌, refl, ap, inl, inr, List, [], ◌∷◌, Option, none, some, Bytes, codes, bytes_eq, bytes_eq_iff,
  bytes_key, sym, subst, Bool-cases, if◌then◌else◌, arith,
}
use compute_user_accounts.Go.Strings.{split}
use compute_user_accounts.Go.Map.{RangeOrder}
use compute_user_accounts.Accounts.{Group, Result, AccountProvider}
use compute_user_accounts.Store.State.{Pointer, CachingStore}
use compute_user_accounts.Store.Provider.{store_provider}
use compute_user_accounts.Server.Request.{parse_name}
use compute_user_accounts.Server.Respond.{
  reply_user, reply_lines, with_arg, dispatch, respond_parts, respond,
}
use compute_user_accounts.Server.Respond as Respond

pub data Asks : Type 0 where
  user_of : Bytes → Asks
  keys_of : Bytes → Asks
  other : Asks

unfoldable pub asks_with : (Bytes → Asks) → Option Bytes → Asks
asks_with ask none = other
asks_with ask (some name) = ask name

unfoldable pub asks_parts : List Bytes → Asks
unfolding asks_with parse_name
asks_parts [] = other
asks_parts (cmd ∷ args) =
    if bytes_eq cmd (codes "user_by_name")
    then asks_with user_of (parse_name args)
    else if bytes_eq cmd (codes "keys")
    then asks_with keys_of (parse_name args)
    else other

unfoldable pub asks : Bytes → Asks
unfolding asks_parts
asks req = asks_parts (split req b' ')

module _ {S : Type 0} (p : AccountProvider S) where
  respond_parts-user :
      (name : Bytes) (parts : List Bytes) (s : S)
      → asks_parts parts ≡ user_of name
      → respond_parts p parts s ≡ reply_user (p.user_by_name name s)
  unfolding asks_parts respond_parts dispatch Respond.user_by_name
  respond_parts-user name [] s e = cc
  respond_parts-user name (cmd ∷ []) s e = ground arith
  respond_parts-user name (cmd ∷ arg ∷ args) s e = ground arith

  dispatch-keys :
      (name cmd arg : Bytes) (args : List Bytes) (s : S)
      → codes "keys" ≡ cmd
      → arg ≡ name
      → dispatch p cmd (arg ∷ args) s ≡ reply_lines (λ k. k) (p.authorized_keys name s)
  unfolding dispatch Respond.authorized_keys bytes_eq
  dispatch-keys name cmd arg args s c e =
      subst (λ w. dispatch p w (arg ∷ args) s ≡ reply_lines (λ k. k) (p.authorized_keys name s)) c
        (ap (λ n. reply_lines (λ k. k) (p.authorized_keys n s)) e)

  respond_parts-keys :
      (name : Bytes) (parts : List Bytes) (s : S)
      → asks_parts parts ≡ keys_of name
      → respond_parts p parts s ≡ reply_lines (λ k. k) (p.authorized_keys name s)
  unfolding asks_parts respond_parts
  respond_parts-keys name [] s e = cc
  respond_parts-keys name (cmd ∷ []) s e = ground arith
  respond_parts-keys name (cmd ∷ arg ∷ args) s e =
      elim (Bool-cases (bytes_eq cmd (codes "user_by_name"))) [
        | inl t ↦ ground arith
        | inr f ↦ elim (Bool-cases (bytes_eq cmd (codes "keys"))) [
          | inl t ↦
              dispatch-keys name cmd arg args s (sym ((bytes_eq_iff cmd (codes "keys")).0 t))
                (ground arith)
          | inr g ↦ ground arith
        ]
      ]

  pub respond-user :
      (name req : Bytes) (s : S)
      → asks req ≡ user_of name
      → respond p req s ≡ reply_user (p.user_by_name name s)
  unfolding asks respond
  respond-user name req s e = respond_parts-user name (split req b' ') s e

  pub respond-keys :
      (name req : Bytes) (s : S)
      → asks req ≡ keys_of name
      → respond p req s ≡ reply_lines (λ k. k) (p.authorized_keys name s)
  unfolding asks respond
  respond-keys name req s e = respond_parts-keys name (split req b' ') s e

module _ (wait wait' : CachingStore → CachingStore) (users_order : RangeOrder Bytes Pointer)
    (groups_order : RangeOrder Bytes Group)
    (ask ask' : Bytes → CachingStore → Result (List Bytes) × CachingStore) where
  respond_parts-other :
      (parts : List Bytes) (s : CachingStore)
      → asks_parts parts ≡ other
      → respond_parts (store_provider wait users_order groups_order ask) parts s
        ≡ respond_parts (store_provider wait' users_order groups_order ask') parts s
  unfolding asks_parts respond_parts dispatch store_provider Respond.user_by_name
      Respond.user_by_uid Respond.users Respond.group_by_name Respond.group_by_gid Respond.groups
      Respond.names Respond.is_name Respond.authorized_keys
  respond_parts-other [] s e = refl
  respond_parts-other (cmd ∷ []) s e = ground arith
  respond_parts-other (cmd ∷ arg ∷ args) s e = ground arith

  pub respond-other :
      (req : Bytes) (s : CachingStore)
      → asks req ≡ other
      → respond (store_provider wait users_order groups_order ask) req s
        ≡ respond (store_provider wait' users_order groups_order ask') req s
  unfolding asks respond
  respond-other req s e = respond_parts-other (split req b' ') s e
