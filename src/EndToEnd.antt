-- ===== src/EndToEnd.antt =====
-- The client, the server and the store together: from a call of the client to the views of the API.
use compute_user_accounts.Base.{
  ℕ, ◌+◌, ◌≤◌, ◌≡◌, refl, sym, ap, subst, ◌∙◌, List, Bytes, Lacks, length,
}
use compute_user_accounts.Accounts.{Group, Result, ok, err, uid_not_found, max_uint32}
use compute_user_accounts.Go.Map.{RangeOrder}
use compute_user_accounts.Server.Respond.{max_request_size}
use compute_user_accounts.Client.Calls
use compute_user_accounts.Protocol.Safe.{IsSafeUser}
use compute_user_accounts.Protocol.Wire.{over_wire, wire_error, IsOk, direct}
use compute_user_accounts.Protocol.Calls.{user_by_name-over_wire, user_by_uid-over_wire}
use compute_user_accounts.Store.State.{LinuxUserView, LinuxGroupView, Pointer, CachingStore}
use compute_user_accounts.Store.Refresh.{update_accounts}
use compute_user_accounts.Store.Provider.{store_provider}
use compute_user_accounts.Store.WellFormed.{WellFormed}
use compute_user_accounts.Store.Cached.{cached, last_view}
use compute_user_accounts.Store.Refreshed.{last_with_uid, user_by_uid-update_accounts}
use compute_user_accounts.Store.Lookups.{first_answer, view_answer, user_by_name-refreshed}

-- What the client makes of an answer of the server's provider.
abbrev pub arrived : {A : Type 0} → Result A → Result A
arrived (ok a) = ok a
arrived (err e) = err (wire_error e)

pub over_wire-arrived : {A S : Type 0} (r : Result A × S) → (over_wire r).0 ≡ arrived r.0
over_wire-arrived (ok a, s) = refl
over_wire-arrived (err e, s) = refl

module _ (users_order : RangeOrder Bytes Pointer) (groups_order : RangeOrder Bytes Group)
    (keys : Bytes → CachingStore → Result (List Bytes) × CachingStore) (us : List LinuxUserView)
    (gs : List LinuxGroupView) (s : CachingStore) where
  -- For a name without a space whose request fits the server's buffer, and a well-formed store, the
  -- client's `UserByName`, over the socket to a server of the store, returns a user who is cached as
  -- he is; for another, where the refresh that the store waits for brings these views and nothing else
  -- is written, it returns the user of the last view of the name, or the error of the kind not found;
  -- where the user returned has only texts that the line format carries.
  pub user_by_name-end_to_end :
      (name : Bytes)
      → WellFormed s
      → Lacks b' ' name
      → length name + 13 ≤ max_request_size
      → IsOk IsSafeUser (first_answer (cached name s) (view_answer name (last_view name us)))
      → (Calls.user_by_name
          (direct (store_provider (update_accounts (ok (us, gs))) users_order groups_order keys))
          name
          s).0
        ≡ arrived (first_answer (cached name s) (view_answer name (last_view name us)))
  unfolding store_provider
  user_by_name-end_to_end name w h fits safe =
      let found = user_by_name-refreshed us gs name s w in
      let p = store_provider (update_accounts (ok (us, gs))) users_order groups_order keys in
      ap (λ r. r.0)
        (user_by_name-over_wire p name s h fits (subst (IsOk IsSafeUser) (sym found) safe))
      ∙ over_wire-arrived (p.user_by_name name s)
      ∙ ap arrived found

  -- For a UID of 32 bits, after a refresh that brings these views, the client's `UserByUID`, over the
  -- socket to a server of the store, returns the user of the last view with the UID, or the error of
  -- the kind not found; where the user has only texts that the line format carries.
  pub user_by_uid-end_to_end :
      (wait : CachingStore → CachingStore) (uid : ℕ)
      → uid ≤ max_uint32
      → IsOk IsSafeUser (last_with_uid uid us (err (uid_not_found uid)))
      → (Calls.user_by_uid
          (direct (store_provider wait users_order groups_order keys))
          uid
          (update_accounts (ok (us, gs)) s)).0
        ≡ arrived (last_with_uid uid us (err (uid_not_found uid)))
  unfolding store_provider
  user_by_uid-end_to_end wait uid small safe =
      let found = user_by_uid-update_accounts us gs s uid in
      let t = update_accounts (ok (us, gs)) s in
      let p = store_provider wait users_order groups_order keys in
      ap (λ r. r.0) (user_by_uid-over_wire p uid t small (subst (IsOk IsSafeUser) (sym found) safe))
      ∙ over_wire-arrived (p.user_by_uid uid t)
      ∙ ap arrived found
