-- ===== src/Tests/Keys.antt =====
-- The key updates, at inputs that meet the hypotheses of their theorems, and runs of them.
use mathlib.Core.List.{Mem}
use mathlib.Core.List.Perm
use compute_user_accounts.Base.{
  List, length, ◌≤◌, ◌*◌, ◌≡◌, ◌↔◌, refl, [], ◌∷◌, true, false, some, none, arith, Bytes, codes,
  bytes_eq, bytes_key, nat_key, if◌then◌else◌,
}
use compute_user_accounts.Go.Map.{lookup, insert, has}
use compute_user_accounts.Accounts.{ok, err, message}
use compute_user_accounts.Testbase.{john, jane}
use compute_user_accounts.Store.State.{
  AuthorizedKeysView, CachingStore, empty_store, cell, now_outside_timespan,
}
use compute_user_accounts.Store.Refresh.{
  update_accounts, to_user, cached_in, add_users, add_groups, store_user, carry,
}
use compute_user_accounts.Store.Keys.{
  Update, KeysAnswer, work, keys_requiring_refresh, update_keys, update_cached_keys, without_error,
  write_keys, refreshed_keys, apply_updates,
}
use compute_user_accounts.Store.Query.{user_by_name_impl}
use compute_user_accounts.Store.Calls.{KeysCall, CachedKeysUpdate, authorized_keys}
use compute_user_accounts.Store.WellFormed.{WellFormed}
use compute_user_accounts.Store.Step.{
  here, next, accounts_updated, cached_keys_updated, Reach-WellFormed,
}
use compute_user_accounts.Store.Cached.{cached}
use compute_user_accounts.Store.KeyWrites.{after_messages, update_keys-cached}
use compute_user_accounts.Store.KeysDue.{is_due, IsDue, keys_requiring_refresh-mem}
use compute_user_accounts.Store.Workers.{
  start_workers, KeyRound, replied, received_one, RoundRun, begun, stepped,
}
use compute_user_accounts.Store.RoundEnds.{GoesOn, round_ends}
use compute_user_accounts.Store.Spec.{
  StoreWrite, accounts, keys, cached_keys, content, no_content, write_all, spec_all,
}
use compute_user_accounts.Store.Refines.{write_all-content}
use compute_user_accounts.Store.KeyRound.{answer_for, key_round-cached}
use compute_user_accounts.Store.Panic.{is_none, any_fatal_message, update_keys-is_none}
use compute_user_accounts.Store.Lookups.{settled, authorized_keys_again}
use compute_user_accounts.Tests.Samples.{
  config, group_views, in_order, sample, sample-WellFormed, sudo_sample, user_views,
}

-- The keys of user1 survive a refresh.
keys_survive :
    cached (codes "user1") (update_accounts (ok (user_views, [])) sudo_sample)
    ≡ some (record { user = john; keys = codes "key" ∷ []; sudoer = true; key_refresh_time = 50 })
unfolding update_accounts update_cached_keys add_users add_groups lookup insert bytes_eq store_user
    cell write_keys cached_in carry to_user
keys_survive = refl

-- An answer, and an error.
abbrev answer : Update
answer = record {
  name = codes "user2";
  view = some (record { keys = codes "k" ∷ []; sudoer = false });
  error = none;
  time = 70;
}

abbrev failure : Update
failure = record { name = codes "user1"; view = none; error = some (message []); time = 71 }

-- What the API client makes of a 404: a nil view and no error.
abbrev missing : Update
missing = record { name = codes "user2"; view = none; error = none; time = 72 }

abbrev answered : CachingStore
answered = write_keys 1 (codes "k" ∷ []) false 70 sample

update_keys-cached_example :
    cached (codes "user2") answered
    ≡ after_messages (codes "user2") (failure ∷ answer ∷ []) (cached (codes "user2") sample)
unfolding update_keys refreshed_keys apply_updates update_accounts add_users add_groups lookup
    insert bytes_eq store_user cell without_error to_user
update_keys-cached_example =
    update_keys-cached (failure ∷ answer ∷ []) sample answered (codes "user2") sample-WellFormed
      refl

-- The daemon ends when a known user has been deleted from the API.
update_keys-is_none_example : is_none (update_keys (missing ∷ []) sample) ≡ true
unfolding update_accounts add_users add_groups lookup insert has bytes_eq store_user
    any_fatal_message without_error to_user
update_keys-is_none_example = update_keys-is_none missing [] sample

deleted_user_panics :
    authorized_keys config (λ s. s) (λ s. s) (λ s. s) 100 101 (ok none) (codes "user2") sample
    ≡ none
unfolding authorized_keys user_by_name_impl update_accounts add_users add_groups lookup insert
    bytes_eq store_user cell carry cached_in now_outside_timespan to_user
deleted_user_panics = refl

abbrev jane_keys : AuthorizedKeysView
jane_keys = record { keys = codes "k" ∷ []; sudoer = true }

abbrev jane_update : CachedKeysUpdate
jane_update = record {
  username = codes "user2";
  keys = codes "k" ∷ [];
  sudoer = true;
  refresh_time = 101;
}

abbrev jane_call : KeysCall
jane_call = record { result = ok (codes "k" ∷ []); store = sample; started = some jane_update }

authorized_keys_again_example :
    authorized_keys config
      (λ s. s)
      (λ s. s)
      (λ s. s)
      103
      104
      (err (message []))
      (codes "user2")
      (settled jane_update sample)
    ≡ some (record {
      result = ok (codes "k" ∷ []);
      store = settled jane_update sample;
      started = none;
    })
unfolding authorized_keys user_by_name_impl update_accounts add_users add_groups lookup insert
    bytes_eq store_user cell carry cached_in now_outside_timespan to_user
authorized_keys_again_example =
    authorized_keys_again config (λ s. s) (λ s. s) (λ s. s) (λ s. s) (λ s. s) 100 101 103 104
      (ok (some jane_keys)) (err (message [])) (codes "user2") sample jane_call jane_update
      (record { user = jane; keys = []; sudoer = false; key_refresh_time = 0 }) refl refl
      sample-WellFormed refl (omega arith) (omega arith)

-- The keys of user1 are due, those of user2 are not.
abbrev half_due : CachingStore
half_due = update_cached_keys (codes "user2") [] false 4000 sample

half_due-WellFormed : WellFormed half_due
half_due-WellFormed = Reach-WellFormed (
    next (next here (accounts_updated empty_store (ok (user_views, group_views))))
      (cached_keys_updated sample (codes "user2") [] false 4000))

keys_requiring_refresh-mem_example :
    Mem (codes "user1") (keys_requiring_refresh in_order config (λ n. 4100) half_due)
    ↔ IsDue config 4100 (cached (codes "user1") half_due)
keys_requiring_refresh-mem_example =
    keys_requiring_refresh-mem in_order config (λ n. 4100) half_due (codes "user1")
      half_due-WellFormed

abbrev api_answer : Bytes → KeysAnswer
api_answer n = ok (some (record { keys = codes "fresh" ∷ []; sudoer = true }))

abbrev after_round : CachingStore
after_round = write_keys 0 (codes "fresh" ∷ []) true 4200 half_due

due_names : keys_requiring_refresh in_order config (λ n. 4100) half_due ≡ codes "user1" ∷ []
unfolding keys_requiring_refresh update_cached_keys lookup update_accounts add_groups add_users
    store_user insert bytes_eq to_user write_keys now_outside_timespan cell carry cached_in
due_names = refl

key_round-cached_example : cached (codes "user1") after_round ≡ (
    if is_due config 4100 (cached (codes "user1") half_due)
    then answer_for (api_answer (codes "user1")) 4200 (cached (codes "user1") half_due)
    else cached (codes "user1") half_due)
unfolding keys_requiring_refresh update_cached_keys lookup update_accounts add_groups add_users
    store_user insert bytes_eq to_user write_keys now_outside_timespan cell carry cached_in
    update_keys apply_updates refreshed_keys without_error work
key_round-cached_example =
    key_round-cached in_order config (λ n. 4100) api_answer (λ n. 4200) half_due half_due
      after_round (work api_answer (λ n. 4200) (codes "user1") ∷ []) (codes "user1")
      half_due-WellFormed half_due-WellFormed (Perm.refl _) refl

-- The API fails for user1, and the message of user2 comes first.
abbrev half_answered : Bytes → KeysAnswer
half_answered name =
    if bytes_eq name (codes "user2")
    then ok (some (record { keys = codes "k" ∷ []; sudoer = false }))
    else err (message [])

abbrev two_names : List Bytes
two_names = codes "user1" ∷ codes "user2" ∷ []

abbrev ended_round : KeyRound
ended_round = record {
  asking = [];
  sending = [];
  workers = 0;
  received =
      work half_answered (λ name. 70) (codes "user2")
      ∷ work half_answered (λ name. 70) (codes "user1")
      ∷ [];
}

ended_run : RoundRun half_answered (λ name. 70) two_names 4 ended_round
unfolding start_workers
ended_run =
    stepped
      (stepped
        (stepped (stepped begun (replied (codes "user1" ∷ []) [] (codes "user2") refl))
          (received_one [] [] _ 1 refl refl))
        (replied [] [] (codes "user1") refl))
      (received_one [] [] _ 0 refl refl)

round_ends_example :
    (4 ≤ 2 * length two_names) × GoesOn half_answered (λ name. 70) two_names 4 ended_round
round_ends_example = round_ends half_answered (λ name. 70) two_names ended_run

-- A refresh, a round of key updates in which one fails, and the keys of one call.
abbrev three_writes : List StoreWrite
three_writes =
    accounts (ok (user_views, group_views))
    ∷ keys (failure ∷ answer ∷ [])
    ∷ cached_keys (codes "user1") (codes "key" ∷ []) true 80
    ∷ []

abbrev written_store : CachingStore
written_store = update_cached_keys (codes "user1") (codes "key" ∷ []) true 80 answered

write_all-content_example : content written_store ≡ spec_all three_writes no_content
unfolding write_all update_keys refreshed_keys apply_updates update_accounts add_users add_groups
    lookup insert bytes_eq store_user cell without_error to_user
write_all-content_example = write_all-content three_writes written_store refl
