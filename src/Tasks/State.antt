-- ===== src/Tasks/State.antt =====
-- The state that the goroutines of the store share, and what each of their steps does to it. A
-- channel that a call makes is named by the number of the call.
use compute_user_accounts.Base.{
  ℕ, suc, Bool, true, false, List, [], ◌∷◌, ◌++◌, Option, none, some, Bytes, ◌==◌, if◌then◌else◌,
}
use compute_user_accounts.Accounts.{User, Result}
use compute_user_accounts.Store.State.{CachingStore, empty_store, zero_time}
use compute_user_accounts.Store.Refresh.{Views, update_accounts}
use compute_user_accounts.Store.Query.{user_by_name_impl}
use compute_user_accounts.Store.Calls.{found_user}

-- Where `updateTask` stands: in its `select`, or in a round, with the channel that it received, if
-- any, and the time when it did.
pub data Phase : Type 0 where
  selecting : Phase
  -- Before the test of the cooldown.
  woken : Option ℕ → ℕ → Phase
  -- In `updateAccounts`, while the API is asked.
  refreshing : Option ℕ → ℕ → Phase
  -- Before `go updateKeys(s)`.
  finished : Option ℕ → ℕ → Phase

-- Where a call of `UserByName` stands, with the name; of a call that waits, from the send on
-- `updateWaiters` to the close of its channel, and of one that has waited, also when it began to.
-- `making` and `made` are `New`.
pub data Call : Type 0 where
  making : ℕ → Call
  made : ℕ → Call
  idle : Call
  looking : Bytes → Call
  waiting : Bytes → ℕ → Call
  resumed : Bytes → ℕ → Call
  returned : Bytes → Result User → Call

pub record System : Type 0 where
  pub store : CachingStore
  -- The local variable of `updateTask`.
  pub last_refresh : ℕ
  pub clock : ℕ
  -- The sends on `updateWaiters` that wait for the receiver, the oldest first.
  pub queue : List (Option ℕ)
  pub task : Phase
  pub call : ℕ → Call
  -- How many goroutines of `updateKeys` run.
  pub key_updates : ℕ

abbrev pub set_call : ℕ → Call → (ℕ → Call) → ℕ → Call
set_call i x call j = if i == j then x else call j

-- `New` up to its receive: the first goroutines, and the send of its channel.
unfoldable pub init : ℕ → System
init now = record {
  store = empty_store;
  last_refresh = zero_time;
  clock = now;
  queue = some 0 ∷ [];
  task = selecting;
  call = set_call 0 (making now) (λ i. idle);
  key_updates = 0;
}

-- `case ch = <-s.updateWaiters`, and the timer.
unfoldable pub receive : Option ℕ → List (Option ℕ) → System → System
receive ch rest s = record s { queue = rest; task = woken ch s.clock }

unfoldable pub fire : System → System
fire s = record s { task = woken none s.clock }

-- The rest of `updateAccounts` when the API has answered, and `lastRefresh = timeNow()`.
unfoldable pub refresh : Option ℕ → ℕ → Result Views → System → System
refresh ch at api s = record s {
  store = update_accounts api s.store;
  last_refresh = s.clock;
  task = finished ch at;
}

-- The receive from a closed channel does not wait.
abbrev pub resume : Call → Call
resume (making since) = made since
resume (waiting name since) = resumed name since
resume call = call

abbrev pub resume_at : Option ℕ → (ℕ → Call) → ℕ → Call
resume_at none call = call
resume_at (some i) call = set_call i (resume (call i)) call

-- `go updateKeys(s)`, and `close(ch)` of a channel that is not nil.
unfoldable pub close : Option ℕ → System → System
close ch s = record s {
  task = selecting;
  call = resume_at ch s.call;
  key_updates = suc s.key_updates;
}

-- `UserByName` after a first search that finds nothing: `s.updateWaiters <- ch`.
unfoldable pub wait : ℕ → Bytes → System → System
wait i name s = record s {
  queue = s.queue ++ some i ∷ [];
  call = set_call i (waiting name s.clock) s.call;
}

-- The second search.
unfoldable pub answer : ℕ → Bytes → System → System
answer i name s = record s {
  call =
      set_call i (returned name (found_user name (user_by_name_impl name s.store) s.store)) s.call;
}

-- `go func() { s.updateWaiters <- nil }()` of `GroupByName`.
unfoldable pub request_refresh : System → System
request_refresh s = record s { queue = s.queue ++ none ∷ [] }

-- `New` has returned.
abbrev pub is_made : Call → Bool
is_made (made since) = true
is_made call = false
