-- ===== src/Tasks/Provenance.antt =====
-- Where the keys come from that the calls of `AuthorizedKeys` return, whatever the interleaving.
use compute_user_accounts.Base.{
  ℕ, List, [], ◌∷◌, ◌++◌, ◌≡◌, sym, subst, Option, none, some, Bytes, All,
}
use compute_user_accounts.Accounts.{Result}
use compute_user_accounts.Store.State.{Config}
use compute_user_accounts.Store.Keys.{KeysAnswer}
use compute_user_accounts.Store.Calls.{CachedKeysUpdate}
use compute_user_accounts.Store.WellFormed.{WellFormed}
use compute_user_accounts.Store.Step
use compute_user_accounts.Store.Evolution.{AllGiven, AllGiven-nil, Evolves, same, Evolves-AllGiven}
use compute_user_accounts.Store.Provenance.{update_cached_keys-Evolves, update_keys-Evolves}
use compute_user_accounts.Store.Keys.{update_cached_keys}
use compute_user_accounts.Tasks.State.{System, init}
use compute_user_accounts.Tasks.Answers.{Reach-store}
use compute_user_accounts.Tasks.Composed.{OtherStep-store_heap, DaemonReach-tasks}
use compute_user_accounts.Tasks.Keys.{
  searching, replied, Daemon, start_daemon, ask, search, start_update, reply, write_cached,
  DaemonStep, keys_asked, keys_searched, keys_replied, cached_written, keys_written, DaemonReach,
  started, stepped,
}
use compute_user_accounts.Tasks.KeysGiven.{
  IsPhaseGiven, IsUpdateGiven, set_keys-IsPhaseGiven, Evolves-IsPhaseGiven, TaskStep-Evolves,
  searched-IsPhaseGiven, keys_answered-IsGiven, IsKeysAnswer,
}

module _ (Gives : ℕ → Bytes → KeysAnswer → Type 0) (c : Config) where
  -- The keys of the cells, of the calls and of the updates to come.
  record KeysGiven (s : Daemon) : Type 0 where
    cells : AllGiven Gives s.tasks.store.heap
    phases : (i : ℕ) → IsPhaseGiven Gives c s.tasks.store.heap (s.keys i)
    updates : All (IsUpdateGiven Gives c) s.pending

  start_update-IsGiven :
      (o : Option CachedKeysUpdate) (pending : List CachedKeysUpdate)
      → All (IsUpdateGiven Gives c) (start_update o [])
      → All (IsUpdateGiven Gives c) pending
      → All (IsUpdateGiven Gives c) (start_update o pending)
  start_update-IsGiven none pending new old = old
  start_update-IsGiven (some u) pending new old = (new.0, old)

  All-without :
      (before after : List CachedKeysUpdate) (u : CachedKeysUpdate)
      → All (IsUpdateGiven Gives c) (before ++ u ∷ after)
      → IsUpdateGiven Gives c u × All (IsUpdateGiven Gives c) (before ++ after)
  All-without [] after u all = all
  All-without (v ∷ before) after u (k, all) =
      let (new, rest) = All-without before after u all in (new, (k, rest))

  -- A step that changes the heap as writes of the store do, and nothing else.
  evolve :
      {s : Daemon} (t : System)
      → KeysGiven s
      → Evolves Gives s.tasks.store.heap t.store.heap
      → KeysGiven (record s { tasks = t })
  evolve {s} t k e = record {
    cells = Evolves-AllGiven Gives e k.cells;
    phases = λ i. Evolves-IsPhaseGiven Gives c (s.keys i) e (k.phases i);
    updates = k.updates;
  }

  DaemonStep-KeysGiven :
      {s t : Daemon} → DaemonStep Gives c s t → WellFormed s.tasks.store → KeysGiven s → KeysGiven t
  unfolding ask search reply write_cached
  DaemonStep-KeysGiven (DaemonStep.by_task {t} st) w k =
      evolve t k (TaskStep-Evolves Gives c st w k.cells)
  DaemonStep-KeysGiven {s} (DaemonStep.by_other {t} st o) w k =
      evolve t k (subst (Evolves Gives s.tasks.store.heap) (sym (OtherStep-store_heap st o)) same)
  DaemonStep-KeysGiven {s} (keys_asked i name m e) w k = record {
    cells = k.cells;
    phases = λ j.
        set_keys-IsPhaseGiven Gives c s.tasks.store.heap i j (searching name) s.keys tt
          (k.phases j);
    updates = k.updates;
  }
  DaemonStep-KeysGiven {s} (keys_searched i name result e f) w k = record {
    cells = k.cells;
    phases = λ j.
        set_keys-IsPhaseGiven Gives c s.tasks.store.heap i j _ s.keys
          (searched-IsPhaseGiven Gives c name s.tasks.clock s.tasks.store w k.cells) (k.phases j);
    updates = k.updates;
  }
  DaemonStep-KeysGiven {s} (keys_replied i name p a call e g done) w k =
      let named = subst (IsPhaseGiven Gives c s.tasks.store.heap) e (k.phases i) in
      let (new, update) =
        keys_answered-IsGiven Gives c name p s.tasks.clock a s.tasks.store call named k.cells g
          done in
      record {
        cells = k.cells;
        phases =
            λ j. set_keys-IsPhaseGiven Gives c s.tasks.store.heap i j _ s.keys new (k.phases j);
        updates = start_update-IsGiven call.started s.pending update k.updates;
      }
  DaemonStep-KeysGiven {s} (cached_written before after u e) w k =
      let (new, rest) =
        All-without before after u (subst (All (IsUpdateGiven Gives c)) e k.updates) in
      let t =
        evolve
          (record s.tasks {
            store = update_cached_keys u.username u.keys u.sudoer u.refresh_time s.tasks.store;
          })
          k
          (update_cached_keys-Evolves Gives u.username u.keys u.sudoer u.refresh_time s.tasks.store
            w new) in
      record { cells = t.cells; phases = t.phases; updates = rest }
  DaemonStep-KeysGiven {s} (keys_written n messages store e m u) w k =
      evolve (record s.tasks { store = store; key_updates = n }) k
        (update_keys-Evolves Gives messages s.tasks.store store w m u)

  DaemonReach-KeysGiven : {s : Daemon} → DaemonReach Gives c s → KeysGiven s
  unfolding start_daemon init
  DaemonReach-KeysGiven (started now) = record {
    cells = AllGiven-nil Gives;
    phases = λ i. tt;
    updates = tt;
  }
  DaemonReach-KeysGiven (stepped r st) =
      DaemonStep-KeysGiven st (Step.Reach-WellFormed (Reach-store (DaemonReach-tasks r)))
        (DaemonReach-KeysGiven r)

-- In every state that the goroutines reach, however their steps are interleaved, a call of
-- `AuthorizedKeys` that has returned has returned the error that no user has the name that it was asked
-- for, or keys. If they were returned due to the cooldown, the API had given them for that name, or the
-- zero time of no keys is, at most the cooldown before the search. Otherwise the API has given them to a
-- question for that name, or it has answered such a question with an error, and has given the keys for
-- that name at some time, if there are any.
pub replied_keys-IsGiven :
    {Gives : ℕ → Bytes → KeysAnswer → Type 0} {c : Config} {s : Daemon} (i : ℕ) (name : Bytes)
    (at : Option ℕ) (result : Result (List Bytes))
    → DaemonReach Gives c s
    → s.keys i ≡ replied name at result
    → IsKeysAnswer Gives c name at result
replied_keys-IsGiven {Gives} {c} {s} i name at result r e =
    subst (IsPhaseGiven Gives c s.tasks.store.heap) e ((DaemonReach-KeysGiven Gives c r).phases i)
