-- ===== src/Store/RoundEnds.antt =====
-- The loop of `updateKeys` ends, with a message of each worker.
use mathlib.Core.List.{Perm, map, perm_middle}
use mathlib.Core.List.Perm
use compute_user_accounts.Base.{
  ℕ, suc, ◌+◌, ◌*◌, ◌≤◌, ◌≡◌, ◌⊎◌, refl, ap, subst, inl, inr, List, [], ◌∷◌, ◌++◌, append_assoc,
  append-nil, Bytes, length, length-append, arith,
}
use compute_user_accounts.Store.Keys.{KeysAnswer, Update, work}
use compute_user_accounts.Store.KeyRound.{Arrival}
use compute_user_accounts.Store.Workers.{
  KeyRound, start_workers, RoundStep, replied, received_one, RoundRun, begun, stepped,
}

length-middle :
    {A : Type 0} (before after : List A) (x : A)
    → length (before ++ x ∷ after) ≡ suc (length (before ++ after))
length-middle before after x =
    omega (arith, length-append before (x ∷ after), length-append before after)

received-perm :
    (before after received rest : List Update) (up : Update)
    → Perm
        ((received ++ up ∷ []) ++ ((before ++ after) ++ rest))
        (received ++ ((before ++ up ∷ after) ++ rest))
received-perm before after received rest up =
    rw (append_assoc received (up ∷ []) ((before ++ after) ++ rest))
      (Perm.append_left received (Perm.append_right rest (Perm.symm (perm_middle before after))))

module _ (api : Bytes → KeysAnswer) (now : Bytes → ℕ) (names : List Bytes) where
  -- The messages that have come, those that wait, and those to be made.
  abbrev messages : KeyRound → List Update
  messages s = s.received ++ (s.sending ++ map (work api now) s.asking)

  record IsCounted (n : ℕ) (s : KeyRound) : Type 0 where
    workers_left : length s.asking + length s.sending ≡ s.workers
    steps_left : n + (2 * length s.asking + length s.sending) ≡ 2 * length names
    arrivals : Perm (messages s) (map (work api now) names)

  replied-perm :
      (before after : List Bytes) (name : Bytes) (sending : List Update)
      → Perm
          (work api now name ∷ (sending ++ map (work api now) (before ++ after)))
          (sending ++ map (work api now) (before ++ name ∷ after))
  replied-perm before after name sending =
      Perm.trans (Perm.symm (perm_middle sending (map (work api now) (before ++ after))))
        (Perm.append_left sending (Perm.symm (Perm.map (work api now) (perm_middle before after))))

  RoundStep-IsCounted :
      {n : ℕ} {s t : KeyRound} → RoundStep api now s t → IsCounted n s → IsCounted (suc n) t
  RoundStep-IsCounted {n} {s} (replied before after name e) k = record {
    workers_left = omega (arith, k.workers_left, ap length e, length-middle before after name);
    steps_left = omega (arith, k.steps_left, ap length e, length-middle before after name);
    arrivals = Perm.trans (Perm.append_left s.received (replied-perm before after name s.sending)) (
        subst
          (λ l. Perm (s.received ++ (s.sending ++ map (work api now) l)) (map (work api now) names))
          e k.arrivals);
  }
  RoundStep-IsCounted {n} {s} (received_one before after up workers w e) k = record {
    workers_left = omega (arith, k.workers_left, w, ap length e, length-middle before after up);
    steps_left = omega (arith, k.steps_left, ap length e, length-middle before after up);
    arrivals = Perm.trans (received-perm before after s.received (map (work api now) s.asking) up) (
        subst
          (λ l. Perm (s.received ++ (l ++ map (work api now) s.asking)) (map (work api now) names))
          e k.arrivals);
  }

  RoundRun-IsCounted : {n : ℕ} {s : KeyRound} → RoundRun api now names n s → IsCounted n s
  unfolding start_workers
  RoundRun-IsCounted begun = record {
    workers_left = omega arith;
    steps_left = omega arith;
    arrivals = Perm.rfl;
  }
  RoundRun-IsCounted (stepped r st) = RoundStep-IsCounted st (RoundRun-IsCounted r)

  -- A state in which the loop goes on, or its end.
  abbrev pub GoesOn : ℕ → KeyRound → Type 0
  GoesOn n s =
      ((t : KeyRound) × RoundStep api now s t)
      ⊎ ((s.workers ≡ 0) × (n ≡ 2 * length names) × Arrival api now names s.received)

  round-GoesOn :
      (asking : List Bytes) (sending : List Update) (s : KeyRound) (n : ℕ)
      → s.asking ≡ asking
      → s.sending ≡ sending
      → IsCounted n s
      → GoesOn n s
  round-GoesOn (name ∷ asking) sending s n e f k = inl (_, replied [] asking name e)
  round-GoesOn [] (up ∷ sending) s n e f k = inl (
    _,
    received_one [] sending up (length sending)
        (omega (arith, ap length e, ap length f, k.workers_left)) f,
  )
  round-GoesOn [] [] s n e f k = inr (
    omega (arith, ap length e, ap length f, k.workers_left),
    omega (arith, ap length e, ap length f, k.steps_left),
    subst (λ l. Perm l (map (work api now) names)) (rw (e, f) (append-nil s.received)) k.arrivals,
  )

  -- However the workers of `updateKeys` and its loop are interleaved, a run makes at most two steps for
  -- each name that is listed. As long as the loop has not ended, a worker or the loop has a step; and
  -- when it has ended, it has received the message of each worker once, in some order.
  pub round_ends :
      {n : ℕ} {s : KeyRound} → RoundRun api now names n s → (n ≤ 2 * length names) × GoesOn n s
  round_ends {n} {s} r =
      let k = RoundRun-IsCounted r in
      (omega (arith, k.steps_left), round-GoesOn s.asking s.sending s n refl refl k)
