-- ===== src/Store/Workers.antt =====
-- The workers of `updateKeys`, which ask the API each for one name, and the loop that receives their
-- messages from a channel without a buffer.
use compute_user_accounts.Base.{ℕ, suc, List, [], ◌∷◌, ◌++◌, ◌≡◌, Bytes, length}
use compute_user_accounts.Store.Keys.{KeysAnswer, Update, work}

pub record KeyRound : Type 0 where
  -- The workers that wait for the API, and those that wait to send.
  pub asking : List Bytes
  pub sending : List Update
  -- The variable of the loop.
  pub workers : ℕ
  -- In the order of their arrival, also those with an error.
  pub received : List Update

unfoldable pub start_workers : List Bytes → KeyRound
start_workers names = record { asking = names; sending = []; workers = length names; received = [] }

module _ (api : Bytes → KeysAnswer) (now : Bytes → ℕ) where
  pub data RoundStep (s : KeyRound) : KeyRound → Type 0 where
    -- The API answers a worker, which goes on to its send.
    replied :
        (before after : List Bytes) (name : Bytes)
        → s.asking ≡ before ++ name ∷ after
        → RoundStep s
            (record s { asking = before ++ after; sending = work api now name ∷ s.sending })
    -- A round of the loop receives one of the messages that wait.
    received_one :
        (before after : List Update) (up : Update) (workers : ℕ)
        → s.workers ≡ suc workers
        → s.sending ≡ before ++ up ∷ after
        → RoundStep s (record s {
          sending = before ++ after;
          workers = workers;
          received = s.received ++ up ∷ [];
        })

  -- The number of the steps is kept.
  pub data RoundRun (names : List Bytes) : ℕ → KeyRound → Type 0 where
    begun : RoundRun names 0 (start_workers names)
    stepped :
        {n : ℕ} {s t : KeyRound} → RoundRun names n s → RoundStep s t → RoundRun names (suc n) t
