-- ===== src/Nss/Buffer.antt =====
-- `BufferManager`: what is written where in the buffer that the caller gives.
use compute_user_accounts.Base.{
  ℕ, ◌+◌, ◌-◌, ◌*◌, List, [], ◌∷◌, Bytes, ltb, ◌==◌, if◌then◌else◌, length,
}
use compute_user_accounts.Nss.Outcome.{Outcome, done, thrown, length_error}

-- What stands at an address: a string, up to its null byte, or an array of pointers before a null
-- pointer.
pub data Chunk : Type 0 where
  text : Bytes → Chunk
  pointers : List ℕ → Chunk

-- `address` and `size` are `buf_` and `buflen_`; the chunks are those written, the last one first.
pub record BufferManager : Type 0 where
  pub address : ℕ
  pub size : ℕ
  pub chunks : List (ℕ × Chunk)

abbrev pub Command : Type 0 → Type 0
Command A = BufferManager → Outcome (A × BufferManager)

abbrev pub pure : {A : Type 0} → A → Command A
pure a b = done (a, b)

abbrev pub lift : {A : Type 0} → Outcome A → Command A
lift (done a) b = done (a, b)
lift (thrown e) b = thrown e

module _ {A B : Type 0} where
  abbrev pub and_then : Outcome (A × BufferManager) → (A → Command B) → Outcome (B × BufferManager)
  and_then (done (a, b)) k = k a b
  and_then (thrown e) k = thrown e

  infixl 5 ◌>>=◌ ◌>>◌
  abbrev pub ◌>>=◌ : Command A → (A → Command B) → Command B
  m >>= k = λ b. and_then (m b) k

  abbrev pub ◌>>◌ : Command A → Command B → Command B
  m >> n = m >>= λ _. n

-- `Reserve` with `CheckSpaceAvailable`.
unfoldable pub reserve : ℕ → Command ℕ
reserve bytes b =
    if ltb b.size bytes
    then thrown length_error
    else done (b.address, record b { address = b.address + bytes; size = b.size - bytes })

-- `strncpy` stops at a null byte.
abbrev pub c_string : Bytes → Bytes
c_string [] = []
c_string (c ∷ s) = let rest = c_string s in if c == 0 then [] else c ∷ rest

abbrev pub write : ℕ → Chunk → Command ℕ
write address chunk b = done (address, record b { chunks = (address, chunk) ∷ b.chunks })

unfoldable pub append_string : Bytes → Command ℕ
unfolding reserve
append_string value = do result ← reserve (length value + 1); write result (text (c_string value))

-- The loop of `AppendVector`.
unfoldable pub append_strings : List Bytes → Command (List ℕ)
unfolding append_string
append_strings [] = pure []
append_strings (v ∷ vs) = do first ← append_string v; rest ← append_strings vs; pure (first ∷ rest)

-- A pointer has eight bytes.
unfoldable pub append_vector : List Bytes → Command ℕ
unfolding append_strings reserve
append_vector value = do
  result ← reserve ((length value + 1) * 8)
  places ← append_strings value
  write result (pointers places)
