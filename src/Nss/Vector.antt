-- ===== src/Nss/Vector.antt =====
-- `AppendVector`: where it puts the strings, and when they fit.
use compute_user_accounts.Base.{
  ℕ, ◌+◌, ◌-◌, ◌*◌, ◌≤◌, ◌<◌, ◌≡◌, refl, ◌∙◌, inl, inr, List, [], ◌∷◌, Bytes, Bool-cases, ltb,
  arith, some, length,
}
use compute_user_accounts.Nss.Outcome.{done, thrown, length_error}
use compute_user_accounts.Nss.Buffer.{
  BufferManager, Chunk, text, pointers, c_string, reserve, append_strings, append_vector,
}
use compute_user_accounts.Nss.Entries.{behind, append_string-fits, append_string-full}
use compute_user_accounts.Nss.Held.{chunk_at}

-- The bytes of the strings.
abbrev pub total : List Bytes → ℕ
total [] = 0
total (v ∷ vs) = length v + 1 + total vs

abbrev pub behind_all : List Bytes → BufferManager → BufferManager
behind_all [] b = b
behind_all (v ∷ vs) b = behind_all vs (behind v b)

abbrev pub places : List Bytes → BufferManager → List ℕ
places [] b = []
places (v ∷ vs) b = b.address ∷ places vs (behind v b)

append_strings-fits :
    (vs : List Bytes) (b : BufferManager)
    → total vs ≤ b.size
    → append_strings vs b ≡ done (places vs b, behind_all vs b)
unfolding append_strings
append_strings-fits [] b h = refl
append_strings-fits (v ∷ vs) b h =
    rw (append_string-fits v b (omega arith), append_strings-fits vs (behind v b) (omega arith))
      refl

append_strings-full :
    (vs : List Bytes) (b : BufferManager)
    → b.size < total vs
    → append_strings vs b ≡ thrown length_error
unfolding append_strings
append_strings-full [] b h = absurd (omega arith)
append_strings-full (v ∷ vs) b h = elim (Bool-cases (ltb b.size (length v + 1))) [
  | inl t ↦ rw (append_string-full v b (ground arith)) refl
  | inr f ↦
      let fits : length v + 1 ≤ b.size = ground arith in
      rw (append_string-fits v b fits, append_strings-full vs (behind v b) (omega arith)) refl
]

-- The buffer when the array has been reserved.
abbrev pub behind_array : List Bytes → BufferManager → BufferManager
behind_array vs b = record b {
  address = b.address + (length vs + 1) * 8;
  size = b.size - (length vs + 1) * 8;
}

abbrev pub vector_of : List Bytes → BufferManager → BufferManager
vector_of vs b =
    let after = behind_all vs (behind_array vs b) in
    record after { chunks = (b.address, pointers (places vs (behind_array vs b))) ∷ after.chunks }

pub append_vector-fits :
    (vs : List Bytes) (b : BufferManager)
    → (length vs + 1) * 8 + total vs ≤ b.size
    → append_vector vs b ≡ done (b.address, vector_of vs b)
unfolding append_vector
append_vector-fits vs b h =
    let reserved : reserve ((length vs + 1) * 8) b ≡ done (b.address, behind_array vs b) =
      unfold reserve in ground arith in
    rw (reserved, append_strings-fits vs (behind_array vs b) (omega arith)) refl

pub append_vector-full :
    (vs : List Bytes) (b : BufferManager)
    → b.size < (length vs + 1) * 8 + total vs
    → append_vector vs b ≡ thrown length_error
unfolding append_vector reserve
append_vector-full vs b h = elim (Bool-cases (ltb b.size ((length vs + 1) * 8))) [
  | inl t ↦ rw t refl
  | inr f ↦ rw (f, append_strings-full vs (behind_array vs b) (ground arith)) refl
]

-- What stands before the free part of the buffer stays.
pub chunk_at-behind_all :
    (vs : List Bytes) (b : BufferManager) (a : ℕ)
    → a < b.address
    → chunk_at a (behind_all vs b).chunks ≡ chunk_at a b.chunks
chunk_at-behind_all [] b a h = refl
chunk_at-behind_all (v ∷ vs) b a h =
    chunk_at-behind_all vs (behind v b) a (omega arith) ∙ ground arith

abbrev pub HoldsAll : List ℕ → List Bytes → List (ℕ × Chunk) → Type 0
HoldsAll [] [] chunks = Unit {0}
HoldsAll [] (v ∷ vs) chunks = ⊥
HoldsAll (p ∷ ps) [] chunks = ⊥
HoldsAll (p ∷ ps) (v ∷ vs) chunks =
    (chunk_at p chunks ≡ some (text (c_string v))) × HoldsAll ps vs chunks

places-HoldsAll :
    (vs : List Bytes) (b : BufferManager) (a : ℕ) (chunk : Chunk)
    → a < b.address
    → HoldsAll (places vs b) vs ((a, chunk) ∷ (behind_all vs b).chunks)
places-HoldsAll [] b a chunk h = tt
places-HoldsAll (v ∷ vs) b a chunk h = (
  ground (arith, chunk_at-behind_all vs (behind v b) b.address),
  places-HoldsAll vs (behind v b) a chunk (omega arith),
)

pub vector_of-HoldsAll :
    (vs : List Bytes) (b : BufferManager)
    → HoldsAll (places vs (behind_array vs b)) vs (vector_of vs b).chunks
vector_of-HoldsAll vs b = places-HoldsAll vs (behind_array vs b) b.address _ (omega arith)

behind_all-bounds :
    (vs : List Bytes) (b : BufferManager)
    → total vs ≤ b.size
    → (behind_all vs b).address + (behind_all vs b).size ≡ b.address + b.size
behind_all-bounds [] b h = refl
behind_all-bounds (v ∷ vs) b h = behind_all-bounds vs (behind v b) (omega arith) ∙ omega arith

pub vector_of-bounds :
    (vs : List Bytes) (b : BufferManager)
    → (length vs + 1) * 8 + total vs ≤ b.size
    → (vector_of vs b).address + (vector_of vs b).size ≡ b.address + b.size
vector_of-bounds vs b h = behind_all-bounds vs (behind_array vs b) (omega arith) ∙ omega arith
