-- ===== src/Task/Swarm/Lengths.antt =====
-- The length of the chunks of `Swarm.map_lazy`.

use zproc.Prelude.{◌==◌, Bool-cases, ℕ, ◌+◌, ◌*◌, ◌/◌, ◌%◌, ◌≤◌, ◌<◌, ◌≡◌, ◌≢◌, inl, inr, arith}
use zproc.Task.Swarm.{chunk_length_of}
use zproc.Task.Swarm.Distribution.{div_part}

reaches : (total n q r : ℕ) → r < n → total ≡ n * q + r → total ≤ n * (q + 1)
reaches total n q r lt e = omega arith

quotient-least : (total n q r c : ℕ) → r < n → total ≡ n * q + r → total ≤ n * c → q ≤ c
quotient-least total n q r c lt e h = grind arith

quotient-least_rest : (total n q r c : ℕ) → r ≢ 0 → total ≡ n * q + r → total ≤ n * c → q + 1 ≤ c
quotient-least_rest total n q r c pos_r e h = grind arith

-- `num_chunks` chunks of the computed length hold all items, and no smaller length does it.
-- Hypothesis: `num_chunks` is positive.
pub chunk_length_of-least :
    (total num_chunks : ℕ)
    → 0 < num_chunks
    → (total ≤ num_chunks * chunk_length_of total num_chunks)
      × ((c : ℕ) → total ≤ num_chunks * c → chunk_length_of total num_chunks ≤ c)
chunk_length_of-least total num_chunks h = elim (Bool-cases (total % num_chunks == 0)) [
  | inl even ↦ rw even (
    ground (arith, div_part total num_chunks),
    λ c enough.
        quotient-least total num_chunks (total / num_chunks) (total % num_chunks) c (omega arith)
          (div_part total num_chunks) enough,
  )
  | inr odd ↦ rw odd (
    reaches total num_chunks (total / num_chunks) (total % num_chunks) (omega arith)
        (div_part total num_chunks),
    λ c enough.
        quotient-least_rest total num_chunks (total / num_chunks) (total % num_chunks) c
          (ground arith) (div_part total num_chunks) enough,
  )
]
