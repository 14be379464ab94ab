-- ===== src/Task/Chunks.antt =====
-- `make_chunks` of zproc/util.py: a sequence cut into slices of one length.
pub mod Law
pub mod Slices
use zproc.Prelude.{
  length, take, drop, replicate, range, ℕ, ◌+◌, ◌-◌, ◌*◌, Option, none, some, List, map,
}
use mathlib.Core.Option

-- seq[a:b], for a at most b
abbrev pub slice {ℓ} : {X : Type ℓ} → ℕ → ℕ → List X → List X
slice a b seq = take (b - a) (drop a seq)

unfoldable pub make_chunks {ℓ} : {X : Type ℓ} → Option (List X) → ℕ → ℕ → List (Option (List X))
unfolding range
make_chunks none length num_chunks = replicate num_chunks none
make_chunks (some seq) length num_chunks =
    map (λ i. some (slice (i * length) ((i + 1) * length) seq)) (range num_chunks)
