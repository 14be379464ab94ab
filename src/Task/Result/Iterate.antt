-- ===== src/Task/Result/Iterate.antt =====
-- What a loop over a `SequenceTaskResult` gives, to its last `__next__`.
use zproc.Prelude.{
  ◌==◌, if◌then◌else◌, length, get_elem?, take, drop, replicate, length-append, length-take,
  length-replicate, drop_of_length-le, length-map, get_elem?-none, drop_cons, Error, index_error,
  stop_iteration, Result, ok, raise, ℕ, zero, suc, ◌+◌, ◌-◌, ◌*◌, ◌≤◌, ◌<◌, ◌≡◌, ap, Option, none,
  some, List, [], ◌∷◌, ◌++◌, map, arith, add-one, dec_lt,
}
use zproc.Task.Ids.{TaskInfo}
use zproc.Task.Chunks.{slice}
use zproc.Task.Result.{start, is_stop, next, collect}
use zproc.Task.Result.Collect.{after, start-after, get_next_chunk-after, get_next_chunk_end}

get_elem?_read :
    {R : Type 0} (n i : ℕ) (rs : List R) (rest : List (Option R)) (r : R)
    → i < n
    → get_elem? rs i ≡ some r
    → get_elem? (map some (take n rs) ++ rest) i ≡ some (some r)
get_elem?_read n i [] rest r h e = cc
get_elem?_read zero i (x ∷ rs) rest r h e = absurd (omega arith)
get_elem?_read (suc n) zero (x ∷ rs) rest r h e = ap some e
get_elem?_read (suc n) (suc i) (x ∷ rs) rest r h e = get_elem?_read n i rs rest r (omega arith) e

module _ {R : Type 0} (info : TaskInfo) (rs : List R) (get_chunk : ℕ → Result (List R))
    (complete : length rs ≡ info.total)
    (chunks : (i : ℕ)
      → i < info.num_chunks
      → get_chunk i ≡ ok (slice (i * info.chunk_length) ((i + 1) * info.chunk_length) rs)) where
  length-items : (j k : ℕ) → length (after info rs j k).items ≡ info.total
  unfolding after
  length-items j k = omega (
    arith,
    length-append (map some (take (j * info.chunk_length) rs))
        (replicate (info.total - j * info.chunk_length) none),
    length-map {A = R} {B = Option R} (take (j * info.chunk_length) rs) some,
    length-take (j * info.chunk_length) rs,
    length-replicate {A = Option R} (info.total - j * info.chunk_length) none,
  )

  next_read :
      (j k : ℕ) (r : R)
      → k < j * info.chunk_length
      → get_elem? rs k ≡ some r
      → next get_chunk (after info rs j k) ≡ (ok (some r), after info rs j (k + 1))
  unfolding next after
  next_read j k r h e = ground (
    arith,
    get_elem?_read (j * info.chunk_length) k rs
        (replicate (info.total - j * info.chunk_length) none) r h e,
  )

  next_fetch :
      (j k : ℕ) (r : R)
      → k ≡ j * info.chunk_length
      → j < info.num_chunks
      → 0 < info.chunk_length
      → get_elem? rs k ≡ some r
      → next get_chunk (after info rs j k) ≡ (ok (some r), after info rs (j + 1) (k + 1))
  unfolding next after
  next_fetch j k r h lt filled e = ground (
    arith,
    get_elem?_read ((j + 1) * info.chunk_length) k rs
        (replicate (info.total - (j + 1) * info.chunk_length) none) r (omega arith) e,
    get_next_chunk-after info rs get_chunk complete chunks j (k + 1) lt,
  )

  -- Past the last item, with room in the last chunk: an item that is not there.
  next_past :
      (j k : ℕ)
      → k ≡ info.total
      → k < j * info.chunk_length
      → (next get_chunk (after info rs j k)).0 ≡ raise index_error
  unfolding next after
  next_past j k e h = ground (arith, get_elem?-none (after info rs j k).items k, length-items j k)

  -- The same where another chunk, an empty one, is left to fetch.
  next_past_fetch :
      (j k : ℕ)
      → k ≡ info.total
      → k ≡ j * info.chunk_length
      → j < info.num_chunks
      → (next get_chunk (after info rs j k)).0 ≡ raise index_error
  unfolding next after
  next_past_fetch j k e h lt = ground (
    arith,
    get_elem?-none (after info rs (j + 1) (k + 1)).items k,
    length-items (j + 1) (k + 1),
    get_next_chunk-after info rs get_chunk complete chunks j (k + 1) lt,
  )

  next_stop :
      (j k : ℕ)
      → j ≡ info.num_chunks
      → k ≡ j * info.chunk_length
      → (next get_chunk (after info rs j k)).0 ≡ raise stop_iteration
  unfolding next after
  next_stop j k e h =
      rw e (ground (arith, get_next_chunk_end info rs get_chunk complete chunks (k + 1)))

  abbrev outcome : ℕ → Option (Result (List (Option R)))
  outcome k = some (
      if info.total == info.num_chunks * info.chunk_length
      then ok (map some (drop k rs))
      else raise index_error)

  collect_step :
      (fuel j j' k : ℕ) (r : R)
      → next get_chunk (after info rs j k) ≡ (ok (some r), after info rs j' (k + 1))
      → drop k rs ≡ r ∷ drop (suc k) rs
      → collect get_chunk fuel (after info rs j' (k + 1)) ≡ outcome (k + 1)
      → collect get_chunk (suc fuel) (after info rs j k) ≡ outcome k
  unfolding collect
  collect_step fuel j j' k r p q ih = ground (arith, ap (λ (n : ℕ). drop n rs) (add-one k))

  collect_end :
      (fuel j k : ℕ) (e : Error)
      → (next get_chunk (after info rs j k)).0 ≡ raise e
      → collect get_chunk (suc fuel) (after info rs j k)
        ≡ some (if is_stop e then ok [] else raise e)
  unfolding collect
  collect_end fuel j k e p = ground arith

  module _ (filled : 0 < info.chunk_length)
      (enough : info.total ≤ info.num_chunks * info.chunk_length) where
    more_chunks : (j : ℕ) → j * info.chunk_length < info.total → j < info.num_chunks
    more_chunks j h = grind arith

    chunks_mono :
        (j : ℕ) → j ≤ info.num_chunks → j * info.chunk_length ≤ info.num_chunks * info.chunk_length
    chunks_mono j h = grind arith

    chunks_lt :
        (j : ℕ) → j < info.num_chunks → j * info.chunk_length < info.num_chunks * info.chunk_length
    chunks_lt j h = grind arith

    collect-after :
        (fuel j k : ℕ)
        → info.total < fuel + k
        → k ≤ info.total
        → k ≤ j * info.chunk_length
        → j ≤ info.num_chunks
        → collect get_chunk fuel (after info rs j k) ≡ outcome k
    collect-after zero j k lt le ready jn = absurd (omega arith)
    collect-after (suc fuel) j k lt le ready jn = elim (dec_lt k info.total) [
      | yes more ↦
          let (r, here, rest) = drop_cons k rs (omega arith) in
          elim (dec_lt k (j * info.chunk_length)) [
            | yes old ↦
                collect_step fuel j j k r (next_read j k r old here) rest
                  (collect-after fuel j (k + 1) (omega arith) (omega arith) (omega arith) jn)
            | no new ↦
                let lt' = more_chunks j (omega arith) in
                collect_step fuel j (j + 1) k r (next_fetch j k r (omega arith) lt' filled here)
                  rest
                  (collect-after fuel (j + 1) (k + 1) (omega arith) (omega arith) (omega arith)
                    (omega arith))
          ]
      | no done ↦
          let at_end : k ≡ info.total = omega arith in
          elim (dec_lt k (j * info.chunk_length)) [
            | yes room ↦ ground (
              arith,
              collect_end fuel j k index_error (next_past j k at_end room),
              chunks_mono j jn,
            )
            | no full ↦ elim (dec_lt j info.num_chunks) [
              | yes left ↦ ground (
                arith,
                collect_end fuel j k index_error (next_past_fetch j k at_end (omega arith) left),
                chunks_lt j left,
              )
              | no all ↦
                  let e : j ≡ info.num_chunks = omega arith in
                  ground (
                    arith,
                    collect_end fuel j k stop_iteration (next_stop j k e (omega arith)),
                    drop_of_length-le k rs,
                    ap (λ (n : ℕ). n * info.chunk_length) e,
                  )
            ]
          ]
    ]

-- A `for` loop or `list()` over a new result with the shape `info` gets all of `rs`, in order, and
-- ends properly exactly if the chunks fill up to the end, `total = num_chunks * chunk_length`; if
-- not, the loop ends by an IndexError. The task server is taken to answer the request for each
-- chunk with the slice of `rs` at its place.
pub collect_lem :
    {R : Type 0} (info : TaskInfo) (rs : List R) (get_chunk : ℕ → Result (List R))
    → length rs ≡ info.total
    → 0 < info.chunk_length
    → info.total ≤ info.num_chunks * info.chunk_length
    → ((i : ℕ)
        → i < info.num_chunks
        → get_chunk i ≡ ok (slice (i * info.chunk_length) ((i + 1) * info.chunk_length) rs))
    → collect get_chunk (info.total + 1) (start info)
      ≡ some (
          if info.total == info.num_chunks * info.chunk_length
          then ok (map some rs)
          else raise index_error)
collect_lem info rs get_chunk complete filled enough chunks = rw (← start-after info rs) (
    collect-after info rs get_chunk complete chunks filled enough (info.total + 1) 0 0 (omega arith)
      (omega arith) (omega arith) (omega arith))
