-- ===== src/Task/Result/Collect.antt =====
-- What `as_list` of `SequenceTaskResult` returns.
use zproc.Prelude.{
  length, take, replicate, take_of_length-le, take_nil, drop-replicate, stop_iteration, Result, ok,
  raise, ℕ, zero, suc, ◌+◌, ◌-◌, ◌*◌, ◌≤◌, ◌<◌, ◌≡◌, ap, none, some, List, [], ◌∷◌, append-nil,
  ◌++◌, map, arith, dec_lt,
}
use zproc.Task.Ids.{TaskInfo}
use zproc.Task.Chunks.{slice}
use zproc.Task.Result.{SequenceTaskResult, start, set_slice, get_next_chunk, as_list}

-- The list with the items before `a` read, when those from `a` to `b` come in.
set_slice_read :
    {R : Type 0} (a b : ℕ) (rs : List R)
    → a ≤ b
    → set_slice
        (map some (take a rs) ++ replicate (length rs - a) none)
        a
        b
        (map some (slice a b rs))
      ≡ map some (take b rs) ++ replicate (length rs - b) none
set_slice_read zero b rs h =
    let e : b - 0 ≡ b = omega arith in
    let f : length rs - 0 ≡ length rs = omega arith in rw (e, f, drop-replicate b (length rs))
set_slice_read (suc a) zero rs h = absurd (omega arith)
set_slice_read (suc a) (suc b) [] h =
    let e : 0 - suc a ≡ 0 = omega arith in
    let f : 0 - suc b ≡ 0 = omega arith in rw (e, f, take_nil)
set_slice_read (suc a) (suc b) (x ∷ rs) h =
    let e : suc (length rs) - suc a ≡ length rs - a = omega arith in
    let f : suc (length rs) - suc b ≡ length rs - b = omega arith in
    let g : suc b - suc a ≡ b - a = omega arith in
    rw (e, f, g) (ap (◌∷◌ (some x)) (set_slice_read a b rs (omega arith)))

module _ {R : Type 0} (info : TaskInfo) (rs : List R) where
  -- The state when `j` chunks have come in and `k` items have been asked for: the first `j` chunks
  -- of the results are in place.
  unfoldable pub after : ℕ → ℕ → SequenceTaskResult R
  after j k = record {
    chunk_length = info.chunk_length;
    total = info.total;
    num_chunks = info.num_chunks;
    chunks_read = j;
    ready = j * info.chunk_length;
    iterated = k;
    items =
        map some (take (j * info.chunk_length) rs)
        ++ replicate (info.total - j * info.chunk_length) none;
  }

  pub start-after : after 0 0 ≡ start info
  unfolding after
  start-after =
      let e : 0 * info.chunk_length ≡ 0 = omega arith in
      let f : info.total - 0 ≡ info.total = omega arith in rw (e, f)

module _ {R : Type 0} (info : TaskInfo) (rs : List R) (get_chunk : ℕ → Result (List R))
    (complete : length rs ≡ info.total)
    (chunks : (i : ℕ)
      → i < info.num_chunks
      → get_chunk i ≡ ok (slice (i * info.chunk_length) ((i + 1) * info.chunk_length) rs)) where
  pub get_next_chunk-after :
      (j k : ℕ)
      → j < info.num_chunks
      → get_next_chunk get_chunk (after info rs j k) ≡ (ok tt, after info rs (j + 1) k)
  unfolding get_next_chunk after
  get_next_chunk-after j k h =
      ground
        (arith, chunks j, set_slice_read (j * info.chunk_length) ((j + 1) * info.chunk_length) rs)

  pub get_next_chunk_end :
      (k : ℕ)
      → get_next_chunk get_chunk (after info rs info.num_chunks k)
        ≡ (raise stop_iteration, after info rs info.num_chunks k)
  unfolding get_next_chunk after
  get_next_chunk_end k = ground arith

  items_end :
      (k : ℕ)
      → info.total ≤ info.num_chunks * info.chunk_length
      → (after info rs info.num_chunks k).items ≡ map some rs
  unfolding after
  items_end k enough =
      let e : info.total - info.num_chunks * info.chunk_length ≡ 0 = omega arith in
      rw (e, append-nil, take_of_length-le (info.num_chunks * info.chunk_length) rs (omega arith))

  as_list-after :
      (fuel j k : ℕ)
      → info.total ≤ info.num_chunks * info.chunk_length
      → j ≤ info.num_chunks
      → info.num_chunks < fuel + j
      → as_list get_chunk fuel (after info rs j k)
        ≡ some (ok (map some rs), after info rs info.num_chunks k)
  unfolding as_list
  as_list-after zero j k enough le lt = absurd (omega arith)
  as_list-after (suc fuel) j k enough le lt = elim (dec_lt j info.num_chunks) [
    | yes more ↦ ground (arith, get_next_chunk-after j k more, as_list-after fuel (j + 1) k enough)
    | no done ↦
        let e : j ≡ info.num_chunks = omega arith in
        rw e (ground (arith, get_next_chunk_end k, items_end k enough))
  ]

-- `as_list` of a new result with the shape `info` ends after `num_chunks` requests and returns all
-- of `rs`, with no placeholder left, if the task server answers the request for each chunk with
-- the slice of `rs` at its place and the chunks reach the end of `rs`.
pub as_list_lem :
    {R : Type 0} (info : TaskInfo) (rs : List R) (get_chunk : ℕ → Result (List R))
    → length rs ≡ info.total
    → info.total ≤ info.num_chunks * info.chunk_length
    → ((i : ℕ)
        → i < info.num_chunks
        → get_chunk i ≡ ok (slice (i * info.chunk_length) ((i + 1) * info.chunk_length) rs))
    → (s : SequenceTaskResult R) × (as_list get_chunk (info.num_chunks + 1) (start info)
        ≡ some (ok (map some rs), s))
as_list_lem info rs get_chunk complete enough chunks = (
  after info rs info.num_chunks 0,
  rw (← start-after info rs) (
      as_list-after info rs get_chunk complete chunks (info.num_chunks + 1) 0 0 enough (omega arith)
        (omega arith)),
)
