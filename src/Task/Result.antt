-- ===== src/Task/Result.antt =====
-- `SimpleTaskResult` and `SequenceTaskResult` of zproc/task/result.py. `get_chunk` is the answer of
-- the task server to a request for a chunk, `_get_chunk` of `_TaskResultBase`. The three indices
-- that start at -1 are kept one higher, as the number of steps made: `chunks_read` is
-- `_chunk_index + 1`, `iterated` is `_iter_index + 1` and `ready` is `_max_ready_index + 1`.
pub mod Collect
pub mod Iterate
use zproc.Prelude.{
  ltb, leb, if◌then◌else◌, get_elem?, take, drop, replicate, Error, value_error, index_error,
  stop_iteration, Result, ok, raise, ◌>>=◌, Bytes, ℕ, zero, suc, ◌+◌, ◌-◌, ◌*◌, Bool, true, false,
  Option, none, some, List, [], ◌∷◌, ◌++◌, map,
}
use zproc.Task.Ids.{TaskInfo, deconstruct_task_id}

pub record SequenceTaskResult (R : Type 0) : Type 0 where
  pub chunk_length : ℕ
  pub total : ℕ
  pub num_chunks : ℕ
  pub chunks_read : ℕ
  pub ready : ℕ
  pub iterated : ℕ
  -- `_as_list`: `none` is the None that stands for an item not read so far
  pub items : List (Option R)

module _ {R : Type 0} where
  abbrev pub start : TaskInfo → SequenceTaskResult R
  start info = record {
    chunk_length = info.chunk_length;
    total = info.total;
    num_chunks = info.num_chunks;
    chunks_read = 0;
    ready = 0;
    iterated = 0;
    items = replicate info.total none;
  }

  pub or_value_error : Option TaskInfo → Result (SequenceTaskResult R)
  or_value_error none = raise value_error
  or_value_error (some info) = ok (start info)

  -- SequenceTaskResult(server_address, task_id)
  unfoldable pub init : Bytes → Result (SequenceTaskResult R)
  unfolding or_value_error
  init task_id = do task_detail ← deconstruct_task_id task_id; or_value_error task_detail

-- SimpleTaskResult(server_address, task_id): the task id, if it has no shape.
value_error_if_some : Bytes → Option TaskInfo → Result Bytes
value_error_if_some task_id none = ok task_id
value_error_if_some task_id (some info) = raise value_error

unfoldable pub init_simple : Bytes → Result Bytes
unfolding value_error_if_some
init_simple task_id = do
  task_detail ← deconstruct_task_id task_id
  value_error_if_some task_id task_detail

-- Whether `except StopIteration` takes it.
abbrev pub is_stop : Error → Bool
is_stop stop_iteration = true
is_stop _ = false

-- l[a:b] = chunk, for a at most b
abbrev pub set_slice {ℓ} : {X : Type ℓ} → List X → ℕ → ℕ → List X → List X
set_slice l a b chunk = take a l ++ (chunk ++ drop b l)

module _ {R : Type 0} (get_chunk : ℕ → Result (List R)) where
  -- The counters have moved when the chunk arrives, and stay so if it is an exception.
  store_chunk : SequenceTaskResult R → Result (List R) → Result (Unit {0}) × SequenceTaskResult R
  store_chunk s (raise e) = (raise e, s)
  store_chunk s (ok chunk) =
      let i = s.chunks_read - 1 in
      let j = s.chunk_length in
      (ok tt, record s { items = set_slice s.items (i * j) ((i + 1) * j) (map some chunk) })

  unfoldable pub get_next_chunk : SequenceTaskResult R → Result (Unit {0}) × SequenceTaskResult R
  unfolding store_chunk
  get_next_chunk s =
      if leb s.num_chunks s.chunks_read
      then (raise stop_iteration, s)
      else store_chunk
          (record s { chunks_read = s.chunks_read + 1; ready = s.ready + s.chunk_length })
          (get_chunk s.chunks_read)

  -- `while True: self._get_next_chunk()` with its `except StopIteration`. With no fuel left the
  -- loop has not ended.
  unfoldable pub as_list :
      ℕ → SequenceTaskResult R → Option (Result (List (Option R)) × SequenceTaskResult R)
  as_list zero s = none
  as_list (suc fuel) s =
      let (r, s') = get_next_chunk s in
      elim r [
        | ok _ ↦ as_list fuel s'
        | raise e ↦ some (if is_stop e then ok s'.items else raise e, s')
      ]

  -- `self._as_list[self._iter_index]`
  item_at : SequenceTaskResult R → ℕ → Result (Option R)
  item_at s i = elim (get_elem? s.items i) [ none ↦ raise index_error | some r ↦ ok r ]

  read_item : Result (Unit {0}) → SequenceTaskResult R → Result (Option R) × SequenceTaskResult R
  read_item (raise e) s = (raise e, s)
  read_item (ok _) s = (item_at s (s.iterated - 1), s)

  -- `__next__`
  unfoldable pub next : SequenceTaskResult R → Result (Option R) × SequenceTaskResult R
  unfolding item_at read_item
  next s =
      let s' = record s { iterated = s.iterated + 1 } in
      if ltb s'.ready s'.iterated
      then (let (r, s'') = get_next_chunk s' in read_item r s'')
      else read_item (ok tt) s'

  prepend : Option R → Option (Result (List (Option R))) → Option (Result (List (Option R)))
  prepend x none = none
  prepend x (some (ok xs)) = some (ok (x ∷ xs))
  prepend x (some (raise e)) = some (raise e)

  -- `list(result)`: `__next__` until StopIteration. With no fuel left the loop has not ended.
  unfoldable pub collect : ℕ → SequenceTaskResult R → Option (Result (List (Option R)))
  unfolding prepend
  collect zero s = none
  collect (suc fuel) s =
      let (r, s') = next s in
      elim r [
        | ok x ↦ prepend x (collect fuel s')
        | raise e ↦ some (if is_stop e then ok [] else raise e)
      ]
