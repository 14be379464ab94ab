-- ===== src/Task/Map.antt =====
-- `Swarm.map` of zproc/task/swarm.py: `map_lazy`, and `as_list` of the result it makes; and `_get_chunk`
-- of zproc/task/result.py, with which the result asks the task server for its chunks.
pub mod Joined
pub mod Served
use zproc.Prelude.{Result, ok, raise, ◌>>=◌, Bytes, ℕ, Bool, Option, none, some, List}
use zproc.Task.Ids.{pos, encode_chunk_id}
use zproc.Task.Result.{SequenceTaskResult, init, as_list}
use zproc.Task.Swarm.{Params, map_lazy}
use Prim.Native.String.{String}

module _ {R : Type 0} (ask : Bytes → Result (List R)) where
  -- `_get_chunk`. `ask` is what the task server answers to a chunk id, raised if it is an exception.
  unfoldable pub get_chunk : Bytes → ℕ → Result (List R)
  get_chunk task_id index = do chunk_id ← encode_chunk_id task_id (pos index); ask chunk_id

  -- `SequenceTaskResult(...).as_list`. `none` is a loop that has not ended.
  unfoldable pub as_list_of :
      ℕ → Bytes → Result (SequenceTaskResult R) → Option (Result (List (Option R)))
  unfolding as_list get_chunk
  as_list_of fuel task_id (raise e) = some (raise e)
  as_list_of fuel task_id (ok s) = elim (as_list (get_chunk task_id) fuel s) [
    | none ↦ none
    | some (r, s') ↦ some r
  ]

  unfoldable pub read_all : ℕ → Result Bytes → Option (Result (List (Option R)))
  unfolding as_list_of init
  read_all fuel (raise e) = some (raise e)
  read_all fuel (ok task_id) = as_list_of fuel task_id (init task_id)

  unfoldable pub swarm_map :
      {F A : Type 0}
      → ℕ
      → ℕ
      → Bytes
      → F
      → Params A
      → Bool
      → String
      → Option ℕ
      → Option (Result (List (Option R)))
  unfolding map_lazy read_all
  swarm_map fuel cpu_count nonce target p pass_state namespace num_chunks =
      read_all fuel (map_lazy cpu_count nonce target p pass_state namespace num_chunks).0
