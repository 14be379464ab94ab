-- ===== src/Task/Worker.antt =====
-- `run_task` and the loop of `worker_process` in zproc/task/worker.py. `loads_fn` gives the function
-- that a pickled one stands for, or raises; `state` is the State object of the worker with the
-- namespace that a task sets. A result that is an exception is pickled as a RemoteException.
pub mod Distributed
pub mod Simple
use Prim.Native.String.{String}
use text.Mathlib.Text.{◌==◌ as str_eq}
use zproc.Prelude.{if◌then◌else◌, assertion_error, Result, raise, ◌>>=◌, Bytes, List, [], ◌∷◌}
use zproc.Task.MapPlus.{Target, map_plus}
use zproc.Task.Swarm.{Task, Message, empty, run_frames, map_frames}

-- How the loop is left: by an EMPTY_MULTIPART, by an exception outside the inner `try`, or not so
-- far, with all the messages handled.
pub data End : Type 0 where
  finished crashed waiting : End

module _ {F A R : Type 0} (state : String → A) (loads_fn : F → Result (Target A R)) where
  -- The setter of `State.namespace` asserts that the name is not empty.
  unfoldable pub run_task : Target A R → Task A → Result (List R)
  run_task target task =
      let p = task.params in
      if task.pass_state
      then if str_eq task.namespace ""
        then raise assertion_error
        else map_plus (λ args kwargs. target (state task.namespace ∷ args) kwargs) p.mi p.ma p.a
            p.mk p.k
      else map_plus target p.mi p.ma p.a p.mk p.k

  pub result_of : F → Task A → Result (List R)
  result_of target_bytes task = do target ← loads_fn target_bytes; run_task target task

  -- The results pushed, in order, and how the loop ended. A message of two frames cannot be taken
  -- apart into three: a ValueError outside the inner `try`.
  unfoldable pub worker_process : List (Message F A) → List (Bytes × Result (List R)) × End
  unfolding result_of
  worker_process [] = ([], waiting)
  worker_process (empty ∷ rest) = ([], finished)
  worker_process (run_frames chunk_id target_bytes task ∷ rest) = ([], crashed)
  worker_process (map_frames chunk_id target_bytes task ∷ rest) =
      let (results, end) = worker_process rest in
      ((chunk_id, result_of target_bytes task) ∷ results, end)
