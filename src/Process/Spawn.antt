-- ===== src/Process/Spawn.antt =====
-- `Context._process` and `Context.spawn` of zproc/context.py. `new_process` is the constructor of
-- `Process` with the keyword arguments of the context and the call.
pub mod Order
use zproc.Prelude.{◌==◌, if◌then◌else◌, length, ℕ, zero, suc, ◌*◌, List, [], ◌∷◌, ◌++◌}

-- What `spawn` returns: a decorator, a process, or a ProcessList.
pub data Spawned (P : Type 0) : Type 0 where
  wrapper : Spawned P
  one_process : P → Spawned P
  processes : List P → Spawned P

module _ {T P : Type 0} (new_process : T → P) where
  -- `_process`: the process, and `self.process_list` with it.
  unfoldable pub add_process : T → List P → P × List P
  add_process target process_list = (new_process target, process_list ++ new_process target ∷ [])

  -- `for target in targets`
  unfoldable pub add_targets : List T → List P → List P × List P
  unfolding add_process
  add_targets [] process_list = ([], process_list)
  add_targets (target ∷ targets) process_list =
      let p = add_process target process_list in
      let rest = add_targets targets p.1 in (p.0 ∷ rest.0, rest.1)

  -- `for _ in range(count)`
  unfoldable pub add_rounds : ℕ → List T → List P → List P × List P
  unfolding add_targets
  add_rounds zero targets process_list = ([], process_list)
  add_rounds (suc count) targets process_list =
      let round = add_targets targets process_list in
      let rest = add_rounds count targets round.1 in (round.0 ++ rest.0, rest.1)

  unfoldable pub spawn : List T → ℕ → List P → Spawned P × List P
  unfolding add_rounds add_process
  spawn [] count process_list = (wrapper, process_list)
  spawn (target ∷ targets) count process_list =
      if length (target ∷ targets) * count == 1
      then (one_process (new_process target), (add_process target process_list).1)
      else (
        processes (add_rounds count (target ∷ targets) process_list).0,
        (add_rounds count (target ∷ targets) process_list).1,
      )
