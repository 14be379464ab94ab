-- ===== src/Process/Handle.antt =====
-- `Process.wait` of zproc/process.py and `ProcessList.wait` of zproc/context.py: the parent's side.
pub mod Waiting
pub mod Timed
use zproc.Prelude.{
  ◌==◌, if◌then◌else◌, ◌⊎◌, inl, inr, Bool, true, false, Option, none, some, List, [], ◌∷◌, map,
}
use zproc.Task.Ids.{ℤ, pos, negsuc}

-- What the parent finds out about the child once `join` has returned.
pub record ChildStatus (V : Type 0) : Type 0 where
  pub is_alive : Bool
  -- None before the end
  pub exitcode : Option ℤ
  -- the message on the result socket
  pub inbox : Option V

pub data WaitError : Type 0 where
  timed_out : WaitError
  -- ProcessWaitError, with its exitcode
  process_wait_error : Option ℤ → WaitError
  -- the zmq error of a closed socket
  socket_closed : WaitError

pub data Waited (V : Type 0) : Type 0 where
  got : V → Waited V
  still_running : Waited V
  failed : WaitError → Waited V

pub record Process (V : Type 0) : Type 0 where
  -- `_result`, and `_has_returned`
  pub cached : Option V
  pub is_closed : Bool

unfoldable pub is_zero : Option ℤ → Bool
is_zero none = false
is_zero (some (pos n)) = n == 0
is_zero (some (negsuc n)) = false

module _ {V : Type 0} where
  -- The part of `wait` after the child has ended.
  unfoldable pub read_result : ChildStatus V → Process V → Waited V × Process V
  unfolding is_zero
  read_result status p =
      if is_zero status.exitcode
      then (if p.is_closed then (failed socket_closed, p) else elim status.inbox [
        | none ↦ (failed (process_wait_error status.exitcode), p)
        | some v ↦ (got v, record p { cached = some v; is_closed = true })
      ])
      else (failed (process_wait_error status.exitcode), p)

  -- `wait`: `has_timeout` if a timeout is given. The time that it takes is in what `status` says.
  unfoldable pub wait : Bool → ChildStatus V → Process V → Waited V × Process V
  unfolding read_result
  wait has_timeout status p = elim p.cached [
    | some v ↦ (got v, p)
    | none ↦
        if status.is_alive
        then (if has_timeout then (failed timed_out, p) else (still_running, p))
        else read_result status p
  ]

  -- `ProcessList.wait(timeout, safe=True)`: an item for each process, an exception as the item.
  unfoldable pub wait_safe :
      Bool → List (ChildStatus V × Process V) → List (Waited V) × List (Process V)
  unfolding wait
  wait_safe has_timeout [] = ([], [])
  wait_safe has_timeout ((status, p) ∷ ps) =
      let r = wait has_timeout status p in
      let rest = wait_safe has_timeout ps in (r.0 ∷ rest.0, r.1 ∷ rest.1)

  -- A list comprehension's next item: an exception ends it, with the processes `ps` as they are.
  unfoldable pub wait_next :
      Waited V × Process V
      → List (Process V)
      → (List (Waited V) ⊎ WaitError) × List (Process V)
      → (List (Waited V) ⊎ WaitError) × List (Process V)
  wait_next (failed e, p) ps rest = (inr e, p ∷ ps)
  wait_next (got v, p) ps (inl ws, qs) = (inl (got v ∷ ws), p ∷ qs)
  wait_next (got v, p) ps (inr e, qs) = (inr e, p ∷ qs)
  wait_next (still_running, p) ps (inl ws, qs) = (inl (still_running ∷ ws), p ∷ qs)
  wait_next (still_running, p) ps (inr e, qs) = (inr e, p ∷ qs)

  -- `ProcessList.wait(timeout)`: the first exception ends it, and the processes after it are not
  -- waited for.
  unfoldable pub wait_all :
      Bool → List (ChildStatus V × Process V) → (List (Waited V) ⊎ WaitError) × List (Process V)
  unfolding wait wait_next
  wait_all has_timeout [] = (inl [], [])
  wait_all has_timeout ((status, p) ∷ ps) =
      let rest = wait_all has_timeout ps in
      wait_next (wait has_timeout status p) (map (λ x. x.1) ps) rest
