-- ===== src/Process/Handle/Waiting.antt =====
-- What is left of a process that has been waited for, and how the two modes of `ProcessList.wait`
-- compare.
use zproc.Prelude.{
  ◌≡◌, refl, ◌⊎◌, inl, inr, Bool, true, false, none, some, List, [], ◌∷◌, map, arith,
}
use zproc.Process.Handle.{
  ChildStatus, WaitError, Waited, got, still_running, failed, Process, is_zero, read_result, wait,
  wait_safe, wait_next, wait_all,
}

module _ {V : Type 0} where
  wait_fresh :
      (has_timeout : Bool) (status : ChildStatus V) (p : Process V) (v : V)
      → p.cached ≡ none
      → (wait has_timeout status p).0 ≡ got v
      → ((wait has_timeout status p).1.cached ≡ some v)
        × (status.is_alive ≡ false)
        × (is_zero status.exitcode ≡ true)
        × (status.inbox ≡ some v)
  unfolding wait read_result
  wait_fresh has_timeout status p v e h = ground (arith, e, h)

-- The values of a list of waits, or its first exception.
unfoldable pub first_failure : {V : Type 0} → List (Waited V) → List (Waited V) ⊎ WaitError
first_failure [] = inl []
first_failure (failed e ∷ ws) = inr e
first_failure (got v ∷ ws) = elim (first_failure ws) [ inl vs ↦ inl (got v ∷ vs) | inr e ↦ inr e ]
first_failure (still_running ∷ ws) = elim (first_failure ws) [
  | inl vs ↦ inl (still_running ∷ vs)
  | inr e ↦ inr e
]

-- The first wait that returns a value found the child ended with exitcode 0 and its message there; and
-- from then on each wait returns the same value, whatever has become of the child and the socket.
pub wait_again :
    {V : Type 0} (has_timeout : Bool) (status : ChildStatus V) (p : Process V) (v : V)
    → p.cached ≡ none
    → (wait has_timeout status p).0 ≡ got v
    → let p' = (wait has_timeout status p).1 in
      (status.is_alive ≡ false)
      × (is_zero status.exitcode ≡ true)
      × (status.inbox ≡ some v)
      × ((has_timeout' : Bool) (status' : ChildStatus V)
          → wait has_timeout' status' p' ≡ (got v, p'))
unfolding wait
wait_again has_timeout status p v e h =
    let (c, alive, code, message) = wait_fresh has_timeout status p v e h in
    (alive, code, message, λ t status'. ground (arith, c))

wait_next_lem :
    {V : Type 0} (r : Waited V × Process V) (ps : List (Process V))
    (rest : (List (Waited V) ⊎ WaitError) × List (Process V)) (ws : List (Waited V))
    → rest.0 ≡ first_failure ws
    → (wait_next r ps rest).0 ≡ first_failure (r.0 ∷ ws)
unfolding wait_next first_failure
wait_next_lem (failed e, p) ps rest ws h = refl
wait_next_lem (got v, p) ps (inl vs, qs) ws h = rw⁻¹ h refl
wait_next_lem (got v, p) ps (inr e, qs) ws h = rw⁻¹ h refl
wait_next_lem (still_running, p) ps (inl vs, qs) ws h = rw⁻¹ h refl
wait_next_lem (still_running, p) ps (inr e, qs) ws h = rw⁻¹ h refl

-- `ProcessList.wait` without `safe` gives the list that it gives with `safe` if that holds no exception,
-- and raises the first exception of that list otherwise.
pub wait_all_lem :
    {V : Type 0} (has_timeout : Bool) (ps : List (ChildStatus V × Process V))
    → (wait_all has_timeout ps).0 ≡ first_failure (wait_safe has_timeout ps).0
unfolding wait_all wait_safe
wait_all_lem has_timeout [] = unfold first_failure in refl
wait_all_lem has_timeout ((status, p) ∷ ps) =
    wait_next_lem (wait has_timeout status p) (map (λ x. x.1) ps) (wait_all has_timeout ps) _
      (wait_all_lem has_timeout ps)
