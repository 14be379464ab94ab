-- ===== src/Process/Handle/Timed.antt =====
-- The time that `Process.wait` of zproc/process.py takes when it is given a timeout.
use zproc.Prelude.{
  ltb, leb, if◌then◌else◌, Bool-cases, Option-cases, min, ℕ, zero, suc, ◌+◌, ◌≤◌, ◌<◌, ◌≡◌, refl,
  sym, ap, ◌∙◌, subst, ◌≢◌, ◌↔◌, inl, inr, Bool, true, false, Option, none, some, arith, dec_lt,
}
use zproc.Process.Handle.{ChildStatus, timed_out, Waited, got, failed, Process, read_result, wait}
use zproc.Task.Ids.{ℤ}

-- A child that exits at the time `ends_at`, or never: its exitcode, and the message it has sent by then.
pub record Child (V : Type 0) : Type 0 where
  pub ends_at : Option ℕ
  pub exitcode : ℤ
  pub result : Option V

unfoldable pub has_ended : {V : Type 0} → Child V → ℕ → Bool
has_ended child t = elim child.ends_at [ none ↦ false | some e ↦ leb e t ]

abbrev ended : {V : Type 0} → Child V → ChildStatus V
ended child = record { is_alive = false; exitcode = some child.exitcode; inbox = child.result }

unfoldable pub status_at : {V : Type 0} → Child V → ℕ → ChildStatus V
unfolding has_ended
status_at child t =
    if has_ended child t
    then ended child
    else record { is_alive = true; exitcode = none; inbox = none }

-- `join(timeout)`: until the child exits, and no longer than the timeout.
unfoldable pub join : {V : Type 0} → Child V → ℕ → ℕ → ℕ
join child timeout t = elim child.ends_at [
  | none ↦ t + timeout
  | some e ↦ if leb e t then t else min e (t + timeout)
]

-- `while time.time() < target: self.child.join(timeout)`: the time at its end. `cost` is what a round
-- takes besides the wait, from one call of `time.time()` to the next. `none` is a lack of fuel.
unfoldable pub join_loop : {V : Type 0} → (ℕ → ℕ) → Child V → ℕ → ℕ → ℕ → ℕ → Option ℕ
unfolding join
join_loop cost child timeout target zero t = none
join_loop cost child timeout target (suc fuel) t =
    let rest = join_loop cost child timeout target fuel (join child timeout t + cost t) in
    if ltb t target then rest else some t

unfoldable pub finish_wait :
    {V : Type 0} → Child V → Process V → Option ℕ → Option ((Waited V × Process V) × ℕ)
unfolding wait status_at
finish_wait child p none = none
finish_wait child p (some t) = some (wait true (status_at child t) p, t)

-- `wait(timeout)` from the time `t` on: what it does, and when.
unfoldable pub wait_timed :
    {V : Type 0} → (ℕ → ℕ) → Child V → ℕ → ℕ → ℕ → Process V → Option ((Waited V × Process V) × ℕ)
unfolding join_loop finish_wait
wait_timed cost child timeout fuel t p = elim p.cached [
  | some v ↦ some ((got v, p), t)
  | none ↦ finish_wait child p (join_loop cost child timeout (t + timeout) fuel t)
]

module _ {V : Type 0} (cost : ℕ → ℕ) (child : Child V) (timeout most : ℕ)
    (moves : (t : ℕ) → (1 ≤ cost t) × (cost t ≤ most)) where
  join_bounds : (t : ℕ) → (t ≤ join child timeout t) × (join child timeout t ≤ t + timeout)
  unfolding join
  join_bounds t = elim (Option-cases child.ends_at) [
    | inl e ↦ rw e (omega arith, omega arith)
    | inr (n, e) ↦ (ground (arith, e), ground (arith, e))
  ]

  join_loop_over :
      (target fuel t : ℕ) → target ≤ t → join_loop cost child timeout target (suc fuel) t ≡ some t
  unfolding join_loop
  join_loop_over target fuel t le = ground (arith, le)

  join_loop_round :
      (target fuel t : ℕ)
      → t < target
      → join_loop cost child timeout target (suc fuel) t
        ≡ join_loop cost child timeout target fuel (join child timeout t + cost t)
  unfolding join_loop
  join_loop_round target fuel t lt = ground (arith, lt)

  -- The loop ends after the target, and not much after it.
  abbrev Over : ℕ → Option ℕ → Type 0
  Over target o = (t' : ℕ) × (o ≡ some t') × (target ≤ t') × (t' ≤ target + timeout + most)

  -- One round more than there is time left is enough.
  join_loop_lem :
      (target fuel t : ℕ)
      → target ≤ t + fuel
      → t ≤ target + timeout + most
      → Over target (join_loop cost child timeout target (suc fuel) t)
  join_loop_lem target zero t enough early =
      (t, join_loop_over target zero t (omega (arith, enough)), omega (arith, enough), early)
  join_loop_lem target (suc fuel) t enough early = elim (dec_lt t target) [
    | no late ↦ (t, join_loop_over target (suc fuel) t (omega arith), omega arith, early)
    | yes lt ↦
        let (least, greatest) = join_bounds t in
        let (some_cost, little) = moves t in
        subst (Over target) (sym (join_loop_round target (suc fuel) t lt)) (
          join_loop_lem target fuel (join child timeout t + cost t)
            (omega (arith, enough, least, some_cost)) (omega (arith, lt, greatest, little)))
  ]

module _ {V : Type 0} where
  read_result-late :
      (status : ChildStatus V) (p : Process V) → (read_result status p).0 ≢ failed timed_out
  unfolding read_result
  read_result-late status p h = elim (Option-cases status.inbox) [
    | inl e ↦ ground (arith, h, e)
    | inr (v, e) ↦ ground (arith, h, e)
  ]

  wait-ended :
      (has_timeout : Bool) (child : Child V) (t : ℕ) (p : Process V)
      → p.cached ≡ none
      → has_ended child t ≡ true
      → wait has_timeout (status_at child t) p ≡ read_result (ended child) p
  unfolding wait status_at
  wait-ended has_timeout child t p fresh e = ground (arith, fresh, e)

  wait-running :
      (child : Child V) (t : ℕ) (p : Process V)
      → p.cached ≡ none
      → has_ended child t ≡ false
      → wait true (status_at child t) p ≡ (failed timed_out, p)
  unfolding wait status_at
  wait-running child t p fresh e = ground (arith, fresh, e)

  -- The child has exited by the time the wait is over, or there is a TimeoutError.
  status_at-late :
      (child : Child V) (t : ℕ) (p : Process V)
      → p.cached ≡ none
      → ((wait true (status_at child t) p).0 ≡ failed timed_out) ↔ (has_ended child t ≡ false)
  status_at-late child t p fresh = (
    λ late. elim (Bool-cases (has_ended child t)) [
      | inl e ↦ absurd (
          read_result-late (ended child) p
            (sym (ap (λ r. r.0) (wait-ended true child t p fresh e)) ∙ late))
      | inr e ↦ e
    ],
    λ e. ap (λ r. r.0) (wait-running child t p fresh e),
  )

-- A wait with a timeout always comes to an end, also for a child that never exits: not before the
-- timeout, even if the child has exited long before, and later than it by no more than the timeout again
-- and what one round takes. It raises a TimeoutError if and only if the child has not exited by then,
-- so never when the child exits in time; and otherwise it does what a wait without a timeout does.
-- Hypotheses: nothing has been waited for yet, each round takes some time, and none more than `most`;
-- `fuel` bounds the rounds, and one more than the timeout is enough.
pub wait_timed_lem :
    {V : Type 0} (cost : ℕ → ℕ) (child : Child V) (timeout most t : ℕ) (p : Process V) (fuel : ℕ)
    → ((t' : ℕ) → (1 ≤ cost t') × (cost t' ≤ most))
    → p.cached ≡ none
    → timeout < fuel
    → (t' : ℕ) × (waited : Waited V × Process V) × (wait_timed cost child timeout fuel t p
        ≡ some (waited, t'))
      × (t + timeout ≤ t')
      × (t' ≤ t + timeout + timeout + most)
      × ((waited.0 ≡ failed timed_out) ↔ (has_ended child t' ≡ false))
      × (has_ended child t' ≡ true → waited ≡ wait false (status_at child t') p)
unfolding wait_timed finish_wait
wait_timed_lem cost child timeout most t p zero moves fresh lt = absurd (omega arith)
wait_timed_lem cost child timeout most t p (suc fuel) moves fresh lt =
    let (t', found, least, greatest) =
      join_loop_lem cost child timeout most moves (t + timeout) fuel t (omega (arith, lt))
        (omega arith) in
    (
      t',
      wait true (status_at child t') p,
      rw (fresh, found) refl,
      least,
      greatest,
      status_at-late child t' p fresh,
      λ e. wait-ended true child t' p fresh e ∙ sym (wait-ended false child t' p fresh e),
    )
