-- ===== src/Process/Group/Starting.antt =====
-- How far starting and stopping a list of processes gets.

use zproc.Prelude.{
  take, drop, Error, assertion_error, Result, ok, raise, Result-cases, ℕ, suc, ◌≡◌, refl, inl, inr,
  Option, List, [], ◌∷◌, ◌++◌, map,
}
use zproc.Process.Group.{Backend, Parent, started, start, start_next, start_all}

module _ {C : Type 0} (backend : Backend C) where
  -- How many processes of the list go well before the first that raises.
  unfoldable pub before_error :
      {X : Type 0} → (Parent C → Result X × Parent C) → List (Parent C) → ℕ
  before_error f [] = 0
  before_error f (p ∷ ps) = let n = before_error f ps in elim (f p).0 [ ok x ↦ suc n | raise e ↦ 0 ]

  -- What the first process of the list raises, when that is not an AssertionError.
  unfoldable pub not_suppressed : Result (Option ℕ) → Result (Unit {0})
  not_suppressed (raise assertion_error) = ok tt
  not_suppressed (raise e) = raise e
  not_suppressed (ok pid) = ok tt

  unfoldable pub first_error : List (Parent C) → Result (Unit {0})
  unfolding not_suppressed
  first_error [] = ok tt
  first_error (p ∷ ps) = not_suppressed (start backend p).0

  start_next-raise :
      (e : Error) (p : Parent C) (ps : List (Parent C)) (rest : Result (Unit {0}) × List (Parent C))
      → start_next backend (raise e, p) ps rest ≡ (not_suppressed (raise e), p ∷ ps)
  unfolding start_next not_suppressed
  start_next-raise assertion_error p ps rest = refl
  start_next-raise _ p ps rest = refl

  -- `ProcessList.start` starts the processes up to the first that cannot be started, and leaves that
  -- one and all after it as they are, also those that could be started. It raises the exception of that
  -- one, unless it is an AssertionError.
  pub start_all_lem :
      (ps : List (Parent C))
      → let n = before_error (start backend) ps in
        start_all backend ps
        ≡ (first_error (drop n ps), map (λ p. (start backend p).1) (take n ps) ++ drop n ps)
  unfolding start_all before_error first_error start_next start started
  start_all_lem [] = refl
  start_all_lem (p ∷ ps) = elim (Result-cases (backend.start_child p.child)) [
    | inl (c, e) ↦
        let n = before_error (start backend) ps in
        let s : start backend p ≡ (ok (backend.pid c), record p { child = c }) = rw e in
        let b : before_error (start backend) (p ∷ ps) ≡ suc n = rw (before_error, s) in
        rw (b, s, start_all_lem ps)
    | inr (x, e) ↦
        let s : start backend p ≡ (raise x, p) = rw e in
        let b : before_error (start backend) (p ∷ ps) ≡ 0 = rw (before_error, s) in
        rw (b, s, start_next-raise x p ps (start_all backend ps))
  ]
