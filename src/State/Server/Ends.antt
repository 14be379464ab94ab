-- ===== src/State/Server/Ends.antt =====
-- The end of the loop of `main` in zproc/server/main.py, and the ticks that it has done.

use zproc.Prelude.{
  if◌then◌else◌, Bool-cases, ◌≡◌, refl, sym, ap, ◌∙◌, subst, ◌⊎◌, inl, inr, true, false, List, [],
  ◌∷◌, ◌++◌,
}
use zproc.State.Server.{Env, StateServer}
use zproc.State.Loop.{Tick, tick, run, steps}

module _ {D M F R : Type 0} (env : Env D M F R) where
  pub run-running :
      (t : Tick D M F) (ts : List (Tick D M F)) (s : StateServer D R)
      → s.is_running ≡ true
      → run env (t ∷ ts) s ≡ run env ts (tick env t s)
  unfolding run
  run-running t ts s e = ap (λ b. if b then run env ts (tick env t s) else s) e

  run-stopped :
      (ts : List (Tick D M F)) (s : StateServer D R) → s.is_running ≡ false → run env ts s ≡ s
  unfolding run
  run-stopped [] s e = refl
  run-stopped (t ∷ ts) s e = ap (λ b. if b then run env ts (tick env t s) else s) e

  -- What is done before a run has not ended the loop if the run has not.
  pub run-start :
      (ts : List (Tick D M F)) (s : StateServer D R)
      → (run env ts s).is_running ≡ true
      → s.is_running ≡ true
  run-start ts s running = elim (Bool-cases s.is_running) [
    | inl e ↦ e
    | inr e ↦ sym (ap (λ s'. s'.is_running) (run-stopped ts s e)) ∙ running
  ]

  -- The loop has done all its ticks if it has not ended.
  pub run-steps :
      (ts : List (Tick D M F)) (s : StateServer D R)
      → (run env ts s).is_running ≡ true
      → run env ts s ≡ steps env ts s
  unfolding run steps
  run-steps [] s running = refl
  run-steps (t ∷ ts) s running =
      let same = run-running t ts s (run-start (t ∷ ts) s running) in
      same ∙ run-steps ts (tick env t s) (sym (ap (λ s'. s'.is_running) same) ∙ running)

  pub run-append :
      (ts ts' : List (Tick D M F)) (s : StateServer D R)
      → run env (ts ++ ts') s ≡ run env ts' (run env ts s)
  unfolding run
  run-append [] ts' s = refl
  run-append (t ∷ ts) ts' s = elim (Bool-cases s.is_running) [
    | inl e ↦
        run-running t (ts ++ ts') s e
        ∙ (run-append ts ts' (tick env t s) ∙ ap (run env ts') (sym (run-running t ts s e)))
    | inr e ↦
        run-stopped (t ∷ ts ++ ts') s e
        ∙ (sym (run-stopped ts' s e) ∙ ap (run env ts') (sym (run-stopped (t ∷ ts) s e)))
  ]

  pub run-before :
      (ts ts' : List (Tick D M F)) (s : StateServer D R)
      → (run env (ts ++ ts') s).is_running ≡ true
      → (run env ts s).is_running ≡ true
  run-before ts ts' s running =
      run-start ts' (run env ts s) (ap (λ s'. s'.is_running) (sym (run-append ts ts' s)) ∙ running)

  pub steps-append :
      (ts ts' : List (Tick D M F)) (s : StateServer D R)
      → steps env (ts ++ ts') s ≡ steps env ts' (steps env ts s)
  unfolding steps
  steps-append [] ts' s = refl
  steps-append (t ∷ ts) ts' s = steps-append ts ts' (tick env t s)

  -- The ticks that a run has done, and those that it has left because the loop has ended.
  abbrev pub Split : List (Tick D M F) → StateServer D R → Type 0
  Split ts s =
      (read left : List (Tick D M F)) × ((ts ≡ read ++ left)
        × ((run env ts s ≡ steps env read s) × ((left ≡ []) ⊎ ((run env ts s).is_running ≡ false))))

  pub run-Split : (ts : List (Tick D M F)) (s : StateServer D R) → Split ts s
  unfolding run steps
  run-Split [] s = ([], [], (refl, (refl, inl refl)))
  run-Split (t ∷ ts) s = elim (Bool-cases s.is_running) [
    | inl e ↦
        let (read, left, (all, (same, end))) = run-Split ts (tick env t s) in
        let step = run-running t ts s e in
        (
          t ∷ read,
          left,
          (
            ap (λ us. t ∷ us) all,
            (step ∙ same, subst (λ s'. (left ≡ []) ⊎ (s'.is_running ≡ false)) (sym step) end),
          ),
        )
    | inr e ↦
        let stay = run-stopped (t ∷ ts) s e in
        ([], t ∷ ts, (refl, (stay, inr (ap (λ s'. s'.is_running) stay ∙ e))))
  ]
