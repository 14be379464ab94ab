-- ===== src/State/Server/RunAnswer.antt =====
-- The answer to a watcher, in a run of the server that it asks.

use zproc.Prelude.{Bytes, ℕ, ◌≡◌, refl, sym, ap, ◌∙◌, subst, Bool, true, List, [], ◌∷◌, ◌++◌}
use zproc.State.Server.{Env}
use zproc.State.Server.Watchers.{first_wanted}
use zproc.State.Server.Idents.{of_ident, waiting, answer}
use zproc.State.Server.Delivered.{At, IsServed}
use zproc.State.Server.Times.{Follows, tick-Timed, init-Timed}
use zproc.State.Server.Log.{run_log, run_history}
use zproc.State.Loop.{StateMessage, Tick, tick, run, steps, init}
use zproc.State.Server.Answered.{NoneFrom, ask_tick, watch_of, Timed-append, steps-IsServed, asking}
use zproc.State.Server.History.{IsLogged}
use zproc.State.Server.Ends.{run-steps, run-before, steps-append}

-- A watcher asks the server, when it has no other question there, and asks no other in the ticks after.
-- Then, after one such tick or more, whatever messages they have read: if the history of the namespace
-- has an update that the watcher asks for, by any request read before or after its question, it has been
-- sent exactly one update since it asked, the first such one, and is not waiting any more; otherwise it
-- has been sent nothing and is still waiting. Hypotheses: every update can be logged, that is its
-- dicts can be pickled and `==` does not raise on them; the server is still running; and the clock does
-- not go back.
pub run-answer :
    {D M F R : Type 0} (env : Env D M F R) (ts : List (Tick D M F)) (i s_ident namespace : Bytes)
    (identical_okay : Bool) (only_after : ℕ) (m : StateMessage D M F) (stamp : ℕ) (y : Tick D M F)
    (ts' : List (Tick D M F))
    → IsLogged env
    → (run env
        (ts ++ ask_tick i s_ident namespace identical_okay only_after m stamp ∷ y ∷ ts')
        (init env)).is_running
      ≡ true
    → Follows 0 (ts ++ ask_tick i s_ident namespace identical_okay only_after m stamp ∷ y ∷ ts')
    → of_ident i (run env ts (init env)).pending ≡ []
    → NoneFrom i (y ∷ ts')
    → let all_ticks =
        ts ++ ask_tick i s_ident namespace identical_okay only_after m stamp ∷ y ∷ ts' in
      let s' = run env all_ticks (init env) in
      let w = watch_of s_ident namespace identical_okay only_after in
      let o = first_wanted w (run_log env namespace all_ticks (λ ns. env.empty)) in
      (of_ident i s'.pending ≡ waiting w o)
      × (of_ident i s'.published ≡ of_ident i (run env ts (init env)).published ++ answer o)
unfolding watch_of
run-answer env ts i s_ident namespace identical_okay only_after m stamp y ts' all running follows
      nobody others =
    let x = ask_tick i s_ident namespace identical_okay only_after m stamp in
    let w = watch_of s_ident namespace identical_okay only_after in
    let s = steps env ts (init env) in
    let same_start : run env ts (init env) ≡ s =
      run-steps env ts (init env) (run-before env ts (x ∷ y ∷ ts') (init env) running) in
    let base = of_ident i s.published in
    let (t, timed, le) =
      Timed-append env all 0 ts (x ∷ y ∷ ts') (init env) (init-Timed env) follows in
    let asked =
      asking env all i s_ident namespace identical_okay only_after m stamp t s timed
        (unfold ask_tick in le.0) (sym (ap (λ s'. of_ident i s'.pending) same_start) ∙ nobody) in
    let served =
      steps-IsServed env all i w base x.stamp y ts' (tick env x s)
        (tick-Timed env all t x s timed le.0) le.1 others asked in
    let whole : run env (ts ++ x ∷ y ∷ ts') (init env) ≡ steps env (y ∷ ts') (tick env x s) =
      run-steps env (ts ++ x ∷ y ∷ ts') (init env) running
      ∙ (steps-append env ts (x ∷ y ∷ ts') (init env) ∙ (unfold steps in refl)) in
    let s' = run env (ts ++ x ∷ y ∷ ts') (init env) in
    let logged = run_history env (ts ++ x ∷ y ∷ ts') namespace all running in
    let answered = subst (IsServed i w base) (sym whole) served in
    let at_end = subst (λ us. At i w base (first_wanted w us) s') logged answered in
    (
      at_end.left,
      at_end.sent
          ∙ ap
              (λ s0.
                of_ident i s0.published
                ++ answer
                    (first_wanted w (run_log env namespace (ts ++ x ∷ y ∷ ts') (λ ns. env.empty))))
              (sym same_start),
    )
