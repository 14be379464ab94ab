-- ===== src/State/Server/Unseen.antt =====
-- `set_state` and the watchers.

use zproc.Prelude.{
  Bool-cases, ok, Result-cases, Bytes, bytes_eq, bytes_eq_iff, ℕ, ◌≡◌, sym, ap, ◌∙◌, inl, inr, true,
  false, List, [], ◌∷◌, append-nil, ◌++◌, arith,
}
use zproc.State.Server.{Env, set_state, on_state, Update, Watch, StateServer}
use zproc.State.Handlers.{serve_request}
use zproc.State.Server.Contract.{IsValid, view}
use zproc.State.Server.Watchers.{wants, first_wanted}
use zproc.State.Server.History.{
  IsLogged, is_identical, update_of, log_from, command_log, serve_request_history,
}

module _ {D : Type 0} where
  first_wanted_snoc :
      (w : Watch) (us : List (Update D)) (u : Update D)
      → wants w u ≡ false
      → first_wanted w (us ++ u ∷ []) ≡ first_wanted w us
  unfolding first_wanted
  first_wanted_snoc w [] u h = rw h
  first_wanted_snoc w (v ∷ us) u h = rw (first_wanted_snoc w us u h)

-- `set_state` is unseen by the watchers that do not take identical updates: what they would get from
-- the history is the same after it as before, whatever the new dict is. Hypotheses: every update
-- can be logged, that is its dicts can be pickled and `==` does not raise on them; the dict of the
-- namespace is equal to its deep copy; and the server is valid.
pub set_state_unseen :
    {D M F R : Type 0} (env : Env D M F R) (ident : Bytes) (stamp : ℕ) (ns : Bytes) (new : D)
    (s : StateServer D R) (w : Watch)
    → IsLogged env
    → ((old : D) → env.deepcopy (view env s ns) ≡ ok old → env.same (view env s ns) old ≡ ok true)
    → IsValid s
    → w.identical_not_okay ≡ true
    → first_wanted w
        ((serve_request env ident stamp (on_state ns (set_state new)) s).history
          w.namespace).updates
      ≡ first_wanted w (s.history w.namespace).updates
set_state_unseen env ident stamp ns new s w all equal v strict =
    let log = serve_request_history env ident stamp ns (set_state new) s all v w.namespace in
    let us = (s.history ns).updates in
    let unseen : first_wanted w (us ++ command_log env ident stamp (set_state new) (view env s ns))
        ≡ first_wanted w us =
      unfold command_log log_from in
      elim (Result-cases (env.deepcopy (view env s ns))) [
        | inl (old, e) ↦ rw e (
            first_wanted_snoc w us (update_of env ident stamp old (view env s ns))
              (unfold wants update_of is_identical in ground (arith, strict, equal old e)))
        | inr (x, e) ↦ rw e (ap (first_wanted w) (append-nil us))
      ] in
    elim (Bool-cases (bytes_eq w.namespace ns)) [
      | inl e ↦
          let here : w.namespace ≡ ns = (bytes_eq_iff w.namespace ns).0 e in
          ap (λ slot. first_wanted w slot.updates) log
          ∙ rw e (unseen ∙ ap (λ n. first_wanted w (s.history n).updates) (sym here))
      | inr e ↦ ap (λ slot. first_wanted w slot.updates) log ∙ rw e
    ]
