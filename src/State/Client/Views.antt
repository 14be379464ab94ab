-- ===== src/State/Client/Views.antt =====
-- `keys`, `values` and `items` of `State` in zproc/state/state.py, which are those of a copy.
use zproc.Prelude.{
  Bool-cases, attribute_error, Result, ok, raise, Bytes, bytes_eq, bytes_eq_iff, ℕ, ◌≡◌, refl, sym,
  ap, ◌∙◌, inl, inr, true, Option, some,
}
use zproc.State.Client.{loads_reply, copy}
use zproc.State.Server.{Env, get_state, Reply, snapshot, StateServer}
use zproc.State.Server.Contract.{IsValid, view, command_spec}
use zproc.State.Client.Calls.{local_call, s_request_reply_lem}
use zproc.State.Server.Replies.{CanLog}
use mathlib.Core.Option

-- A method of the dict in a reply; another object has no such method.
unfoldable pub view_of : {D R X : Type 0} → (D → X) → Reply D R → Result X
view_of method (snapshot d) = ok (method d)
view_of method r = raise attribute_error

unfoldable pub view_result : {D R X : Type 0} → (D → X) → Result (Reply D R) → Result X
unfolding view_of
view_result method (raise e) = raise e
view_result method (ok r) = view_of method r

module _ {D M F R X : Type 0} (env : Env D M F R) where
  -- `method` is one of the three.
  unfoldable pub copy_view :
      (D → X) → Bytes → ℕ → Bytes → StateServer D R → Option (Result X) × StateServer D R
  unfolding copy view_result
  copy_view method ident stamp namespace s =
      let (r, s') = copy env ident stamp namespace s in (Option.map (view_result method) r, s')

  -- They give what the method gives of the dict of the namespace, and leave every dict as it was.
  -- Hypotheses: the server is valid and running, the dict can be pickled, and an update that leaves it can be
  -- logged.
  pub copy_view_lem :
      (method : D → X) (ident : Bytes) (stamp : ℕ) (ns : Bytes) (s : StateServer D R)
      → IsValid s
      → s.is_running ≡ true
      → env.picklable (view env s ns) ≡ true
      → CanLog env (view env s ns) (view env s ns)
      → let (r, s') = copy_view method ident stamp ns s in
        (r ≡ some (ok (method (view env s ns))))
        × ((ns' : Bytes) → view env s' ns' ≡ view env s ns')
  unfolding copy_view copy command_spec local_call loads_reply view_result view_of
  copy_view_lem method ident stamp ns s valid running pickles logged =
      let (answered, views, still) =
        s_request_reply_lem env ident stamp ns get_state s valid running (rw pickles tt) logged
          logged in
      (
        ap (Option.map (view_result method)) answered ∙ rw pickles refl,
        λ ns'. views ns' ∙ elim (Bool-cases (bytes_eq ns' ns)) [
          | inl e ↦ rw e (ap (view env s) (sym ((bytes_eq_iff ns' ns).0 e)))
          | inr e ↦ rw e refl
        ],
      )
