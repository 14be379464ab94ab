-- ===== src/State/Client/Namespaces.antt =====
-- The `State` objects of a client and their namespaces: the constructor, the `namespace` setter and
-- `fork` of zproc/state/state.py, and `create_state` of zproc/context.py. Strings are the bytes of their
-- encoding.

use zproc.Prelude.{
  if◌then◌else◌, assertion_error, Result, ok, raise, Bytes, bytes_eq, ℕ, ◌≡◌, refl, ap, ◌∙◌, true,
  Option, none, some, [], ◌∷◌,
}
use zproc.State.Server.{Env, run_dict_method, Reply, StateServer}
use zproc.State.Client.{remote_method}
use zproc.State.Server.Contract.{IsValid, view, command_spec}
use zproc.State.Client.Calls.{local_call, s_request_reply_lem}
use zproc.State.Handlers.{reply}
use zproc.State.Server.Replies.{CanLog, CanSend}

pub record State : Type 0 where
  pub server_address : Bytes
  pub namespace : Bytes

abbrev pub or_own : Option Bytes → Bytes → Bytes
or_own none own = own
or_own (some given) own = given

-- `state.namespace = namespace`
unfoldable pub set_namespace : Bytes → State → Result State
set_namespace [] state = raise assertion_error
set_namespace (x ∷ xs) state = ok (record state { namespace = x ∷ xs })

-- The constructor. The sockets are left out.
unfoldable pub new_state : Bytes → Bytes → Result State
unfolding set_namespace
new_state server_address namespace =
    set_namespace namespace (record { server_address = server_address; namespace = [] })

unfoldable pub fork : State → Option Bytes → Option Bytes → Result State
unfolding new_state
fork state server_address namespace =
    new_state (or_own server_address state.server_address) (or_own namespace state.namespace)

module _ {D M F R : Type 0} (env : Env D M F R) (update_with : D → M) where
  -- `if value is not None: state.update(value)`, and `return state`. `none` is a client that waits on.
  unfoldable pub after_update :
      State
      → Option (Result (Reply D R)) × StateServer D R
      → Option (Result State) × StateServer D R
  after_update state (none, s) = (none, s)
  after_update state (some (raise e), s) = (some (raise e), s)
  after_update state (some (ok r), s) = (some (ok state), s)

  unfoldable pub update_state :
      Bytes
      → ℕ
      → Option D
      → Result State
      → StateServer D R
      → Option (Result State) × StateServer D R
  unfolding remote_method after_update
  update_state ident stamp value (raise e) s = (some (raise e), s)
  update_state ident stamp none (ok state) s = (some (ok state), s)
  update_state ident stamp (some value) (ok state) s =
      after_update state (remote_method env (update_with value) ident stamp state.namespace s)

  -- `create_state`, of a context with the given address and namespace. `ident` and `stamp` are those of
  -- the request.
  unfoldable pub create_state :
      Bytes
      → ℕ
      → Bytes
      → Bytes
      → Option D
      → Option Bytes
      → StateServer D R
      → Option (Result State) × StateServer D R
  unfolding new_state update_state
  create_state ident stamp server_address own value namespace s =
      update_state ident stamp value (new_state server_address (or_own namespace own)) s

  after_update-server :
      (state : State) (o : Option (Result (Reply D R))) (s : StateServer D R)
      → (after_update state (o, s)).1 ≡ s
  unfolding after_update
  after_update-server state none s = refl
  after_update-server state (some (raise e)) s = refl
  after_update-server state (some (ok r)) s = refl

  after_update-result :
      (state : State) (o : Option (Result (Reply D R))) (s s' : StateServer D R)
      → (after_update state (o, s)).0 ≡ (after_update state (o, s')).0
  unfolding after_update
  after_update-result state none s s' = refl
  after_update-result state (some (raise e)) s s' = refl
  after_update-result state (some (ok r)) s s' = refl

  -- A state that is created with a value, in a namespace that is not empty: the dict of the namespace on
  -- the server is what its `update` makes of it, and that of every other namespace stays. The state is
  -- given back unless `update` raises, and always with the namespace asked for. Hypotheses: the server is
  -- valid and running, its reply can be sent, and the update of the dict can be logged.
  pub create_state_lem :
      (ident : Bytes) (stamp : ℕ) (address : Bytes) (x : ℕ) (xs : Bytes) (value : D)
      (s : StateServer D R)
      → IsValid s
      → s.is_running ≡ true
      → let d = view env s (x ∷ xs) in
        let (sent, left) = command_spec env (run_dict_method (update_with value)) d in
        CanSend env sent
        → CanLog env d d
        → CanLog env d left
        → let (r, s') = create_state ident stamp address (x ∷ xs) (some value) none s in
          let (reply, d') =
            local_call env (run_dict_method (update_with value)) (view env s (x ∷ xs)) in
          (r
            ≡ (after_update (record { server_address = address; namespace = x ∷ xs }) (reply, s)).0)
          × ((ns : Bytes) → view env s' ns ≡ (if bytes_eq ns (x ∷ xs) then d' else view env s ns))
  unfolding create_state new_state update_state remote_method
  create_state_lem ident stamp address x xs value s v running sent kept logged =
      let state : State = record { server_address = address; namespace = x ∷ xs } in
      let called = remote_method env (update_with value) ident stamp (x ∷ xs) s in
      let (answered, views, valid) =
        s_request_reply_lem env ident stamp (x ∷ xs) (run_dict_method (update_with value)) s v
          running sent kept logged in
      (
        after_update-result state called.0 called.1 s
            ∙ ap (λ o. (after_update state (o, s)).0) answered,
        λ ns. ap (λ s'. view env s' ns) (after_update-server state called.0 called.1) ∙ views ns,
      )
