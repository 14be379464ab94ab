-- ===== src/State/Client/Named.antt =====
-- The `State` objects that a program can get hold of: the empty namespace is for the server alone.

use zproc.Prelude.{
  Bool-cases, Result, ok, raise, Bytes, bytes_eq, bytes_eq_iff, ℕ, ◌≡◌, refl, sym, ap, ◌∙◌, ◌≢◌,
  inl, inr, Option, none, some, [], ◌∷◌, arith,
}
use zproc.State.Client.Namespaces.{
  State, or_own, set_namespace, new_state, fork, after_update, update_state, create_state,
}
use zproc.State.Server.{Env, Command, on_state, Reply, StateServer}
use zproc.State.Client.{remote_method}
use zproc.State.Server.Contract.{IsValid, view}
use zproc.State.Server.Atomic.{serve_request_atomic}
use zproc.State.Handlers.{reply, serve_request}

-- Made by the constructor, by `fork` or the `namespace` setter of another one, or by `create_state`.
pub data Made {D M F R : Type 0} (env : Env D M F R) (update_with : D → M) : State → Type 0 where
  constructed :
      (server_address namespace : Bytes) (state : State)
      → new_state server_address namespace ≡ ok state
      → Made env update_with state
  forked :
      (from : State) (server_address namespace : Option Bytes) (state : State)
      → Made env update_with from
      → fork from server_address namespace ≡ ok state
      → Made env update_with state
  renamed :
      (from : State) (namespace : Bytes) (state : State)
      → Made env update_with from
      → set_namespace namespace from ≡ ok state
      → Made env update_with state
  created :
      (ident : Bytes) (stamp : ℕ) (server_address own : Bytes) (value : Option D)
      (namespace : Option Bytes) (s : StateServer D R) (state : State)
      → (create_state env update_with ident stamp server_address own value namespace s).0
        ≡ some (ok state)
      → Made env update_with state

set_namespace-ok :
    (namespace : Bytes) (from state : State)
    → set_namespace namespace from ≡ ok state
    → (state.namespace ≡ namespace)
      × (namespace ≢ [])
      × (state.server_address ≡ from.server_address)
unfolding set_namespace
set_namespace-ok [] from state h = absurd (ground (arith, h))
set_namespace-ok (x ∷ xs) from state h =
    let e : record from { namespace = x ∷ xs } ≡ state = ground (arith, h) in
    (
      sym (ap (λ s. s.namespace) e),
      (λ same. ground (arith, same)),
      sym (ap (λ s. s.server_address) e),
    )

new_state-ok :
    (server_address namespace : Bytes) (state : State)
    → new_state server_address namespace ≡ ok state
    → state.namespace ≢ []
unfolding new_state
new_state-ok server_address namespace state h =
    let (same, some_name, address) = set_namespace-ok namespace _ state h in
    λ e. some_name (sym same ∙ e)

module _ {D M F R : Type 0} (env : Env D M F R) (update_with : D → M) where
  after_update-ok :
      (made state : State) (o : Option (Result (Reply D R))) (s : StateServer D R)
      → (after_update env update_with made (o, s)).0 ≡ some (ok state)
      → made ≡ state
  unfolding after_update
  after_update-ok made state none s h = ground (arith, h)
  after_update-ok made state (some (raise e)) s h = ground (arith, h)
  after_update-ok made state (some (ok r)) s h = ground (arith, h)

  update_state-ok :
      (ident : Bytes) (stamp : ℕ) (value : Option D) (made : Result State) (s : StateServer D R)
      (state : State)
      → (update_state env update_with ident stamp value made s).0 ≡ some (ok state)
      → made ≡ ok state
  unfolding update_state
  update_state-ok ident stamp value (raise e) s state h = ground (arith, h)
  update_state-ok ident stamp none (ok made) s state h = ground (arith, h)
  update_state-ok ident stamp (some value) (ok made) s state h =
      let (reply, s') = remote_method env (update_with value) ident stamp made.namespace s in
      ap ok (after_update-ok made state reply s' h)

  Made-namespace : (state : State) → Made env update_with state → state.namespace ≢ []
  Made-namespace state (constructed server_address namespace _ h) =
      new_state-ok server_address namespace state h
  Made-namespace state (forked from server_address namespace _ made h) =
      new_state-ok (or_own server_address from.server_address) (or_own namespace from.namespace)
        state (unfold fork in h)
  Made-namespace state (renamed from namespace _ made h) =
      let (same, some_name, address) = set_namespace-ok namespace from state h in
      λ e. some_name (sym same ∙ e)
  Made-namespace state (created ident stamp server_address own value namespace s _ h) =
      new_state-ok server_address (or_own namespace own) state
        (unfold create_state in update_state-ok ident stamp value _ s state h)

  -- The empty namespace is reserved for the framework itself: however a `State` object has come about,
  -- by its constructor, by `fork`, by the setter of `namespace` or by `create_state`, its namespace is
  -- not empty, and no request that is made with it, whatever the command, changes what the server
  -- holds for the empty namespace. Hypothesis: the server is valid.
  pub Made-view :
      (state : State) (ident : Bytes) (stamp : ℕ) (c : Command D M F) (s : StateServer D R)
      → Made env update_with state
      → IsValid s
      → (state.namespace ≢ [])
        × (view env (serve_request env ident stamp (on_state state.namespace c) s) []
            ≡ view env s [])
  Made-view state ident stamp c s made valid =
      let named = Made-namespace state made in
      let served = serve_request_atomic env ident stamp state.namespace c s valid in
      (
        named,
        served.0 [] ∙ elim (Bool-cases (bytes_eq [] state.namespace)) [
          | inl e ↦ absurd (named (sym ((bytes_eq_iff [] state.namespace).0 e)))
          | inr e ↦ rw e refl
        ],
      )
