-- ===== src/State/Client/Ping.antt =====
-- `ping` of zproc/server/tools.py.

use zproc.Prelude.{
  if◌then◌else◌, length, drop, drop-append, assertion_error, type_error, timeout_error, zmq_again,
  Result, ok, raise, Bytes, bytes_eq, bytes_eq_iff, ℕ, ◌≡◌, refl, ap, ◌∙◌, true, Option, none, some,
  [], ◌∷◌,
}
use zproc.State.Server.{Env, ping, query, Reply, pong, remote_exception, StateServer}
use zproc.State.Handlers.{
  can_pickle, reply, visit, handle_query, dispatch, reply_exception, serve_request,
}
use zproc.State.Client.{
  Recv, arrives, fails, Received, got, raised, blocked, recv, replies_to, serve_if_running,
}
use zproc.State.Client.Calls.{serve_if_running-running}

module _ {D M F R : Type 0} (env : Env D M F R) where
  -- The answer to a ping with this payload, by a server with this pid. `none` is a client that waits on.
  unfoldable pub check_payload : ℕ → Bytes → Received (Reply D R) → Option (Result ℕ)
  check_payload pid sent (got (pong payload)) =
      some (if bytes_eq payload sent then ok pid else raise assertion_error)
  check_payload pid sent (got (remote_exception e)) = some (raise e)
  check_payload pid sent (got r) = some (raise type_error)
  check_payload pid sent (raised zmq_again) = some (raise timeout_error)
  check_payload pid sent (raised e) = some (raise e)
  check_payload pid sent blocked = none

  -- A ping, with what the `recv` of its socket does.
  unfoldable pub ping_server :
      ℕ → Bytes → ℕ → Bytes → Recv → StateServer D R → Option (Result ℕ) × StateServer D R
  unfolding serve_if_running replies_to recv check_payload
  ping_server pid ident stamp payload how s =
      let s' = serve_if_running env ident stamp (query none (ping payload)) s in
      (
        recv how (replies_to env ident (drop (length s.replies) s'.replies))
            (λ r rest. check_payload pid payload r),
        s',
      )

  -- A ping that is read in time gives the pid of the server, and one that is not raises a TimeoutError.
  -- Either way the dicts, the history and the watchers of the server stay as they are.
  pub ping_server_lem :
      (pid stamp : ℕ) (ident payload : Bytes) (s : StateServer D R)
      → s.is_running ≡ true
      → ((ping_server pid ident stamp payload arrives s).0 ≡ some (ok pid))
        × (((ping_server pid ident stamp payload (fails zmq_again) s).0
              ≡ some (raise timeout_error))
            × ((how : Recv)
                → let s' = (ping_server pid ident stamp payload how s).1 in
                  (s'.dicts ≡ s.dicts)
                  × ((s'.state_map ≡ s.state_map)
                      × ((s'.history ≡ s.history) × (s'.pending ≡ s.pending)))))
  unfolding ping_server serve_request dispatch handle_query visit reply reply_exception replies_to
      recv check_payload can_pickle
  ping_server_lem pid stamp ident payload s running =
      let mine : bytes_eq ident ident ≡ true = (bytes_eq_iff ident ident).1 refl in
      let sent : bytes_eq payload payload ≡ true = (bytes_eq_iff payload payload).1 refl in
      let same = serve_if_running-running env ident stamp (query none (ping payload)) s running in
      let reply =
        ap (λ s'. replies_to env ident (drop (length s.replies) s'.replies)) same
        ∙ ap (replies_to env ident)
            (drop-append (length s.replies) s.replies ((ident, pong payload) ∷ []) refl) in
      (
        ap (λ rs. recv arrives rs (λ r rest. check_payload pid payload r)) reply ∙ rw (mine, sent),
        (
          refl,
          λ how. (
            ap (λ s'. s'.dicts) same,
            (
              ap (λ s'. s'.state_map) same,
              (ap (λ s'. s'.history) same, ap (λ s'. s'.pending) same),
            ),
          ),
        ),
      )
