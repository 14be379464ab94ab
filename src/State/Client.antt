-- ===== src/State/Client.antt =====
-- The client's side of a request: `strict_request_reply` of zproc/util.py, `State._s_request_reply` and
-- the methods of `State` in zproc/state/state.py and zproc/state/_type.py, and `loads` of
-- zproc/serializer.py, which raises the exception in a reply.
pub mod Order
pub mod Calls
pub mod Ping
pub mod Namespaces
pub mod Named
pub mod Views
use zproc.Prelude.{
  if◌then◌else◌, length, drop, Error, zmq_again, Result, ok, raise, Bytes, bytes_eq, ℕ, Option,
  none, some, List, [], ◌∷◌, ◌++◌,
}
use zproc.State.Server.{
  Env, Command, run_fn_atomically, run_dict_method, get_state, set_state, Request, on_state, Reply,
  remote_exception, StateServer,
}
use zproc.State.Handlers.{serve_request}

-- How a `recv` ends: with the next reply, or by an exception before it comes (zmq's Again after the
-- timeout of the socket, or any other).
pub data Recv : Type 0 where
  arrives : Recv
  fails : Error → Recv

pub data Received (A : Type 0) : Type 0 where
  got : A → Received A
  raised : Error → Received A
  -- nothing to read, and no timeout
  blocked : Received A

-- The replies on their way to the client are a queue.
unfoldable pub recv {ℓ} : {A : Type 0} {B : Type ℓ} → Recv → List A → (Received A → List A → B) → B
recv arrives (r ∷ q) k = k (got r) q
recv arrives [] k = k blocked []
recv (fails e) q k = k (raised e) q

-- `with suppress(zmq.error.Again): recv()`, and `raise` of the exception before.
unfoldable pub second_recv : {A : Type 0} → Error → Received A → List A → Received A × List A
second_recv e (got r) q = (raised e, q)
second_recv e (raised zmq_again) q = (raised e, q)
second_recv e (raised e') q = (raised e', q)
second_recv e blocked q = (blocked, q)

unfoldable pub first_recv : {A : Type 0} → Recv → Received A → List A → Received A × List A
unfolding recv second_recv
first_recv second (got r) q = (got r, q)
first_recv second (raised e) q = recv second q (second_recv e)
first_recv second blocked q = (blocked, q)

-- One call: whether `send` raises, the answer that the message brings about, how `recv` ends, and how it
-- ends if it is called again.
pub record Exchange (A : Type 0) : Type 0 where
  pub send_error : Option Error
  pub answer : A
  pub first : Recv
  pub second : Recv

module _ {A : Type 0} where
  unfoldable pub strict_request_reply : Exchange A → List A → Received A × List A
  unfolding recv first_recv
  strict_request_reply x q = elim x.send_error [
    | some e ↦ (raised e, q)
    | none ↦ recv x.first (q ++ x.answer ∷ []) (first_recv x.second)
  ]

  -- The calls of a client, one after the other.
  unfoldable pub exchanges : List (Exchange A) → List A → List (Received A) × List A
  unfolding strict_request_reply
  exchanges [] q = ([], q)
  exchanges (x ∷ xs) q =
      let r = strict_request_reply x q in let rest = exchanges xs r.1 in (r.0 ∷ rest.0, rest.1)

module _ {D M F R : Type 0} (env : Env D M F R) where
  -- `serializer.loads` on a reply
  unfoldable pub loads_reply : Reply D R → Result (Reply D R)
  loads_reply (remote_exception e) = raise e
  loads_reply r = ok r

  unfoldable pub replies_to : Bytes → List (Bytes × Reply D R) → List (Reply D R)
  replies_to ident [] = []
  replies_to ident ((j, r) ∷ rs) =
      let rest = replies_to ident rs in if bytes_eq j ident then r ∷ rest else rest

  unfoldable pub loads_first : List (Reply D R) → Option (Result (Reply D R))
  unfolding loads_reply
  loads_first [] = none
  loads_first (r ∷ rs) = some (loads_reply r)

  -- A server that has left its loop does not read the request.
  unfoldable pub serve_if_running : Bytes → ℕ → Request D M F → StateServer D R → StateServer D R
  unfolding serve_request
  serve_if_running ident stamp r s =
      let s' = serve_request env ident stamp r s in if s.is_running then s' else s

  -- `_s_request_reply`: the request is served, and the first reply to it comes back. `none` is a
  -- client that waits on.
  unfoldable pub s_request_reply :
      Bytes
      → ℕ
      → Bytes
      → Command D M F
      → StateServer D R
      → Option (Result (Reply D R)) × StateServer D R
  unfolding serve_if_running loads_first replies_to
  s_request_reply ident stamp namespace command s =
      let s' = serve_if_running ident stamp (on_state namespace command) s in
      (loads_first (replies_to ident (drop (length s.replies) s'.replies)), s')

  -- `set`
  unfoldable pub set :
      Bytes → ℕ → Bytes → D → StateServer D R → Option (Result (Reply D R)) × StateServer D R
  unfolding s_request_reply
  set ident stamp namespace value = s_request_reply ident stamp namespace (set_state value)

  -- `copy`
  unfoldable pub copy :
      Bytes → ℕ → Bytes → StateServer D R → Option (Result (Reply D R)) × StateServer D R
  unfolding s_request_reply
  copy ident stamp namespace = s_request_reply ident stamp namespace get_state

  -- The methods that `_create_remote_dict_method` makes
  unfoldable pub remote_method :
      M → Bytes → ℕ → Bytes → StateServer D R → Option (Result (Reply D R)) × StateServer D R
  unfolding s_request_reply
  remote_method method ident stamp namespace =
      s_request_reply ident stamp namespace (run_dict_method method)

  -- What `atomic(fn)` calls, with `fn` pickled
  unfoldable pub atomic :
      F → Bytes → ℕ → Bytes → StateServer D R → Option (Result (Reply D R)) × StateServer D R
  unfolding s_request_reply
  atomic fn ident stamp namespace = s_request_reply ident stamp namespace (run_fn_atomically fn)
