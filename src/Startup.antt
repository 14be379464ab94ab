-- ===== src/Startup.antt =====
-- How a server is started: `main` of zproc/server/main.py before its loop, `start_server` of
-- zproc/server/tools.py, `start_task_server` and `start_task_proxy` of zproc/task/server.py, and the
-- functions of zproc/util.py that bind a socket or ask for the addresses of a server. An address is the
-- bytes of its string.
pub mod Binding
use zproc.Prelude.{
  ◌==◌, if◌then◌else◌, Error, value_error, zmq_again, runtime_error, connection_error, zmq_error,
  Result, ok, raise, ◌>>=◌, Bytes, bytes_eq, ℕ, Bool, true, false, ◌&&◌, ◌||◌, Option, none, some,
  [], ◌∷◌,
}

-- What comes through a pipe: the addresses, or a RemoteException.
pub data Message (X : Type 0) : Type 0 where
  payload : X → Message X
  remote_exception : Error → Message X

-- `serializer.dumps` of what is returned, or of the RemoteException
unfoldable pub message_of : {X : Type 0} → Result X → Message X
message_of (ok x) = payload x
message_of (raise e) = remote_exception e

-- `serializer.loads`
unfoldable pub loads_message : {X : Type 0} → Message X → Result X
loads_message (payload x) = ok x
loads_message (remote_exception e) = raise e

pub record ServerMeta : Type 0 where
  pub version : Bytes
  pub state_router : Bytes
  pub watcher_router : Bytes
  pub task_router : Bytes
  pub task_result_pull : Bytes
  pub task_proxy_in : Bytes
  pub task_proxy_out : Bytes

-- What binding a socket does; the sockets are numbered. `bind` binds to an address, `ipc_address` is the
-- random address in IPC_BASE_DIR, `bind_to_random_port` gives the port and `tcp_address` writes it.
pub record Network : Type 0 where
  pub bind : ℕ → Bytes → Result (Unit {0})
  pub ipc_address : ℕ → Bytes
  pub bind_to_random_port : ℕ → Result ℕ
  pub tcp_address : ℕ → Bytes

pub data Binder : Type 0 where
  to_random_ipc to_random_tcp to_random_address : Binder

unfoldable pub starts_with : Bytes → Bytes → Bool
starts_with [] ys = true
starts_with (x ∷ xs) [] = false
starts_with (x ∷ xs) (y ∷ ys) = (x == y) && starts_with xs ys

-- `xs in ys`
unfoldable pub contains : Bytes → Bytes → Bool
unfolding starts_with
contains xs [] = starts_with xs []
contains xs (y ∷ ys) = let rest = contains xs ys in starts_with xs (y ∷ ys) || rest

-- "ipc"
abbrev pub ipc : Bytes
ipc = 105 ∷ 112 ∷ 99 ∷ []

-- `except zmq.ZMQError` of `start_server`
unfoldable pub explain : Result Bytes → Result Bytes
explain (ok address) = ok address
explain (raise (zmq_error errno)) =
    raise (
      if errno == 98
      then connection_error
      else if errno == 22
      then value_error
      else zmq_error errno)
explain (raise e) = raise e

-- `ServerMeta(...)` of `main`, from the address of the state's socket and the results of the calls that
-- give the others, in their order.
unfoldable pub after_state :
    Bytes
    → Bytes
    → Result Bytes
    → Result (Bytes × Bytes)
    → Result (Bytes × Bytes)
    → Result ServerMeta
after_state version state bind_watcher start_task start_proxy = do
  watcher ← bind_watcher
  task ← start_task
  proxy ← start_proxy
  ok (record {
    version = version;
    state_router = state;
    watcher_router = watcher;
    task_router = task.0;
    task_result_pull = task.1;
    task_proxy_in = proxy.0;
    task_proxy_out = proxy.1;
  })

module _ (net : Network) where
  unfoldable pub bind_to_random_ipc : ℕ → Result Bytes
  bind_to_random_ipc sock = do _ ← net.bind sock (net.ipc_address sock); ok (net.ipc_address sock)

  unfoldable pub bind_to_random_tcp : ℕ → Result Bytes
  bind_to_random_tcp sock = do port ← net.bind_to_random_port sock; ok (net.tcp_address port)

  -- `except zmq.error.ZMQError`, of which Again is a subclass
  unfoldable pub or_tcp : ℕ → Result Bytes → Result Bytes
  unfolding bind_to_random_tcp
  or_tcp sock (ok address) = ok address
  or_tcp sock (raise (zmq_error n)) = bind_to_random_tcp sock
  or_tcp sock (raise zmq_again) = bind_to_random_tcp sock
  or_tcp sock (raise e) = raise e

  unfoldable pub bind_to_random_address : ℕ → Result Bytes
  unfolding bind_to_random_ipc or_tcp
  bind_to_random_address sock = or_tcp sock (bind_to_random_ipc sock)

  unfoldable pub bind_with : Binder → ℕ → Result Bytes
  unfolding bind_to_random_ipc bind_to_random_tcp bind_to_random_address
  bind_with to_random_ipc = bind_to_random_ipc
  bind_with to_random_tcp = bind_to_random_tcp
  bind_with to_random_address = bind_to_random_address

  -- What `_task_server` and `_task_proxy` send before they serve: the addresses of two sockets.
  unfoldable pub two_addresses : Binder → ℕ → ℕ → Result (Bytes × Bytes)
  unfolding bind_with
  two_addresses binder first second = do
    a ← bind_with binder first
    b ← bind_with binder second
    ok (a, b)

  -- `_start_server`: the addresses come through a pipe.
  unfoldable pub start_task_server : Binder → Result (Bytes × Bytes)
  unfolding two_addresses message_of loads_message
  start_task_server binder = loads_message (message_of (two_addresses binder 2 3))

  unfoldable pub start_task_proxy : Binder → Result (Bytes × Bytes)
  unfolding two_addresses message_of loads_message
  start_task_proxy binder = loads_message (message_of (two_addresses binder 4 5))

  -- The address of the state's socket, and the binder for the other sockets. An empty address counts as
  -- none.
  unfoldable pub bind_state_router : Option Bytes → Result (Bytes × Binder)
  unfolding contains bind_with
  bind_state_router none = do a ← bind_with to_random_address 0; ok (a, to_random_address)
  bind_state_router (some []) = do a ← bind_with to_random_address 0; ok (a, to_random_address)
  bind_state_router (some (x ∷ xs)) = do
    _ ← net.bind 0 (x ∷ xs)
    ok (x ∷ xs, if contains ipc (x ∷ xs) then to_random_ipc else to_random_tcp)

  -- The `try` of `main`.
  unfoldable pub server_meta_of : Bytes → Option Bytes → Result ServerMeta
  unfolding bind_state_router start_task_server start_task_proxy after_state
  server_meta_of version server_address = do
    (state, binder) ← bind_state_router server_address
    after_state version state (bind_with binder 1) (start_task_server binder)
        (start_task_proxy binder)

  -- `start_server`: the address of the server.
  unfoldable pub start_server : Bytes → Option Bytes → Result Bytes
  unfolding explain server_meta_of message_of loads_message
  start_server version server_address = explain (do
    meta ← loads_message (message_of (server_meta_of version server_address))
    ok meta.state_router)

-- `req_server_meta`, with the reply of the server: one of another version is refused.
unfoldable pub req_server_meta : Bytes → Message ServerMeta → Result ServerMeta
unfolding loads_message
req_server_meta version reply = do
  meta ← loads_message reply
  if bytes_eq meta.version version then ok meta else raise runtime_error
