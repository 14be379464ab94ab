-- ===== src/Task/Worker/Simple.antt =====
-- A task of `Swarm.run` on its way: the task id, the worker that finds its message, and
-- `SimpleTaskResult.value` of zproc/task/result.py, with the task server.
use zproc.Prelude.{
  length, Error, struct_error, Result, ok, raise, ◌>>=◌, Bytes, ◌≡◌, refl, ap, Bool, Option, List,
  [], ◌∷◌, ◌++◌,
}
use zproc.Task.Ids.{
  ℤ, negsuc, task_nonce_length, pack_index, deconstruct_task_id, encode_chunk_id, decode_chunk_id,
}
use zproc.Task.Ids.RoundTrip.{decode-encode_simple}
use zproc.Task.Swarm.{Message, run}
use zproc.Task.MapPlus.{Kwargs, Target}
use zproc.Task.Worker.{crashed, worker_process}
use zproc.Task.Server.{remote_exception, TaskResultServer, Sent, recv_request}
use zproc.Task.Result.{init_simple}
use Prim.Native.String.{String}

-- `_get_chunk`: the request for a chunk as the task server takes it, and what it sends.
unfoldable pub get_chunk :
    {Ident C : Type 0}
    → TaskResultServer Ident C
    → Ident
    → Bytes
    → ℤ
    → Result (TaskResultServer Ident C × Sent Ident C)
unfolding recv_request
get_chunk s ident task_id index = do
  chunk_id ← encode_chunk_id task_id index
  ok (recv_request s ident chunk_id)

-- `value`
unfoldable pub value :
    {Ident C : Type 0}
    → TaskResultServer Ident C
    → Ident
    → Bytes
    → Result (TaskResultServer Ident C × Sent Ident C)
unfolding get_chunk
value s ident task_id = get_chunk s ident task_id (negsuc 0)

-- An answer to a request that cannot be decoded.
undecoded :
    {Ident C : Type 0} (s : TaskResultServer Ident C) (ident : Ident) (k : Bytes) (e : Error)
    → decode_chunk_id k ≡ raise e
    → recv_request s ident k ≡ (s, (ident, remote_exception e) ∷ [])
unfolding recv_request
undecoded s ident k e h = rw (recv_request, h) refl

-- `Swarm.run` pushes one message, gives the task id, and from that a `SimpleTaskResult` is made. But
-- whatever the function, its arguments, the state of the task server and the messages that follow: the
-- worker that finds the message leaves its loop by a crash, without a result and without a look at what
-- follows, and the client that asks for the value gets a struct.error of the task server, on which the
-- request leaves no mark.
pub run_lost :
    {F A R Ident C : Type 0} (nonce : Bytes) (target : F) (args : Option (List A))
    (kwargs : Option (Kwargs A)) (pass_state : Bool) (namespace : String) (state : String → A)
    (loads_fn : F → Result (Target A R)) (rest : List (Message F A)) (s : TaskResultServer Ident C)
    (ident : Ident)
    → length nonce ≡ task_nonce_length
    → let (task_id, sent) = run nonce target args kwargs pass_state namespace in
      (task_id ≡ ok nonce)
      × (init_simple nonce ≡ ok nonce)
      × (length sent ≡ 1)
      × (worker_process state loads_fn (sent ++ rest) ≡ ([], crashed))
      × (value s ident nonce ≡ ok (s, (ident, remote_exception struct_error) ∷ []))
unfolding run worker_process value get_chunk init_simple deconstruct_task_id encode_chunk_id
    pack_index
run_lost nonce target args kwargs pass_state namespace state loads_fn rest s ident five = (
  refl,
  rw five refl,
  refl,
  refl,
  ap ok (undecoded s ident _ struct_error (decode-encode_simple nonce (negsuc 0) five).1),
)
