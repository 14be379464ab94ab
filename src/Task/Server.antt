-- ===== src/Task/Server.antt =====
-- `TaskResultServer` of zproc/task/server.py. The sockets are the events that come in and the
-- messages that a step sends; a `defaultdict` is a function. `Ident` is the type of socket
-- identities, `C` that of pickled chunk results.
pub mod Keys
pub mod Delivery
use Keys.{index_eq}
use zproc.Prelude.{
  if◌then◌else◌, Error, ok, raise, Bytes, bytes_eq, ◌&&◌, Option, none, some, List, [], ◌∷◌, ◌++◌,
}
use zproc.Task.Ids.{ℤ, decode_chunk_id}

-- What a client gets: a stored result, or a RemoteException for an error of the server.
pub data Response (C : Type 0) : Type 0 where
  result : C → Response C
  remote_exception : Error → Response C

pub record TaskResultServer (Ident C : Type 0) : Type 0 where
  pub result_store : Bytes → ℤ → Option C
  -- a deque, its left end first
  pub pending : Bytes → List Ident

pub data Event (Ident C : Type 0) : Type 0 where
  -- [ident, chunk_id] on the router
  request : Ident → Bytes → Event Ident C
  -- [chunk_id, chunk_result] on the result pull
  chunk_result : Bytes → C → Event Ident C

abbrev pub Sent : Type 0 → Type 0 → Type 0
Sent Ident C = List (Ident × Response C)

-- `self.pending[chunk_id] = q`
abbrev pub set_pending :
    {Ident : Type 0} → (Bytes → List Ident) → Bytes → List Ident → Bytes → List Ident
set_pending pending chunk_id q k = if bytes_eq k chunk_id then q else pending k

-- `self.result_store[task_id][index] = c`
abbrev pub set_result : {C : Type 0} → (Bytes → ℤ → Option C) → Bytes → ℤ → C → Bytes → ℤ → Option C
set_result store task_id index c t i =
    if bytes_eq t task_id && index_eq i index then some c else store t i

module _ {Ident C : Type 0} where
  abbrev pub start : TaskResultServer Ident C
  start = record { result_store = λ _ _. none; pending = λ _. [] }

  answer_or_wait :
      TaskResultServer Ident C → Ident → Bytes → Option C → TaskResultServer Ident C × Sent Ident C
  answer_or_wait s ident chunk_id (some c) = (s, (ident, result c) ∷ [])
  answer_or_wait s ident chunk_id none =
      (record s { pending = set_pending s.pending chunk_id (ident ∷ s.pending chunk_id) }, [])

  -- An exception in decoding goes to the client.
  unfoldable pub recv_request :
      TaskResultServer Ident C → Ident → Bytes → TaskResultServer Ident C × Sent Ident C
  unfolding answer_or_wait
  recv_request s ident chunk_id = elim (decode_chunk_id chunk_id) [
    | raise e ↦ (s, (ident, remote_exception e) ∷ [])
    | ok key ↦ answer_or_wait s ident chunk_id (s.result_store key.0 key.1)
  ]

  -- `while pending: send([pending.pop(), chunk_result])`: from the right end on.
  pub drain : List Ident → C → Sent Ident C
  drain [] c = []
  drain (ident ∷ q) c = drain q c ++ (ident, result c) ∷ []

  unfoldable pub resolve_pending :
      TaskResultServer Ident C → Bytes → C → TaskResultServer Ident C × Sent Ident C
  resolve_pending s chunk_id c =
      (record s { pending = set_pending s.pending chunk_id [] }, drain (s.pending chunk_id) c)

  -- An exception in decoding leaves the method, before anything is written; `_task_server` logs it.
  unfoldable pub recv_chunk_result :
      TaskResultServer Ident C → Bytes → C → TaskResultServer Ident C × Sent Ident C
  unfolding resolve_pending
  recv_chunk_result s chunk_id c = elim (decode_chunk_id chunk_id) [
    | raise e ↦ (s, [])
    | ok key ↦
        resolve_pending (record s { result_store = set_result s.result_store key.0 key.1 c })
          chunk_id c
  ]

  -- One message of a `tick`. The loop of `_task_server` goes on after each.
  unfoldable pub step :
      Event Ident C → TaskResultServer Ident C → TaskResultServer Ident C × Sent Ident C
  unfolding recv_request recv_chunk_result
  step (request ident chunk_id) s = recv_request s ident chunk_id
  step (chunk_result chunk_id c) s = recv_chunk_result s chunk_id c
