-- ===== src/Examples/Swarms.antt =====
-- A mapping in two chunks, whose results come in the other way round.

use zproc.Prelude.{
  length, range, struct_error, Result, ok, traverse, Bytes, bytes_eq, ℕ, ◌≡◌, refl, false, none,
  some, List, [], ◌∷◌, ◌++◌, map, arith,
}
use zproc.Examples.Tasks.{nonce, add_all, params, pickled, load}
use zproc.Examples.TaskServer.{chunk_id, other_id, chunk-IsBytes, other-IsBytes}
use zproc.Task.Ids.{pack_task_info, pack_index, generate_task_id, encode_chunk_id}
use zproc.Task.Map.{swarm_map}
use zproc.Task.Map.Served.{ask_server, IsServed, swarm_map-IsServed}
use zproc.Task.Swarm.{map_lazy, run}
use zproc.Task.Chunks.{make_chunks}
use zproc.Task.Worker.{crashed, run_task, worker_process}
use zproc.Task.MapPlus.{map_plus}
use zproc.Task.Server.{remote_exception, Event, request, chunk_result, start}
use zproc.Task.Server.Delivery.{requesters, results}
use zproc.Task.Server.Keys.{IsBytes}
use zproc.Task.Worker.Simple.{value, run_lost}
use zproc.Task.Result.{init_simple}

-- The first chunk is asked for before its result is there, the second after.
abbrev events : List (Event ℕ (Result (List ℕ)))
events =
    request 1 other_id
    ∷ chunk_result chunk_id (ok (41 ∷ 51 ∷ []))
    ∷ chunk_result other_id (ok (11 ∷ 21 ∷ 31 ∷ []))
    ∷ request 1 chunk_id
    ∷ []

served :
    (k : Bytes) (r : Result (List ℕ))
    → IsBytes k
    → results k events ≡ r ∷ []
    → requesters k events ≡ 1 ∷ []
    → IsServed events (k, r)
served k r k_bytes one once = record {
  is_bytes = k_bytes;
  one_result = one;
  client = 1;
  others = [];
  asked = once;
}

swarm_map-IsServed_example :
    swarm_map (ask_server events) 3 8 nonce pickled params false "default" (some 2)
    ≡ some (ok (map some (11 ∷ 21 ∷ 31 ∷ 41 ∷ 51 ∷ [])))
unfolding map_plus traverse worker_process run_task map_lazy encode_chunk_id pack_index
    generate_task_id pack_task_info make_chunks range bytes_eq results requesters
swarm_map-IsServed_example =
    swarm_map-IsServed (λ namespace. 0) load pickled add_all params "default" nonce 8 2 events
      (11 ∷ 21 ∷ 31 ∷ 41 ∷ 51 ∷ []) refl refl (omega arith) (omega arith) (omega arith)
      (omega arith) refl (other-IsBytes, (chunk-IsBytes, (other-IsBytes, (chunk-IsBytes, tt))))
      (
        served other_id (ok (11 ∷ 21 ∷ 31 ∷ [])) other-IsBytes refl refl,
        (served chunk_id (ok (41 ∷ 51 ∷ [])) chunk-IsBytes refl refl, tt),
      )

-- A task of `run` in front of one of a mapping.
run_lost_example :
    let (task_id, sent) = run {A = ℕ} nonce pickled (some (1 ∷ [])) none false "default" in
    (task_id ≡ ok nonce)
    × (init_simple nonce ≡ ok nonce)
    × (length sent ≡ 1)
    × (worker_process
          (λ namespace. 0)
          load
          (sent ++ (map_lazy 8 nonce pickled params false "default" (some 2)).1)
        ≡ ([], crashed))
    × (value (start {Ident = ℕ} {C = Result (List ℕ)}) 1 nonce
        ≡ ok (start, (1, remote_exception struct_error) ∷ []))
run_lost_example =
    run_lost nonce pickled (some (1 ∷ [])) none false "default" (λ namespace. 0) load
      (map_lazy 8 nonce pickled params false "default" (some 2)).1 start 1 refl
