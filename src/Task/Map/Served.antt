-- ===== src/Task/Map/Served.antt =====
-- `Swarm.map` with the task server between the workers and the result.

use zproc.Prelude.{
  length, range, All, All-map, All-range, timeout_error, Result, ok, raise, Bytes, ℕ, ◌+◌, ◌^◌, ◌<◌,
  ◌≡◌, sym, ap, ◌∙◌, subst, false, some, List, [], ◌∷◌, map, arith,
}
use zproc.Task.Ids.{ℤ, pos, task_nonce_length, decode_chunk_id}
use zproc.Task.Swarm.{Params, map_lazy}
use zproc.Task.Worker.{worker_process}
use zproc.Task.Worker.Distributed.{decode-be32, map_lengths-frames}
use zproc.Task.MapPlus.{Target, map_plus}
use zproc.Task.MapPlus.Rows.{shortest}
use zproc.Task.Map.{swarm_map}
use zproc.Task.Map.Joined.{answers-frames, swarm_map_lem}
use zproc.Task.Server.{result, remote_exception, Event, Sent, start}
use zproc.Task.Server.Keys.{IsBytes}
use zproc.Task.Server.Delivery.{chunk_id_of, answers, requesters, results, answers_lem}
use Prim.Native.String.{String}

-- The first of the messages that the server sends for a chunk id, as the client reads it.
unfoldable pub first_answer : {Ident R : Type 0} → Sent Ident (Result (List R)) → Result (List R)
first_answer [] = raise timeout_error
first_answer ((ident, result c) ∷ sent) = c
first_answer ((ident, remote_exception e) ∷ sent) = raise e

-- What a client gets for a chunk id from a server with these events.
unfoldable pub ask_server :
    {Ident R : Type 0} → List (Event Ident (Result (List R))) → Bytes → Result (List R)
unfolding first_answer
ask_server es chunk_id = first_answer (answers chunk_id es start)

-- One result has come in under the chunk id, and somebody asks for it.
pub record IsServed {Ident R : Type 0} (es : List (Event Ident (Result (List R))))
    (c : Bytes × Result (List R)) : Type 0 where
  pub is_bytes : IsBytes c.0
  pub one_result : results c.0 es ≡ c.1 ∷ []
  pub client : Ident
  pub others : List Ident
  pub asked : requesters c.0 es ≡ client ∷ others

All-both :
    {X : Type 0} {P Q S : X → Type 0} (xs : List X)
    → All P xs
    → All Q xs
    → ((x : X) → P x → Q x → S x)
    → All S xs
All-both [] h h' f = tt
All-both (x ∷ xs) (h, hs) (h', hs') f = (f x h h', All-both xs hs hs' f)

ask_server-IsServed :
    {Ident R : Type 0} (es : List (Event Ident (Result (List R)))) (c : Bytes × Result (List R))
    (key : Bytes × ℤ)
    → All (λ e. IsBytes (chunk_id_of e)) es
    → decode_chunk_id c.0 ≡ ok key
    → IsServed es c
    → ask_server es c.0 ≡ c.1
unfolding ask_server first_answer
ask_server-IsServed es c key wf decoded h =
    let sent = (answers_lem c.0 key es h.is_bytes decoded wf).0 c.1 h.one_result in
    ap first_answer (sent ∙ ap (map (λ ident. (ident, result c.1))) h.asked)

module _ {F A R Ident : Type 0} (state : String → A) (loads_fn : F → Result (Target A R))
    (target : F) (fn : Target A R) (p : Params A) (namespace : String) (nonce : Bytes)
    (cpu_count n : ℕ) where
  -- `Swarm.map` gives the list that `map_plus` gives on the whole sequences, with no placeholder left:
  -- the chunks go through `map_lazy`, a worker, the task server and a `SequenceTaskResult`, in whatever
  -- order the results of the worker and the requests for them come to the task server. This is for
  -- events in which each result of the worker comes in once under its chunk id and is asked for, with
  -- ids that are bytes; for a function that loads and does not raise, no State passed, 5 bytes of
  -- nonce, at least one chunk and more elements than chunks, fewer than 2 ^ 31 chunks and 2 ^ 32
  -- elements, and fuel for one chunk more than there are.
  pub swarm_map-IsServed :
      (es : List (Event Ident (Result (List R)))) (rs : List R)
      → loads_fn target ≡ ok fn
      → length nonce ≡ task_nonce_length
      → 0 < n
      → n < 2 ^ 31
      → n < shortest p.mi p.ma p.mk
      → shortest p.mi p.ma p.mk < 2 ^ 32
      → map_plus fn p.mi p.ma p.a p.mk p.k ≡ ok rs
      → All (λ e. IsBytes (chunk_id_of e)) es
      → All
          (IsServed es)
          (worker_process state loads_fn
            (map_lazy cpu_count nonce target p false namespace (some n)).1).0
      → swarm_map (ask_server es) (n + 1) cpu_count nonce target p false namespace (some n)
        ≡ some (ok (map some rs))
  unfolding map_lazy
  swarm_map-IsServed es rs loaded five h few lt fits whole_ok wf served =
      let total = shortest p.mi p.ma p.mk in
      let (task_id, len, back, sent) =
        map_lengths-frames state loads_fn target fn loaded p namespace nonce five n h few lt fits in
      let answered =
        answers-frames state loads_fn target fn loaded p namespace nonce n task_id sent in
      let decoded : All
          (λ (c : Bytes × Result (List R)). (key : Bytes × ℤ) × (decode_chunk_id c.0 ≡ ok key))
          (worker_process state loads_fn
            (map_lazy cpu_count nonce target p false namespace (some n)).1).0 =
        subst (All _) (sym answered) (
          All-map _ _ (range n) (
            All-range _ n (λ i i_lt. (
              (task_id, pos i),
              decode-be32 state loads_fn target fn loaded p namespace task_id i len (omega arith),
            )))) in
      swarm_map_lem state loads_fn target fn p namespace nonce cpu_count n (ask_server es) rs loaded
        five h few lt fits whole_ok
        (All-both _ decoded served (λ c d s. ask_server-IsServed es c d.0 wf d.1 s))
