-- ===== src/Task/Map/Joined.antt =====
-- `Swarm.map` gives what mapping over the whole gives.
use zproc.Prelude.{
  length, range, All, Result, ok, ◌>>=◌, Bytes, ℕ, zero, suc, ◌+◌, ◌*◌, ◌^◌, ◌<◌, ◌≡◌, ap, ◌∙◌,
  subst, false, Option, some, List, ◌++◌, map, arith,
}
use zproc.Task.Ids.{task_nonce_length, be32}
use zproc.Task.Result.{SequenceTaskResult, start, or_value_error, init, as_list}
use zproc.Task.Swarm.{Params, lengths, chunk_length_of, shape, map_lengths, map_lazy}
use zproc.Task.Worker.{worker_process}
use zproc.Task.Worker.Distributed.{worker_process-frames, map_lengths-frames}
use zproc.Task.MapPlus.{Target, map_plus}
use zproc.Task.MapPlus.Rows.{shortest}
use zproc.Task.Map.{get_chunk, as_list_of, read_all, swarm_map}
use zproc.Task.Result.Collect.{as_list_lem}
use zproc.Task.Swarm.Distribution.{chunk_length_bounds, encode_chunk_id_small, frames}
use zproc.Task.Chunks.{slice}
use zproc.Task.Chunks.Law.{chunk_results}
use zproc.Task.Chunks.Slices.{length-whole, chunk_results-slice}
use Prim.Native.String.{String}
use mathlib.Core.List.{map-map}

All-at :
    {B : Type 0} (P : B → Type 0) (f : ℕ → B) (n : ℕ)
    → All P (map f (range n))
    → (i : ℕ) → i < n
    → P (f i)
unfolding range
All-at P f zero h i lt = absurd (omega arith)
All-at P f (suc n) h zero lt = h.0
All-at P f (suc n) h (suc i) lt =
    All-at P (λ j. f (suc j)) n (subst (All P) (map-map f suc (range n)) h.1) i (omega arith)

as_list_of-read :
    {R : Type 0} (ask : Bytes → Result (List R)) (fuel : ℕ) (task_id : Bytes)
    (s s' : SequenceTaskResult R) (r : Result (List (Option R)))
    → as_list (get_chunk ask task_id) fuel s ≡ some (r, s')
    → as_list_of ask fuel task_id (ok s) ≡ some r
unfolding as_list_of
as_list_of-read ask fuel task_id s s' r e = rw (as_list_of, e)

-- What a worker answers to the frames that `map_lazy` sends.
pub answers-frames :
    {F A R : Type 0} (state : String → A) (loads_fn : F → Result (Target A R)) (target : F)
    (fn : Target A R) (loaded : loads_fn target ≡ ok fn) (p : Params A) (namespace : String)
    (nonce : Bytes) (n : ℕ) (task_id : Bytes)
    → let c = chunk_length_of (shortest p.mi p.ma p.mk) n in
      map_lengths nonce target p false namespace n (lengths p)
        ≡ (ok task_id, map (frames target p false namespace task_id c) (range n))
      → (worker_process state loads_fn
          (map_lengths nonce target p false namespace n (lengths p)).1).0
        ≡ map (λ i. (task_id ++ be32 i, chunk_results fn p.a p.k p.mi p.ma p.mk c i)) (range n)
answers-frames state loads_fn target fn loaded p namespace nonce n task_id sent =
    ap (λ x. (worker_process state loads_fn x.1).0) sent
    ∙ ap (λ x. x.0)
        (worker_process-frames state loads_fn target fn loaded p namespace task_id
          (chunk_length_of (shortest p.mi p.ma p.mk) n) (range n))

module _ {F A R : Type 0} (state : String → A) (loads_fn : F → Result (Target A R)) (target : F)
    (fn : Target A R) (p : Params A) (namespace : String) (nonce : Bytes) (cpu_count n : ℕ) where
  -- `Swarm.map` gives the list that `map_plus` gives on the whole sequences, with no placeholder left:
  -- the chunks go through `map_lazy`, a worker and the task server, which answers each chunk id with
  -- the result that the worker has sent under it. This is for a function that loads and does not raise,
  -- no State passed, 5 bytes of nonce, at least one chunk and more elements than chunks, fewer than
  -- 2 ^ 31 chunks and 2 ^ 32 elements, and fuel for one chunk more than there are.
  pub swarm_map_lem :
      (ask : Bytes → Result (List R)) (rs : List R)
      → loads_fn target ≡ ok fn
      → length nonce ≡ task_nonce_length
      → 0 < n
      → n < 2 ^ 31
      → n < shortest p.mi p.ma p.mk
      → shortest p.mi p.ma p.mk < 2 ^ 32
      → map_plus fn p.mi p.ma p.a p.mk p.k ≡ ok rs
      → All
          (λ (c : Bytes × Result (List R)). ask c.0 ≡ c.1)
          (worker_process state loads_fn
            (map_lazy cpu_count nonce target p false namespace (some n)).1).0
      → swarm_map ask (n + 1) cpu_count nonce target p false namespace (some n)
        ≡ some (ok (map some rs))
  unfolding swarm_map map_lazy read_all as_list_of get_chunk init
  swarm_map_lem ask rs loaded five h few lt fits whole_ok stored =
      let total = shortest p.mi p.ma p.mk in
      let (task_id, len, back, sent) =
        map_lengths-frames state loads_fn target fn loaded p namespace nonce five n h few lt fits in
      let c = chunk_length_of total n in
      let answered =
        answers-frames state loads_fn target fn loaded p namespace nonce n task_id sent in
      let chunk_asked : (i : ℕ)
          → i < n
          → get_chunk ask task_id i ≡ ok (slice (i * c) ((i + 1) * c) rs) =
        λ i lt. rw (encode_chunk_id_small task_id i (omega arith)) (
          All-at (λ (x : Bytes × Result (List R)). ask x.0 ≡ x.1) _ n
            (subst (All _) answered stored) i lt
          ∙ chunk_results-slice fn p.a p.k c i p.mi p.ma p.mk rs whole_ok) in
      let (s, read) =
        as_list_lem (shape total n) rs (get_chunk ask task_id)
          (length-whole fn p.a p.k p.mi p.ma p.mk rs whole_ok) (chunk_length_bounds total n h lt).0
          chunk_asked in
      ap (λ x. read_all ask (n + 1) x.0) sent
      ∙ (ap (λ o. as_list_of ask (n + 1) task_id (do info ← o; or_value_error info)) back
          ∙ as_list_of-read ask (n + 1) task_id (start (shape total n)) s (ok (map some rs)) read)
