-- ===== src/Task/Worker/Distributed.antt =====
-- `map_lazy` and the workers together: mapping in chunks is mapping.
use zproc.Prelude.{
  length, range, All, All-range, Result, ok, Bytes, ℕ, ◌^◌, ◌<◌, ◌≡◌, refl, sym, ap, ◌∙◌, subst,
  false, some, List, [], ◌∷◌, ◌++◌, map, arith,
}
use zproc.Task.Ids.{
  pos, task_nonce_length, be32, task_id_length, generate_task_id, deconstruct_task_id,
  decode_chunk_id,
}
use zproc.Task.Ids.RoundTrip.{deconstruct-generate_task_id, decode-encode_chunk_id}
use zproc.Task.MapPlus.{Target, map_plus}
use zproc.Task.MapPlus.Rows.{shortest}
use zproc.Task.Chunks.Law.{join_all, chunk_results, map_plus_chunks}
use zproc.Task.Swarm.{
  Params, Message, min_from, lengths, chunk_length_of, shape, map_lengths, map_lazy,
}
use zproc.Task.Swarm.Distribution.{
  min_from-lengths, chunk_length_bounds, encode_chunk_id_small, frames, map_lengths_lem,
  lengths_nonempty,
}
use zproc.Task.Worker.{waiting, run_task, worker_process}
use Prim.Native.String.{String}
use mathlib.Core.List.{map-map}
use mathlib.Core.Path.{ap₂}

module _ {F A R : Type 0} (state : String → A) (loads_fn : F → Result (Target A R)) (target : F)
    (fn : Target A R) (loaded : loads_fn target ≡ ok fn) (p : Params A) (namespace : String) where
  -- A worker answers the frames of chunks one by one.
  pub worker_process-frames :
      (task_id : Bytes) (c : ℕ) (is : List ℕ)
      → worker_process state loads_fn (map (frames target p false namespace task_id c) is)
        ≡ (map (λ i. (task_id ++ be32 i, chunk_results fn p.a p.k p.mi p.ma p.mk c i)) is, waiting)
  unfolding worker_process run_task
  worker_process-frames task_id c [] = refl
  worker_process-frames task_id c (i ∷ is) = ground (arith, worker_process-frames task_id c is)

  pub decode-be32 :
      (task_id : Bytes) (i : ℕ)
      → length task_id ≡ task_id_length
      → i < 2 ^ 31
      → decode_chunk_id (task_id ++ be32 i) ≡ ok (task_id, pos i)
  decode-be32 task_id i len small =
      ground
        (arith, decode-encode_chunk_id task_id (pos i) len, encode_chunk_id_small task_id i small)

  module _ (nonce : Bytes) (five : length nonce ≡ task_nonce_length) (n : ℕ) (some_chunks : 0 < n)
      (few_chunks : n < 2 ^ 31) (longer : n < shortest p.mi p.ma p.mk)
      (fits : shortest p.mi p.ma p.mk < 2 ^ 32) where
    abbrev pub sent_frames : Bytes → Result Bytes × List (Message F A)
    sent_frames task_id = (
      ok task_id,
      map (frames target p false namespace task_id (chunk_length_of (shortest p.mi p.ma p.mk) n))
          (range n),
    )

    -- What is known of the outcome of `map_lazy` with `n` chunks.
    abbrev Outcome : Result Bytes × List (Message F A) → Type 0
    Outcome r =
        (task_id : Bytes) × (r.0 ≡ ok task_id)
        × (deconstruct_task_id task_id ≡ ok (some (shape (shortest p.mi p.ma p.mk) n)))
        × ((worker_process state loads_fn r.1).1 ≡ waiting)
        × (map (λ (c : Bytes × Result (List R)). decode_chunk_id c.0)
              (worker_process state loads_fn r.1).0
            ≡ map (λ i. ok (task_id, pos i)) (range n))
        × (join_all
              (map (λ (c : Bytes × Result (List R)). c.1) (worker_process state loads_fn r.1).0)
            ≡ map_plus fn p.mi p.ma p.a p.mk p.k)

    map-All :
        {X Y : Type 0} (f g : X → Y) (xs : List X) → All (λ x. f x ≡ g x) xs → map f xs ≡ map g xs
    map-All f g [] h = refl
    map-All f g (x ∷ xs) h = ap₂ ◌∷◌ h.0 (map-All f g xs h.1)

    frames-Outcome :
        (task_id : Bytes)
        → length task_id ≡ task_id_length
        → deconstruct_task_id task_id ≡ ok (some (shape (shortest p.mi p.ma p.mk) n))
        → Outcome (sent_frames task_id)
    frames-Outcome task_id len shape_back =
        let c = chunk_length_of (shortest p.mi p.ma p.mk) n in
        (
          task_id,
          refl,
          shape_back,
          rw (worker_process-frames task_id c (range n)),
          rw (worker_process-frames task_id c (range n), map-map)
              (map-All _ _ (range n)
                (All-range _ n (λ i h. decode-be32 task_id i len (omega arith)))),
          rw (worker_process-frames task_id c (range n), map-map)
              (map_plus_chunks fn p.a p.k n c p.mi p.ma p.mk
                (chunk_length_bounds (shortest p.mi p.ma p.mk) n some_chunks longer).0),
        )

    -- What `map_lazy` sends: the frames of each chunk, under a task id that gives the shape back.
    made-frames :
        (m : ℕ) (ms : List ℕ) (task_id : Bytes)
        → lengths p ≡ m ∷ ms
        → generate_task_id nonce (some (shape (shortest p.mi p.ma p.mk) n)) ≡ ok task_id
        → map_lengths nonce target p false namespace n (lengths p) ≡ sent_frames task_id
    made-frames m ms task_id given_lengths made =
        let total_eq = min_from-lengths p m ms given_lengths in
        let made' : generate_task_id nonce (some (shape (min_from m ms) n)) ≡ ok task_id =
          ap (λ t. generate_task_id nonce (some (shape t n))) total_eq ∙ made in
        ap (map_lengths nonce target p false namespace n) given_lengths
        ∙ map_lengths_lem target p false namespace nonce n m ms task_id some_chunks few_chunks
            (omega arith) made'
        ∙ ap
            (λ t. (
              ok task_id,
              map (frames target p false namespace task_id (chunk_length_of t n)) (range n),
            ))
            total_eq

    pub map_lengths-frames :
        (task_id : Bytes) × (length task_id ≡ task_id_length)
        × (deconstruct_task_id task_id ≡ ok (some (shape (shortest p.mi p.ma p.mk) n)))
        × (map_lengths nonce target p false namespace n (lengths p) ≡ sent_frames task_id)
    map_lengths-frames =
        let (m, ms, given_lengths) = lengths_nonempty p (omega arith) in
        let bounds = chunk_length_bounds (shortest p.mi p.ma p.mk) n some_chunks longer in
        let (task_id, made, len, back) =
          deconstruct-generate_task_id nonce (shape (shortest p.mi p.ma p.mk) n) five
            (omega arith, omega arith, omega arith) in
        (task_id, len, back, made-frames m ms task_id given_lengths made)

    map_lengths-Outcome : Outcome (map_lengths nonce target p false namespace n (lengths p))
    map_lengths-Outcome =
        let (task_id, len, back, sent) = map_lengths-frames in
        subst Outcome (sym sent) (frames-Outcome task_id len back)

-- `map_lazy`, with at least one chunk and more elements than chunks, returns a task id. It is 17
-- bytes that give the shape of the task back. A worker that gets what was sent answers every chunk
-- and goes on waiting; the chunk ids of its answers decode to that task id and the indices from 0
-- on, in order; and the answers joined in that order are what `map_plus` returns, or raises, on the
-- whole sequences. This is for a function that loads, no State passed, 5 bytes of nonce, fewer than
-- 2 ^ 31 chunks and 2 ^ 32 elements.
pub distributed_map :
    {F A R : Type 0} (state : String → A) (loads_fn : F → Result (Target A R)) (target : F)
    (fn : Target A R) (p : Params A) (namespace : String) (nonce : Bytes) (cpu_count n : ℕ)
    → loads_fn target ≡ ok fn
    → length nonce ≡ task_nonce_length
    → 0 < n
    → n < 2 ^ 31
    → n < shortest p.mi p.ma p.mk
    → shortest p.mi p.ma p.mk < 2 ^ 32
    → let r = map_lazy cpu_count nonce target p false namespace (some n) in
      let (answers, end) = worker_process state loads_fn r.1 in
      (task_id : Bytes) × (r.0 ≡ ok task_id)
      × (deconstruct_task_id task_id ≡ ok (some (shape (shortest p.mi p.ma p.mk) n)))
      × (end ≡ waiting)
      × (map (λ (c : Bytes × Result (List R)). decode_chunk_id c.0) answers
          ≡ map (λ i. ok (task_id, pos i)) (range n))
      × (join_all (map (λ (c : Bytes × Result (List R)). c.1) answers)
          ≡ map_plus fn p.mi p.ma p.a p.mk p.k)
unfolding map_lazy
distributed_map state loads_fn target fn p namespace nonce cpu_count n loaded five h few lt fits =
    map_lengths-Outcome state loads_fn target fn loaded p namespace nonce five n h few lt fits
