-- ===== src/Task/Swarm/Distribution.antt =====
-- What `map_lazy` sends: the chunks, with their ids, and what the workers make of them.
use Prim.Native.String.{String}
use zproc.Prelude.{
  ◌==◌, Bool-cases, range, get_elem?-replicate, get_elem?-map, get_elem?-range, All, All-range,
  Result, ok, Bytes, ℕ, ◌+◌, ◌*◌, ◌/◌, ◌%◌, ◌^◌, ◌≤◌, ◌<◌, ◌≡◌, refl, inl, inr, Bool, Option, none,
  some, List, [], ◌∷◌, ◌++◌, map, arith,
}
use zproc.Task.Ids.{pos, be32, TaskInfo, pack_index, generate_task_id, encode_chunk_id}
use zproc.Task.MapPlus.Rows.{min_length, length?, or_zero, shortest}
use zproc.Task.Chunks.{slice, make_chunks}
use zproc.Task.Chunks.Law.{chunk, least-min}
use zproc.Task.Swarm.{
  Params, Task, Message, map_frames, get_item, given, min_from, lengths, chunk_length_of, shape,
  chunk_message, send_all, send_chunks, map_lengths,
}

pub min_from-lengths :
    {A : Type 0} (p : Params A) (n : ℕ) (ns : List ℕ)
    → lengths p ≡ n ∷ ns
    → min_from n ns ≡ shortest p.mi p.ma p.mk
min_from-lengths p n ns h = grind (arith, least-min)

pub div_part : (total n : ℕ) → total ≡ n * (total / n) + total % n
div_part total n = omega arith

quotient_bounds :
    (total n q : ℕ)
    → 0 < n
    → n < total
    → total ≡ n * q + 0
    → (total ≤ n * q) × (0 < q) × (q ≤ total)
quotient_bounds total n q h lt e = (omega arith, grind arith, grind arith)

quotient_bounds_rest :
    (total n q r : ℕ)
    → 0 < n
    → 0 < r
    → r < n
    → total ≡ n * q + r
    → (total ≤ n * (q + 1)) × (0 < q + 1) × (q + 1 ≤ total)
quotient_bounds_rest total n q r h pos_r lt e = (omega arith, omega arith, grind arith)

-- The chunks reach the end, and each is at most as long as the whole.
pub chunk_length_bounds :
    (total num_chunks : ℕ)
    → 0 < num_chunks
    → num_chunks < total
    → (total ≤ num_chunks * chunk_length_of total num_chunks)
      × (0 < chunk_length_of total num_chunks)
      × (chunk_length_of total num_chunks ≤ total)
chunk_length_bounds total num_chunks h lt = elim (Bool-cases (total % num_chunks == 0)) [
  | inl even ↦ rw even (
      quotient_bounds total num_chunks (total / num_chunks) h lt
        (ground (arith, div_part total num_chunks)))
  | inr odd ↦ rw odd (
      quotient_bounds_rest total num_chunks (total / num_chunks) (total % num_chunks) h
        (ground arith) (omega arith) (div_part total num_chunks))
]

get_item-make_chunks {ℓ} :
    {X : Type ℓ} (o : Option (List X)) (c n i : ℕ)
    → i < n
    → get_item (make_chunks o c n) i ≡ ok (chunk c i o)
unfolding make_chunks
get_item-make_chunks {X} none c n i h =
    rw (get_elem?-replicate {A = Option (List X)} n i none h, get_item)
get_item-make_chunks (some xs) c n i h = ground (
  arith,
  get_elem?-map (λ (j : ℕ). some (slice (j * c) ((j + 1) * c) xs)) (range n) i,
  get_elem?-range n i h,
)

send_all_ok :
    {F A : Type 0} (make : ℕ → Result (Message F A)) (message : ℕ → Message F A) (is : List ℕ)
    → All (λ i. make i ≡ ok (message i)) is
    → send_all make is ≡ (ok tt, map message is)
unfolding send_all
send_all_ok make message [] h = refl
send_all_ok make message (i ∷ is) h = ground (arith, h.0, send_all_ok make message is h.1)

-- The task of one chunk.
abbrev pub chunk_task : {A : Type 0} → Params A → Bool → String → ℕ → ℕ → Task A
chunk_task p pass_state namespace c i = record {
  params = record p { mi = chunk c i p.mi; ma = chunk c i p.ma; mk = chunk c i p.mk };
  pass_state = pass_state;
  namespace = namespace;
}

pub encode_chunk_id_small :
    (task_id : Bytes) (i : ℕ)
    → i < 2 ^ 31
    → encode_chunk_id task_id (pos i) ≡ ok (task_id ++ be32 i)
unfolding encode_chunk_id pack_index
encode_chunk_id_small task_id i h = ground arith

module _ {F A : Type 0} (target : F) (p : Params A) (pass_state : Bool) (namespace : String) where
  -- The frames for the chunk `i` of `c` elements.
  abbrev pub frames : Bytes → ℕ → ℕ → Message F A
  frames task_id c i = map_frames (task_id ++ be32 i) target (chunk_task p pass_state namespace c i)

  chunk_message_lem :
      (info : TaskInfo) (task_id : Bytes) (i : ℕ)
      → info.num_chunks < 2 ^ 31
      → i < info.num_chunks
      → chunk_message target p pass_state namespace info task_id i
        ≡ ok (frames task_id info.chunk_length i)
  unfolding chunk_message
  chunk_message_lem info task_id i small h = ground (
    arith,
    get_item-make_chunks p.mi info.chunk_length info.num_chunks i h,
    get_item-make_chunks p.ma info.chunk_length info.num_chunks i h,
    get_item-make_chunks p.mk info.chunk_length info.num_chunks i h,
    encode_chunk_id_small task_id i,
  )

  send_chunks_lem :
      (info : TaskInfo) (task_id : Bytes)
      → info.num_chunks < 2 ^ 31
      → send_chunks target p pass_state namespace info (ok task_id)
        ≡ (ok task_id, map (frames task_id info.chunk_length) (range info.num_chunks))
  unfolding send_chunks
  send_chunks_lem info task_id small = ground (
    arith,
    send_all_ok (chunk_message target p pass_state namespace info task_id)
        (frames task_id info.chunk_length) (range info.num_chunks)
        (All-range _ info.num_chunks (λ i h. chunk_message_lem info task_id i small h)),
  )

  pub map_lengths_lem :
      (nonce : Bytes) (num_chunks n : ℕ) (ns : List ℕ) (task_id : Bytes)
      → 0 < num_chunks
      → num_chunks < 2 ^ 31
      → num_chunks < min_from n ns
      → generate_task_id nonce (some (shape (min_from n ns) num_chunks)) ≡ ok task_id
      → map_lengths nonce target p pass_state namespace num_chunks (n ∷ ns) ≡ (
        ok task_id,
        map (frames task_id (chunk_length_of (min_from n ns) num_chunks)) (range num_chunks),
      )
  unfolding map_lengths
  map_lengths_lem nonce num_chunks n ns task_id h small lt e =
      ground (arith, send_chunks_lem (shape (min_from n ns) num_chunks) task_id)

pub lengths_nonempty :
    {A : Type 0} (p : Params A)
    → 0 < shortest p.mi p.ma p.mk
    → (n : ℕ) × (ns : List ℕ) × (lengths p ≡ n ∷ ns)
lengths_nonempty p h = go p.mi p.ma p.mk h
  where
    go :
        {X Y Z : Type 0} (mi : Option (List X)) (ma : Option (List Y)) (mk : Option (List Z))
        → 0 < or_zero (min_length (length? mi) (min_length (length? ma) (length? mk)))
        → (n : ℕ) × (ns : List ℕ) × (given mi ++ (given ma ++ given mk) ≡ n ∷ ns)
    go none none none h = absurd (omega arith)
    go none none (some mk) h = (_, _, refl)
    go none (some ma) mk h = (_, _, refl)
    go (some mi) ma mk h = (_, _, refl)
