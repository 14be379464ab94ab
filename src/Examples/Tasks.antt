-- ===== src/Examples/Tasks.antt =====
-- Tasks on concrete inputs: numbers are mapped, and added to the arguments that follow.

use zproc.Prelude.{
  ◌==◌, if◌then◌else◌, length, range, value_error, type_error, index_error, Result, ok, raise,
  ◌>>=◌, traverse, Bytes, ℕ, ◌+◌, ◌*◌, ◌≡◌, refl, false, Option, none, some, List, [], ◌∷◌, ◌++◌,
  map, arith,
}
use zproc.Task.Ids.{
  pos, negsuc, be32, TaskInfo, task_id_length, generate_task_id, deconstruct_task_id,
  encode_chunk_id, decode_chunk_id,
}
use zproc.Task.Ids.RoundTrip.{deconstruct-generate_task_id, decode-encode_chunk_id}
use zproc.Task.MapPlus.{Target, map_plus}
use zproc.Task.MapPlus.Rows.{shortest, call_at, map_plus_lem}
use zproc.Task.Chunks.{slice}
use zproc.Task.Chunks.Law.{join_all}
use zproc.Task.Result.{SequenceTaskResult, start, as_list, collect}
use zproc.Task.Result.Collect.{as_list_lem}
use zproc.Task.Result.Iterate.{collect_lem}
use zproc.Task.Swarm.{Params, shape, map_lazy}
use zproc.Task.Worker.{waiting, worker_process}
use zproc.Task.Worker.Distributed.{distributed_map}

abbrev pub nonce : Bytes
nonce = 7 ∷ 0 ∷ 255 ∷ 3 ∷ 9 ∷ []

abbrev five_in_two : TaskInfo
five_in_two = record { chunk_length = 3; total = 5; num_chunks = 2 }

deconstruct-generate_task_id_example :
    (task_id : Bytes) × (generate_task_id nonce (some five_in_two) ≡ ok task_id)
    × (length task_id ≡ task_id_length)
    × (deconstruct_task_id task_id ≡ ok (some five_in_two))
deconstruct-generate_task_id_example =
    deconstruct-generate_task_id nonce five_in_two refl (omega arith, omega arith, omega arith)

abbrev some_task_id : Bytes
some_task_id = nonce ++ (be32 3 ++ (be32 5 ++ be32 2))

decode-encode_chunk_id_example :
    (encode_chunk_id some_task_id (negsuc 0) >>= decode_chunk_id) ≡ ok (some_task_id, negsuc 0)
decode-encode_chunk_id_example = decode-encode_chunk_id some_task_id (negsuc 0) refl (omega arith)

-- The sum of the positional arguments; no argument is a TypeError.
abbrev pub sum_from : ℕ → List ℕ → ℕ
sum_from n [] = n
sum_from n (m ∷ ms) = sum_from (n + m) ms

abbrev pub add_all : Target ℕ ℕ
add_all [] kw = raise type_error
add_all (n ∷ ns) kw = ok (sum_from n ns)

abbrev pub numbers : Option (List ℕ)
numbers = some (10 ∷ 20 ∷ 30 ∷ 40 ∷ 50 ∷ [])

map_plus_example :
    map_plus add_all numbers none (some (1 ∷ [])) none none
    ≡ traverse (call_at add_all (1 ∷ []) [] numbers none none) (range (shortest numbers none none))
map_plus_example = map_plus_lem add_all numbers none (some (1 ∷ [])) none none

abbrev squares : List ℕ
squares = 0 ∷ 1 ∷ 4 ∷ 9 ∷ 16 ∷ []

abbrev chunk_of_squares : ℕ → Result (List ℕ)
chunk_of_squares i = ok (slice (i * 3) ((i + 1) * 3) squares)

as_list_example :
    (s : SequenceTaskResult ℕ) × (as_list chunk_of_squares 3 (start five_in_two)
      ≡ some (ok (map some squares), s))
as_list_example = as_list_lem five_in_two squares chunk_of_squares refl (omega arith) (λ i h. refl)

collect_example :
    collect chunk_of_squares 6 (start five_in_two)
    ≡ some (if 5 == 2 * 3 then ok (map some squares) else raise index_error)
collect_example =
    collect_lem five_in_two squares chunk_of_squares refl (omega arith) (omega arith) (λ i h. refl)

abbrev pub params : Params ℕ
params = record { mi = numbers; ma = none; a = some (1 ∷ []); mk = none; k = none }

-- A pickled function is a number.
abbrev pub pickled : ℕ
pickled = 1

abbrev pub load : ℕ → Result (Target ℕ ℕ)
load f = if f == pickled then ok add_all else raise value_error

distributed_map_example :
    let r = map_lazy 8 nonce pickled params false "default" (some 2) in
    let (answers, end) = worker_process (λ namespace. 0) load r.1 in
    (task_id : Bytes) × (r.0 ≡ ok task_id)
    × (deconstruct_task_id task_id ≡ ok (some (shape (shortest numbers none none) 2)))
    × (end ≡ waiting)
    × (map (λ (c : Bytes × Result (List ℕ)). decode_chunk_id c.0) answers
        ≡ map (λ i. ok (task_id, pos i)) (range 2))
    × (join_all (map (λ (c : Bytes × Result (List ℕ)). c.1) answers)
        ≡ map_plus add_all numbers none (some (1 ∷ [])) none none)
distributed_map_example =
    distributed_map (λ namespace. 0) load pickled add_all params "default" nonce 8 2 refl refl
      (omega arith) (omega arith) (omega arith) (omega arith)
