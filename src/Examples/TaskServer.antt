-- ===== src/Examples/TaskServer.antt =====
-- A task server on a concrete sequence of events.

use zproc.Prelude.{ltb, ok, Bytes, ℕ, ◌≡◌, refl, Bool, true, ◌&&◌, List, [], ◌∷◌, ◌++◌, map, arith}
use zproc.Task.Ids.{pos, be32, unpack_index, decode_chunk_id}
use zproc.Task.Server.{result, Event, request, chunk_result, start}
use zproc.Task.Server.Keys.{IsBytes}
use zproc.Task.Server.Delivery.{answers, requesters, results, answers_lem}

abbrev pub some_task_id : Bytes
some_task_id = 7 ∷ 0 ∷ 255 ∷ 3 ∷ 9 ∷ (be32 3 ++ (be32 5 ++ be32 2))

-- Two clients ask for a chunk, before and after its result comes in, and one for another chunk.
abbrev pub chunk_id : Bytes
chunk_id = some_task_id ++ be32 1

abbrev pub other_id : Bytes
other_id = some_task_id ++ be32 0

abbrev events : List (Event ℕ ℕ)
events =
    request 1 chunk_id
    ∷ request 2 other_id
    ∷ request 3 chunk_id
    ∷ chunk_result chunk_id 99
    ∷ request 4 chunk_id
    ∷ []

small : (b : Bytes) → Bool
small [] = true
small (x ∷ xs) = ltb x 256 && small xs

small-IsBytes : (b : Bytes) → small b ≡ true → IsBytes b
unfolding small
small-IsBytes [] h = tt
small-IsBytes (x ∷ xs) h = (ground (arith, h), small-IsBytes xs (ground (arith, h)))

pub chunk-IsBytes : IsBytes chunk_id
chunk-IsBytes = small-IsBytes chunk_id (unfold small in refl)

pub other-IsBytes : IsBytes other_id
other-IsBytes = small-IsBytes other_id (unfold small in refl)

decoded : decode_chunk_id chunk_id ≡ ok (some_task_id, pos 1)
unfolding decode_chunk_id unpack_index
decoded = refl

answers_example :
    ((c : ℕ)
      → results chunk_id events ≡ c ∷ []
      → answers chunk_id events start
        ≡ map (λ ident. (ident, result c)) (requesters chunk_id events))
    × (results chunk_id events ≡ [] → answers chunk_id events start ≡ [])
answers_example =
    answers_lem chunk_id (some_task_id, pos 1) events chunk-IsBytes decoded
      (chunk-IsBytes, (other-IsBytes, (chunk-IsBytes, (chunk-IsBytes, (chunk-IsBytes, tt)))))
