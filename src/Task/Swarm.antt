-- ===== src/Task/Swarm.antt =====
-- `Swarm` of zproc/task/swarm.py: what `run` and `map_lazy` send to the task proxy. Pickling a task is
-- taken to succeed, and a frame stands for the value pickled in it; `F` is the type of pickled
-- functions. The nonce of a task id and the number of CPUs are arguments.
pub mod Distribution
pub mod Lengths
use zproc.Prelude.{
  ltb, ◌==◌, if◌then◌else◌, length, get_elem?, range, assertion_error, index_error,
  zero_division_error, Result, ok, raise, ◌>>=◌, Bytes, min, ℕ, ◌+◌, ◌/◌, ◌%◌, Bool, Option, none,
  some, List, [], ◌∷◌, ◌++◌,
}
use zproc.Task.Ids.{pos, negsuc, TaskInfo, generate_task_id, encode_chunk_id}
use zproc.Task.MapPlus.{Kwargs, or_empty}
use zproc.Task.Chunks.{make_chunks}
use Prim.Native.String.{String}

-- The tuple (map_iter, map_args, args, map_kwargs, kwargs) of arguments of `map_plus`.
pub record Params (A : Type 0) : Type 0 where
  pub mi : Option (List A)
  pub ma : Option (List (List A))
  pub a : Option (List A)
  pub mk : Option (List (Kwargs A))
  pub k : Option (Kwargs A)

pub record Task (A : Type 0) : Type 0 where
  pub params : Params A
  pub pass_state : Bool
  pub namespace : String

-- The multipart messages that the workers may find: EMPTY_MULTIPART, the two frames of `run` and
-- the three frames of `map_lazy`.
pub data Message (F A : Type 0) : Type 0 where
  empty : Message F A
  run_frames : Bytes → F → Task A → Message F A
  map_frames : Bytes → F → Task A → Message F A

-- xs[i], for i not negative
abbrev pub get_item {ℓ} : {X : Type ℓ} → List X → ℕ → Result X
get_item xs i = elim (get_elem? xs i) [ none ↦ raise index_error | some x ↦ ok x ]

abbrev pub given {ℓ} : {X : Type ℓ} → Option (List X) → List ℕ
given none = []
given (some xs) = length xs ∷ []

-- min(n, *ns)
abbrev pub min_from : ℕ → List ℕ → ℕ
min_from n [] = n
min_from n (m ∷ ns) = min_from (min n m) ns

-- `lengths`: those of the sequences that are given
abbrev pub lengths : {A : Type 0} → Params A → List ℕ
lengths p = given p.mi ++ (given p.ma ++ given p.mk)

-- `chunk_length, extra = divmod(length, num_chunks)` and `if extra: chunk_length += 1`
abbrev pub chunk_length_of : ℕ → ℕ → ℕ
chunk_length_of total num_chunks =
    if total % num_chunks == 0 then total / num_chunks else total / num_chunks + 1

abbrev pub shape : ℕ → ℕ → TaskInfo
shape total num_chunks = record {
  chunk_length = chunk_length_of total num_chunks;
  total = total;
  num_chunks = num_chunks;
}

module _ {F A : Type 0} where
  -- The message for one index.
  pub chunk_message : F → Params A → Bool → String → TaskInfo → Bytes → ℕ → Result (Message F A)
  chunk_message target p pass_state namespace info task_id index = do
    mi ← get_item (make_chunks p.mi info.chunk_length info.num_chunks) index
    ma ← get_item (make_chunks p.ma info.chunk_length info.num_chunks) index
    mk ← get_item (make_chunks p.mk info.chunk_length info.num_chunks) index
    chunk_id ← encode_chunk_id task_id (pos index)
    ok (
        map_frames chunk_id target (record {
          params = record p { mi = mi; ma = ma; mk = mk };
          pass_state = pass_state;
          namespace = namespace;
        }))

  -- A loop that sends one message for each index, until one cannot be made. What has been sent
  -- stays sent.
  pub send_all : (ℕ → Result (Message F A)) → List ℕ → Result (Unit {0}) × List (Message F A)
  send_all make [] = (ok tt, [])
  send_all make (i ∷ is) = elim (make i) [
    | raise e ↦ (raise e, [])
    | ok m ↦ let (r, sent) = send_all make is in (r, m ∷ sent)
  ]

  -- The body after the assertions, for a task of the shape `info`.
  pub send_chunks :
      F → Params A → Bool → String → TaskInfo → Result Bytes → Result Bytes × List (Message F A)
  send_chunks target p pass_state namespace info (raise e) = (raise e, [])
  send_chunks target p pass_state namespace info (ok task_id) =
      let (r, sent) =
        send_all (chunk_message target p pass_state namespace info task_id)
          (range info.num_chunks) in
      (elim r [ ok _ ↦ ok task_id | raise e ↦ raise e ], sent)

  pub map_lengths :
      Bytes → F → Params A → Bool → String → ℕ → List ℕ → Result Bytes × List (Message F A)
  map_lengths nonce target p pass_state namespace num_chunks [] = (raise assertion_error, [])
  map_lengths nonce target p pass_state namespace num_chunks (n ∷ ns) =
      let total = min_from n ns in
      let info = shape total num_chunks in
      if ltb num_chunks total
      then if num_chunks == 0
        then (raise zero_division_error, [])
        else send_chunks target p pass_state namespace info (generate_task_id nonce (some info))
      else (raise assertion_error, [])

  -- The task id, or an exception, and what has been pushed. The id is all that the
  -- `SequenceTaskResult` returned is made of.
  unfoldable pub map_lazy :
      ℕ → Bytes → F → Params A → Bool → String → Option ℕ → Result Bytes × List (Message F A)
  unfolding map_lengths send_chunks send_all chunk_message
  map_lazy cpu_count nonce target p pass_state namespace none =
      map_lengths nonce target p pass_state namespace cpu_count (lengths p)
  map_lazy cpu_count nonce target p pass_state namespace (some num_chunks) =
      map_lengths nonce target p pass_state namespace num_chunks (lengths p)

  -- `run`: the task id and what has been pushed.
  unfoldable pub run :
      Bytes
      → F
      → Option (List A)
      → Option (Kwargs A)
      → Bool
      → String
      → Result Bytes × List (Message F A)
  run nonce target args kwargs pass_state namespace = elim (encode_chunk_id nonce (negsuc 0)) [
    | raise e ↦ (raise e, [])
    | ok chunk_id ↦ (
      ok nonce,
      run_frames chunk_id target (record {
        params = record {
          mi = none;
          ma = none;
          a = some (or_empty args);
          mk = none;
          k = some (or_empty kwargs);
        };
        pass_state = pass_state;
        namespace = namespace;
      })
          ∷ [],
    )
  ]

-- How a call of `run` ends: with a wrapper, if it has no target, or with what has been pushed.
pub data Ran (F A : Type 0) : Type 0 where
  wrapper : Ran F A
  pushed : Result Bytes → List (Message F A) → Ran F A

unfoldable pub run_target :
    {F A : Type 0}
    → Bytes
    → Option F
    → Option (List A)
    → Option (Kwargs A)
    → Bool
    → String
    → Ran F A
unfolding run
run_target nonce none args kwargs pass_state namespace = wrapper
run_target nonce (some target) args kwargs pass_state namespace =
    let (r, sent) = run nonce target args kwargs pass_state namespace in pushed r sent

-- A call of the wrapper: the target that it has kept is the one that was not given.
unfoldable pub call_wrapper : {F A : Type 0} → Bytes → List A → Kwargs A → Bool → String → Ran F A
unfolding run_target
call_wrapper nonce a k pass_state namespace =
    run_target nonce none (some a) (some k) pass_state namespace
