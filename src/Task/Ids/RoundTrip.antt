-- ===== src/Task/Ids/RoundTrip.antt =====
-- The ids of zproc/util.py read back what was written, within the ranges that `struct` accepts.
use zproc.Prelude.{
  length, drop, length-append, length-drop, take-append, drop-append, Error, struct_error, ok,
  raise, ◌>>=◌, Result-cases, Bytes, ◌^◌, ◌<◌, ◌≡◌, refl, inl, inr, none, some, [], ◌∷◌, ◌++◌,
  arith,
}
use zproc.Task.Ids.{
  ℤ, pos, negsuc, task_nonce_length, TaskInfo, pack_task_info, unpack_task_info, task_id_length,
  pack_index, unpack_index, generate_task_id, deconstruct_task_id, encode_chunk_id, decode_chunk_id,
}

abbrev pub FitsInfo : TaskInfo → Type 0
FitsInfo t = (t.chunk_length < 2 ^ 32) × (t.total < 2 ^ 32) × (t.num_chunks < 2 ^ 32)

abbrev pub FitsIndex : ℤ → Type 0
FitsIndex (pos n) = n < 2 ^ 31
FitsIndex (negsuc n) = n < 2 ^ 31

unpack-pack_task_info : (t : TaskInfo) → FitsInfo t → (pack_task_info t >>= unpack_task_info) ≡ ok t
unfolding pack_task_info unpack_task_info
unpack-pack_task_info t h = ground arith

unpack-pack_index : (i : ℤ) → FitsIndex i → (pack_index i >>= unpack_index) ≡ ok i
unfolding pack_index unpack_index
unpack-pack_index (pos n) h = ground arith
unpack-pack_index (negsuc n) h = ground arith

length-pack_task_info : (t : TaskInfo) {b : Bytes} → pack_task_info t ≡ ok b → length b ≡ 12
unfolding pack_task_info
length-pack_task_info t h = ground arith

length-pack_index : (i : ℤ) {b : Bytes} → pack_index i ≡ ok b → length b ≡ 4
unfolding pack_index
length-pack_index (pos n) h = ground arith
length-pack_index (negsuc n) h = ground arith

pack_index-raise : (i : ℤ) {e : Error} → pack_index i ≡ raise e → e ≡ struct_error
unfolding pack_index
pack_index-raise (pos n) h = ground arith
pack_index-raise (negsuc n) h = ground arith

-- What packs is in range, so a packed value is always read back.
pub pack_index-Fits : (i : ℤ) {b : Bytes} → pack_index i ≡ ok b → FitsIndex i
unfolding pack_index
pack_index-Fits (pos n) h = ground arith
pack_index-Fits (negsuc n) h = ground arith

-- A task id whose shape fits three unsigned 32-bit integers is 17 bytes long and gives the shape
-- back, for every nonce of 5 bytes.
pub deconstruct-generate_task_id :
    (nonce : Bytes) (info : TaskInfo)
    → length nonce ≡ task_nonce_length
    → FitsInfo info
    → (task_id : Bytes) × (generate_task_id nonce (some info) ≡ ok task_id)
      × (length task_id ≡ task_id_length)
      × (deconstruct_task_id task_id ≡ ok (some info))
unfolding generate_task_id deconstruct_task_id
deconstruct-generate_task_id nonce info five fits = elim (Result-cases (pack_task_info info)) [
  | inl (b, packed) ↦ (
    nonce ++ b,
    rw packed,
    omega (arith, length-append nonce b, length-pack_task_info info packed),
    ground (
      arith,
      length-append nonce b,
      length-pack_task_info info packed,
      drop-append 5 nonce b,
      unpack-pack_task_info info fits,
    ),
  )
  | inr (e, failed) ↦ absurd (ground (arith, unpack-pack_task_info info fits))
]

-- A chunk id made from a task id of 17 bytes gives the task id and the index back, for every index
-- that packs.
pub decode-encode_chunk_id :
    (task_id : Bytes) (index : ℤ)
    → length task_id ≡ task_id_length
    → FitsIndex index
    → (encode_chunk_id task_id index >>= decode_chunk_id) ≡ ok (task_id, index)
unfolding encode_chunk_id decode_chunk_id
decode-encode_chunk_id task_id index len fits = elim (Result-cases (pack_index index)) [
  | inl (b, packed) ↦ rw packed (
      ground (
        arith,
        drop-append task_id_length task_id b,
        take-append task_id_length task_id b,
        unpack-pack_index index fits,
      ))
  | inr (e, failed) ↦ absurd (ground (arith, unpack-pack_index index fits))
]

unpack_index_short : (b : Bytes) → length b ≡ 0 → unpack_index b ≡ raise struct_error
unfolding unpack_index
unpack_index_short [] h = refl
unpack_index_short (x ∷ b) h = absurd (omega arith)

-- The id of a simple task is its nonce alone, so its chunk ids are 9 bytes, and `decode_chunk_id`
-- raises on each of them: nothing follows the first 17 bytes.
pub decode-encode_simple :
    (nonce : Bytes) (index : ℤ)
    → length nonce ≡ task_nonce_length
    → (generate_task_id nonce none ≡ ok nonce)
      × ((encode_chunk_id nonce index >>= decode_chunk_id) ≡ raise struct_error)
unfolding generate_task_id encode_chunk_id decode_chunk_id
decode-encode_simple nonce index five = (
  refl,
  elim (Result-cases (pack_index index)) [
    | inl (b, packed) ↦ rw packed (
        ground (
          arith,
          unpack_index_short (drop task_id_length (nonce ++ b)),
          length-drop task_id_length (nonce ++ b),
          length-append nonce b,
          length-pack_index index packed,
        ))
    | inr (e, failed) ↦ ground (arith, pack_index-raise index failed)
  ],
)
