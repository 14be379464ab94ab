-- ===== src/Task/Ids.antt =====
-- Task and chunk ids: zproc/consts.py, and `generate_task_id`, `deconstruct_task_id`,
-- `encode_chunk_id` and `decode_chunk_id` of zproc/util.py. A `bytes` object is a list of numbers
-- below 256; `struct` of the standard library is modelled for the two formats in use.
pub mod RoundTrip
use zproc.Prelude.{
  ltb, leb, ◌==◌, if◌then◌else◌, length, take, drop, struct_error, Result, ok, raise, ◌>>=◌, Bytes,
  ℕ, suc, ◌+◌, ◌-◌, ◌*◌, ◌/◌, ◌%◌, ◌^◌, ◌&&◌, Option, none, some, [], ◌∷◌, ◌++◌,
}

-- An `int` that a chunk index may be: `negsuc n` is -(n + 1).
pub data ℤ : Type 0 where
  pos : ℕ → ℤ
  negsuc : ℕ → ℤ

abbrev pub task_nonce_length : ℕ
task_nonce_length = 5

-- Four bytes, most significant first.
abbrev pub be32 : ℕ → Bytes
be32 n = n / 2 ^ 24 % 256 ∷ n / 2 ^ 16 % 256 ∷ n / 2 ^ 8 % 256 ∷ n % 256 ∷ []

abbrev pub of_be32 : ℕ → ℕ → ℕ → ℕ → ℕ
of_be32 a b c d = a * 2 ^ 24 + b * 2 ^ 16 + c * 2 ^ 8 + d

-- The triple (chunk_length, length, num_chunks).
pub record TaskInfo : Type 0 where
  pub chunk_length : ℕ
  pub total : ℕ
  pub num_chunks : ℕ

-- struct.pack(">III", *task_info)
unfoldable pub pack_task_info : TaskInfo → Result Bytes
pack_task_info t =
    if ltb t.chunk_length (2 ^ 32) && (ltb t.total (2 ^ 32) && ltb t.num_chunks (2 ^ 32))
    then ok (be32 t.chunk_length ++ (be32 t.total ++ be32 t.num_chunks))
    else raise struct_error

-- struct.unpack(">III", b)
unfoldable pub unpack_task_info : Bytes → Result TaskInfo
unpack_task_info (a0 ∷ a1 ∷ a2 ∷ a3 ∷ b0 ∷ b1 ∷ b2 ∷ b3 ∷ c0 ∷ c1 ∷ c2 ∷ c3 ∷ []) = ok (record {
  chunk_length = of_be32 a0 a1 a2 a3;
  total = of_be32 b0 b1 b2 b3;
  num_chunks = of_be32 c0 c1 c2 c3;
})
unpack_task_info _ = raise struct_error

-- struct.calcsize of the two formats
abbrev pub task_id_length : ℕ
task_id_length = task_nonce_length + 12

abbrev pub chunk_id_length : ℕ
chunk_id_length = task_id_length + 4

-- struct.pack(">i", index): two's complement.
unfoldable pub pack_index : ℤ → Result Bytes
pack_index (pos n) = if ltb n (2 ^ 31) then ok (be32 n) else raise struct_error
pack_index (negsuc n) = if ltb n (2 ^ 31) then ok (be32 (2 ^ 32 - suc n)) else raise struct_error

abbrev pub signed32 : ℕ → ℤ
signed32 w = if leb (2 ^ 31) w then negsuc (2 ^ 32 - suc w) else pos w

-- struct.unpack(">i", b)[0]
unfoldable pub unpack_index : Bytes → Result ℤ
unpack_index (a ∷ b ∷ c ∷ d ∷ []) = ok (signed32 (of_be32 a b c d))
unpack_index _ = raise struct_error

-- `nonce` is what os.urandom(TASK_NONCE_LENGTH) gave.
unfoldable pub generate_task_id : Bytes → Option TaskInfo → Result Bytes
generate_task_id nonce none = ok nonce
generate_task_id nonce (some info) = do packed ← pack_task_info info; ok (nonce ++ packed)

unfoldable pub deconstruct_task_id : Bytes → Result (Option TaskInfo)
deconstruct_task_id task_id =
    if length task_id == task_nonce_length
    then ok none
    else do info ← unpack_task_info (drop task_nonce_length task_id); ok (some info)

unfoldable pub encode_chunk_id : Bytes → ℤ → Result Bytes
encode_chunk_id task_id index = do packed ← pack_index index; ok (task_id ++ packed)

unfoldable pub decode_chunk_id : Bytes → Result (Bytes × ℤ)
decode_chunk_id chunk = do
  index ← unpack_index (drop task_id_length chunk)
  ok (take task_id_length chunk, index)
