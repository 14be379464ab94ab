-- ===== src/Task/Server/Keys.antt =====
-- Equality of the keys of the task server's dictionaries, and that a chunk id of bytes is
-- determined by what it decodes to.
use mathlib.Core.Path.{ap₂}
use zproc.Prelude.{
  ◌==◌, take, drop, take-append-drop, All, ok, Bytes, ℕ, zero, suc, ◌<◌, ◌≡◌, sym, ◌∙◌, ◌↔◌, Bool,
  true, false, [], ◌∷◌, ◌++◌, arith,
}
use zproc.Task.Ids.{ℤ, pos, negsuc, task_id_length, unpack_index, decode_chunk_id}

abbrev pub index_eq : ℤ → ℤ → Bool
index_eq (pos m) (pos n) = m == n
index_eq (pos m) (negsuc n) = false
index_eq (negsuc m) (pos n) = false
index_eq (negsuc m) (negsuc n) = m == n

pub index_eq_iff : (i j : ℤ) → (index_eq i j ≡ true) ↔ (i ≡ j)
index_eq_iff (pos m) (pos n) = ground arith
index_eq_iff (pos m) (negsuc n) = ground arith
index_eq_iff (negsuc m) (pos n) = ground arith
index_eq_iff (negsuc m) (negsuc n) = ground arith

-- A `bytes` object holds numbers below 256.
abbrev pub IsBytes : Bytes → Type 0
IsBytes b = All (λ x. x < 256) b

IsBytes-drop : (n : ℕ) (b : Bytes) → IsBytes b → IsBytes (drop n b)
IsBytes-drop zero b h = h
IsBytes-drop (suc n) [] h = h
IsBytes-drop (suc n) (x ∷ b) h = IsBytes-drop n b h.1

unpack_index_inj :
    (xs ys : Bytes) (i : ℤ)
    → IsBytes xs
    → IsBytes ys
    → unpack_index xs ≡ ok i
    → unpack_index ys ≡ ok i
    → xs ≡ ys
unfolding unpack_index
unpack_index_inj (a ∷ b ∷ c ∷ d ∷ []) (a' ∷ b' ∷ c' ∷ d' ∷ []) i hx hy p q = ground arith
unpack_index_inj xs ys i hx hy p q = ground arith

-- Two chunk ids of bytes that decode to one key are one.
pub decode_chunk_id_inj :
    (xs ys : Bytes) (key : Bytes × ℤ)
    → IsBytes xs
    → IsBytes ys
    → decode_chunk_id xs ≡ ok key
    → decode_chunk_id ys ≡ ok key
    → xs ≡ ys
unfolding decode_chunk_id
decode_chunk_id_inj xs ys key hx hy p q =
    let tails =
      unpack_index_inj (drop task_id_length xs) (drop task_id_length ys) key.1
        (IsBytes-drop task_id_length xs hx) (IsBytes-drop task_id_length ys hy) (ground arith)
        (ground arith) in
    let heads : take task_id_length xs ≡ take task_id_length ys = ground arith in
    sym (take-append-drop task_id_length xs)
    ∙ ap₂ ◌++◌ heads tails
    ∙ take-append-drop task_id_length ys
