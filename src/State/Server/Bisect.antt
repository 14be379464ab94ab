-- ===== src/State/Server/Bisect.antt =====
-- `bisect` of the standard library, by its algorithm.
pub mod Order
use zproc.Prelude.{ltb, if◌then◌else◌, length, get_or, ℕ, zero, suc, ◌+◌, ◌/◌, List}

-- `while lo < hi: mid = (lo + hi) // 2; if x < a[mid]: hi = mid; else: lo = mid + 1`
unfoldable pub bisect_loop : ℕ → List ℕ → ℕ → ℕ → ℕ → ℕ
bisect_loop zero a x lo hi = lo
bisect_loop (suc fuel) a x lo hi =
    let mid = (lo + hi) / 2 in
    let left = bisect_loop fuel a x lo mid in
    let right = bisect_loop fuel a x (mid + 1) hi in
    if ltb lo hi then (if ltb x (get_or a mid 0) then left else right) else lo

-- The interval shrinks with every step, so its length is fuel enough.
unfoldable pub bisect : List ℕ → ℕ → ℕ
unfolding bisect_loop
bisect a x = bisect_loop (length a) a x 0 (length a)
