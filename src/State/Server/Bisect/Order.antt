-- ===== src/State/Server/Bisect/Order.antt =====
-- What `bisect` finds in a sorted list.
use zproc.Prelude.{
  ltb, ltb→lt, Bool-cases, length, get_or, ℕ, zero, suc, ◌+◌, ◌/◌, ◌≤◌, ◌<◌, ◌≡◌, inl, inr, List,
  arith,
}
use zproc.State.Server.Bisect.{bisect_loop, bisect}

abbrev pub IsSorted : List ℕ → Type 0
IsSorted a = (i j : ℕ) → i ≤ j → j < length a → get_or a i 0 ≤ get_or a j 0

-- All before `m` are at most `x`, and all from `m` on are above.
pub record Splits (a : List ℕ) (x m : ℕ) : Type 0 where
  pub within : m ≤ length a
  pub below : (i : ℕ) → i < m → get_or a i 0 ≤ x
  pub above : (i : ℕ) → m ≤ i → i < length a → x < get_or a i 0

-- What is known of the part outside lo..hi.
record Outside (a : List ℕ) (x lo hi : ℕ) : Type 0 where
  ordered : lo ≤ hi
  within : hi ≤ length a
  below : (i : ℕ) → i < lo → get_or a i 0 ≤ x
  above : (i : ℕ) → hi ≤ i → i < length a → x < get_or a i 0

Outside-left :
    (a : List ℕ) (x lo hi mid : ℕ)
    → IsSorted a
    → Outside a x lo hi
    → lo ≤ mid
    → mid < hi
    → x < get_or a mid 0
    → Outside a x lo mid
Outside-left a x lo hi mid sorted o h h' less = record {
  ordered = h;
  within = omega (arith, o.within);
  below = o.below;
  above = λ i k k'. omega (arith, sorted mid i k k');
}

Outside-right :
    (a : List ℕ) (x lo hi mid : ℕ)
    → IsSorted a
    → Outside a x lo hi
    → mid < hi
    → get_or a mid 0 ≤ x
    → Outside a x (mid + 1) hi
Outside-right a x lo hi mid sorted o h least = record {
  ordered = omega arith;
  within = o.within;
  below = λ i k. omega (arith, o.within, sorted i mid (omega arith) (omega (arith, o.within)));
  above = o.above;
}

bisect_loop-Splits :
    (fuel : ℕ) (a : List ℕ) (x lo hi : ℕ)
    → IsSorted a
    → Outside a x lo hi
    → hi ≤ lo + fuel
    → Splits a x (bisect_loop fuel a x lo hi)
unfolding bisect_loop
bisect_loop-Splits zero a x lo hi sorted o enough =
    let e : hi ≡ lo = omega (arith, o.ordered) in
    record { within = omega (arith, o.within); below = o.below; above = rw e at o.above }
bisect_loop-Splits (suc fuel) a x lo hi sorted o enough =
    let mid = (lo + hi) / 2 in
    elim (Bool-cases (ltb lo hi)) [
      | inl e ↦
          let lt : lo < hi = ltb→lt lo hi e in
          let h : lo ≤ mid = omega arith in
          let h' : mid < hi = omega arith in
          elim (Bool-cases (ltb x (get_or a mid 0))) [
            | inl e' ↦
                rw (e, e')
                  (bisect_loop-Splits fuel a x lo mid sorted
                    (Outside-left a x lo hi mid sorted o h h' (ltb→lt x (get_or a mid 0) e'))
                    (omega arith))
            | inr e' ↦
                rw (e, e')
                  (bisect_loop-Splits fuel a x (mid + 1) hi sorted
                    (Outside-right a x lo hi mid sorted o h' (ground arith)) (omega arith))
          ]
      | inr e ↦
          let same : hi ≡ lo = ground (arith, o.ordered) in
          rw e (record {
            within = omega (arith, o.within);
            below = o.below;
            above = rw same at o.above;
          })
    ]

-- In a sorted list, `bisect a x` is the place after the last element that is at most `x`: all before
-- it are at most `x`, and all from it on are greater.
pub bisect-Splits : (a : List ℕ) (x : ℕ) → IsSorted a → Splits a x (bisect a x)
unfolding bisect
bisect-Splits a x sorted =
    bisect_loop-Splits (length a) a x 0 (length a) sorted
      (record {
        ordered = omega arith;
        within = omega arith;
        below = λ i h. absurd (omega arith);
        above = λ i h h'. absurd (omega arith);
      })
      (omega arith)
