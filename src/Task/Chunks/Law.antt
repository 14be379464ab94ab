-- ===== src/Task/Chunks/Law.antt =====
-- Mapping over the chunks one after the other is mapping over the whole.
use zproc.Prelude.{
  take, drop, take-append-drop, length-drop, range, zip-take, zip-drop, drop-add, Result, ok,
  join_results, traverse, traverse-append, min, ℕ, zero, suc, ◌+◌, ◌-◌, ◌*◌, ◌≤◌, ◌≡◌, refl, sym,
  ap, ◌∙◌, Option, none, some, List, [], ◌∷◌, map, arith,
}
use mathlib.Core.Option
use mathlib.Core.Path.{ap₂}
use mathlib.Core.List.{map-map}
use mathlib.Core.List.{zip}
use Prim.Native.Nat.{min}
use zproc.Task.MapPlus.{Kwargs, Target, map_plus}
use zproc.Task.MapPlus.Rows.{least, shortest, map_plus_lem}
use zproc.Task.Chunks.{slice}

-- The i-th of the chunks of `c` elements.
abbrev pub chunk {ℓ} : {X : Type ℓ} → ℕ → ℕ → Option (List X) → Option (List X)
chunk c i = Option.map (slice (i * c) ((i + 1) * c))

slice_eq {ℓ} :
    {X : Type ℓ} (a b n : ℕ) (xs ys : List X)
    → drop a xs ≡ ys
    → b - a ≡ n
    → slice a b xs ≡ take n ys
slice_eq a b n xs ys p q = λ i. take (q i) (p i)

chunk-suc {ℓ} :
    {X : Type ℓ} (c i : ℕ) (o : Option (List X))
    → chunk c (suc i) o ≡ chunk c i (Option.map (drop c) o)
chunk-suc c i none = refl
chunk-suc c i (some xs) =
    let e : suc i * c ≡ c + i * c = omega arith in
    ap some (
      slice_eq (suc i * c) ((suc i + 1) * c) ((i + 1) * c - i * c) xs (drop (i * c) (drop c xs))
        (ap (λ (n : ℕ). drop n xs) e ∙ drop-add c (i * c) xs) (omega arith))

chunk-zero {ℓ} : {X : Type ℓ} (c : ℕ) (o : Option (List X)) → chunk c 0 o ≡ Option.map (take c) o
chunk-zero c none = refl
chunk-zero c (some xs) =
    let e : 0 * c ≡ 0 = omega arith in
    ap some (slice_eq (0 * c) ((0 + 1) * c) c xs xs (ap (λ (n : ℕ). drop n xs) e) (omega arith))

pub least-min : (m n : ℕ) → least m n ≡ min m n
least-min zero n = omega arith
least-min (suc m) zero = omega arith
least-min (suc m) (suc n) = omega (arith, least-min m n)

-- One chunk less to go: each length that is given falls by `c`.
shortest-drop :
    {A : Type 0} (c n : ℕ) (mi : Option (List A)) (ma : Option (List (List A)))
    (mk : Option (List (Kwargs A)))
    → shortest mi ma mk ≤ suc n * c
    → shortest (Option.map (drop c) mi) (Option.map (drop c) ma) (Option.map (drop c) mk) ≤ n * c
shortest-drop c n none none none h = omega arith
shortest-drop c n none none (some mk) h = omega (arith, length-drop c mk)
shortest-drop c n none (some ma) none h = omega (arith, length-drop c ma)
shortest-drop c n none (some ma) (some mk) h =
    omega (arith, least-min, length-drop c ma, length-drop c mk)
shortest-drop c n (some mi) none none h = omega (arith, length-drop c mi)
shortest-drop c n (some mi) none (some mk) h =
    omega (arith, least-min, length-drop c mi, length-drop c mk)
shortest-drop c n (some mi) (some ma) none h =
    omega (arith, least-min, length-drop c mi, length-drop c ma)
shortest-drop c n (some mi) (some ma) (some mk) h =
    omega (arith, least-min, length-drop c mi, length-drop c ma, length-drop c mk)

-- The results in order, or the first exception.
abbrev pub join_all {ℓ} : {X : Type ℓ} → List (Result (List X)) → Result (List X)
join_all [] = ok []
join_all (r ∷ rs) = join_results r (join_all rs)

module _ {A R : Type 0} (target : Target A R) (a : Option (List A)) (k : Option (Kwargs A)) where
  abbrev pub whole :
      Option (List A) → Option (List (List A)) → Option (List (Kwargs A)) → Result (List R)
  whole mi ma mk = map_plus target mi ma a mk k

  traverse-split :
      {X : Type 0} (f : X → Result R) (n : ℕ) (xs : List X)
      → join_results (traverse f (take n xs)) (traverse f (drop n xs)) ≡ traverse f xs
  traverse-split f n xs =
      sym (traverse-append f (take n xs) (drop n xs)) ∙ ap (traverse f) (take-append-drop n xs)

  pub whole-split :
      (n : ℕ) (mi : Option (List A)) (ma : Option (List (List A))) (mk : Option (List (Kwargs A)))
      → join_results
          (whole (Option.map (take n) mi) (Option.map (take n) ma) (Option.map (take n) mk))
          (whole (Option.map (drop n) mi) (Option.map (drop n) ma) (Option.map (drop n) mk))
        ≡ whole mi ma mk
  unfolding map_plus
  whole-split n none none none = refl
  whole-split n none none (some mk) = traverse-split _ n mk
  whole-split n none (some ma) none = traverse-split _ n ma
  whole-split n none (some ma) (some mk) = rw (zip-take, zip-drop) (traverse-split _ n (zip ma mk))
  whole-split n (some mi) none none = traverse-split _ n mi
  whole-split n (some mi) none (some mk) = rw (zip-take, zip-drop) (traverse-split _ n (zip mi mk))
  whole-split n (some mi) (some ma) none = rw (zip-take, zip-drop) (traverse-split _ n (zip mi ma))
  whole-split n (some mi) (some ma) (some mk) =
      simp (zip-take, zip-drop) (traverse-split _ n (zip mi (zip ma mk)))

  whole_nil :
      (mi : Option (List A)) (ma : Option (List (List A))) (mk : Option (List (Kwargs A)))
      → shortest mi ma mk ≤ 0
      → whole mi ma mk ≡ ok []
  unfolding range traverse
  whole_nil mi ma mk h =
      let e : shortest mi ma mk ≡ 0 = omega arith in rw (map_plus_lem target mi ma a mk k, e)

  abbrev pub chunk_results :
      Option (List A) → Option (List (List A)) → Option (List (Kwargs A)) → ℕ → ℕ → Result (List R)
  chunk_results mi ma mk c i = whole (chunk c i mi) (chunk c i ma) (chunk c i mk)

  -- If `n` chunks of `c` elements reach the end of the shortest sequence, then the results of the
  -- chunks, joined in order, are the result of mapping over the whole: the same list, or the same
  -- exception. This holds for every choice of the sequences that are given.
  pub map_plus_chunks :
      (n c : ℕ) (mi : Option (List A)) (ma : Option (List (List A))) (mk : Option (List (Kwargs A)))
      → shortest mi ma mk ≤ n * c
      → join_all (map (chunk_results mi ma mk c) (range n)) ≡ map_plus target mi ma a mk k
  unfolding range
  map_plus_chunks zero c mi ma mk h = sym (whole_nil mi ma mk (omega arith))
  map_plus_chunks (suc n) c mi ma mk h =
      ap₂ join_results (λ i. whole (chunk-zero c mi i) (chunk-zero c ma i) (chunk-zero c mk i))
        (ap join_all (
            map-map (chunk_results mi ma mk c) suc (range n)
            ∙ ap (λ f. map f (range n))
                (λ i j. whole (chunk-suc c j mi i) (chunk-suc c j ma i) (chunk-suc c j mk i)))
          ∙ map_plus_chunks n c (Option.map (drop c) mi) (Option.map (drop c) ma)
              (Option.map (drop c) mk) (shortest-drop c n mi ma mk h))
      ∙ whole-split c mi ma mk
