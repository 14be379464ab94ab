-- ===== src/Task/MapPlus/Rows.antt =====
-- One description of `map_plus` for its eight cases: the i-th call takes the i-th element of each
-- sequence that is given, and there are as many calls as the shortest of them has elements.
use mathlib.Core.List.{zip}
use zproc.Prelude.{
  length, range, Result, ok, ◌>>=◌, traverse, traverse-map, ℕ, zero, suc, ◌≡◌, refl, Option, none,
  some, List, [], ◌∷◌, append-nil, ◌++◌,
}
use zproc.Task.MapPlus.{Kwargs, Target, or_empty, merge, call_with, map_rows, map_plus}

-- The i-th element of a sequence that is given, as a list of at most one element.
abbrev pub pick {ℓ} : {X : Type ℓ} → Option (List X) → ℕ → List X
pick none i = []
pick (some []) i = []
pick (some (x ∷ xs)) zero = x ∷ []
pick (some (x ∷ xs)) (suc i) = pick (some xs) i

abbrev pub concat {ℓ} : {X : Type ℓ} → List (List X) → List X
concat [] = []
concat (xs ∷ xss) = xs ++ concat xss

abbrev pub least : ℕ → ℕ → ℕ
least zero n = zero
least (suc m) zero = zero
least (suc m) (suc n) = suc (least m n)

-- The least of the lengths that are given, or 0 if none is.
abbrev pub min_length : Option ℕ → Option ℕ → Option ℕ
min_length none n = n
min_length (some m) none = some m
min_length (some m) (some n) = some (least m n)

abbrev pub length? {ℓ} : {X : Type ℓ} → Option (List X) → Option ℕ
length? none = none
length? (some xs) = some (length xs)

abbrev pub or_zero : Option ℕ → ℕ
or_zero none = 0
or_zero (some n) = n

module _ {A : Type 0} where
  abbrev pub shortest : Option (List A) → Option (List (List A)) → Option (List (Kwargs A)) → ℕ
  shortest mi ma mk = or_zero (min_length (length? mi) (min_length (length? ma) (length? mk)))

module _ {A R : Type 0} (target : Target A R) (a : List A) (k : Kwargs A) where
  -- target(map_iter[i], *map_args[i], *args, **map_kwargs[i], **kwargs)
  unfoldable pub call_at :
      Option (List A) → Option (List (List A)) → Option (List (Kwargs A)) → ℕ → Result R
  call_at mi ma mk i =
      call_with target k (pick mi i ++ (concat (pick ma i) ++ a)) (concat (pick mk i))

  calls : Option (List A) → Option (List (List A)) → Option (List (Kwargs A)) → Result (List R)
  calls mi ma mk = traverse (call_at mi ma mk) (range (shortest mi ma mk))

  call_with_nil : (xs : List A) → call_with target k xs [] ≡ target xs k
  unfolding call_with merge
  call_with_nil xs = refl

  -- A first call, and the calls after it.
  cons_calls :
      (f : ℕ → Result R) (n : ℕ) {r : Result R} {s : Result (List R)}
      → r ≡ f zero
      → s ≡ traverse (λ i. f (suc i)) (range n)
      → (do y ← r; ys ← s; ok (y ∷ ys)) ≡ traverse f (range (suc n))
  unfolding traverse range
  cons_calls f n p q = rw (p, q, traverse-map f suc (range n))

  calls-mk :
      (mk : List (Kwargs A)) → map_rows target none none a (some mk) k ≡ calls none none (some mk)
  unfolding map_rows traverse calls call_at range
  calls-mk [] = refl
  calls-mk (x ∷ mk) =
      (cons_calls (call_at none none (some (x ∷ mk))) (length mk) (simp append-nil) (calls-mk mk))

  calls-mi : (mi : List A) → map_rows target (some mi) none a none k ≡ calls (some mi) none none
  unfolding map_rows traverse calls call_at range
  calls-mi [] = refl
  calls-mi (x ∷ mi) =
      (cons_calls (call_at (some (x ∷ mi)) none none) (length mi) (simp call_with_nil)
        (calls-mi mi))

  calls-ma :
      (ma : List (List A)) → map_rows target none (some ma) a none k ≡ calls none (some ma) none
  unfolding map_rows traverse calls call_at range
  calls-ma [] = refl
  calls-ma (x ∷ ma) =
      (cons_calls (call_at none (some (x ∷ ma)) none) (length ma) (simp (call_with_nil, append-nil))
        (calls-ma ma))

  calls-ma-mk :
      (ma : List (List A)) (mk : List (Kwargs A))
      → map_rows target none (some ma) a (some mk) k ≡ calls none (some ma) (some mk)
  unfolding map_rows traverse calls call_at range zip
  calls-ma-mk [] mk = refl
  calls-ma-mk (x ∷ ma) [] = refl
  calls-ma-mk (x ∷ ma) (y ∷ mk) =
      (cons_calls (call_at none (some (x ∷ ma)) (some (y ∷ mk))) (least (length ma) (length mk))
        (simp append-nil) (calls-ma-mk ma mk))

  calls-mi-mk :
      (mi : List A) (mk : List (Kwargs A))
      → map_rows target (some mi) none a (some mk) k ≡ calls (some mi) none (some mk)
  unfolding map_rows traverse calls call_at range zip
  calls-mi-mk [] mk = refl
  calls-mi-mk (x ∷ mi) [] = refl
  calls-mi-mk (x ∷ mi) (y ∷ mk) =
      (cons_calls (call_at (some (x ∷ mi)) none (some (y ∷ mk))) (least (length mi) (length mk))
        (simp append-nil) (calls-mi-mk mi mk))

  calls-mi-ma :
      (mi : List A) (ma : List (List A))
      → map_rows target (some mi) (some ma) a none k ≡ calls (some mi) (some ma) none
  unfolding map_rows traverse calls call_at range zip
  calls-mi-ma [] ma = refl
  calls-mi-ma (x ∷ mi) [] = refl
  calls-mi-ma (x ∷ mi) (y ∷ ma) =
      (cons_calls (call_at (some (x ∷ mi)) (some (y ∷ ma)) none) (least (length mi) (length ma))
        (simp (call_with_nil, append-nil)) (calls-mi-ma mi ma))

  calls-mi-ma-mk :
      (mi : List A) (ma : List (List A)) (mk : List (Kwargs A))
      → map_rows target (some mi) (some ma) a (some mk) k ≡ calls (some mi) (some ma) (some mk)
  unfolding map_rows traverse calls call_at range zip
  calls-mi-ma-mk [] ma mk = refl
  calls-mi-ma-mk (x ∷ mi) [] mk = refl
  calls-mi-ma-mk (x ∷ mi) (y ∷ ma) [] = refl
  calls-mi-ma-mk (x ∷ mi) (y ∷ ma) (z ∷ mk) =
      (cons_calls (call_at (some (x ∷ mi)) (some (y ∷ ma)) (some (z ∷ mk)))
        (least (length mi) (least (length ma) (length mk))) (simp append-nil)
        (calls-mi-ma-mk mi ma mk))

  map_rows-calls :
      (mi : Option (List A)) (ma : Option (List (List A))) (mk : Option (List (Kwargs A)))
      → map_rows target mi ma a mk k ≡ calls mi ma mk
  unfolding map_rows calls traverse range
  map_rows-calls none none none = refl
  map_rows-calls none none (some mk) = calls-mk mk
  map_rows-calls none (some ma) none = calls-ma ma
  map_rows-calls none (some ma) (some mk) = calls-ma-mk ma mk
  map_rows-calls (some mi) none none = calls-mi mi
  map_rows-calls (some mi) none (some mk) = calls-mi-mk mi mk
  map_rows-calls (some mi) (some ma) none = calls-mi-ma mi ma
  map_rows-calls (some mi) (some ma) (some mk) = calls-mi-ma-mk mi ma mk

-- In each of its eight cases `map_plus` makes the calls
-- `target(map_iter[i], *map_args[i], *args, **map_kwargs[i], **kwargs)`, over the sequences that
-- are given, for each i below the shortest of their lengths and in this order; the first exception
-- ends it.
pub map_plus_lem :
    {A R : Type 0} (target : Target A R) (mi : Option (List A)) (ma : Option (List (List A)))
    (a : Option (List A)) (mk : Option (List (Kwargs A))) (k : Option (Kwargs A))
    → map_plus target mi ma a mk k
      ≡ traverse (call_at target (or_empty a) (or_empty k) mi ma mk) (range (shortest mi ma mk))
unfolding map_plus calls
map_plus_lem target mi ma a mk k = map_rows-calls target (or_empty a) (or_empty k) mi ma mk
