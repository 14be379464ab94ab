-- ===== src/Task/Chunks/Slices.antt =====
-- What each chunk of a map gives: a slice of what the whole map gives.

use zproc.Prelude.{
  length, take, drop, length-append, length-take, drop_of_length-le, take_of_length-le, take-append,
  drop-append, range, length-range, Result, ok, raise, Result-cases, join_results, traverse, min, ℕ,
  ◌+◌, ◌-◌, ◌*◌, ◌≡◌, refl, sym, ap, ◌∙◌, inl, inr, Option, none, some, List, [], ◌∷◌, append-nil,
  ◌++◌, arith, dec_lt,
}
use zproc.Task.Chunks.Law.{least-min, whole, whole-split, chunk_results}
use zproc.Task.MapPlus.{Kwargs, Target, map_plus}
use zproc.Task.MapPlus.Rows.{shortest, map_plus_lem}
use zproc.Task.Chunks.{slice}
use mathlib.Core.Option

-- A joined result, taken apart.
join_results_ok :
    {B : Type 0} (r s : Result (List B)) (ys : List B)
    → join_results r s ≡ ok ys
    → (front : List B) × (bs : List B) × (r ≡ ok front) × (s ≡ ok bs) × (front ++ bs ≡ ys)
join_results_ok (ok xs) (ok bs) ys h = (xs, bs, refl, refl, ground (arith, h))
join_results_ok (raise e) s ys h = absurd (ground (arith, h))
join_results_ok (ok xs) (raise e) ys h = absurd (ground (arith, h))

length-traverse :
    {X R : Type 0} (f : X → Result R) (xs : List X) (ys : List R)
    → traverse f xs ≡ ok ys
    → length ys ≡ length xs
unfolding traverse
length-traverse f [] ys h = ground (arith, h)
length-traverse f (x ∷ xs) ys h = elim (Result-cases (f x)) [
  | inl (y, e) ↦ elim (Result-cases (traverse f xs)) [
    | inl (zs, e') ↦ ground (arith, h, e, e', length-traverse f xs zs e')
    | inr (z, e') ↦ absurd (ground (arith, h, e, e'))
  ]
  | inr (z, e) ↦ absurd (ground (arith, h, e))
]

shortest-take :
    {A : Type 0} (n : ℕ) (mi : Option (List A)) (ma : Option (List (List A)))
    (mk : Option (List (Kwargs A)))
    → shortest (Option.map (take n) mi) (Option.map (take n) ma) (Option.map (take n) mk)
      ≡ min n (shortest mi ma mk)
shortest-take n none none none = omega arith
shortest-take n none none (some mk) = omega (arith, length-take n mk)
shortest-take n none (some ma) none = omega (arith, length-take n ma)
shortest-take n none (some ma) (some mk) =
    omega (arith, least-min, length-take n ma, length-take n mk)
shortest-take n (some mi) none none = omega (arith, length-take n mi)
shortest-take n (some mi) none (some mk) =
    omega (arith, least-min, length-take n mi, length-take n mk)
shortest-take n (some mi) (some ma) none =
    omega (arith, least-min, length-take n mi, length-take n ma)
shortest-take n (some mi) (some ma) (some mk) =
    omega (arith, least-min, length-take n mi, length-take n ma, length-take n mk)

-- The front part of a list by its length, and the rest.
parts :
    {B : Type 0} (n total : ℕ) (front bs ys : List B)
    → front ++ bs ≡ ys
    → length ys ≡ total
    → length front ≡ min n total
    → (front ≡ take n ys) × (bs ≡ drop n ys)
parts n total front bs ys e all cut = elim (dec_lt total n) [
  | no within ↦
      let len : length front ≡ n = omega arith in
      (
        sym (ap (take n) (sym e) ∙ take-append n front bs len),
        sym (ap (drop n) (sym e) ∙ drop-append n front bs len),
      )
  | yes beyond ↦
      let len : length front ≡ total = omega arith in
      let sum : length ys ≡ length front + length bs = ap length (sym e) ∙ length-append front bs in
      let none_left : bs ≡ [] = drop_of_length-le 0 bs (omega arith) in
      let same : ys ≡ front = sym e ∙ (ap (λ rest. front ++ rest) none_left ∙ append-nil front) in
      (
        sym (take_of_length-le n ys (omega arith) ∙ same),
        none_left ∙ sym (drop_of_length-le n ys (omega arith)),
      )
]

cut :
    {X : Type 0} (m n : ℕ) (o : Option (List X))
    → Option.map (λ xs. take n (drop m xs)) o ≡ Option.map (take n) (Option.map (drop m) o)
cut m n none = refl
cut m n (some xs) = refl

module _ {A R : Type 0} (target : Target A R) (a : Option (List A)) (k : Option (Kwargs A)) where
  pub length-whole :
      (mi : Option (List A)) (ma : Option (List (List A))) (mk : Option (List (Kwargs A)))
      (rs : List R)
      → whole target a k mi ma mk ≡ ok rs
      → length rs ≡ shortest mi ma mk
  length-whole mi ma mk rs h =
      length-traverse _ (range (shortest mi ma mk)) rs (sym (map_plus_lem target mi ma a mk k) ∙ h)
      ∙ length-range (shortest mi ma mk)

  whole-parts :
      (n : ℕ) (mi : Option (List A)) (ma : Option (List (List A))) (mk : Option (List (Kwargs A)))
      (rs : List R)
      → whole target a k mi ma mk ≡ ok rs
      → (whole target a k (Option.map (take n) mi) (Option.map (take n) ma) (Option.map (take n) mk)
          ≡ ok (take n rs))
        × (whole target a k
              (Option.map (drop n) mi)
              (Option.map (drop n) ma)
              (Option.map (drop n) mk)
            ≡ ok (drop n rs))
  whole-parts n mi ma mk rs h =
      let (fs, bs, made, rest, e) =
        join_results_ok _ _ rs (whole-split target a k n mi ma mk ∙ h) in
      let len = length-whole _ _ _ fs made ∙ shortest-take n mi ma mk in
      let (f, b) = parts n (shortest mi ma mk) fs bs rs e (length-whole mi ma mk rs h) len in
      (made ∙ ap ok f, rest ∙ ap ok b)

  pub chunk_results-slice :
      (c i : ℕ) (mi : Option (List A)) (ma : Option (List (List A))) (mk : Option (List (Kwargs A)))
      (rs : List R)
      → map_plus target mi ma a mk k ≡ ok rs
      → chunk_results target a k mi ma mk c i ≡ ok (slice (i * c) ((i + 1) * c) rs)
  chunk_results-slice c i mi ma mk rs h =
      let m = i * c in
      let n = (i + 1) * c - i * c in
      (λ j. whole target a k (cut m n mi j) (cut m n ma j) (cut m n mk j))
      ∙ (whole-parts n (Option.map (drop m) mi) (Option.map (drop m) ma) (Option.map (drop m) mk)
          (drop m rs) (whole-parts m mi ma mk rs h).1).0
