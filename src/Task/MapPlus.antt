-- ===== src/Task/MapPlus.antt =====
-- `map_plus` of zproc/task/map_plus.py. Positional arguments are a list of values, keyword
-- arguments a list of names with values; `target` may raise.
pub mod Rows
use zproc.Prelude.{
  if◌then◌else◌, type_error, Result, ok, raise, ◌>>=◌, traverse, Bool, false, ◌||◌, Option, none,
  some, List, [], ◌∷◌, ◌++◌,
}
use Prim.Native.String.{String}
use mathlib.Core.List.{zip}
use text.Mathlib.Text.{◌==◌ as str_eq}

abbrev pub Kwargs : Type 0 → Type 0
Kwargs A = List (String × A)

abbrev pub Target : Type 0 → Type 0 → Type 0
Target A R = List A → Kwargs A → Result R

-- `if a is None: a = []` and `if k is None: k = {}`
abbrev pub or_empty {ℓ} : {B : Type ℓ} → Option (List B) → List B
or_empty none = []
or_empty (some xs) = xs

module _ {A : Type 0} where
  has_keyword : String → Kwargs A → Bool
  has_keyword name [] = false
  has_keyword name ((k, v) ∷ kw) = str_eq k name || has_keyword name kw

  -- `f(**xs, **ys)`: a keyword given twice is a TypeError.
  pub merge : Kwargs A → Kwargs A → Result (Kwargs A)
  merge [] ys = ok ys
  merge ((k, v) ∷ xs) ys = do
    rest ← merge xs ys
    if has_keyword k rest then raise type_error else ok ((k, v) ∷ rest)

module _ {A R : Type 0} where
  -- target(*positional, **mki, **k)
  unfoldable pub call_with : Target A R → Kwargs A → List A → Kwargs A → Result R
  call_with target k positional mki = do kw ← merge mki k; target positional kw

  -- `mi`, `ma` and `mk` are present or None, and each case is a branch of the source.
  pub map_rows :
      Target A R
      → Option (List A)
      → Option (List (List A))
      → List A
      → Option (List (Kwargs A))
      → Kwargs A
      → Result (List R)
  map_rows target none none a none k = ok []
  map_rows target none none a (some mk) k = traverse (λ mki. call_with target k a mki) mk
  map_rows target (some mi) none a none k = traverse (λ mii. target (mii ∷ a) k) mi
  map_rows target none (some ma) a none k = traverse (λ mai. target (mai ++ a) k) ma
  map_rows target none (some ma) a (some mk) k =
      traverse (λ (r : List A × Kwargs A). call_with target k (r.0 ++ a) r.1) (zip ma mk)
  map_rows target (some mi) none a (some mk) k =
      traverse (λ (r : A × Kwargs A). call_with target k (r.0 ∷ a) r.1) (zip mi mk)
  map_rows target (some mi) (some ma) a none k =
      traverse (λ (r : A × List A). target (r.0 ∷ (r.1 ++ a)) k) (zip mi ma)
  map_rows target (some mi) (some ma) a (some mk) k =
      traverse (λ (r : A × (List A × Kwargs A)). call_with target k (r.0 ∷ (r.1.0 ++ a)) r.1.1)
        (zip mi (zip ma mk))

  unfoldable pub map_plus :
      Target A R
      → Option (List A)
      → Option (List (List A))
      → Option (List A)
      → Option (List (Kwargs A))
      → Option (Kwargs A)
      → Result (List R)
  unfolding map_rows
  map_plus target mi ma a mk k = map_rows target mi ma (or_empty a) mk (or_empty k)
