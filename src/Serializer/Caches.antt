-- ===== src/Serializer/Caches.antt =====
-- What the caches of functions give.
use zproc.Prelude.{
  ◌==◌, if◌then◌else◌, Option-cases, All, Result, ok, raise, ◌>>=◌, Result-cases, ℕ, ◌≡◌, refl, sym,
  ap, ◌∙◌, inl, inr, Option, none, some, List, [], ◌∷◌, arith,
}
use zproc.Serializer.{
  cache_get, get_or_make, Pickler, get_fn_hash, dumps_fn, loads_fn, dumps_all, loads_all,
}

-- A cache whose items all come from calls: `make x` was the value under the hash of `x`.
module _ {X V : Type 0} (key : X → ℕ) (make : X → Result V) where
  -- The value of the first `x` of the list with this key whose value could be made.
  unfoldable pub first_made : ℕ → List X → Option V
  first_made k [] = none
  first_made k (x ∷ xs) =
      let rest = first_made k xs in
      if key x == k then elim (make x) [ ok v ↦ some v | raise e ↦ rest ] else rest

  -- The value, or the one that is there.
  unfoldable pub or_made : Option V → Result V → Result V
  or_made (some v) r = ok v
  or_made none r = r

  unfoldable pub call : X → List (ℕ × V) → Result V × List (ℕ × V)
  call x cache = get_or_make (cache_get cache (key x)) (key x) (make x) cache

  unfoldable pub calls : List X → List (ℕ × V) → List (ℕ × V)
  calls [] cache = cache
  calls (x ∷ xs) cache = calls xs (call x cache).1

  abbrev or_else : Option V → Option V → Option V
  or_else (some v) o = some v
  or_else none o = o

  or_else_assoc : (a b c : Option V) → or_else (or_else a b) c ≡ or_else a (or_else b c)
  or_else_assoc none b c = refl
  or_else_assoc (some v) b c = refl

  first_made-cons :
      (k : ℕ) (x : X) (xs : List X)
      → first_made k (x ∷ xs) ≡ or_else (first_made k (x ∷ [])) (first_made k xs)
  unfolding first_made
  first_made-cons k x xs = elim (Result-cases (make x)) [
    | inl (v, e) ↦ ground (arith, e)
    | inr (r, e) ↦ ground (arith, e)
  ]

  cache_get-call :
      (x : X) (k : ℕ) (o : Option V) (cache : List (ℕ × V))
      → cache_get cache (key x) ≡ o
      → cache_get (get_or_make o (key x) (make x) cache).1 k
        ≡ or_else (cache_get cache k) (first_made k (x ∷ []))
  unfolding get_or_make first_made cache_get
  cache_get-call x k (some v) cache e =
      ground (arith, e, ap (cache_get cache) {x = key x} {y = k}, Option-cases (cache_get cache k))
  cache_get-call x k none cache e = elim (Result-cases (make x)) [
    | inl (v, m) ↦
        ground
          (arith, e, m, ap (cache_get cache) {x = key x} {y = k}, Option-cases (cache_get cache k))
    | inr (r, m) ↦ ground (arith, e, m, Option-cases (cache_get cache k))
  ]

  cache_get-calls :
      (xs : List X) (k : ℕ) (cache : List (ℕ × V))
      → cache_get (calls xs cache) k ≡ or_else (cache_get cache k) (first_made k xs)
  unfolding calls call
  cache_get-calls [] k cache = unfold first_made in ground (arith, Option-cases (cache_get cache k))
  cache_get-calls (x ∷ xs) k cache =
      cache_get-calls xs k (call x cache).1
      ∙ (ap (λ o. or_else o (first_made k xs))
            (cache_get-call x k (cache_get cache (key x)) cache refl)
          ∙ (or_else_assoc (cache_get cache k) (first_made k (x ∷ [])) (first_made k xs)
              ∙ ap (or_else (cache_get cache k)) (sym (first_made-cons k x xs))))

  or_made_same :
      (xs : List X) (x : X)
      → All (λ y. key y ≡ key x → make y ≡ make x) xs
      → or_made (first_made (key x) xs) (make x) ≡ make x
  unfolding or_made first_made
  or_made_same [] x h = refl
  or_made_same (y ∷ xs) x (same, h) = elim (Result-cases (make y)) [
    | inl (v, e) ↦ ground (arith, e, same, or_made_same xs x h)
    | inr (r, e) ↦ ground (arith, e, same, or_made_same xs x h)
  ]

  -- A call after others gives what the first of them with the same key was given.
  pub call_lem :
      (xs : List X) (x : X) → (call x (calls xs [])).0 ≡ or_made (first_made (key x) xs) (make x)
  unfolding call or_made get_or_make
  call_lem xs x =
      let e : cache_get (calls xs []) (key x) ≡ first_made (key x) xs =
        cache_get-calls xs (key x) [] ∙ unfold cache_get in refl in
      ground (arith, e, Option-cases (first_made (key x) xs), Result-cases (make x))

  -- So it gives the value of `x`, if no call before it had this key and another value.
  pub call_faithful :
      (xs : List X) (x : X)
      → All (λ y. key y ≡ key x → make y ≡ make x) xs
      → (call x (calls xs [])).0 ≡ make x
  call_faithful xs x h = call_lem xs x ∙ or_made_same xs x h

module _ {Fn B : Type 0} (py : Pickler Fn B) where
  dumps_all-calls :
      (fns : List Fn) (cache : List (ℕ × B))
      → dumps_all py fns cache ≡ calls (get_fn_hash py) py.cloud_dumps fns cache
  unfolding dumps_all dumps_fn calls call
  dumps_all-calls [] cache = refl
  dumps_all-calls (fn ∷ fns) cache = dumps_all-calls fns (dumps_fn py fn cache).1

  loads_all-calls :
      (bs : List B) (cache : List (ℕ × Fn))
      → loads_all py bs cache ≡ calls py.bytes_hash py.cloud_loads bs cache
  unfolding loads_all loads_fn calls call
  loads_all-calls [] cache = refl
  loads_all-calls (b ∷ bs) cache = loads_all-calls bs (loads_fn py b cache).1

-- In a process that has pickled the functions `fns` before, `dumps_fn` gives the bytes of the first of
-- them that has the hash of `fn`, whatever function that is, and those of `fn` if there is none. The
-- hash is that of the code object, so two closures made by one piece of code have the same.
pub dumps_fn_lem :
    {Fn B : Type 0} (py : Pickler Fn B) (fns : List Fn) (fn : Fn)
    → (dumps_fn py fn (dumps_all py fns [])).0
      ≡ or_made
          (get_fn_hash py)
          py.cloud_dumps
          (first_made (get_fn_hash py) py.cloud_dumps (get_fn_hash py fn) fns)
          (py.cloud_dumps fn)
unfolding dumps_fn call
dumps_fn_lem py fns fn =
    ap (λ cache. (dumps_fn py fn cache).0) (dumps_all-calls py fns [])
    ∙ call_lem (get_fn_hash py) py.cloud_dumps fns fn

-- A function that one process pickles by `dumps_fn` and another loads by `loads_fn` is what cloudpickle
-- makes of it, whatever both have pickled and loaded before, exceptions included. Hypotheses: the
-- functions and the bytes before that have the same hash are pickled and loaded to the same.
pub loads_fn-dumps_fn :
    {Fn B : Type 0} (py : Pickler Fn B) (fns : List Fn) (bs : List B) (fn : Fn)
    → All (λ g. get_fn_hash py g ≡ get_fn_hash py fn → py.cloud_dumps g ≡ py.cloud_dumps fn) fns
    → ((b : B)
        → py.cloud_dumps fn ≡ ok b
        → All (λ c. py.bytes_hash c ≡ py.bytes_hash b → py.cloud_loads c ≡ py.cloud_loads b) bs)
    → ((dumps_fn py fn (dumps_all py fns [])).0 >>= λ b. (loads_fn py b (loads_all py bs [])).0)
      ≡ (py.cloud_dumps fn >>= py.cloud_loads)
unfolding dumps_fn loads_fn call
loads_fn-dumps_fn {B = B} py fns bs fn same same_bytes =
    let dumped : (dumps_fn py fn (dumps_all py fns [])).0 ≡ py.cloud_dumps fn =
      ap (λ cache. (dumps_fn py fn cache).0) (dumps_all-calls py fns [])
      ∙ call_faithful (get_fn_hash py) py.cloud_dumps fns fn same in
    let loaded : (b : B)
        → py.cloud_dumps fn ≡ ok b
        → (loads_fn py b (loads_all py bs [])).0 ≡ py.cloud_loads b =
      λ b e.
        ap (λ cache. (loads_fn py b cache).0) (loads_all-calls py bs [])
        ∙ call_faithful py.bytes_hash py.cloud_loads bs b (same_bytes b e) in
    ap (λ r. r >>= λ b. (loads_fn py b (loads_all py bs [])).0) dumped
    ∙ elim (Result-cases (py.cloud_dumps fn)) [ inl (b, e) ↦ rw e (loaded b e) | inr (x, e) ↦ rw e ]
