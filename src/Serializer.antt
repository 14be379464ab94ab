-- ===== src/Serializer.antt =====
-- zproc/serializer.py: unpickling with exceptions raised again, and the two caches of functions. A
-- cache is the list of its items, the newest first; pickle, cloudpickle and `hash` are parameters.
pub mod Caches
use zproc.Prelude.{
  ◌==◌, if◌then◌else◌, Error, Result, ok, raise, ℕ, Option, none, some, List, [], ◌∷◌,
}

-- What unpickling gives: a value, or a RemoteException with the exception in it.
pub data Unpickled (V : Type 0) : Type 0 where
  plain : V → Unpickled V
  remote_exception : Error → Unpickled V

-- `loads`, and `reraise` of zproc/exceptions.py
unfoldable pub loads : {B V : Type 0} → (B → Result (Unpickled V)) → B → Result V
loads pickle_loads bytes_obj = elim (pickle_loads bytes_obj) [
  | raise e ↦ raise e
  | ok (plain v) ↦ ok v
  | ok (remote_exception e) ↦ raise e
]

module _ {V : Type 0} where
  unfoldable pub cache_get : List (ℕ × V) → ℕ → Option V
  cache_get [] k = none
  cache_get ((j, v) ∷ cache) k = let rest = cache_get cache k in if j == k then some v else rest

  -- `try: v = cache[k]`, `except KeyError: v = make(); cache[k] = v`
  unfoldable pub get_or_make : Option V → ℕ → Result V → List (ℕ × V) → Result V × List (ℕ × V)
  get_or_make (some v) k made cache = (ok v, cache)
  get_or_make none k (ok v) cache = (ok v, (k, v) ∷ cache)
  get_or_make none k (raise e) cache = (raise e, cache)

-- What the module calls: `hash` of the code of a function, if it has one, and of any object, and
-- cloudpickle.
pub record Pickler (Fn B : Type 0) : Type 0 where
  pub code_hash : Fn → Option ℕ
  pub object_hash : Fn → ℕ
  pub bytes_hash : B → ℕ
  pub cloud_dumps : Fn → Result B
  pub cloud_loads : B → Result Fn

module _ {Fn B : Type 0} (py : Pickler Fn B) where
  unfoldable pub get_fn_hash : Fn → ℕ
  get_fn_hash fn = elim (py.code_hash fn) [ some h ↦ h | none ↦ py.object_hash fn ]

  unfoldable pub dumps_fn : Fn → List (ℕ × B) → Result B × List (ℕ × B)
  unfolding get_or_make cache_get
  dumps_fn fn cache =
      let fn_hash = get_fn_hash fn in
      get_or_make (cache_get cache fn_hash) fn_hash (py.cloud_dumps fn) cache

  unfoldable pub loads_fn : B → List (ℕ × Fn) → Result Fn × List (ℕ × Fn)
  unfolding get_or_make cache_get
  loads_fn fn_bytes cache =
      let fn_bytes_hash = py.bytes_hash fn_bytes in
      get_or_make (cache_get cache fn_bytes_hash) fn_bytes_hash (py.cloud_loads fn_bytes) cache

  -- The calls of a process, one after the other.
  unfoldable pub dumps_all : List Fn → List (ℕ × B) → List (ℕ × B)
  unfolding dumps_fn
  dumps_all [] cache = cache
  dumps_all (fn ∷ fns) cache = dumps_all fns (dumps_fn fn cache).1

  unfoldable pub loads_all : List B → List (ℕ × Fn) → List (ℕ × Fn)
  unfolding loads_fn
  loads_all [] cache = cache
  loads_all (b ∷ bs) cache = loads_all bs (loads_fn b cache).1
