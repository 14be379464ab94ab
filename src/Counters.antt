-- ===== src/Counters.antt =====
-- `increase`, `decrease` and `append` of zproc/__init__.py: the atomic functions that come with the
-- package. A dict is a list of keys with values; no two keys share a list that `append` changes.
pub mod Updates
use zproc.Prelude.{
  if◌then◌else◌, key_error, Result, ok, raise, Bytes, bytes_eq, Option, none, some, List, [], ◌∷◌,
}
use zproc.State.Server.{Effect}

abbrev pub Dict : Type 0 → Type 0
Dict V = List (Bytes × V)

-- `state[key]`
unfoldable pub get_item : {V : Type 0} → Bytes → Dict V → Option V
get_item key [] = none
get_item key ((k, v) ∷ d) = let rest = get_item key d in if bytes_eq k key then some v else rest

-- `state[key] = value`
unfoldable pub set_item : {V : Type 0} → Bytes → V → Dict V → Dict V
set_item key value [] = (key, value) ∷ []
set_item key value ((k, v) ∷ d) =
    let rest = set_item key value d in if bytes_eq k key then (k, value) ∷ d else (k, v) ∷ rest

-- What the values do: `v += step`, `v -= step` and `v.append(item)`, each of which may raise.
pub record Operators (V : Type 0) : Type 0 where
  pub plus : V → V → Result V
  pub minus : V → V → Result V
  pub append_item : V → V → Result V

-- A call of one of the three, with its key and its step or item.
pub data Counter (V : Type 0) : Type 0 where
  increase : Bytes → V → Counter V
  decrease : Bytes → V → Counter V
  append : Bytes → V → Counter V

module _ {V : Type 0} (ops : Operators V) where
  unfoldable pub store : Bytes → Result V → Effect (Dict V) (Unit {0})
  unfolding set_item
  store key (ok v) d = (ok tt, set_item key v d)
  store key (raise e) d = (raise e, d)

  unfoldable pub update_item : (V → Result V) → Bytes → Effect (Dict V) (Unit {0})
  unfolding get_item store
  update_item f key d = elim (get_item key d) [
    | none ↦ (raise key_error, d)
    | some v ↦ store key (f v) d
  ]

  -- The body of the function.
  unfoldable pub effect_of : Counter V → Effect (Dict V) (Unit {0})
  unfolding update_item
  effect_of (increase key step) = update_item (λ v. ops.plus v step) key
  effect_of (decrease key step) = update_item (λ v. ops.minus v step) key
  effect_of (append key item) = update_item (λ v. ops.append_item v item) key
