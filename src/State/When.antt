-- ===== src/State/When.antt =====
-- The callbacks of `when_change` and `when`, and the tests of `when_truthy` to `when_available`, in
-- zproc/state/state.py. A dict is the list of its items.
pub mod Change
pub mod Cases
use zproc.Prelude.{
  if◌then◌else◌, key_error, Result, ok, raise, ◌>>=◌, Bool, true, false, not, ◌||◌, Option, none,
  some, List, [], ◌∷◌, ◌++◌, map,
}
use zproc.State.Watcher.{StateUpdate}

-- What Python's objects answer: `==` on keys and on values, bool(value), and `value is None`.
pub record Objects (K V : Type 0) : Type 0 where
  pub same_key : K → K → Bool
  pub same_value : V → V → Bool
  pub truthy : V → Bool
  pub is_none_value : V → Bool

module _ {K V : Type 0} (py : Objects K V) where
  unfoldable pub lookup : List (K × V) → K → Option V
  lookup [] k = none
  lookup ((j, v) ∷ d) k = let rest = lookup d k in if py.same_key k j then some v else rest

  unfoldable pub has_key : K → List K → Bool
  has_key k [] = false
  has_key k (j ∷ js) = let rest = has_key k js in py.same_key k j || rest

  -- `key_set`, or what is outside it
  unfoldable pub is_watched : Bool → List K → K → Bool
  unfolding has_key
  is_watched exclude key_set k = if exclude then not (has_key k key_set) else has_key k key_set

  unfoldable pub watched_of : Bool → List K → List K → List K
  unfolding is_watched
  watched_of exclude key_set [] = []
  watched_of exclude key_set (k ∷ ks) =
      let rest = watched_of exclude key_set ks in
      if is_watched exclude key_set k then k ∷ rest else rest

  -- The set has no order and no duplicates: neither shows in the callback.
  unfoldable pub select : Bool → List K → List (K × V) → List (K × V) → List K
  unfolding watched_of
  select exclude key_set before after =
      watched_of exclude key_set (map (λ p. p.0) before ++ map (λ p. p.0) after)

  -- `d[k]`
  unfoldable pub subscript : Option V → Result V
  subscript none = raise key_error
  subscript (some v) = ok v

  -- any(before[k] != after[k] for k in ks)
  unfoldable pub any_differs : List (K × V) → List (K × V) → List K → Result Bool
  unfolding lookup subscript
  any_differs before after [] = ok false
  any_differs before after (k ∷ ks) =
      let rest = any_differs before after ks in
      do
        v ← subscript (lookup before k)
        w ← subscript (lookup after k)
        if py.same_value v w then rest else ok true

  -- A KeyError counts as a change, another exception cannot happen.
  unfoldable pub emit_or_skip : Result Bool → List (K × V) → Option (List (K × V))
  emit_or_skip (ok false) after = none
  emit_or_skip (ok true) after = some after
  emit_or_skip (raise e) after = some after

  -- The callback of `when_change`: `none` is _SkipStateUpdate.
  unfoldable pub when_change_callback :
      Bool → List K → StateUpdate (List (K × V)) → Option (List (K × V))
  unfolding select any_differs emit_or_skip
  when_change_callback exclude [] u = some u.after
  when_change_callback exclude (k ∷ ks) u =
      let key_set = k ∷ ks in
      emit_or_skip (any_differs u.before u.after (select exclude key_set u.before u.after)) u.after

  -- The callback of `when`
  unfoldable pub when_callback :
      (List (K × V) → Bool) → StateUpdate (List (K × V)) → Option (List (K × V))
  when_callback test_fn u = if test_fn u.after then some u.after else none

  -- A test on `snapshot[key]` that is false where the key is missing.
  unfoldable pub test_at : (V → Bool) → K → List (K × V) → Bool
  unfolding lookup
  test_at test key snapshot = elim (lookup snapshot key) [ none ↦ false | some v ↦ test v ]

  unfoldable pub when_truthy : K → StateUpdate (List (K × V)) → Option (List (K × V))
  unfolding when_callback test_at
  when_truthy key = when_callback (test_at py.truthy key)

  unfoldable pub when_falsy : K → StateUpdate (List (K × V)) → Option (List (K × V))
  unfolding when_callback test_at
  when_falsy key = when_callback (test_at (λ v. not (py.truthy v)) key)

  unfoldable pub when_equal : K → V → StateUpdate (List (K × V)) → Option (List (K × V))
  unfolding when_callback test_at
  when_equal key value = when_callback (test_at (λ v. py.same_value v value) key)

  unfoldable pub when_not_equal : K → V → StateUpdate (List (K × V)) → Option (List (K × V))
  unfolding when_callback test_at
  when_not_equal key value = when_callback (test_at (λ v. not (py.same_value v value)) key)

  unfoldable pub when_none : K → StateUpdate (List (K × V)) → Option (List (K × V))
  unfolding when_callback test_at
  when_none key = when_callback (test_at py.is_none_value key)

  unfoldable pub when_not_none : K → StateUpdate (List (K × V)) → Option (List (K × V))
  unfolding when_callback test_at
  when_not_none key = when_callback (test_at (λ v. not (py.is_none_value v)) key)

  unfoldable pub when_available : K → StateUpdate (List (K × V)) → Option (List (K × V))
  unfolding when_callback has_key
  when_available key = when_callback (λ snapshot. has_key key (map (λ p. p.0) snapshot))
