-- ===== src/State/When/Cases.antt =====
-- How the tests of `when_truthy` to `when_available` share the updates among them.
use zproc.Prelude.{
  ◌≡◌, refl, ◌⊎◌, Bool, true, false, not, Option, none, some, List, [], ◌∷◌, map, arith,
}
use zproc.State.Watcher.{StateUpdate}
use zproc.State.When.{
  Objects, lookup, has_key, when_callback, test_at, when_truthy, when_falsy, when_equal,
  when_not_equal, when_none, when_not_none, when_available,
}

-- What is given where the key is there, is given by one of the two callbacks, and not by the other.
pub Shares : {D : Type 0} → Option D → Option D → Option D → Type 0
Shares a b available = ((a ≡ available) × (b ≡ none)) ⊎ ((b ≡ available) × (a ≡ none))

module _ {K V : Type 0} (py : Objects K V) (key : K) where
  -- `when_available` looks at the keys, the others at the value.
  lookup_available :
      (d : List (K × V))
      → has_key py key (map (λ p. p.0) d) ≡ elim (lookup py d key) [ none ↦ false | some v ↦ true ]
  unfolding lookup has_key
  lookup_available [] = refl
  lookup_available ((j, v) ∷ d) = ground (arith, lookup_available d)

  test_at-Shares :
      (test : V → Bool) (u : StateUpdate (List (K × V)))
      → Shares
          (when_callback py (test_at py test key) u)
          (when_callback py (test_at py (λ v. not (test v)) key) u)
          (when_available py key u)
  unfolding Shares when_callback test_at when_available
  test_at-Shares test u = ground (arith, lookup_available u.after)

-- An update that `when_available` gives is given by exactly one of `when_truthy` and `when_falsy`, one
-- of `when_equal` and `when_not_equal`, and one of `when_none` and `when_not_none`, as the same dict;
-- one that it skips is skipped by all six. So a missing key is neither falsy, nor unequal, nor none.
pub when_cases :
    {K V : Type 0} (py : Objects K V) (key : K) (value : V) (u : StateUpdate (List (K × V)))
    → let available = when_available py key u in
      Shares (when_truthy py key u) (when_falsy py key u) available
      × Shares (when_equal py key value u) (when_not_equal py key value u) available
      × Shares (when_none py key u) (when_not_none py key u) available
unfolding when_truthy when_falsy when_equal when_not_equal when_none when_not_none
when_cases py key value u = (
  test_at-Shares py key py.truthy u,
  test_at-Shares py key (λ v. py.same_value v value) u,
  test_at-Shares py key py.is_none_value u,
)
