-- ===== src/State/When/Change.antt =====
-- What `when_change` with keys lets through.
use zproc.Prelude.{
  Bool-cases, All, Result, ok, raise, ◌≡◌, refl, ap, ◌∙◌, ◌≢◌, ◌↔◌, ◌⊎◌, inl, inr, Bool, true,
  false, ◌&&◌, ◌||◌, Option, none, some, List, [], ◌∷◌, ◌++◌, map, arith,
}
use zproc.State.When.{
  Objects, lookup, has_key, is_watched, watched_of, select, subscript, any_differs, emit_or_skip,
  when_change_callback,
}
use zproc.State.Watcher.{StateUpdate}

module _ {K V : Type 0} (py : Objects K V) where
  -- Two subscripts give the same: both are missing, or both are there and equal.
  unfoldable pub agree : Option V → Option V → Bool
  agree none none = true
  agree none (some w) = false
  agree (some v) none = false
  agree (some v) (some w) = py.same_value v w

  agree_present :
      (before after : List (K × V)) (k : K) (ks : List K)
      → any_differs py before after (k ∷ ks) ≡ ok false
      → (agree (lookup py before k) (lookup py after k) ≡ true)
        × (any_differs py before after ks ≡ ok false)
  unfolding any_differs subscript agree
  agree_present before after k ks e = ground (arith, e)

  differs_not :
      (before after : List (K × V)) (k : K) (ks : List K)
      → agree (lookup py before k) (lookup py after k) ≡ true
      → lookup py before k ≢ none ⊎ lookup py after k ≢ none
      → any_differs py before after ks ≡ ok false
      → any_differs py before after (k ∷ ks) ≡ ok false
  unfolding any_differs subscript agree
  differs_not before after k ks e p h = ground (arith, e, p, h)

  module _ (key_iff : (k j : K) → (py.same_key k j ≡ true) ↔ (k ≡ j)) where
    lookup-has_key :
        (d : List (K × V)) (k : K)
        → (lookup py d k ≡ none) ↔ (has_key py k (map (λ p. p.0) d) ≡ false)
    unfolding lookup has_key
    lookup-has_key [] k = ground arith
    lookup-has_key ((j, v) ∷ d) k = ground (arith, lookup-has_key d k)

    has_key-append :
        (k : K) (js ks : List K) → has_key py k (js ++ ks) ≡ has_key py k js || has_key py k ks
    unfolding has_key
    has_key-append k [] ks = refl
    has_key-append k (j ∷ js) ks = ground (arith, has_key-append k js ks)

    has_key-watched_of :
        (exclude : Bool) (key_set : List K) (k : K) (ks : List K)
        → has_key py k (watched_of py exclude key_set ks)
          ≡ is_watched py exclude key_set k && has_key py k ks
    unfolding has_key watched_of
    has_key-watched_of exclude key_set k [] = ground arith
    has_key-watched_of exclude key_set k (j ∷ ks) =
        ground (arith, has_key-watched_of exclude key_set k ks, key_iff k j)

    -- No difference at the keys `ks` is agreement at each of them.
    differs_agree :
        (before after : List (K × V)) (ks : List K)
        → any_differs py before after ks ≡ ok false
        → (k : K) → has_key py k ks ≡ true
        → agree (lookup py before k) (lookup py after k) ≡ true
    unfolding has_key
    differs_agree before after [] e k h = ground (arith, h)
    differs_agree before after (j ∷ ks) e k h =
        let (here, rest) = agree_present before after j ks e in
        elim (Bool-cases (py.same_key k j)) [
          | inl same ↦ rw ((key_iff k j).0 same) here
          | inr differs ↦ differs_agree before after ks rest k (rw differs at h)
        ]

    agree_differs :
        (before after : List (K × V)) (ks : List K)
        → All
            (λ k.
              (agree (lookup py before k) (lookup py after k) ≡ true)
              × (lookup py before k ≢ none ⊎ lookup py after k ≢ none))
            ks
        → any_differs py before after ks ≡ ok false
    unfolding any_differs
    agree_differs before after [] h = refl
    agree_differs before after (k ∷ ks) ((e, p), h) =
        differs_not before after k ks e p (agree_differs before after ks h)

    All-has_key {κ} :
        {P : K → Type κ} (ks : List K) → ((k : K) → has_key py k ks ≡ true → P k) → All P ks
    unfolding has_key
    All-has_key [] h = tt
    All-has_key (k ∷ ks) h =
        (h k (ground (arith, key_iff k k)), All-has_key ks (λ j e. h j (ground (arith, e))))

    has_key-select :
        (exclude : Bool) (key_set : List K) (before after : List (K × V)) (k : K)
        → has_key py k (select py exclude key_set before after)
          ≡ is_watched py exclude key_set k
            && (has_key py k (map (λ p. p.0) before) || has_key py k (map (λ p. p.0) after))
    unfolding select
    has_key-select exclude key_set before after k =
        has_key-watched_of exclude key_set k _
        ∙ ap (λ b. is_watched py exclude key_set k && b)
            (has_key-append k (map (λ p. p.0) before) (map (λ p. p.0) after))

    -- All watched keys agree, in a dict or not, exactly if the loop sees no difference.
    select_lem :
        (exclude : Bool) (key_set : List K) (before after : List (K × V))
        → (any_differs py before after (select py exclude key_set before after) ≡ ok false) ↔ (
            (k : K)
            → is_watched py exclude key_set k ≡ true
            → agree (lookup py before k) (lookup py after k) ≡ true)
    unfolding agree
    select_lem exclude key_set before after = (
      (λ e k watched. elim (Bool-cases (has_key py k (select py exclude key_set before after))) [
        | inl there ↦ differs_agree before after _ e k there
        | inr missing ↦ ground (
          arith,
          missing,
          watched,
          has_key-select exclude key_set before after k,
          lookup-has_key before k,
          lookup-has_key after k,
        )
      ]),
      λ h. agree_differs before after _ (
          All-has_key _ (λ k there. (
            h k (ground (arith, there, has_key-select exclude key_set before after k)),
            ground (
              arith,
              there,
              has_key-select exclude key_set before after k,
              lookup-has_key before k,
              lookup-has_key after k,
            ),
          ))),
    )

  emit_or_skip_lem :
      (r : Result Bool) (after : List (K × V))
      → ((emit_or_skip py r after ≡ none) ↔ (r ≡ ok false))
        × ((emit_or_skip py r after ≡ none) ⊎ (emit_or_skip py r after ≡ some after))
  unfolding emit_or_skip
  emit_or_skip_lem (ok true) after = ground arith
  emit_or_skip_lem (ok false) after = ground arith
  emit_or_skip_lem (raise e) after = ground arith

-- With keys, `when_change` skips an update exactly if every watched key (one of the keys, or with
-- `exclude` any other) is in neither of the two dicts or has equal values in both; it gives the dict
-- after the update otherwise, so also where a watched key has come or gone. The order in which the
-- keys are compared does not matter. Hypothesis: `==` on keys is equality.
pub when_change_lem :
    {K V : Type 0} (py : Objects K V)
    → ((k j : K) → (py.same_key k j ≡ true) ↔ (k ≡ j))
    → (exclude : Bool) (key : K) (keys : List K) (u : StateUpdate (List (K × V)))
    → let result = when_change_callback py exclude (key ∷ keys) u in
      ((result ≡ none) ↔ (
        (k : K)
        → is_watched py exclude (key ∷ keys) k ≡ true
        → agree py (lookup py u.before k) (lookup py u.after k) ≡ true))
      × ((result ≡ none) ⊎ (result ≡ some u.after))
unfolding when_change_callback
when_change_lem py key_iff exclude key keys u =
    let selected = select py exclude (key ∷ keys) u.before u.after in
    let (skips, either) = emit_or_skip_lem py (any_differs py u.before u.after selected) u.after in
    let agreed = select_lem py key_iff exclude (key ∷ keys) u.before u.after in
    ((λ e. agreed.0 (skips.0 e), λ h. skips.1 (agreed.1 h)), either)
