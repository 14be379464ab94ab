-- ===== src/Counters/Updates.antt =====
-- Updates of counters, one after the other.

use zproc.Prelude.{
  if◌then◌else◌, Bool-cases, Option-cases, Result, ok, raise, Result-cases, Bytes, bytes_eq,
  bytes_eq_iff, ℕ, ◌≡◌, refl, sym, ap, ◌∙◌, inl, inr, Bool, true, false, Option, none, some, List,
  [], ◌∷◌, arith,
}
use zproc.Counters.{
  Dict, get_item, set_item, Operators, Counter, increase, decrease, append, store, update_item,
  effect_of,
}
use zproc.State.Server.{Env, run_fn_atomically, on_state, StateServer}
use zproc.State.Server.Contract.{IsValid, view, after_copy, call_spec, load_spec, command_spec}
use zproc.State.Handlers.{serve_request}
use zproc.State.Server.Atomic.{serve_request_atomic}
use zproc.State.Client.{serve_if_running}
use zproc.State.Client.Calls.{serve_if_running-running, serve_if_running-start}

module _ {V : Type 0} where
  get_item-set_item :
      (key k : Bytes) (v : V) (d : Dict V)
      → get_item k (set_item key v d) ≡ (if bytes_eq key k then some v else get_item k d)
  unfolding get_item set_item
  get_item-set_item key k v [] = ground arith
  get_item-set_item key k v ((j, w) ∷ d) = elim (Bool-cases (bytes_eq j key)) [
    | inl e ↦ ground (arith, e, ap (λ x. bytes_eq x k) ((bytes_eq_iff j key).0 e))
    | inr e ↦ ground (
      arith,
      e,
      get_item-set_item key k v d,
      λ (h : bytes_eq key k ≡ true). sym (ap (λ x. bytes_eq j x) ((bytes_eq_iff key k).0 h)),
    )
  ]

module _ {V : Type 0} (ops : Operators V) where
  -- What a call makes of the value under `k`: an exception leaves it.
  unfoldable pub or_left : V → Result V → Option V
  or_left v (ok w) = some w
  or_left v (raise e) = some v

  unfoldable pub change : (V → Result V) → Bool → Option V → Option V
  unfolding or_left
  change f on none = none
  change f false (some v) = some v
  change f true (some v) = or_left v (f v)

  unfoldable pub item_after : Counter V → Bytes → Option V → Option V
  unfolding change
  item_after (increase key step) k o = change (λ v. ops.plus v step) (bytes_eq key k) o
  item_after (decrease key step) k o = change (λ v. ops.minus v step) (bytes_eq key k) o
  item_after (append key item) k o = change (λ v. ops.append_item v item) (bytes_eq key k) o

  -- The value under a key of a namespace, with the calls on it alone.
  unfoldable pub item_after_all :
      List (Bytes × (ℕ × (Bytes × Counter V))) → Bytes → Bytes → Option V → Option V
  unfolding item_after
  item_after_all [] ns k o = o
  item_after_all ((ident, (stamp, (ns', c))) ∷ calls) ns k o =
      item_after_all calls ns k (if bytes_eq ns ns' then item_after c k o else o)

module _ {V M : Type 0} (env : Env (Dict V) M (Counter V) (Unit {0})) where
  -- The calls of the clients in the order in which the server gets them, each on a namespace.
  unfoldable pub serve_calls :
      List (Bytes × (ℕ × (Bytes × Counter V)))
      → StateServer (Dict V) (Unit {0})
      → StateServer (Dict V) (Unit {0})
  unfolding serve_if_running
  serve_calls [] s = s
  serve_calls ((ident, (stamp, (ns, c))) ∷ calls) s =
      serve_calls calls (serve_if_running env ident stamp (on_state ns (run_fn_atomically c)) s)

-- The functions are what `loads_fn` gives, None can be pickled, and a dict is its deep copy.
module _ {V M : Type 0} (ops : Operators V) (env : Env (Dict V) M (Counter V) (Unit {0}))
    (loads : (c : Counter V) → env.load_fn c ≡ ok (effect_of ops c))
    (none_picklable : env.result_picklable tt ≡ true)
    (copies : (d : Dict V) → env.deepcopy d ≡ ok d) where
  same_item : (key k : Bytes) (d : Dict V) → bytes_eq key k ≡ true → get_item key d ≡ get_item k d
  same_item key k d h = ap (λ x. get_item x d) ((bytes_eq_iff key k).0 h)

  get_item-update_item :
      (f : V → Result V) (key k : Bytes) (d : Dict V)
      → get_item k (call_spec env (update_item ops f key) d).1
        ≡ change ops f (bytes_eq key k) (get_item k d)
  unfolding call_spec after_copy update_item store change or_left
  get_item-update_item f key k d =
      let same = same_item key k d in
      elim (Option-cases (get_item key d)) [
        | inl e ↦ elim (Option-cases (get_item k d)) [
          | inl o ↦ ground (arith, copies d, e, o)
          | inr (v, o) ↦ ground (arith, copies d, e, o, same)
        ]
        | inr (v, e) ↦ elim (Result-cases (f v)) [
          | inl (w, r) ↦
              ground (arith, copies d, e, r, none_picklable, get_item-set_item key k w d, same)
          | inr (x, r) ↦ elim (Option-cases (get_item k d)) [
            | inl o ↦ ground (arith, copies d, e, r, o)
            | inr (u, o) ↦ ground (arith, copies d, e, r, o, same)
          ]
        ]
      ]

  get_item-command :
      (c : Counter V) (k : Bytes) (d : Dict V)
      → get_item k (command_spec env (run_fn_atomically c) d).1 ≡ item_after ops c k (get_item k d)
  unfolding command_spec load_spec item_after effect_of
  get_item-command (increase key step) k d =
      ap (λ x. get_item k (load_spec env x d).1) (loads (increase key step))
      ∙ get_item-update_item (λ v. ops.plus v step) key k d
  get_item-command (decrease key step) k d =
      ap (λ x. get_item k (load_spec env x d).1) (loads (decrease key step))
      ∙ get_item-update_item (λ v. ops.minus v step) key k d
  get_item-command (append key item) k d =
      ap (λ x. get_item k (load_spec env x d).1) (loads (append key item))
      ∙ get_item-update_item (λ v. ops.append_item v item) key k d

  item_served :
      (c : Counter V) (ns ns' k : Bytes) (s s' : StateServer (Dict V) (Unit {0}))
      → view env s' ns ≡ (
          if bytes_eq ns ns'
          then (command_spec env (run_fn_atomically c) (view env s ns')).1
          else view env s ns)
      → get_item k (view env s' ns) ≡ (
          if bytes_eq ns ns'
          then item_after ops c k (get_item k (view env s ns))
          else get_item k (view env s ns))
  item_served c ns ns' k s s' e = elim (Bool-cases (bytes_eq ns ns')) [
    | inl h ↦
        let same : ns ≡ ns' = (bytes_eq_iff ns ns').0 h in
        let found : view env s' ns ≡ (command_spec env (run_fn_atomically c) (view env s ns')).1 =
          e ∙ rw h in
        ap (get_item k) found
        ∙ (ap (λ x. get_item k (command_spec env (run_fn_atomically c) (view env s x)).1) (sym same)
            ∙ (get_item-command c k (view env s ns) ∙ rw h))
    | inr h ↦ let left : view env s' ns ≡ view env s ns = e ∙ rw h in ap (get_item k) left ∙ rw h
  ]

  serve_calls-start :
      (calls : List (Bytes × (ℕ × (Bytes × Counter V)))) (s : StateServer (Dict V) (Unit {0}))
      → (serve_calls env calls s).is_running ≡ true
      → s.is_running ≡ true
  unfolding serve_calls
  serve_calls-start [] s running = running
  serve_calls-start ((ident, (stamp, (ns, c))) ∷ calls) s running =
      serve_if_running-start env ident stamp (on_state ns (run_fn_atomically c)) s
        (serve_calls-start calls _ running)

  -- No update is lost: whatever clients call `increase`, `decrease` and `append` in whatever order, the
  -- value under a key of a namespace is what the calls on that key and namespace make of it, one after
  -- the other, each from the value that the one before has left; a call that raises leaves it.
  -- Hypotheses: the server is valid, and is still running after the calls; `loads_fn` gives back the
  -- function that was sent; None can be pickled; and the deep copy of a dict is a dict with the same
  -- contents, and does not raise.
  pub serve_calls_lem :
      (calls : List (Bytes × (ℕ × (Bytes × Counter V)))) (s : StateServer (Dict V) (Unit {0}))
      (ns k : Bytes)
      → IsValid s
      → (serve_calls env calls s).is_running ≡ true
      → get_item k (view env (serve_calls env calls s) ns)
        ≡ item_after_all ops calls ns k (get_item k (view env s ns))
  unfolding serve_calls item_after_all
  serve_calls_lem [] s ns k v running = refl
  serve_calls_lem ((ident, (stamp, (ns', c))) ∷ calls) s ns k v running =
      let served = serve_request_atomic env ident stamp ns' (run_fn_atomically c) s v in
      let r = on_state ns' (run_fn_atomically c) in
      let now = serve_if_running-start env ident stamp r s (serve_calls-start calls _ running) in
      let same = serve_if_running-running env ident stamp r s now in
      let s' = serve_request env ident stamp r s in
      ap (λ t. get_item k (view env (serve_calls env calls t) ns)) same
      ∙ serve_calls_lem calls s' ns k served.1
          (sym (ap (λ t. (serve_calls env calls t).is_running) same) ∙ running)
      ∙ ap (item_after_all ops calls ns k) (item_served c ns ns' k s s' (served.0 ns))
