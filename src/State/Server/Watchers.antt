-- ===== src/State/Server/Watchers.antt =====
-- Which update a watcher gets, and when: `resolve_watcher` and `resolve_pending`.

use zproc.Prelude.{
  ltb, if◌then◌else◌, length, drop, length-map, All, get_or, Bytes, bytes_eq, ℕ, zero, suc, ◌≤◌,
  ◌<◌, ◌≡◌, refl, sym, ap, ◌∙◌, subst, Bool, not, ◌&&◌, Option, none, some, List, [], ◌∷◌,
  append-nil, ◌++◌, map, arith,
}
use zproc.State.Server.{
  Update, Slot, Watch, StateServer, first_accepted, settle, resolve_watcher, resolve_all,
  resolve_pending,
}
use zproc.State.Server.Bisect.{bisect}
use zproc.State.Server.Bisect.Order.{IsSorted, bisect-Splits}

module _ {D : Type 0} where
  -- The updates a watcher asks for: by another client, not identical unless that is okay, and after
  -- the time it names.
  unfoldable pub wants : Watch → Update D → Bool
  wants w u =
      not (bytes_eq u.ident w.s_ident)
      && (not (w.identical_not_okay && u.identical) && ltb w.only_after u.stamp)

  unfoldable pub first_wanted : Watch → List (Update D) → Option (Update D)
  unfolding wants
  first_wanted w [] = none
  first_wanted w (u ∷ us) = let rest = first_wanted w us in if wants w u then some u else rest

  -- The times of a slot are those of its updates, and in order.
  pub record IsOrdered (slot : Slot D) : Type 0 where
    pub aligned : slot.timestamps ≡ map (λ u. u.stamp) slot.updates
    pub sorted : IsSorted slot.timestamps

  first_accepted_after :
      (w : Watch) (us : List (Update D))
      → ((i : ℕ) → i < length us → w.only_after < get_or (map (λ u. u.stamp) us) i 0)
      → first_accepted w us ≡ first_wanted w us
  unfolding first_accepted first_wanted wants
  first_accepted_after w [] h = refl
  first_accepted_after w (u ∷ us) h =
      ground
        (arith, first_accepted_after w us (λ i k. h (suc i) (omega (arith, k))), h 0 (omega arith))

  first_accepted-drop :
      (w : Watch) (us : List (Update D)) (m : ℕ)
      → ((i : ℕ) → i < m → get_or (map (λ u. u.stamp) us) i 0 ≤ w.only_after)
      → ((i : ℕ) → m ≤ i → i < length us → w.only_after < get_or (map (λ u. u.stamp) us) i 0)
      → first_accepted w (drop m us) ≡ first_wanted w us
  unfolding first_accepted first_wanted wants
  first_accepted-drop w us zero below above =
      first_accepted_after w us (λ i h. above i (omega arith) h)
  first_accepted-drop w [] (suc m) below above = refl
  first_accepted-drop w (u ∷ us) (suc m) below above = ground (
    arith,
    first_accepted-drop w us m (λ i h. below (suc i) (omega (arith, h)))
        (λ i h h'. above (suc i) (omega (arith, h)) (omega (arith, h'))),
    below 0 (omega arith),
  )

  settle_waiting :
      (w_ident : Bytes) (w : Watch) (o : Option (Update D))
      (rest : List (Bytes × Watch) × List (Bytes × Update D)) (ws : List (Bytes × Watch))
      → o ≡ none
      → rest ≡ (ws, [])
      → settle w_ident w o rest ≡ ((w_ident, w) ∷ ws, [])
  unfolding settle
  settle_waiting w_ident w o rest ws e e' = rw (e, e')

module _ {D R : Type 0} where
  -- In a slot whose times are in order, a watcher gets the first update, in the order of the history,
  -- that is by another client than its own, is not identical unless the watcher takes identical ones,
  -- and has a time after the one it names; and nothing if there is none. So the search by `bisect`
  -- misses no update, and one at the very time that is named is not given again.
  pub resolve_watcher_lem :
      (s : StateServer D R) (w : Watch)
      → IsOrdered (s.history w.namespace)
      → resolve_watcher s w ≡ first_wanted w (s.history w.namespace).updates
  unfolding resolve_watcher
  resolve_watcher_lem s w ordered =
      let slot = s.history w.namespace in
      let m = bisect slot.timestamps w.only_after in
      let splits = bisect-Splits slot.timestamps w.only_after ordered.sorted in
      let n : length slot.timestamps ≡ length slot.updates =
        ap length ordered.aligned ∙ length-map slot.updates (λ u. u.stamp) in
      first_accepted-drop w slot.updates m
        (λ i h. subst (λ ts. get_or ts i 0 ≤ w.only_after) ordered.aligned (splits.below i h))
        (λ i h h'.
          subst (λ ts. w.only_after < get_or ts i 0) ordered.aligned
            (splits.above i h (omega (arith, n, h'))))

  -- A watcher is still waiting, of the watchers `ws`.
  Waiting : StateServer D R → Bytes × Watch → Type 0
  Waiting s p = resolve_watcher s p.1 ≡ none

  settle-Waiting :
      (s : StateServer D R) (w_ident : Bytes) (w : Watch) (o : Option (Update D))
      (rest : List (Bytes × Watch) × List (Bytes × Update D))
      → resolve_watcher s w ≡ o
      → All (Waiting s) rest.0
      → All (Waiting s) (settle w_ident w o rest).0
  unfolding settle Waiting
  settle-Waiting s w_ident w none rest e h = (e, h)
  settle-Waiting s w_ident w (some u) rest e h = h

  resolve_all-Waiting :
      (s : StateServer D R) (ws : List (Bytes × Watch)) → All (Waiting s) (resolve_all s ws).0
  unfolding resolve_all settle
  resolve_all-Waiting s [] = tt
  resolve_all-Waiting s ((w_ident, w) ∷ ws) =
      settle-Waiting s w_ident w (resolve_watcher s w) (resolve_all s ws) refl
        (resolve_all-Waiting s ws)

  resolve_all_settled :
      (s : StateServer D R) (ws : List (Bytes × Watch))
      → All (Waiting s) ws
      → resolve_all s ws ≡ (ws, [])
  unfolding resolve_all Waiting
  resolve_all_settled s [] h = refl
  resolve_all_settled s ((w_ident, w) ∷ ws) (e, h) =
      settle_waiting w_ident w (resolve_watcher s w) (resolve_all s ws) ws e
        (resolve_all_settled s ws h)

  -- The watchers that have no update to get, and the messages for the others, in their order.
  unfoldable pub unserved : StateServer D R → List (Bytes × Watch) → List (Bytes × Watch)
  unserved s [] = []
  unserved s ((w_ident, w) ∷ ws) =
      let rest = unserved s ws in
      elim (first_wanted w (s.history w.namespace).updates) [
        | none ↦ (w_ident, w) ∷ rest
        | some u ↦ rest
      ]

  unfoldable pub due : StateServer D R → List (Bytes × Watch) → List (Bytes × Update D)
  due s [] = []
  due s ((w_ident, w) ∷ ws) =
      let rest = due s ws in
      elim (first_wanted w (s.history w.namespace).updates) [
        | none ↦ rest
        | some u ↦ (w_ident, u) ∷ rest
      ]

  settle-due :
      (s : StateServer D R) (w_ident : Bytes) (w : Watch) (ws : List (Bytes × Watch))
      (o : Option (Update D))
      → first_wanted w (s.history w.namespace).updates ≡ o
      → settle w_ident w o (unserved s ws, due s ws)
        ≡ (unserved s ((w_ident, w) ∷ ws), due s ((w_ident, w) ∷ ws))
  unfolding settle unserved due
  settle-due s w_ident w ws none e i = (
    elim (sym e i) [ none ↦ (w_ident, w) ∷ unserved s ws | some u ↦ unserved s ws ],
    elim (sym e i) [ none ↦ due s ws | some u ↦ (w_ident, u) ∷ due s ws ],
  )
  settle-due s w_ident w ws (some v) e i = (
    elim (sym e i) [ none ↦ (w_ident, w) ∷ unserved s ws | some u ↦ unserved s ws ],
    elim (sym e i) [ none ↦ due s ws | some u ↦ (w_ident, u) ∷ due s ws ],
  )

  resolve_all-due :
      (s : StateServer D R) (ws : List (Bytes × Watch))
      → ((ns : Bytes) → IsOrdered (s.history ns))
      → resolve_all s ws ≡ (unserved s ws, due s ws)
  unfolding resolve_all unserved due
  resolve_all-due s [] ordered = refl
  resolve_all-due s ((w_ident, w) ∷ ws) ordered =
      ap (settle w_ident w (resolve_watcher s w)) (resolve_all-due s ws ordered)
      ∙ settle-due s w_ident w ws (resolve_watcher s w)
          (sym (resolve_watcher_lem s w (ordered w.namespace)))

  -- `resolve_pending` publishes, to each watcher that waits, under its own identity and in their order,
  -- the first update in the history of its namespace that it asks for, if there is one, and nothing
  -- else; it leaves the other watchers waiting, and no more; those have no update to get, and when it
  -- runs again before the history changes it does nothing. Hypothesis: the times in the history of every
  -- namespace are in order.
  pub resolve_pending_lem :
      (s : StateServer D R)
      → ((ns : Bytes) → IsOrdered (s.history ns))
      → let s' = resolve_pending s in
        (s'.pending ≡ unserved s s.pending)
        × (s'.published ≡ s.published ++ due s s.pending)
        × All (λ p. resolve_watcher s' p.1 ≡ none) s'.pending
        × (resolve_pending s' ≡ s')
  unfolding resolve_pending Waiting resolve_watcher
  resolve_pending_lem s ordered =
      let s' = resolve_pending s in
      let waiting = resolve_all-Waiting s s.pending in
      let both = resolve_all-due s s.pending ordered in
      (
        ap (λ p. p.0) both,
        ap (λ p. s.published ++ p.1) both,
        waiting,
        λ i. record s' {
          pending = (resolve_all_settled s' s'.pending waiting i).0;
          published =
              (ap (λ p. s'.published ++ p.1) (resolve_all_settled s' s'.pending waiting)
                  ∙ append-nil s'.published)
                i;
        },
      )
