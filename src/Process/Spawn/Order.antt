-- ===== src/Process/Spawn/Order.antt =====
-- Which processes `spawn` makes, and in which order.
use native.Mathlib.Nat.{suc-mul}
use zproc.Prelude.{
  ◌==◌, ==_iff, Bool-cases, length, ℕ, zero, suc, ◌*◌, ◌≡◌, refl, sym, ap, ◌∙◌, inl, inr, List, [],
  ◌∷◌, append-nil, append_assoc, ◌++◌, map, arith,
}
use zproc.Process.Spawn.{
  Spawned, wrapper, one_process, processes, add_process, add_targets, add_rounds, spawn,
}

-- The list `n` times over.
unfoldable pub times : {T : Type 0} → ℕ → List T → List T
times zero xs = []
times (suc n) xs = xs ++ times n xs

-- The processes that a call returned.
unfoldable pub returned : {P : Type 0} → Spawned P → List P
returned wrapper = []
returned (one_process p) = p ∷ []
returned (processes ps) = ps

module _ {T P : Type 0} (new_process : T → P) where
  map-join :
      (xs ys : List T) → map new_process (xs ++ ys) ≡ map new_process xs ++ map new_process ys
  map-join [] ys = refl
  map-join (x ∷ xs) ys = ap (◌∷◌ (new_process x)) (map-join xs ys)

  add_targets_lem :
      (targets : List T) (ps : List P)
      → ((add_targets new_process targets ps).0 ≡ map new_process targets)
        × ((add_targets new_process targets ps).1 ≡ ps ++ map new_process targets)
  unfolding add_targets add_process
  add_targets_lem [] ps = (refl, sym (append-nil ps))
  add_targets_lem (t ∷ targets) ps =
      let (made, listed) = add_targets_lem targets (ps ++ new_process t ∷ []) in
      (
        ap (◌∷◌ (new_process t)) made,
        listed ∙ append_assoc ps (new_process t ∷ []) (map new_process targets),
      )

  add_rounds_lem :
      (n : ℕ) (targets : List T) (ps : List P)
      → ((add_rounds new_process n targets ps).0 ≡ map new_process (times n targets))
        × ((add_rounds new_process n targets ps).1 ≡ ps ++ map new_process (times n targets))
  unfolding add_rounds times
  add_rounds_lem zero targets ps = (refl, sym (append-nil ps))
  add_rounds_lem (suc n) targets ps =
      let round = add_targets_lem targets ps in
      let rest = add_rounds_lem n targets (add_targets new_process targets ps).1 in
      (
        (λ i. round.0 i ++ rest.0 i) ∙ sym (map-join targets (times n targets)),
        rest.1
            ∙ (ap (λ x. x ++ map new_process (times n targets)) round.1
                ∙ (append_assoc ps (map new_process targets) (map new_process (times n targets))
                    ∙ ap (λ x. ps ++ x) (sym (map-join targets (times n targets))))),
      )

  single :
      (t : T) (targets : List T) (n : ℕ)
      → length (t ∷ targets) * n ≡ 1
      → times n (t ∷ targets) ≡ t ∷ []
  unfolding times
  single t targets zero h = absurd (omega (arith, h))
  single t [] (suc zero) h = refl
  single t [] (suc (suc n)) h = absurd (omega (arith, h))
  single t (u ∷ targets) (suc zero) h = absurd (omega (arith, h))
  single t (u ∷ targets) (suc (suc n)) h =
      absurd (omega (arith, h, suc-mul (suc (length targets)) (suc (suc n))))

-- `spawn` with targets makes a process for each of them, `count` times over, in the order of the
-- targets in each round; it returns these processes, and puts them, in this order, at the end of the
-- list of the context.
pub spawn_lem :
    {T P : Type 0} (new_process : T → P) (target : T) (targets : List T) (count : ℕ) (ps : List P)
    → let (spawned, process_list) = spawn new_process (target ∷ targets) count ps in
      (returned spawned ≡ map new_process (times count (target ∷ targets)))
      × (process_list ≡ ps ++ map new_process (times count (target ∷ targets)))
unfolding spawn returned add_process
spawn_lem new_process target targets count ps =
    elim (Bool-cases (length (target ∷ targets) * count == 1)) [
      | inl h ↦
          let e =
            single new_process target targets count
              ((==_iff (length (target ∷ targets) * count) 1).0 h) in
          rw (h, e) (refl, refl)
      | inr h ↦ rw h (add_rounds_lem new_process count (target ∷ targets) ps)
    ]
