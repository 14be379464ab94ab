-- ===== src/Process/Context/Rows.antt =====
-- The processes that `spawn_map` makes.

use zproc.Prelude.{
  range, Result, ok, ◌>>=◌, Result-cases, traverse, ℕ, ◌≡◌, refl, sym, ap, ◌∙◌, inl, inr, Option,
  List, [], ◌∷◌, ◌++◌, map,
}
use zproc.Task.MapPlus.{Kwargs, Target, or_empty, merge, call_with, map_plus}
use zproc.Process.Context.{
  ProcessKwargs, NewProcess, merge_kwargs, new_process, with_row, Context, process_of, spawn_map,
}
use zproc.Task.MapPlus.Rows.{pick, concat, shortest, call_at, map_plus_lem}

-- `f` after each call of a target.
abbrev pub then_apply {ℓ κ} : {X : Type ℓ} {Y : Type κ} → (X → Y) → Result X → Result Y
then_apply f r = do x ← r; ok (f x)

module _ {X R S : Type 0} (f : R → S) where
  traverse-then_apply :
      (g : X → Result R) (h : X → Result S) (xs : List X)
      → ((x : X) → h x ≡ then_apply f (g x))
      → traverse h xs ≡ then_apply (map f) (traverse g xs)
  unfolding traverse
  traverse-then_apply g h [] e = refl
  traverse-then_apply g h (x ∷ xs) e = elim (Result-cases (g x)) [
    | inl (y, r) ↦ elim (Result-cases (traverse g xs)) [
      | inl (ys, s) ↦ rw (e x, traverse-then_apply g h xs e, r, s)
      | inr (z, s) ↦ rw (e x, traverse-then_apply g h xs e, r, s)
    ]
    | inr (z, r) ↦ rw (e x, r)
  ]

-- The arguments of a call, as its result.
abbrev pub row_of : {A : Type 0} → Target A (List A × Kwargs A)
row_of xs kws = ok (xs, kws)

module _ {A S : Type 0} (f : List A × Kwargs A → S) where
  call_at-then_apply :
      (a : List A) (k : Kwargs A) (mi : Option (List A)) (ma : Option (List (List A)))
      (mk : Option (List (Kwargs A))) (i : ℕ)
      → call_at (λ xs kw. ok (f (xs, kw))) a k mi ma mk i
        ≡ then_apply f (call_at row_of a k mi ma mk i)
  unfolding call_at call_with
  call_at-then_apply a k mi ma mk i = elim (Result-cases (merge (concat (pick mk i)) k)) [
    | inl (kw, e) ↦ rw e
    | inr (x, e) ↦ rw e
  ]

  map_plus-then_apply :
      (mi : Option (List A)) (ma : Option (List (List A))) (a : Option (List A))
      (mk : Option (List (Kwargs A))) (k : Option (Kwargs A))
      → map_plus (λ xs kw. ok (f (xs, kw))) mi ma a mk k
        ≡ then_apply (map f) (map_plus row_of mi ma a mk k)
  map_plus-then_apply mi ma a mk k =
      map_plus_lem (λ xs kw. ok (f (xs, kw))) mi ma a mk k
      ∙ (traverse-then_apply f (call_at row_of (or_empty a) (or_empty k) mi ma mk) _
            (range (shortest mi ma mk)) (call_at-then_apply (or_empty a) (or_empty k) mi ma mk)
          ∙ ap (then_apply (map f)) (sym (map_plus_lem row_of mi ma a mk k)))

module _ {A B T : Type 0} where
  -- The processes with the given rows of arguments, and otherwise as `p`.
  unfoldable pub processes_of :
      NewProcess A B T → List (List A × Kwargs A) → List (NewProcess A B T)
  processes_of p rows = map (λ r. record p { target_args = r.0; target_kwargs = r.1 }) rows

  -- `spawn_map` makes one process for each call that `map_plus` would make, in its order, with the
  -- arguments of that call, and adds them to `process_list`. The target, the address and every other
  -- option are those of a single process made by the same context with the same keyword arguments.
  -- It raises what `map_plus` raises.
  pub spawn_map_lem :
      (multiprocessing_process : B) (ctx : Context A B T) (target : T) (mi : Option (List A))
      (ma : Option (List (List A))) (a : Option (List A)) (mk : Option (List (Kwargs A)))
      (k : Option (Kwargs A)) (kw : ProcessKwargs A B)
      → spawn_map multiprocessing_process ctx target mi ma a mk k kw ≡ (do
        rows ← map_plus row_of mi ma a mk k
        let ps = processes_of (process_of multiprocessing_process ctx target kw) rows
        ok (ps, record ctx { process_list = ctx.process_list ++ ps }))
  unfolding spawn_map processes_of process_of with_row merge_kwargs new_process
  spawn_map_lem mp ctx target mi ma a mk k kw = elim (Result-cases (map_plus row_of mi ma a mk k)) [
    | inl (rows, e) ↦
        rw (
          map_plus-then_apply (λ r. process_of mp ctx target (with_row kw r.0 r.1)) mi ma a mk k,
          e,
        )
    | inr (x, e) ↦
        rw (
          map_plus-then_apply (λ r. process_of mp ctx target (with_row kw r.0 r.1)) mi ma a mk k,
          e,
        )
  ]
