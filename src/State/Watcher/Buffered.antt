-- ===== src/State/Watcher/Buffered.antt =====
-- A watcher that is not live, and the updates in the history of the server that it asks for.
use zproc.Prelude.{
  if◌then◌else◌, Bool-cases, length, ℕ, ◌≤◌, ◌<◌, ◌≡◌, refl, ap, ◌∙◌, subst, inl, inr, true, false,
  none, some, List, [], ◌∷◌, arith,
}
use zproc.State.Server.{Update, Watch}
use zproc.State.Server.Watchers.{wants, first_wanted}

abbrev pub after_time : Watch → ℕ → Watch
after_time w t = record w { only_after = t }

module _ {D : Type 0} where
  -- The times of the updates grow strictly, from after `t` on.
  abbrev pub Increasing : ℕ → List (Update D) → Type 0
  Increasing t [] = Unit
  Increasing t (u ∷ us) = (t < u.stamp) × Increasing u.stamp us

  -- The updates that `w` asks for after the time `t`.
  unfoldable pub wanted : Watch → ℕ → List (Update D) → List (Update D)
  unfolding wants
  wanted w t [] = []
  wanted w t (u ∷ us) =
      let rest = wanted w t us in if wants (after_time w t) u then u ∷ rest else rest

  -- Before the history starts, all times ask for the same.
  pub wanted_before :
      (w : Watch) (t t' t'' : ℕ) (us : List (Update D))
      → Increasing t us
      → t' ≤ t
      → t'' ≤ t
      → wanted w t' us ≡ wanted w t'' us
  unfolding wanted wants
  wanted_before w t t' t'' [] inc h h' = refl
  wanted_before w t t' t'' (u ∷ us) (lt, inc) h h' = ground (
    arith,
    lt,
    wanted_before w u.stamp t' t'' us inc (omega (arith, lt, h)) (omega (arith, lt, h')),
  )

  wants_stamp : (w : Watch) (t : ℕ) (u : Update D) → wants (after_time w t) u ≡ true → t < u.stamp
  unfolding wants
  wants_stamp w t u h = ground (arith, h)

  wants_later :
      (w : Watch) (t t' : ℕ) (u : Update D)
      → t ≤ t'
      → wants (after_time w t) u ≡ false
      → wants (after_time w t') u ≡ false
  unfolding wants
  wants_later w t t' u le h = ground (arith, h, le)

  wants_own : (w : Watch) (u : Update D) → wants (after_time w u.stamp) u ≡ false
  unfolding wants
  wants_own w u = ground arith

  wanted_stamp :
      (w : Watch) (t : ℕ) (us : List (Update D)) (v : Update D) (vs : List (Update D))
      → wanted w t us ≡ v ∷ vs
      → t < v.stamp
  unfolding wanted
  wanted_stamp w t [] v vs e = ground (arith, e)
  wanted_stamp w t (u ∷ us) v vs e = elim (Bool-cases (wants (after_time w t) u)) [
    | inl h ↦
        let e' : u ∷ wanted w t us ≡ v ∷ vs = rw h at e in
        let same : u ≡ v = ground (arith, e') in subst (λ x. t < x.stamp) same (wants_stamp w t u h)
    | inr h ↦ wanted_stamp w t us v vs (rw h at e)
  ]

  -- The first of them is what `resolve_watcher` finds, and the others are what is asked for after it.
  pub first_wanted-none :
      (w : Watch) (t : ℕ) (us : List (Update D))
      → wanted w t us ≡ []
      → first_wanted (after_time w t) us ≡ none
  unfolding wanted first_wanted
  first_wanted-none w t [] e = refl
  first_wanted-none w t (u ∷ us) e = elim (Bool-cases (wants (after_time w t) u)) [
    | inl h ↦ let e' : u ∷ wanted w t us ≡ [] = rw h at e in ground (arith, e')
    | inr h ↦ rw h (first_wanted-none w t us (rw h at e))
  ]

  pub first_wanted-some :
      (w : Watch) (t : ℕ) (us : List (Update D)) (v : Update D) (vs : List (Update D))
      → wanted w t us ≡ v ∷ vs
      → first_wanted (after_time w t) us ≡ some v
  unfolding wanted first_wanted
  first_wanted-some w t [] v vs e = ground (arith, e)
  first_wanted-some w t (u ∷ us) v vs e = elim (Bool-cases (wants (after_time w t) u)) [
    | inl h ↦
        let e' : u ∷ wanted w t us ≡ v ∷ vs = rw h at e in
        let same : u ≡ v = ground (arith, e') in rw h (ap some same)
    | inr h ↦ rw h (first_wanted-some w t us v vs (rw h at e))
  ]

  pub wanted_tail :
      (w : Watch) (s t : ℕ) (us : List (Update D)) (v : Update D) (vs : List (Update D))
      → Increasing s us
      → wanted w t us ≡ v ∷ vs
      → wanted w v.stamp us ≡ vs
  unfolding wanted
  wanted_tail w s t [] v vs inc e = ground (arith, e)
  wanted_tail w s t (u ∷ us) v vs (lt, inc) e = elim (Bool-cases (wants (after_time w t) u)) [
    | inl h ↦
        let e' : u ∷ wanted w t us ≡ v ∷ vs = rw h at e in
        let same : u ≡ v = ground (arith, e') in
        let rest : wanted w t us ≡ vs = ground (arith, e') in
        subst (λ x. wanted w x.stamp (u ∷ us) ≡ vs) same
          (rw (wants_own w u) (
            wanted_before w u.stamp u.stamp t us inc (omega arith)
              (omega (arith, wants_stamp w t u h))
            ∙ rest))
    | inr h ↦
        let e' : wanted w t us ≡ v ∷ vs = rw h at e in
        let later = wants_later w t v.stamp u (omega (arith, wanted_stamp w t us v vs e')) h in
        rw later (wanted_tail w u.stamp t us v vs inc e')
  ]

  pub length-wanted :
      (w : Watch) (t : ℕ) (us : List (Update D)) → length (wanted w t us) ≤ length us
  unfolding wanted
  length-wanted w t [] = omega arith
  length-wanted w t (u ∷ us) = ground (arith, length-wanted w t us)
