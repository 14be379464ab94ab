-- ===== src/Process/Child/Retry.antt =====
-- How often a child runs its target.
use zproc.Prelude.{
  leb, if◌then◌else◌, Bool-cases, ℕ, zero, suc, ◌+◌, ◌≤◌, ◌<◌, ◌≡◌, refl, ◌∙◌, subst, ◌⊎◌, inl, inr,
  Bool, true, false, none, some, List, arith, dec_lt,
}
use zproc.Process.Child.{
  Raised, Ending, returns, process_exit, raises, is_caught, ChildProcess, exception_to_signal,
  Finished, value, crashed, report, handle_retry, set_retry_args, count_try, target_wrapper,
}

module _ {A V : Type 0} (target : A → ℕ → Ending V) (args : A)
    (to_catch : List (Raised → Bool)) where
  -- What a call gives if it is not tried again.
  unfoldable pub finished : Ending V → Finished V
  finished (returns v) = value (some v)
  finished (process_exit code) = value none
  finished (raises e) = crashed e

  unfoldable pub is_retried : Ending V → Bool
  unfolding is_caught
  is_retried (returns v) = false
  is_retried (process_exit code) = false
  is_retried (raises e) = is_caught to_catch e

  -- The target is called up to the n-th time: each call before raised what is caught, and this one
  -- did not, or it is the last that `max_retries` allows.
  pub record EndsAt (m first n : ℕ) (r : Finished V) : Type 0 where
    pub result : r ≡ finished (target args n)
    pub started : first ≤ n
    pub bounded : n ≤ suc m
    pub tried : (i : ℕ) → first ≤ i → i < n → is_retried (target args i) ≡ true
    pub last : n ≤ m → is_retried (target args n) ≡ false

  EndsAt-here :
      (m n : ℕ) (r : Finished V)
      → r ≡ finished (target args n)
      → n ≤ suc m
      → (n ≤ m → is_retried (target args n) ≡ false)
      → EndsAt m n n r
  EndsAt-here m n r e h last = record {
    result = e;
    started = omega arith;
    bounded = h;
    tried = λ i k k'. absurd (omega arith);
    last = last;
  }

  EndsAt-later :
      (m first next n : ℕ) (r : Finished V)
      → next ≡ suc first
      → is_retried (target args first) ≡ true
      → EndsAt m next n r
      → EndsAt m first n r
  EndsAt-later m first next n r s e h = record {
    result = h.result;
    started = omega (arith, s, h.started);
    bounded = h.bounded;
    tried = λ i k k'. elim (dec_lt first i) [
      | yes lt ↦ h.tried i (omega (arith, s, lt)) k'
      | no ge ↦
          let same : first ≡ i = omega (arith, k, ge) in
          subst (λ j. is_retried (target args j) ≡ true) same e
    ];
    last = h.last;
  }

  pub Ending-cases :
      (o : Ending V)
      → ((v : V) × (o ≡ returns v))
        ⊎ ((n : ℕ) × (o ≡ process_exit n))
        ⊎ ((e : Raised) × (o ≡ raises e))
  Ending-cases (returns v) = inl (v, refl)
  Ending-cases (process_exit n) = inr (inl (n, refl))
  Ending-cases (raises e) = inr (inr (e, refl))

  wrapper_end :
      (fuel : ℕ) (c : ChildProcess A)
      → c.to_catch ≡ to_catch
      → is_retried (target args (c.retries + 1)) ≡ false
      → let (r, c') = target_wrapper target (suc fuel) args c in
        (r ≡ finished (target args (c.retries + 1))) × (c'.retries ≡ c.retries + 1)
  unfolding target_wrapper is_retried finished count_try
  wrapper_end fuel c same h = elim (Ending-cases (target args (c.retries + 1))) [
    | inl (v, e) ↦ ground (arith, e)
    | inr (inl (n, e)) ↦ ground (arith, e)
    | inr (inr (x, e)) ↦ ground (arith, e, h, same)
  ]

  -- The last try that is allowed raises again what it raised.
  wrapper_last :
      (fuel m : ℕ) (c : ChildProcess A)
      → c.to_catch ≡ to_catch
      → c.max_retries ≡ some m
      → m < c.retries + 1
      → is_retried (target args (c.retries + 1)) ≡ true
      → let (r, c') = target_wrapper target (suc fuel) args c in
        (r ≡ finished (target args (c.retries + 1))) × (c'.retries ≡ c.retries + 1)
  unfolding target_wrapper is_retried finished count_try handle_retry
  wrapper_last fuel m c same max lt h = elim (Ending-cases (target args (c.retries + 1))) [
    | inl (v, e) ↦ ground (arith, e, h)
    | inr (inl (n, e)) ↦ ground (arith, e, h)
    | inr (inr (x, e)) ↦ ground (arith, e, h, same, max, lt)
  ]

  -- The child of the next try.
  record Next (c c' : ChildProcess A) : Type 0 where
    same_catch : c'.to_catch ≡ c.to_catch
    same_max : c'.max_retries ≡ c.max_retries
    counted : c'.retries ≡ c.retries + 1

  -- Its state, after the try that raised `e`.
  retrying : Raised → ℕ → ChildProcess A → ChildProcess A
  unfolding set_retry_args report count_try
  retrying e m c =
      let c' = count_try c in
      set_retry_args (
        report e (record c' {
          converted = if leb m c'.retries then exception_to_signal e c'.converted else c'.converted;
        }))

  wrapper_again :
      (fuel m : ℕ) (c : ChildProcess A)
      → c.to_catch ≡ to_catch
      → c.max_retries ≡ some m
      → c.retries + 1 ≤ m
      → is_retried (target args (c.retries + 1)) ≡ true
      → (c' : ChildProcess A) × Next c c'
        × (target_wrapper target (suc fuel) args c ≡ target_wrapper target fuel args c')
  unfolding target_wrapper is_retried count_try handle_retry retrying
  wrapper_again fuel m c same max le h = elim (Ending-cases (target args (c.retries + 1))) [
    | inl (v, e) ↦ ground (arith, e, h)
    | inr (inl (n, e)) ↦ ground (arith, e, h)
    | inr (inr (x, e)) ↦ (
      retrying x m c,
      record { same_catch = refl; same_max = refl; counted = refl },
      ground (arith, e, h, same, max, le),
    )
  ]

  pub target_wrapper-EndsAt :
      (fuel m : ℕ) (c : ChildProcess A)
      → c.to_catch ≡ to_catch
      → c.max_retries ≡ some m
      → c.retries ≤ m
      → m < c.retries + fuel
      → let (r, c') = target_wrapper target fuel args c in EndsAt m (c.retries + 1) c'.retries r
  target_wrapper-EndsAt zero m c same max le lt = absurd (omega arith)
  target_wrapper-EndsAt (suc fuel) m c same max le lt =
      elim (Bool-cases (is_retried (target args (c.retries + 1)))) [
        | inr h ↦
            let (e, n) = wrapper_end fuel c same h in
            rw n (EndsAt-here m (c.retries + 1) _ e (omega (arith, le)) (λ k. h))
        | inl h ↦ elim (dec_lt m (c.retries + 1)) [
          | yes gt ↦
              let (e, n) = wrapper_last fuel m c same max gt h in
              rw n (
                EndsAt-here m (c.retries + 1) _ e (omega (arith, le))
                  (λ k. absurd (omega (arith, gt, k))))
          | no more ↦
              let (c', next, e) = wrapper_again fuel m c same max (omega (arith, more)) h in
              let n : c'.retries ≡ c.retries + 1 = next.counted in
              let after : c'.retries + 1 ≡ suc (c.retries + 1) = omega (arith, n) in
              let ends =
                target_wrapper-EndsAt fuel m c' (next.same_catch ∙ same) (next.same_max ∙ max)
                  (omega (arith, n, more)) (omega (arith, n, lt)) in
              rw e (EndsAt-later m (c.retries + 1) (c'.retries + 1) _ _ after h ends)
        ]
      ]

-- A child with `max_retries` runs its target once, and again as long as it raises what is caught, at
-- most `max_retries` times more: the last run is the first one that is not to be tried again, or the
-- last one allowed, and its value or exception is the outcome. All runs have the arguments of the
-- first: `retry_args` is not used. `fuel` bounds the runs, and one more than `max_retries` is enough.
pub target_wrapper_lem :
    {A V : Type 0} (target : A → ℕ → Ending V) (fuel m : ℕ) (c : ChildProcess A)
    → c.max_retries ≡ some m
    → c.retries ≡ 0
    → m < fuel
    → let (r, c') = target_wrapper target fuel c.target_args c in
      EndsAt target c.target_args c.to_catch m 1 c'.retries r
target_wrapper_lem target fuel m c max fresh lt =
    let first : c.retries + 1 ≡ 1 = omega (arith, fresh) in
    let (r, c') = target_wrapper target fuel c.target_args c in
    subst (λ k. EndsAt target c.target_args c.to_catch m k c'.retries r) first
      (target_wrapper-EndsAt target c.target_args c.to_catch fuel m c refl max
        (omega (arith, fresh)) (omega (arith, fresh, lt)))
