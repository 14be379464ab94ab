-- ===== src/State/Server/Slots.antt =====
-- A slot of the history whose times are in order, and what is put at its end.
use mathlib.Core.List.{map-append}
use zproc.Prelude.{
  length, length-append, get_or, ℕ, zero, suc, ◌+◌, ◌≤◌, ◌<◌, ◌≡◌, refl, sym, ap, ◌∙◌, subst, ◌⊎◌,
  inl, inr, List, [], ◌∷◌, append-nil, ◌++◌, map, arith, dec_lt,
}
use zproc.State.Server.Bisect.Order.{IsSorted}
use zproc.State.Server.{Update, Slot}
use zproc.State.Server.History.{append_updates}

get_or_snoc : (a : List ℕ) (x i : ℕ) → i < length a → get_or (a ++ x ∷ []) i 0 ≡ get_or a i 0
get_or_snoc [] x i h = absurd (omega arith)
get_or_snoc (y ∷ a) x zero h = refl
get_or_snoc (y ∷ a) x (suc i) h = get_or_snoc a x i (omega arith)

get_or_last : (a : List ℕ) (x : ℕ) → get_or (a ++ x ∷ []) (length a) 0 ≡ x
get_or_last [] x = refl
get_or_last (y ∷ a) x = get_or_last a x

-- In order, and not beyond `t`.
pub record UpTo (t : ℕ) (a : List ℕ) : Type 0 where
  pub sorted : IsSorted a
  pub within : (i : ℕ) → i < length a → get_or a i 0 ≤ t

UpTo-snoc : (t x : ℕ) (a : List ℕ) → UpTo t a → t ≤ x → UpTo x (a ++ x ∷ [])
UpTo-snoc t x a h le =
    let n : length (a ++ x ∷ []) ≡ length a + 1 = length-append a (x ∷ []) in
    let at : (i : ℕ) → i ≤ length a → get_or (a ++ x ∷ []) i 0 ≤ x = λ i k.
      elim (dec_lt i (length a)) [
        | yes lt ↦ omega (arith, get_or_snoc a x i lt, h.within i lt)
        | no ge ↦ let e : i ≡ length a = omega arith in rw e (omega (arith, get_or_last a x))
      ] in
    record {
      sorted = λ i j k k'. elim (dec_lt j (length a)) [
        | yes lt ↦
            omega (arith, get_or_snoc a x i (omega arith), get_or_snoc a x j lt, h.sorted i j k lt)
        | no ge ↦
            let e : j ≡ length a = omega (arith, n) in
            rw e (omega (arith, get_or_last a x, at i (omega arith)))
      ];
      within = λ i k. at i (omega (arith, n));
    }

module _ {D : Type 0} where
  -- A slot whose updates have the times beside them, in order and not beyond `t`.
  pub record SlotUpTo (t : ℕ) (slot : Slot D) : Type 0 where
    pub aligned : slot.timestamps ≡ map (λ u. u.stamp) slot.updates
    pub times : UpTo t slot.timestamps

  -- What one request logs: nothing, or one update of its time.
  abbrev pub Logged : ℕ → List (Update D) → Type 0
  Logged stamp us = (us ≡ []) ⊎ ((u : Update D) × (u.stamp ≡ stamp) × (us ≡ u ∷ []))

  pub UpTo-later : (t x : ℕ) (slot : Slot D) → SlotUpTo t slot → t ≤ x → SlotUpTo x slot
  UpTo-later t x slot h le = record {
    aligned = h.aligned;
    times = record {
      sorted = h.times.sorted;
      within = λ i k. omega (arith, le, h.times.within i k);
    };
  }

  pub append_updates-UpTo :
      (t x : ℕ) (slot : Slot D) (us : List (Update D))
      → SlotUpTo t slot
      → t ≤ x
      → Logged x us
      → SlotUpTo x (append_updates slot us)
  append_updates-UpTo t x slot us h le (inl e) =
      rw (e, append-nil slot.timestamps, append-nil slot.updates) (UpTo-later t x slot h le)
  append_updates-UpTo t x slot us h le (inr (u, at, e)) =
      let one : SlotUpTo u.stamp (append_updates slot (u ∷ [])) = record {
        aligned =
            ap (λ ts. ts ++ u.stamp ∷ []) h.aligned
            ∙ sym (map-append (λ v. v.stamp) slot.updates (u ∷ []));
        times = UpTo-snoc t u.stamp slot.timestamps h.times (omega (arith, at, le));
      } in
      rw e (subst (λ y. SlotUpTo y (append_updates slot (u ∷ []))) at one)
