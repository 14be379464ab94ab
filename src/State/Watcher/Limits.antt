-- ===== src/State/Watcher/Limits.antt =====
-- The count of a watcher.
use zproc.Prelude.{
  Option-cases, ℕ, zero, suc, ◌+◌, ◌-◌, ◌≡◌, refl, inl, inr, Bool, true, false, Option, none, some,
  List, [], ◌∷◌, arith,
}
use zproc.State.Watcher.{StateWatcher, Outcome, stopped, blocked, has_more}

-- What an iteration gives when `ys` are to come and there is room for so many: all of them, and then it
-- waits, or as many as there is room for, and then it stops.
unfoldable pub limited : {A : Type 0} → Option ℕ → List A → List A × Outcome A
limited none ys = (ys, blocked)
limited (some zero) ys = ([], stopped)
limited (some (suc n)) [] = ([], blocked)
limited (some (suc n)) (y ∷ ys) = let rest = limited (some n) ys in (y ∷ rest.0, rest.1)

-- How many values the count of a watcher allows from now on.
unfoldable pub room_of : StateWatcher → Option ℕ
room_of w = elim w.iter_limit [ none ↦ none | some n ↦ some (n - w.iters) ]

abbrev pub is_open : Option ℕ → Bool
is_open none = true
is_open (some zero) = false
is_open (some (suc n)) = true

abbrev pub less_one : Option ℕ → Option ℕ
less_one none = none
less_one (some zero) = some zero
less_one (some (suc n)) = some n

pub has_more-room_of :
    (w : StateWatcher) (room : Option ℕ) → room_of w ≡ room → has_more w ≡ is_open room
unfolding has_more room_of
has_more-room_of w none h = elim (Option-cases w.iter_limit) [
  | inl e ↦ rw e
  | inr (n, e) ↦ ground (arith, h, e)
]
has_more-room_of w (some zero) h = ground (arith, h)
has_more-room_of w (some (suc k)) h = ground (arith, h)

pub limited-nil :
    {A : Type 0} (room : Option ℕ) → is_open room ≡ true → limited {A = A} room [] ≡ ([], blocked)
unfolding limited
limited-nil none h = refl
limited-nil (some zero) h = absurd (ground (arith, h))
limited-nil (some (suc n)) h = refl

pub limited-cons :
    {A : Type 0} (room : Option ℕ) (y : A) (ys : List A)
    → is_open room ≡ true
    → limited room (y ∷ ys) ≡ (y ∷ (limited (less_one room) ys).0, (limited (less_one room) ys).1)
unfolding limited
limited-cons none y ys h = refl
limited-cons (some zero) y ys h = absurd (ground (arith, h))
limited-cons (some (suc n)) y ys h = refl

pub room_of-count :
    (w : StateWatcher) (room : Option ℕ)
    → room_of w ≡ room
    → room_of (record w { iters = w.iters + 1 }) ≡ less_one room
unfolding room_of
room_of-count w none h = elim (Option-cases w.iter_limit) [
  | inl e ↦ rw e
  | inr (n, e) ↦ ground (arith, h, e)
]
room_of-count w (some zero) h = ground (arith, h, Option-cases w.iter_limit)
room_of-count w (some (suc k)) h = ground (arith, h, Option-cases w.iter_limit)
