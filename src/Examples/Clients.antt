-- ===== src/Examples/Clients.antt =====
-- Watchers of the state, on concrete histories and dicts.
use zproc.Prelude.{
  ◌==◌, if◌then◌else◌, ==_iff, Bool-cases, value_error, Result, ok, raise, Bytes, bytes_eq, ℕ, ◌%◌,
  ◌≡◌, refl, ◌↔◌, ◌⊎◌, inl, inr, true, false, not, Option, none, some, List, [], ◌∷◌, ◌++◌, arith,
}
use zproc.State.Server.{Update, Watch}
use zproc.State.Server.Watchers.{wants, first_wanted}
use zproc.State.Watcher.{
  StateUpdate, state_update, StateWatcher, stopped, timed_out, blocked, failed, collect,
}
use zproc.State.Watcher.Buffered.{after_time, Increasing, wanted}
use zproc.State.Watcher.Iteration.{picked}
use zproc.State.When.{Objects, lookup, is_watched, when_change_callback}
use zproc.State.When.Change.{agree, when_change_lem}
use zproc.State.Watcher.Limits.{limited, room_of}
use zproc.State.Watcher.Prefix.{taken, collect-append}
use mathlib.Core.Option

abbrev update_at_time : ℕ → ℕ → ℕ → Bytes → Update ℕ
update_at_time old new t ident = record {
  ident = ident;
  before = old;
  after = new;
  stamp = t;
  identical = old == new;
}

abbrev history : List (Update ℕ)
history =
    update_at_time 0 4 10 (1 ∷ [])
    ∷ update_at_time 4 4 20 (1 ∷ [])
    ∷ update_at_time 4 9 30 (2 ∷ [])
    ∷ update_at_time 9 6 40 (1 ∷ [])
    ∷ update_at_time 6 7 50 (1 ∷ [])
    ∷ []

abbrev from_two : Watch
from_two = record {
  s_ident = 2 ∷ [];
  namespace = 100 ∷ [];
  identical_not_okay = true;
  only_after = 0;
}

-- The client of `when`, for an even number of at most 8.
abbrev answer : ℕ → ℕ → Option (StateUpdate ℕ)
answer turn t = Option.map state_update (first_wanted (after_time from_two t) history)

abbrev pick_even : StateUpdate ℕ → Option ℕ
pick_even u = if u.after % 2 == 0 then some u.after else none

abbrev watcher : StateWatcher
watcher = record {
  live = false;
  timeout = none;
  iter_limit = none;
  only_after = 5;
  iters = 0;
  turn = 0;
}

-- At most one value
abbrev single : StateWatcher
single = record {
  live = false;
  timeout = none;
  iter_limit = some 1;
  only_after = 5;
  iters = 0;
  turn = 0;
}

history-Increasing : Increasing 5 history
history-Increasing = (omega arith, (omega arith, (omega arith, (omega arith, (omega arith, tt)))))

collect_buffered_test :
    (limited (room_of single) (picked pick_even (wanted from_two 5 history)) ≡ (4 ∷ [], stopped))
    × (limited (room_of watcher) (picked pick_even (wanted from_two 5 history))
        ≡ (4 ∷ 6 ∷ [], blocked))
unfolding picked wanted wants bytes_eq state_update limited room_of
collect_buffered_test = (refl, refl)

-- The reply to the third request is lost, and 7 raises.
abbrev lossy : ℕ → ℕ → Option (StateUpdate ℕ)
lossy turn t = if turn == 2 then none else answer turn t

abbrev fussy : StateUpdate ℕ → Result (Option ℕ)
fussy u = if u.after == 7 then raise value_error else ok (pick_even u)

abbrev impatient : StateWatcher
impatient = record {
  live = false;
  timeout = some 30;
  iter_limit = some 9;
  only_after = 5;
  iters = 0;
  turn = 0;
}

collect-append_example :
    (rest : List ℕ) × ((collect lossy (λ turn. turn) fussy 9 impatient).0 ++ rest
      ≡ picked (λ u. taken (fussy u)) (wanted from_two 5 history))
collect-append_example =
    collect-append lossy (λ turn. turn) fussy from_two history 5 history-Increasing
      (λ turn t. elim (Bool-cases (turn == 2)) [
        | inl e ↦ rw e (inl refl)
        | inr e ↦ rw e (inr refl)
      ])
      impatient 9 refl

collect-append_test :
    (collect lossy (λ turn. turn) fussy 9 impatient ≡ (4 ∷ 6 ∷ [], timed_out))
    × (picked (λ u. taken (fussy u)) (wanted from_two 5 history) ≡ 4 ∷ 6 ∷ [])
    × (collect answer (λ turn. turn) fussy 9 impatient ≡ (4 ∷ 6 ∷ [], failed value_error))
unfolding picked wanted wants bytes_eq state_update collect first_wanted
collect-append_test = (refl, refl, refl)

-- Dicts with numbers for keys and values, of which 0 is falsy and 99 stands for None.
abbrev pub objects : Objects ℕ ℕ
objects = record {
  same_key = λ k j. k == j;
  same_value = λ v w. v == w;
  truthy = λ v. not (v == 0);
  is_none_value = λ v. v == 99;
}

abbrev key_gone : StateUpdate (List (ℕ × ℕ))
key_gone = record {
  before = (1, 10) ∷ (2, 20) ∷ [];
  after = (2, 20) ∷ [];
  timestamp = 7;
  is_identical = false;
}

when_change_example :
    let result = when_change_callback objects false (1 ∷ 3 ∷ []) key_gone in
    ((result ≡ none) ↔ (
      (k : ℕ)
      → is_watched objects false (1 ∷ 3 ∷ []) k ≡ true
      → agree objects (lookup objects key_gone.before k) (lookup objects key_gone.after k) ≡ true))
    × ((result ≡ none) ⊎ (result ≡ some key_gone.after))
when_change_example = when_change_lem objects ==_iff false 1 (3 ∷ []) key_gone

when_change_test :
    (when_change_callback objects false (1 ∷ 3 ∷ []) key_gone ≡ some key_gone.after)
    × (when_change_callback objects true (1 ∷ 3 ∷ []) key_gone ≡ none)
unfolding when_change_callback
when_change_test = (refl, refl)
