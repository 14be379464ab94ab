-- ===== src/State/Watcher/Turns.antt =====
-- The turns of the loop of `__next__`, one lemma for each way one goes.

use zproc.Prelude.{
  Error, Result, ok, raise, ℕ, suc, ◌+◌, ◌≡◌, true, false, Option, none, some, arith,
}
use zproc.State.Watcher.{
  StateUpdate, StateWatcher, Outcome, yielded, stopped, timed_out, failed, has_more, is_expired,
  no_reply, ask, hear, next_loop,
}

module _ {D A : Type 0} (serve : ℕ → ℕ → Option (StateUpdate D)) (clock : ℕ → ℕ)
    (callback : StateUpdate D → Result (Option A)) (fuel : ℕ) (time_limit : Option ℕ)
    (w : StateWatcher) where
  -- The loop, and the watcher with its request sent.
  abbrev pub looped : Outcome A × StateWatcher
  looped = next_loop serve clock callback (suc fuel) time_limit w

  abbrev pub asked : StateWatcher
  asked = ask serve clock callback w

  abbrev pub heard_of : StateUpdate D → StateWatcher
  heard_of u = hear serve clock callback u asked

  pub turn_stop : has_more w ≡ false → looped ≡ (stopped, w)
  unfolding next_loop
  turn_stop more = ground (arith, more)

  pub turn_expired :
      has_more w ≡ true → is_expired time_limit (clock w.turn) ≡ true → looped ≡ (timed_out, w)
  unfolding next_loop
  turn_expired more late = ground (arith, more, late)

  module _ (more : has_more w ≡ true) (in_time : is_expired time_limit (clock w.turn) ≡ false) where
    pub turn_wait : serve w.turn asked.only_after ≡ none → looped ≡ (no_reply time_limit, asked)
    unfolding next_loop
    turn_wait e = ground (arith, more, in_time, e)

    module _ (u : StateUpdate D) (e : serve w.turn asked.only_after ≡ some u) where
      pub turn_fail : (x : Error) → callback u ≡ raise x → looped ≡ (failed x, heard_of u)
      unfolding next_loop
      turn_fail x c = ground (arith, more, in_time, e, c)

      pub turn_skip :
          callback u ≡ ok none
          → looped ≡ next_loop serve clock callback fuel time_limit (heard_of u)
      unfolding next_loop
      turn_skip c = ground (arith, more, in_time, e, c)

      pub turn_yield :
          (a : A)
          → callback u ≡ ok (some a)
          → looped ≡ (yielded a, record (heard_of u) { iters = (heard_of u).iters + 1 })
      unfolding next_loop
      turn_yield a c = ground (arith, more, in_time, e, c)
