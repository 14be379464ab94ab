-- ===== src/State/Start/Changes.antt =====
-- What an iteration over `state.when_change(...)` gives on a server that has run.

use zproc.Prelude.{
  if◌then◌else◌, Option-cases, length, value_error, Result, ok, raise, Bytes, ℕ, ◌<◌, ◌≡◌, refl, ap,
  ◌∙◌, ◌≢◌, ◌⊎◌, inl, inr, Bool, true, false, Option, none, some, List, [], ◌∷◌, arith,
}
use zproc.State.Server.{Env, Update}
use zproc.State.Watcher.{StateUpdate, StateWatcher, collect}
use zproc.State.When.{Objects, when_change_callback}
use zproc.State.Start.{Options, start_of, new_watcher, asked_by, when_change}
use zproc.State.Server.Log.{run_log}
use zproc.State.Watcher.Served.{Advances, server_reply, collect_served}
use zproc.State.Watcher.Iteration.{picked}
use zproc.State.Watcher.Limits.{limited, room_of}
use zproc.State.Watcher.Buffered.{wanted}
use zproc.State.Loop.{Tick, run, init}
use zproc.State.Server.History.{IsLogged}

-- The state, the arguments and the clocks of the iteration.
module _ {K V M F R : Type 0} (env : Env (List (K × V)) M F R) (ts : List (Tick (List (K × V)) M F))
    (clock : ℕ → ℕ) (py : Objects K V) (keys : List K) (exclude : Bool) (options : Options)
    (clock_now : ℕ) (identity namespace : Bytes) (fuel : ℕ) where
  -- The updates of the namespace that the watcher asks for
  unfoldable pub asked_updates : StateWatcher → List (Update (List (K × V)))
  unfolding run_log wanted asked_by
  asked_updates w =
      wanted (asked_by identity namespace options w) w.only_after
        (run_log env namespace ts (λ ns. env.empty))

  -- The iteration gives the dicts after the first updates that the callback lets through.
  unfoldable pub Gives :
      StateWatcher × (StateUpdate (List (K × V)) → Option (List (K × V))) → Type 0
  unfolding asked_updates
  Gives (w, callback) =
      (w.only_after ≡ start_of options.start_time clock_now)
      × (collect (server_reply (run env ts (init env)) (asked_by identity namespace options w))
            clock (λ u. ok (callback u)) fuel w
          ≡ limited options.count (picked (when_change_callback py exclude keys) (asked_updates w)))

  -- `when_change` raises for keys with `identical_okay`, and else its iteration gives that.
  unfoldable pub Iterates :
      Result (StateWatcher × (StateUpdate (List (K × V)) → Option (List (K × V)))) → Type 0
  unfolding Gives
  Iterates (raise e) = (e ≡ value_error) × (options.identical_okay ≡ true) × (keys ≢ [])
  Iterates (ok started) = ((options.identical_okay ≡ false) ⊎ (keys ≡ [])) × Gives started

  room_of-new_watcher : room_of (new_watcher options clock_now) ≡ options.count
  unfolding room_of new_watcher
  room_of-new_watcher = elim (Option-cases options.count) [
    | inl e ↦ rw e refl
    | inr (n, e) ↦ rw e (ap some (omega arith))
  ]

  -- The test of `identical_okay`
  checked-Iterates :
      (okay : Bool)
      → options.identical_okay ≡ okay
      → keys ≢ []
      → Gives (new_watcher options clock_now, when_change_callback py exclude keys)
      → Iterates (
          if okay
          then raise value_error
          else ok (new_watcher options clock_now, when_change_callback py exclude keys))
  unfolding Iterates
  checked-Iterates true e some_key h = (refl, e, some_key)
  checked-Iterates false e some_key h = (inl e, h)

  module _ (all : IsLogged env) (running : (run env ts (init env)).is_running ≡ true)
      (advances : Advances 0 ts) (live : options.live ≡ false) (timeout : options.timeout ≡ none)
      (enough : length (run_log env namespace ts (λ ns. env.empty)) < fuel) where
    started-Gives : Gives (new_watcher options clock_now, when_change_callback py exclude keys)
    unfolding Gives asked_updates new_watcher asked_by
    started-Gives = (
      refl,
      collect_served env ts clock _ (when_change_callback py exclude keys)
            (asked_by identity namespace options (new_watcher options clock_now))
            (new_watcher options clock_now) fuel all running advances (λ u. refl) live timeout
            enough
          ∙ ap
              (λ room. limited room (
                picked (when_change_callback py exclude keys)
                  (asked_updates (new_watcher options clock_now))))
              room_of-new_watcher,
    )

when_change-cases :
    {K V M F R : Type 0} (env : Env (List (K × V)) M F R) (ts : List (Tick (List (K × V)) M F))
    (clock : ℕ → ℕ) (py : Objects K V) (keys : List K) (exclude : Bool) (options : Options)
    (clock_now : ℕ) (identity namespace : Bytes) (fuel : ℕ)
    → Gives env ts clock py keys exclude options clock_now identity namespace fuel
        (new_watcher options clock_now, when_change_callback py exclude keys)
    → Iterates env ts clock py keys exclude options clock_now identity namespace fuel
        (when_change py keys exclude options clock_now)
unfolding when_change Iterates
when_change-cases env ts clock py [] exclude options clock_now identity namespace fuel h =
    (inr refl, h)
when_change-cases env ts clock py (k ∷ ks) exclude options clock_now identity namespace fuel h =
    checked-Iterates env ts clock py (k ∷ ks) exclude options clock_now identity namespace fuel
      options.identical_okay refl (λ same. ground (arith, same)) h

-- `when_change` raises a ValueError if and only if it is given keys and `identical_okay`. Otherwise the
-- iteration over its watcher gives the dict that the server has logged as the one after the update, for
-- each update that the callback lets through, of those that are logged for the successful calls of other
-- clients on the namespace of the state since the start time, or since now when there is none, without
-- identical ones unless they are asked for. For a `State.set` the logged dict is the old one, so its new
-- dict is not given. It goes in the order in which the server has read the calls, and stops at the count.
-- Hypotheses: every update can be logged, that is its dicts can be pickled and `==` does not raise on
-- them; the server is still running; the clock of the server moves on between its ticks; the watcher is
-- not live and has no timeout; and `fuel` is more than the updates.
pub when_change_served :
    {K V M F R : Type 0} (env : Env (List (K × V)) M F R) (ts : List (Tick (List (K × V)) M F))
    (clock : ℕ → ℕ) (py : Objects K V) (keys : List K) (exclude : Bool) (options : Options)
    (clock_now : ℕ) (identity namespace : Bytes) (fuel : ℕ)
    → IsLogged env
    → (run env ts (init env)).is_running ≡ true
    → Advances 0 ts
    → options.live ≡ false
    → options.timeout ≡ none
    → length (run_log env namespace ts (λ ns. env.empty)) < fuel
    → Iterates env ts clock py keys exclude options clock_now identity namespace fuel
        (when_change py keys exclude options clock_now)
when_change_served env ts clock py keys exclude options clock_now identity namespace fuel all
      running advances live timeout enough =
    when_change-cases env ts clock py keys exclude options clock_now identity namespace fuel (
      started-Gives env ts clock py keys exclude options clock_now identity namespace fuel all
        running advances live timeout enough)
