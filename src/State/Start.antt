-- ===== src/State/Start.antt =====
-- How a watcher is made: `StateWatcher.__init__`, and `when_change_raw`, `when_change` and `when` of
-- zproc/state/state.py. A dict is the list of its items.
pub mod Changes
use zproc.Prelude.{
  if◌then◌else◌, value_error, Result, ok, raise, Bytes, ℕ, Bool, not, Option, none, some, List, [],
  ◌∷◌,
}
use zproc.State.Server.{Watch}
use zproc.State.Watcher.{StateUpdate, StateWatcher, Outcome, collect}
use zproc.State.When.{Objects, when_change_callback, when_callback}

-- The keyword arguments that these methods share.

pub record Options : Type 0 where
  pub live : Bool
  pub timeout : Option ℕ
  pub identical_okay : Bool
  pub start_time : Option ℕ
  pub count : Option ℕ

-- `self._only_after`, where `clock_now` is what time.time() gives
unfoldable pub start_of : Option ℕ → ℕ → ℕ
start_of none clock_now = clock_now
start_of (some start_time) clock_now = start_time

unfoldable pub new_watcher : Options → ℕ → StateWatcher
unfolding start_of
new_watcher options clock_now = record {
  live = options.live;
  timeout = options.timeout;
  iter_limit = options.count;
  only_after = start_of options.start_time clock_now;
  iters = 0;
  turn = 0;
}

-- What `_request_reply` asks for, of a state with this identity and namespace, as the server reads the
-- frames.
unfoldable pub asked_by : Bytes → Bytes → Options → StateWatcher → Watch
asked_by identity namespace options w = record {
  s_ident = identity;
  namespace = namespace;
  identical_not_okay = not options.identical_okay;
  only_after = w.only_after;
}

-- `go_live`
unfoldable pub go_live : ℕ → StateWatcher → StateWatcher
go_live clock_now w = record w { only_after = clock_now }

unfoldable pub dummy_callback : {D : Type 0} → StateUpdate D → Option (StateUpdate D)
dummy_callback u = some u

-- A watcher and its callback, which gives `none` where it raises _SkipStateUpdate.
unfoldable pub when_change_raw :
    {D : Type 0} → Options → ℕ → StateWatcher × (StateUpdate D → Option (StateUpdate D))
unfolding new_watcher dummy_callback
when_change_raw options clock_now = (new_watcher options clock_now, dummy_callback)

-- `consume`: how the iteration ends
unfoldable pub consume :
    {D A : Type 0}
    → (ℕ → ℕ → Option (StateUpdate D))
    → (ℕ → ℕ)
    → (StateUpdate D → Result (Option A))
    → ℕ
    → StateWatcher
    → Outcome A
unfolding collect
consume serve clock callback fuel w = (collect serve clock callback fuel w).1

module _ {K V : Type 0} (py : Objects K V) where
  unfoldable pub when_change :
      List K
      → Bool
      → Options
      → ℕ
      → Result (StateWatcher × (StateUpdate (List (K × V)) → Option (List (K × V))))
  unfolding new_watcher when_change_callback
  when_change [] exclude options clock_now =
      ok (new_watcher options clock_now, when_change_callback py exclude [])
  when_change (k ∷ ks) exclude options clock_now =
      if options.identical_okay
      then raise value_error
      else ok (new_watcher options clock_now, when_change_callback py exclude (k ∷ ks))

  unfoldable pub when :
      (List (K × V) → Bool)
      → Options
      → ℕ
      → StateWatcher × (StateUpdate (List (K × V)) → Option (List (K × V)))
  unfolding new_watcher when_callback
  when test_fn options clock_now = (new_watcher options clock_now, when_callback py test_fn)
