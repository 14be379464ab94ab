-- ===== src/State/Watcher.antt =====
-- `StateWatcher` of zproc/state/state.py: the loop of `__next__`, and an iteration that calls it until
-- it gives no value. What the server answers and the clock are given for each turn of the loop.
pub mod Buffered
pub mod Iteration
pub mod Limits
pub mod Served
pub mod SinceTime
pub mod Turns
pub mod Prefix
use zproc.Prelude.{
  ltb, if◌then◌else◌, Error, Result, ok, raise, ℕ, zero, suc, ◌+◌, Bool, true, false, Option, none,
  some, List, [], ◌∷◌,
}
use zproc.State.Server.{now, Update}

pub record StateUpdate (D : Type 0) : Type 0 where
  pub before : D
  pub after : D
  pub timestamp : ℕ
  pub is_identical : Bool

-- StateUpdate(*serializer.loads(response[0]), is_identical=bool(response[1])): `bytes(True)` is one
-- zero byte, and `bytes(False)` is empty.
unfoldable pub state_update : {D : Type 0} → Update D → StateUpdate D
state_update u = record {
  before = u.before;
  after = u.after;
  timestamp = u.stamp;
  is_identical = u.identical;
}

pub record StateWatcher : Type 0 where
  pub live : Bool
  pub timeout : Option ℕ
  -- `none` is math.inf
  pub iter_limit : Option ℕ
  pub only_after : ℕ
  pub iters : ℕ
  -- the number of requests made so far
  pub turn : ℕ

-- How a call of `__next__` ends. `blocked` is a `recv` without a timeout that no reply comes to, and
-- `no_fuel` belongs to the model only.
pub data Outcome (A : Type 0) : Type 0 where
  yielded : A → Outcome A
  stopped timed_out blocked no_fuel : Outcome A
  failed : Error → Outcome A

unfoldable pub has_more : StateWatcher → Bool
has_more w = elim w.iter_limit [ none ↦ true | some n ↦ ltb w.iters n ]

unfoldable pub is_expired : Option ℕ → ℕ → Bool
is_expired none t = false
is_expired (some time_limit) t = ltb time_limit t

-- `time.time() + self.timeout`
unfoldable pub time_limit_of : Option ℕ → ℕ → Option ℕ
time_limit_of none t = none
time_limit_of (some timeout) t = some (t + timeout)

unfoldable pub no_reply : {A : Type 0} → Option ℕ → Outcome A
no_reply none = blocked
no_reply (some time_limit) = timed_out

-- `serve turn only_after` is the reply to a request, and `none` if there is none in time. The callback
-- gives `ok none` where it raises _SkipStateUpdate.
module _ {D A : Type 0} (serve : ℕ → ℕ → Option (StateUpdate D)) (clock : ℕ → ℕ)
    (callback : StateUpdate D → Result (Option A)) where
  -- `self._only_after` as the request is sent
  unfoldable pub ask : StateWatcher → StateWatcher
  ask w = record w { only_after = if w.live then clock w.turn else w.only_after; turn = w.turn + 1 }

  -- and as the reply has come.
  unfoldable pub hear : StateUpdate D → StateWatcher → StateWatcher
  hear u w = record w { only_after = if w.live then w.only_after else u.timestamp }

  unfoldable pub next_loop : ℕ → Option ℕ → StateWatcher → Outcome A × StateWatcher
  unfolding has_more is_expired ask hear no_reply
  next_loop zero time_limit w = (no_fuel, w)
  next_loop (suc fuel) time_limit w = elim (has_more w) [
    | false ↦ (stopped, w)
    | true ↦ elim (is_expired time_limit (clock w.turn)) [
      | true ↦ (timed_out, w)
      | false ↦ elim (serve w.turn (ask w).only_after) [
        | none ↦ (no_reply time_limit, ask w)
        | some u ↦
            let heard = hear u (ask w) in
            elim (callback u) [
              | raise e ↦ (failed e, heard)
              | ok none ↦ next_loop fuel time_limit heard
              | ok (some a) ↦ (yielded a, record heard { iters = heard.iters + 1 })
            ]
      ]
    ]
  ]

  -- __next__
  unfoldable pub next : ℕ → StateWatcher → Outcome A × StateWatcher
  unfolding next_loop time_limit_of
  next fuel w = next_loop fuel (time_limit_of w.timeout (clock w.turn)) w

  -- The values of the iteration, and how it ends.
  unfoldable pub collect_from : ℕ → Outcome A × StateWatcher → List A × Outcome A
  unfolding next
  collect_from zero (outcome, w) = ([], no_fuel)
  collect_from (suc fuel) (yielded a, w) =
      let rest = collect_from fuel (next fuel w) in (a ∷ rest.0, rest.1)
  collect_from (suc fuel) (stopped, w) = ([], stopped)
  collect_from (suc fuel) (timed_out, w) = ([], timed_out)
  collect_from (suc fuel) (blocked, w) = ([], blocked)
  collect_from (suc fuel) (no_fuel, w) = ([], no_fuel)
  collect_from (suc fuel) (failed e, w) = ([], failed e)

  unfoldable pub collect : ℕ → StateWatcher → List A × Outcome A
  unfolding collect_from
  collect fuel w = collect_from fuel (next fuel w)
