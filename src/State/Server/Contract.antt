-- ===== src/State/Server/Contract.antt =====
-- The contract of the state server: a dict for each namespace, and every request on it atomic.

use zproc.Prelude.{
  if◌then◌else◌, pickling_error, Result, ok, raise, Bytes, ℕ, ◌<◌, ◌≡◌, Option, none, some,
}
use zproc.State.Server.{
  Effect, Env, Command, run_fn_atomically, run_dict_method, get_state, set_state, Reply, returned,
  snapshot, done, remote_exception, StateServer,
}

-- Every dict object that a namespace has is allocated, and no two namespaces share one.
pub record IsValid {D R : Type 0} (s : StateServer D R) : Type 0 where
  pub allocated : (ns : Bytes) (a : ℕ) → s.state_map ns ≡ some a → a < s.fresh
  pub separate :
      (ns ns' : Bytes) (a : ℕ) → s.state_map ns ≡ some a → s.state_map ns' ≡ some a → ns ≡ ns'

module _ {D M F R : Type 0} (env : Env D M F R) where
  -- The contents of a namespace. A missing one reads as an empty dict.
  unfoldable pub contents : (ℕ → D) → Option ℕ → D
  contents dicts none = env.empty
  contents dicts (some a) = dicts a

  unfoldable pub view : StateServer D R → Bytes → D
  unfolding contents
  view s ns = contents s.dicts (s.state_map ns)

  -- What is to change the dict `d` starts with a copy of it, and nothing is done without one.
  unfoldable pub after_copy : Result D → (D → Reply D R × D) → D → Reply D R × D
  after_copy (raise e) change d = (remote_exception e, d)
  after_copy (ok old) change d = change old

  -- The contract of a call on the dict `d`: the reply, and the dict after it. If the call raises, or
  -- its result cannot be pickled, the dict is the copy from before.
  unfoldable pub call_spec : Effect D R → D → Reply D R × D
  unfolding after_copy
  call_spec effect d =
      let (r, d') = effect d in
      after_copy (env.deepcopy d)
        (λ old. elim r [
          | raise e ↦ (remote_exception e, old)
          | ok v ↦
              if env.result_picklable v
              then (returned v, d')
              else (remote_exception pickling_error, old)
        ])
        d

  unfoldable pub load_spec : Result (Effect D R) → D → Reply D R × D
  load_spec (raise e) d = (remote_exception e, d)
  load_spec (ok fn) d = call_spec fn d

  unfoldable pub command_spec : Command D M F → D → Reply D R × D
  unfolding call_spec load_spec after_copy
  command_spec (run_fn_atomically f) d = load_spec (env.load_fn f) d
  command_spec (run_dict_method m) d = call_spec (env.call_method m) d
  command_spec get_state d =
      (if env.picklable d then snapshot d else remote_exception pickling_error, d)
  command_spec (set_state new) d = after_copy (env.deepcopy d) (λ old. (done, new)) d
