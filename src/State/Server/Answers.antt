-- ===== src/State/Server/Answers.antt =====
-- The answers to requests.

use zproc.Prelude.{
  length, Error, Result, ok, raise, Bytes, ℕ, ◌≤◌, ◌≡◌, refl, ◌⊎◌, false, Option, none, some, List,
  ◌++◌, map,
}
use zproc.State.Server.{Env, Reply, StateServer}
use zproc.State.Handlers.{bind_new, lookup_state, visit}

module _ {D M F R : Type 0} (env : Env D M F R) (ident : Bytes) where
  -- From `s` to `s'`, at least `n` replies more, all to the client that asked.
  abbrev pub Sent : ℕ → StateServer D R → StateServer D R → Type 0
  Sent n s s' =
      (rs : List (Reply D R)) × ((s'.replies ≡ s.replies ++ map (λ r. (ident, r)) rs)
        × (n ≤ length rs))

  -- A handler that does not raise has sent one.
  abbrev Progress : StateServer D R → Result (Unit {0}) × StateServer D R → Type 0
  Progress s (ok _, s') = Sent 1 s s'
  Progress s (raise e, s') = Sent 0 s s'

  -- From `s` to `s'`, only replies to the client that asked, and at least one, or the server has ended
  -- on an exception that cannot be pickled.
  abbrev pub Settled : StateServer D R → StateServer D R → Type 0
  Settled s s' =
      (rs : List (Reply D R)) × ((s'.replies ≡ s.replies ++ map (λ r. (ident, r)) rs)
        × ((1 ≤ length rs)
            ⊎ ((e : Error) × ((env.error_picklable e ≡ false) × (s'.is_running ≡ false)))))

  lookup-replies :
      (found : Option ℕ) (ns : Bytes) (s : StateServer D R)
      → (lookup_state env found ns s).1.replies ≡ s.replies
  unfolding lookup_state bind_new
  lookup-replies none ns s = refl
  lookup-replies (some a) ns s = refl

  pub visit-replies : (o : Option Bytes) (s : StateServer D R) → (visit env o s).replies ≡ s.replies
  unfolding visit
  visit-replies none s = refl
  visit-replies (some ns) s = lookup-replies (s.state_map ns) ns s
