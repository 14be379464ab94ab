-- ===== src/State/Watcher/Prefix.antt =====
-- An iteration over a watcher that may end in any way: by its count, its timeout, or an exception.
use zproc.Prelude.{
  Bool-cases, Option-cases, Result, ok, raise, Result-cases, ℕ, zero, suc, ◌+◌, ◌≡◌, refl, sym, ap,
  ◌∙◌, subst, ◌⊎◌, inl, inr, true, false, Option, none, some, List, [], ◌∷◌, ◌++◌,
}
use zproc.State.Watcher.{
  StateUpdate, state_update, StateWatcher, Outcome, yielded, stopped, timed_out, blocked, no_fuel,
  failed, has_more, is_expired, time_limit_of, no_reply, ask, hear, next_loop, next, collect_from,
  collect,
}
use zproc.State.Server.{Update, Watch}
use zproc.State.Server.Watchers.{first_wanted}
use zproc.State.Watcher.Buffered.{
  after_time, Increasing, wanted, first_wanted-none, first_wanted-some, wanted_tail,
}
use zproc.State.Watcher.Iteration.{keep, picked}
use zproc.State.Watcher.Turns.{turn_stop, turn_expired, turn_wait, turn_fail, turn_skip, turn_yield}
use mathlib.Core.Option

-- What a callback takes of an update.
abbrev pub taken : {A : Type 0} → Result (Option A) → Option A
taken (ok o) = o
taken (raise e) = none

or_same : {X : Type 0} {x y : X} → (x ≡ y) ⊎ (x ≡ y) → x ≡ y
or_same (inl e) = e
or_same (inr e) = e

module _ {D A : Type 0} (serve : ℕ → ℕ → Option (StateUpdate D)) (clock : ℕ → ℕ)
    (callback : StateUpdate D → Result (Option A)) (watch : Watch) (us : List (Update D))
    (start : ℕ) (inc : Increasing start us)
    (honest : (turn t : ℕ)
      → (serve turn t ≡ none)
        ⊎ (serve turn t ≡ Option.map state_update (first_wanted (after_time watch t) us))) where
  abbrev pick : StateUpdate D → Option A
  pick u = taken (callback u)

  -- The updates still to come for the watcher are `vs`.
  record Tracks (vs : List (Update D)) (w : StateWatcher) : Type 0 where
    buffered : w.live ≡ false
    coming : wanted watch w.only_after us ≡ vs

  heard-Tracks :
      (v : Update D) (vs : List (Update D)) (w : StateWatcher)
      → Tracks (v ∷ vs) w
      → Tracks vs (hear serve clock callback (state_update v) (ask serve clock callback w))
  unfolding hear ask state_update
  heard-Tracks v vs w h = record {
    buffered = h.buffered;
    coming = rw h.buffered (wanted_tail watch start w.only_after us v vs inc h.coming);
  }

  -- A call of `__next__` gives no value, or the first that the callback takes of the updates to come.
  Steps : List (Update D) → Outcome A × StateWatcher → Type 0
  Steps vs (yielded a, w) =
      (vs' : List (Update D)) × (picked pick vs ≡ a ∷ picked pick vs') × Tracks vs' w
  Steps vs (stopped, w) = Unit
  Steps vs (timed_out, w) = Unit
  Steps vs (blocked, w) = Unit
  Steps vs (no_fuel, w) = Unit
  Steps vs (failed e, w) = Unit

  Steps-no_reply :
      (time_limit : Option ℕ) (vs : List (Update D)) (w : StateWatcher)
      → Steps vs (no_reply time_limit, w)
  unfolding Steps no_reply
  Steps-no_reply none vs w = tt
  Steps-no_reply (some n) vs w = tt

  Steps-on :
      (v : Update D) (vs : List (Update D)) (p : Outcome A × StateWatcher)
      → pick (state_update v) ≡ none
      → Steps vs p
      → Steps (v ∷ vs) p
  unfolding Steps picked
  Steps-on v vs (yielded a, w) e (vs', e', h) = (vs', ap (λ x. keep x (picked pick vs)) e ∙ e', h)
  Steps-on v vs (stopped, w) e h = tt
  Steps-on v vs (timed_out, w) e h = tt
  Steps-on v vs (blocked, w) e h = tt
  Steps-on v vs (no_fuel, w) e h = tt
  Steps-on v vs (failed x, w) e h = tt

  -- The reply as the request is sent.
  reply_of :
      (vs : List (Update D)) (w : StateWatcher) (o : Option (Update D))
      → Tracks vs w
      → first_wanted (after_time watch w.only_after) us ≡ o
      → let reply = serve w.turn (ask serve clock callback w).only_after in
        (reply ≡ none) ⊎ (reply ≡ Option.map state_update o)
  unfolding ask
  reply_of vs w o h e = elim (honest w.turn w.only_after) [
    | inl lost ↦ inl (rw h.buffered lost)
    | inr found ↦ inr (rw h.buffered (found ∙ ap (Option.map state_update) e))
  ]

  -- What is left when the next update `v` has been read.
  after-Steps :
      (v : Update D) (vs : List (Update D)) (w : StateWatcher) (a : A)
      → Tracks (v ∷ vs) w
      → callback (state_update v) ≡ ok (some a)
      → let heard = hear serve clock callback (state_update v) (ask serve clock callback w) in
        Steps (v ∷ vs) (yielded a, record heard { iters = heard.iters + 1 })
  unfolding Steps picked
  after-Steps v vs w a h c =
      let heard = heard-Tracks v vs w h in
      (
        vs,
        ap (λ o. keep o (picked pick vs)) (ap taken c),
        record { buffered = heard.buffered; coming = heard.coming },
      )

  -- A turn that sends its request, from what the turns after it do.
  in_time :
      (fuel : ℕ) (limit : Option ℕ) (vs : List (Update D)) (w : StateWatcher)
      → Tracks vs w
      → has_more w ≡ true
      → is_expired limit (clock w.turn) ≡ false
      → ((vs' : List (Update D)) (w' : StateWatcher)
          → Tracks vs' w'
          → Steps vs' (next_loop serve clock callback fuel limit w'))
      → Steps vs (next_loop serve clock callback (suc fuel) limit w)
  in_time fuel limit [] w h more early rest =
      let lost =
        or_same (reply_of [] w none h (first_wanted-none watch w.only_after us h.coming)) in
      subst (Steps []) (sym (turn_wait serve clock callback fuel limit w more early lost))
        (Steps-no_reply limit [] _)
  in_time fuel limit (v ∷ vs) w h more early rest =
      elim (reply_of (v ∷ vs) w (some v) h
        (first_wanted-some watch w.only_after us v vs h.coming)) [
          | inl lost ↦
              subst (Steps (v ∷ vs))
                (sym (turn_wait serve clock callback fuel limit w more early lost))
                (Steps-no_reply limit (v ∷ vs) _)
          | inr found ↦ elim (Result-cases (callback (state_update v))) [
            | inr (x, c) ↦
                subst (Steps (v ∷ vs))
                  (sym (turn_fail serve clock callback fuel limit w more early _ found x c))
                  (unfold Steps in tt)
            | inl (o, c) ↦ elim (Option-cases o) [
              | inl e ↦
                  subst (Steps (v ∷ vs))
                    (sym (
                      turn_skip serve clock callback fuel limit w more early _ found (c ∙ ap ok e)))
                    (Steps-on v vs _ (ap taken (c ∙ ap ok e)) (rest vs _ (heard-Tracks v vs w h)))
              | inr (a, e) ↦
                  subst (Steps (v ∷ vs))
                    (sym (
                      turn_yield serve clock callback fuel limit w more early _ found a
                        (c ∙ ap ok e)))
                    (after-Steps v vs w a h (c ∙ ap ok e))
            ]
          ]
        ]

  next_loop-Steps :
      (fuel : ℕ) (time_limit : Option ℕ) (vs : List (Update D)) (w : StateWatcher)
      → Tracks vs w
      → Steps vs (next_loop serve clock callback fuel time_limit w)
  next_loop-Steps zero time_limit vs w h = unfold next_loop Steps in tt
  next_loop-Steps (suc fuel) limit vs w h = elim (Bool-cases (has_more w)) [
    | inr closed ↦
        subst (Steps vs) (sym (turn_stop serve clock callback fuel limit w closed))
          (unfold Steps in tt)
    | inl more ↦ elim (Bool-cases (is_expired limit (clock w.turn))) [
      | inl late ↦
          subst (Steps vs) (sym (turn_expired serve clock callback fuel limit w more late))
            (unfold Steps in tt)
      | inr early ↦ in_time fuel limit vs w h more early (next_loop-Steps fuel limit)
    ]
  ]

  -- Whatever ends the iteration.
  collect_from-Steps :
      (fuel : ℕ) (vs : List (Update D)) (p : Outcome A × StateWatcher)
      → Steps vs p
      → let values = (collect_from serve clock callback fuel p).0 in
        (rest : List A) × (values ++ rest ≡ picked pick vs)
  unfolding Steps collect_from next
  collect_from-Steps zero vs (o, w) h = (picked pick vs, refl)
  collect_from-Steps (suc fuel) vs (yielded a, w) (vs', e, h) =
      let (rest, same) =
        collect_from-Steps fuel vs' _
          (next_loop-Steps fuel (time_limit_of w.timeout (clock w.turn)) vs' w h) in
      (rest, ap (◌∷◌ a) same ∙ sym e)
  collect_from-Steps (suc fuel) vs (stopped, w) h = (picked pick vs, refl)
  collect_from-Steps (suc fuel) vs (timed_out, w) h = (picked pick vs, refl)
  collect_from-Steps (suc fuel) vs (blocked, w) h = (picked pick vs, refl)
  collect_from-Steps (suc fuel) vs (no_fuel, w) h = (picked pick vs, refl)
  collect_from-Steps (suc fuel) vs (failed x, w) h = (picked pick vs, refl)

-- An iteration over a watcher that is not live gives a first part of what its callback takes of the
-- updates that it wants, in the order of the history: none is left out before the last, repeated or out
-- of order, whatever ends it. This is for any timeout and count, any clock, a server that may fail to
-- answer in time at any turn, and a callback that may raise. Hypotheses: an answer that comes is from a
-- history whose times grow strictly.
pub collect-append :
    {D A : Type 0} (serve : ℕ → ℕ → Option (StateUpdate D)) (clock : ℕ → ℕ)
    (callback : StateUpdate D → Result (Option A)) (watch : Watch) (us : List (Update D))
    (start : ℕ)
    → Increasing start us
    → ((turn t : ℕ)
        → (serve turn t ≡ none)
          ⊎ (serve turn t ≡ Option.map state_update (first_wanted (after_time watch t) us)))
    → (w : StateWatcher) (fuel : ℕ) → w.live ≡ false
    → (rest : List A) × ((collect serve clock callback fuel w).0 ++ rest
        ≡ picked (λ u. taken (callback u)) (wanted watch w.only_after us))
unfolding collect next
collect-append serve clock callback watch us start inc honest w fuel live =
    collect_from-Steps serve clock callback watch us start inc honest fuel _ _ (
      next_loop-Steps serve clock callback watch us start inc honest fuel
        (time_limit_of w.timeout (clock w.turn)) _ w (record { buffered = live; coming = refl }))
