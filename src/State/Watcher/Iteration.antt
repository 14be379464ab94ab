-- ===== src/State/Watcher/Iteration.antt =====
-- The iteration over a watcher that is not live: `for update in state.when...()`.
use zproc.Prelude.{
  Option-cases, length, Result, ok, ℕ, zero, suc, ◌<◌, ◌≡◌, refl, sym, ap, ◌∙◌, subst, ◌⊎◌, inl,
  inr, true, false, Option, none, some, List, [], ◌∷◌, arith,
}
use zproc.State.Server.{Update, Watch}
use zproc.State.Server.Watchers.{first_wanted}
use zproc.State.Watcher.{
  StateUpdate, state_update, StateWatcher, Outcome, yielded, stopped, blocked, has_more, is_expired,
  time_limit_of, no_reply, ask, hear, next_loop, next, collect_from, collect,
}
use zproc.State.Watcher.Buffered.{
  after_time, Increasing, wanted, first_wanted-none, first_wanted-some, wanted_tail, length-wanted,
}
use zproc.State.Watcher.Limits.{
  limited, room_of, is_open, less_one, has_more-room_of, limited-nil, limited-cons, room_of-count,
}
use zproc.State.Watcher.Turns.{turn_stop, turn_wait, turn_skip, turn_yield}
use mathlib.Core.Option

abbrev pub keep : {A : Type 0} → Option A → List A → List A
keep none ys = ys
keep (some a) ys = a ∷ ys

-- The values that the callback does not skip.
unfoldable pub picked : {D A : Type 0} → (StateUpdate D → Option A) → List (Update D) → List A
picked pick [] = []
picked pick (u ∷ us) = keep (pick (state_update u)) (picked pick us)

module _ {D A : Type 0} (serve : ℕ → ℕ → Option (StateUpdate D)) (clock : ℕ → ℕ)
    (callback : StateUpdate D → Result (Option A)) (pick : StateUpdate D → Option A) (watch : Watch)
    (us : List (Update D)) (start : ℕ) (inc : Increasing start us)
    (served : (turn t : ℕ)
      → serve turn t ≡ Option.map state_update (first_wanted (after_time watch t) us))
    (picks : (u : StateUpdate D) → callback u ≡ ok (pick u)) where
  -- The updates still to come for the watcher are `vs`, and there is room for so many values.
  record Ready (room : Option ℕ) (vs : List (Update D)) (w : StateWatcher) : Type 0 where
    buffered : w.live ≡ false
    forever : w.timeout ≡ none
    counted : room_of w ≡ room
    coming : wanted watch w.only_after us ≡ vs

  heard-Ready :
      (room : Option ℕ) (v : Update D) (vs : List (Update D)) (w : StateWatcher)
      → Ready room (v ∷ vs) w
      → Ready room vs (hear serve clock callback (state_update v) (ask serve clock callback w))
  unfolding hear ask state_update room_of
  heard-Ready room v vs w h = record {
    buffered = h.buffered;
    forever = h.forever;
    counted = h.counted;
    coming = rw h.buffered (wanted_tail watch start w.only_after us v vs inc h.coming);
  }

  -- How a call of `__next__` goes with `vs` to come: it stops when there is no room, it waits when the
  -- callback takes none of them, or it gives the first that the callback takes.
  Goes : Option ℕ → List (Update D) → Outcome A × StateWatcher → Type 0
  Goes room vs (outcome, w) =
      ((room ≡ some zero) × (outcome ≡ stopped))
      ⊎ ((is_open room ≡ true) × (picked pick vs ≡ []) × (outcome ≡ blocked))
      ⊎ ((a : A) × (vs' : List (Update D)) × (is_open room ≡ true)
          × (picked pick vs ≡ a ∷ picked pick vs')
          × (outcome ≡ yielded a)
          × Ready (less_one room) vs' w
          × (length vs' < length vs))

  Goes-on :
      (room : Option ℕ) (v : Update D) (vs : List (Update D)) (p : Outcome A × StateWatcher)
      → pick (state_update v) ≡ none
      → Goes room vs p
      → Goes room (v ∷ vs) p
  unfolding picked Goes
  Goes-on room v vs p e (inl h) = inl h
  Goes-on room v vs p e (inr (inl (some_room, e', o))) =
      inr (inl (some_room, ap (λ x. keep x (picked pick vs)) e ∙ e', o))
  Goes-on room v vs p e (inr (inr (a, vs', some_room, e', o, ready, lt))) = inr (
      inr
        (a, vs', some_room, ap (λ x. keep x (picked pick vs)) e ∙ e', o, ready, omega (arith, lt)))

  Ready-reply :
      (room : Option ℕ) (vs : List (Update D)) (w : StateWatcher) (turn : ℕ) (o : Option (Update D))
      → Ready room vs w
      → first_wanted (after_time watch w.only_after) us ≡ o
      → serve turn (ask serve clock callback w).only_after ≡ Option.map state_update o
  unfolding ask
  Ready-reply room vs w turn o h e =
      rw h.buffered (served turn w.only_after ∙ ap (Option.map state_update) e)

  next_loop-Goes :
      (fuel : ℕ) (room : Option ℕ) (vs : List (Update D)) (w : StateWatcher)
      → length vs < fuel
      → is_open room ≡ true
      → Ready room vs w
      → Goes room vs (next_loop serve clock callback fuel none w)
  unfolding Goes is_expired no_reply
  next_loop-Goes zero room vs w lt some_room h = absurd (omega arith)
  next_loop-Goes (suc fuel) room [] w lt some_room h =
      let more : has_more w ≡ true = has_more-room_of w room h.counted ∙ some_room in
      let reply =
        Ready-reply room [] w w.turn none h (first_wanted-none watch w.only_after us h.coming) in
      subst (Goes room []) (sym (turn_wait serve clock callback fuel none w more refl reply))
        (inr (inl (some_room, (unfold picked in refl), refl)))
  next_loop-Goes (suc fuel) room (v ∷ vs) w lt some_room h =
      let more : has_more w ≡ true = has_more-room_of w room h.counted ∙ some_room in
      let reply =
        Ready-reply room (v ∷ vs) w w.turn (some v) h
          (first_wanted-some watch w.only_after us v vs h.coming) in
      let heard = heard-Ready room v vs w h in
      elim (Option-cases (pick (state_update v))) [
        | inl e ↦
            subst (Goes room (v ∷ vs))
              (sym (
                turn_skip serve clock callback fuel none w more refl (state_update v) reply
                  (picks (state_update v) ∙ ap ok e)))
              (Goes-on room v vs _ e
                (next_loop-Goes fuel room vs _ (omega (arith, lt)) some_room heard))
        | inr (a, e) ↦
            subst (Goes room (v ∷ vs))
              (sym (
                turn_yield serve clock callback fuel none w more refl (state_update v) reply a
                  (picks (state_update v) ∙ ap ok e)))
              (inr (
                inr (
                  a,
                  vs,
                  some_room,
                  (unfold picked in ap (λ x. keep x (picked pick vs)) e),
                  refl,
                  record {
                    buffered = heard.buffered;
                    forever = heard.forever;
                    counted = room_of-count _ room heard.counted;
                    coming = heard.coming;
                  },
                  omega arith,
                )))
      ]

  next_loop_any :
      (fuel : ℕ) (room : Option ℕ) (vs : List (Update D)) (w : StateWatcher)
      → length vs < fuel
      → Ready room vs w
      → Goes room vs (next_loop serve clock callback fuel none w)
  unfolding Goes
  next_loop_any zero room vs w lt h = absurd (omega arith)
  next_loop_any (suc fuel) none vs w lt h = next_loop-Goes (suc fuel) none vs w lt refl h
  next_loop_any (suc fuel) (some zero) vs w lt h =
      subst (Goes (some zero) vs)
        (sym
          (turn_stop serve clock callback fuel none w (has_more-room_of w (some zero) h.counted)))
        (inl (refl, refl))
  next_loop_any (suc fuel) (some (suc n)) vs w lt h =
      next_loop-Goes (suc fuel) (some (suc n)) vs w lt refl h

  next-Goes :
      (fuel : ℕ) (room : Option ℕ) (vs : List (Update D)) (w : StateWatcher)
      → length vs < fuel
      → Ready room vs w
      → Goes room vs (next serve clock callback fuel w)
  unfolding next time_limit_of
  next-Goes fuel room vs w lt h =
      subst
        (λ o. Goes room vs (next_loop serve clock callback fuel (time_limit_of o (clock w.turn)) w))
        (sym h.forever) (next_loop_any fuel room vs w lt h)

  collect_from_lem :
      (fuel : ℕ) (room : Option ℕ) (vs : List (Update D)) (p : Outcome A × StateWatcher)
      → length vs < fuel
      → Goes room vs p
      → collect_from serve clock callback fuel p ≡ limited room (picked pick vs)
  unfolding Goes collect_from
  collect_from_lem zero room vs (o, w) lt g = absurd (omega arith)
  collect_from_lem (suc fuel) room vs (o, w) lt (inl (none_left, out)) =
      rw (out, none_left) (unfold limited in refl)
  collect_from_lem (suc fuel) room vs (o, w) lt (inr (inl (some_room, e, out))) =
      rw (out, e) (sym (limited-nil room some_room))
  collect_from_lem (suc fuel) room vs (o, w) lt
        (inr (inr (a, vs', some_room, e, out, ready, less))) =
      let rest =
        collect_from_lem fuel (less_one room) vs' (next serve clock callback fuel w)
          (omega (arith, lt, less))
          (next-Goes fuel (less_one room) vs' w (omega (arith, lt, less)) ready) in
      rw (out, e, rest) (sym (limited-cons room a (picked pick vs') some_room))

-- A watcher that is not live gets from the server each update that it wants, once and in the order of
-- the history: the iteration gives what the callback makes of them, without those it skips, and then
-- waits. With a count it gives no more values than that, and stops when it has given them. `fuel` bounds
-- the calls, and one more than the updates is enough. Hypotheses: the server answers from a history
-- whose times grow strictly, the watcher has no timeout, and the callback does not raise but to skip.
pub collect_buffered :
    {D A : Type 0} (serve : ℕ → ℕ → Option (StateUpdate D)) (clock : ℕ → ℕ)
    (callback : StateUpdate D → Result (Option A)) (pick : StateUpdate D → Option A) (watch : Watch)
    (us : List (Update D)) (start : ℕ)
    → Increasing start us
    → ((turn t : ℕ) → serve turn t ≡ Option.map state_update (first_wanted (after_time watch t) us))
    → ((u : StateUpdate D) → callback u ≡ ok (pick u))
    → (w : StateWatcher) → w.live ≡ false
    → w.timeout ≡ none
    → (fuel : ℕ) → length us < fuel
    → collect serve clock callback fuel w
      ≡ limited (room_of w) (picked pick (wanted watch w.only_after us))
unfolding collect
collect_buffered serve clock callback pick watch us start inc served picks w live timeout fuel lt =
    let enough : length (wanted watch w.only_after us) < fuel =
      omega (arith, lt, length-wanted watch w.only_after us) in
    collect_from_lem serve clock callback pick watch us start inc served picks fuel (room_of w) _ _
      enough
      (next-Goes serve clock callback pick watch us start inc served picks fuel (room_of w) _ w
        enough (record { buffered = live; forever = timeout; counted = refl; coming = refl }))
