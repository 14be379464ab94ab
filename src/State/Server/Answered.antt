-- ===== src/State/Server/Answered.antt =====
-- What the ticks of the server do for a watcher that has asked.

use zproc.Prelude.{
  All, raise, Bytes, bytes_eq, ℕ, ◌≤◌, ◌≡◌, refl, ap, ◌∙◌, subst, inl, inr, Bool, false, not, none,
  List, [], ◌∷◌, ◌++◌,
}
use zproc.State.Server.{Env, Update, Watch, StateServer, resolve_all, resolve_pending}
use zproc.State.Server.Watchers.{IsOrdered}
use zproc.State.Server.Idents.{
  of_ident, of_ident-append, set_watch-own, set_watch-other, resolve_all-none,
}
use zproc.State.Server.Delivery.{Still, Settles, Still-refl, exception-Still, serve_request-Settles}
use zproc.State.Server.Delivered.{
  At, IsServed, IsAsked, resolve-IsServed, Still-At, Still-IsServed, Grown-At, Grown-IsAsked,
}
use zproc.State.Server.Times.{Follows, Timed, tick-Timed}
use zproc.State.Loop.{
  WatchMessage, no_watch, malformed_watch, watch, StateMessage, no_request, malformed_request,
  garbled, request, Tick, recv_watcher, recv_request, recv_both, tick, steps,
}
use zproc.State.Server.History.{IsLogged}

-- The message is not of the watcher `i`: it is waiting for its answer.
abbrev pub NotFrom : Bytes → WatchMessage → Type 0
NotFrom i no_watch = Unit
NotFrom i malformed_watch = Unit
NotFrom i (watch w_ident s_ident namespace identical_okay only_after) = bytes_eq w_ident i ≡ false

abbrev pub NoneFrom : {D M F : Type 0} → Bytes → List (Tick D M F) → Type 0
NoneFrom i ts = All (λ t. NotFrom i t.from_watch) ts

-- A tick in which the watcher `i` asks, and its watch as the server keeps it.
unfoldable pub ask_tick :
    {D M F : Type 0} → Bytes → Bytes → Bytes → Bool → ℕ → StateMessage D M F → ℕ → Tick D M F
ask_tick i s_ident namespace identical_okay only_after m stamp = record {
  from_watch = watch i s_ident namespace identical_okay only_after;
  from_state = m;
  stamp = stamp;
}

unfoldable pub watch_of : Bytes → Bytes → Bool → ℕ → Watch
watch_of s_ident namespace identical_okay only_after = record {
  s_ident = s_ident;
  namespace = namespace;
  identical_not_okay = not identical_okay;
  only_after = only_after;
}

module _ {D M F R : Type 0} (env : Env D M F R) (all : IsLogged env) where
  pub Timed-append :
      (t : ℕ) (ts ts' : List (Tick D M F)) (s : StateServer D R)
      → Timed env t s
      → Follows t (ts ++ ts')
      → (t' : ℕ) × Timed env t' (steps env ts s) × Follows t' ts'
  unfolding steps
  Timed-append t [] ts' s h follows = (t, h, follows)
  Timed-append t (x ∷ ts) ts' s h (le, follows) =
      Timed-append x.stamp ts ts' (tick env x s) (tick-Timed env all t x s h le) follows

  Timed-IsOrdered :
      (t : ℕ) (s : StateServer D R) (ns : Bytes) → Timed env t s → IsOrdered (s.history ns)
  Timed-IsOrdered t s ns h = record {
    aligned = (h.slots ns).aligned;
    sorted = (h.slots ns).times.sorted;
  }

  module _ (i : Bytes) (w : Watch) (base : List (Update D)) where
    resolved-IsServed :
        (t s' : StateServer D R)
        → Still (resolve_pending t) s'
        → IsOrdered (s'.history w.namespace)
        → IsAsked i w base t
        → IsServed i w base s'
    unfolding resolve_pending
    resolved-IsServed t s' still ordered asked =
        let before : IsOrdered (t.history w.namespace) =
          subst (λ history. IsOrdered (history w.namespace)) still.same_history ordered in
        Still-IsServed i w base (resolve_pending t) s' still
          (resolve-IsServed i w base t before asked)

    settled-IsServed :
        (s s' : StateServer D R)
        → Settles s s'
        → IsOrdered (s'.history w.namespace)
        → IsServed i w base s
        → IsServed i w base s'
    settled-IsServed s s' (inl still) ordered h = Still-IsServed i w base s s' still h
    settled-IsServed s s' (inr (t, grown, still)) ordered h =
        resolved-IsServed t s' still ordered (Grown-IsAsked i w base s t _ grown refl h)

    settled-IsAsked :
        (s s' : StateServer D R)
        → Settles s s'
        → IsOrdered (s'.history w.namespace)
        → At i w base none s
        → IsAsked i w base s'
    settled-IsAsked s s' (inl still) ordered h = inl (Still-At i w base s s' none still h)
    settled-IsAsked s s' (inr (t, grown, still)) ordered h =
        inr (resolved-IsServed t s' still ordered (inl (Grown-At i w base s t none grown h)))

    recv_request-Settles :
        (m : StateMessage D M F) (stamp : ℕ) (s : StateServer D R)
        → Settles s (recv_request env m stamp s)
    unfolding recv_request
    recv_request-Settles no_request stamp s = inl (Still-refl s)
    recv_request-Settles malformed_request stamp s = inl (Still-refl s)
    recv_request-Settles (garbled ident e) stamp s =
        inl (exception-Still env all ident (raise e, s))
    recv_request-Settles (request ident r) stamp s = serve_request-Settles env all ident stamp r s

    both-IsServed :
        (x : WatchMessage) (m : StateMessage D M F) (stamp : ℕ) (s : StateServer D R)
        → NotFrom i x
        → IsOrdered ((recv_both env x m stamp s).history w.namespace)
        → IsServed i w base s
        → IsServed i w base (recv_both env x m stamp s)
    unfolding recv_both recv_watcher
    both-IsServed no_watch m stamp s others ordered h =
        settled-IsServed s _ (recv_request-Settles m stamp s) ordered h
    both-IsServed malformed_watch m stamp s others ordered h = h
    both-IsServed (watch j s_ident namespace identical_okay only_after) m stamp s others ordered h =
        settled-IsServed (recv_watcher env j s_ident namespace identical_okay only_after s) _
          (recv_request-Settles m stamp _) ordered
          (record { left = set_watch-other i j _ s.pending others ∙ h.left; sent = h.sent })

    tick-IsServed :
        (t : ℕ) (x : Tick D M F) (s : StateServer D R)
        → Timed env t s
        → t ≤ x.stamp
        → NotFrom i x.from_watch
        → IsAsked i w base s
        → IsServed i w base (tick env x s)
    unfolding tick
    tick-IsServed t x s h le others asked =
        both-IsServed x.from_watch x.from_state x.stamp (resolve_pending s) others
          (Timed-IsOrdered x.stamp (tick env x s) w.namespace (tick-Timed env all t x s h le))
          (resolve-IsServed i w base s (Timed-IsOrdered t s w.namespace h) asked)

    pub steps-IsServed :
        (t : ℕ) (x : Tick D M F) (ts : List (Tick D M F)) (s : StateServer D R)
        → Timed env t s
        → Follows t (x ∷ ts)
        → NoneFrom i (x ∷ ts)
        → IsAsked i w base s
        → IsServed i w base (steps env (x ∷ ts) s)
    unfolding steps
    steps-IsServed t x [] s h (le, follows) (other, others) asked =
        tick-IsServed t x s h le other asked
    steps-IsServed t x (y ∷ ts) s h (le, follows) (other, others) asked =
        steps-IsServed x.stamp y ts (tick env x s) (tick-Timed env all t x s h le) follows others
          (inr (tick-IsServed t x s h le other asked))

  -- The tick in which the watcher asks.
  pub asking :
      (i s_ident namespace : Bytes) (identical_okay : Bool) (only_after : ℕ)
      (m : StateMessage D M F) (stamp t : ℕ) (s : StateServer D R)
      → Timed env t s
      → t ≤ stamp
      → of_ident i s.pending ≡ []
      → let x = ask_tick i s_ident namespace identical_okay only_after m stamp in
        IsAsked i
          (watch_of s_ident namespace identical_okay only_after)
          (of_ident i s.published)
          (tick env x s)
  unfolding tick recv_both recv_watcher ask_tick watch_of resolve_pending
  asking i s_ident namespace identical_okay only_after m stamp t s h le nobody =
      let w = watch_of s_ident namespace identical_okay only_after in
      let x = ask_tick i s_ident namespace identical_okay only_after m stamp in
      let (left, sent) = resolve_all-none s i s.pending nobody in
      let s1 = recv_watcher env i s_ident namespace identical_okay only_after (resolve_pending s) in
      settled-IsAsked i w (of_ident i s.published) s1 (tick env x s)
        (recv_request-Settles i w (of_ident i s.published) m stamp s1)
        (Timed-IsOrdered stamp (tick env x s) namespace (tick-Timed env all t x s h le))
        (record {
          left = set_watch-own i w (resolve_all s s.pending).0 left;
          sent =
              of_ident-append i s.published (resolve_all s s.pending).1
              ∙ ap (λ us. of_ident i s.published ++ us) sent;
        })
