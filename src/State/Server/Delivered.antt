-- ===== src/State/Server/Delivered.antt =====
-- A watcher that waits, its answer, and what a step of the server does to both.

use zproc.Prelude.{
  Bytes, ◌≡◌, refl, sym, ap, ◌∙◌, subst, ◌⊎◌, inl, inr, Option, none, some, List, [], ◌∷◌,
  append-nil, ◌++◌,
}
use zproc.State.Server.{Update, Watch, StateServer, resolve_all, resolve_pending}
use zproc.State.Server.Watchers.{first_wanted, IsOrdered, resolve_watcher_lem}
use zproc.State.Server.Idents.{
  of_ident, of_ident-append, waiting, answer, first_wanted-append, resolve_all-none,
  resolve_all-one,
}
use zproc.State.Server.Delivery.{Still, Grown}

module _ {D R : Type 0} (i : Bytes) (w : Watch) (base : List (Update D)) where
  -- The watcher `w` of the client `i`, to which `base` has been sent before: it waits, or has its answer.
  pub record At (o : Option (Update D)) (s : StateServer D R) : Type 0 where
    pub left : of_ident i s.pending ≡ waiting w o
    pub sent : of_ident i s.published ≡ base ++ answer o

  abbrev pub found : StateServer D R → Option (Update D)
  found s = first_wanted w (s.history w.namespace).updates

  -- It has its answer if there is one in the history,
  abbrev pub IsServed : StateServer D R → Type 0
  IsServed s = At (found s) s

  -- or may have to wait for the next tick.
  abbrev pub IsAsked : StateServer D R → Type 0
  IsAsked s = At none s ⊎ IsServed s

  waiting-IsServed :
      (s : StateServer D R)
      → IsOrdered (s.history w.namespace)
      → At none s
      → IsServed (resolve_pending s)
  unfolding resolve_pending
  waiting-IsServed s ordered h =
      let e = resolve_watcher_lem s w ordered in
      let (left, sent) = resolve_all-one s i w s.pending h.left in
      record {
        left = left ∙ ap (waiting w) e;
        sent =
            of_ident-append i s.published (resolve_all s s.pending).1
            ∙ (λ j. (h.sent ∙ append-nil base) j ++ (sent ∙ ap answer e) j);
      }

  answered-IsServed :
      (s : StateServer D R) (u : Update D)
      → At (some u) s
      → found s ≡ some u
      → IsServed (resolve_pending s)
  unfolding resolve_pending
  answered-IsServed s u h e =
      let (left, sent) = resolve_all-none s i s.pending h.left in
      record {
        left = left ∙ ap (waiting w) (sym e);
        sent =
            of_ident-append i s.published (resolve_all s s.pending).1
            ∙ (λ j. h.sent j ++ sent j)
            ∙ append-nil (base ++ u ∷ [])
            ∙ ap (λ o. base ++ answer o) (sym e);
      }

  served-resolve :
      (s : StateServer D R) (o : Option (Update D))
      → IsOrdered (s.history w.namespace)
      → found s ≡ o
      → At o s
      → IsServed (resolve_pending s)
  served-resolve s none ordered e h = waiting-IsServed s ordered h
  served-resolve s (some u) ordered e h = answered-IsServed s u h e

  pub resolve-IsServed :
      (s : StateServer D R)
      → IsOrdered (s.history w.namespace)
      → IsAsked s
      → IsServed (resolve_pending s)
  resolve-IsServed s ordered (inl h) = waiting-IsServed s ordered h
  resolve-IsServed s ordered (inr h) = served-resolve s (found s) ordered refl h

  pub Still-At : (s s' : StateServer D R) (o : Option (Update D)) → Still s s' → At o s → At o s'
  Still-At s s' o still h = record {
    left = ap (of_ident i) still.same_pending ∙ h.left;
    sent = ap (of_ident i) still.same_published ∙ h.sent;
  }

  pub Still-IsServed : (s s' : StateServer D R) → Still s s' → IsServed s → IsServed s'
  Still-IsServed s s' still h =
      subst (λ us. At (first_wanted w us) s')
        (sym (ap (λ history. (history w.namespace).updates) still.same_history))
        (Still-At s s' (found s) still h)

  pub Grown-At : (s t : StateServer D R) (o : Option (Update D)) → Grown s t → At o s → At o t
  Grown-At s t o grown h = record {
    left = ap (of_ident i) grown.same_pending ∙ h.left;
    sent = ap (of_ident i) grown.same_published ∙ h.sent;
  }

  -- A longer history has the same first update, if it has had one.
  pub Grown-IsAsked :
      (s t : StateServer D R) (o : Option (Update D)) → Grown s t → found s ≡ o → At o s → IsAsked t
  Grown-IsAsked s t none grown e h = inl (Grown-At s t none grown h)
  Grown-IsAsked s t (some u) grown e h =
      let (us, longer) = grown.grown w.namespace in
      let later : found t ≡ some u =
        ap (first_wanted w) longer ∙ first_wanted-append w (s.history w.namespace).updates us u e in
      inr (subst (λ o. At o t) (sym later) (Grown-At s t (some u) grown h))
