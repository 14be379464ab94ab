-- ===== src/State/Server/Idents.antt =====
-- What `resolve_pending` does for one of the clients that wait.
use zproc.Prelude.{
  if◌then◌else◌, Bool-cases, Bytes, bytes_eq, bytes_eq_iff, ◌≡◌, refl, sym, ap, ◌∙◌, subst, inl,
  inr, true, false, Option, none, some, List, [], ◌∷◌, ◌++◌, arith,
}
use zproc.State.Server.{Update, Watch, StateServer, set_watch, settle, resolve_watcher, resolve_all}
use zproc.State.Server.Watchers.{wants, first_wanted}

-- What is kept for a client, or sent to it.
abbrev pub of_ident : {A : Type 0} → Bytes → List (Bytes × A) → List A
of_ident i [] = []
of_ident i ((j, a) ∷ xs) = let rest = of_ident i xs in if bytes_eq j i then a ∷ rest else rest

pub of_ident-append :
    {A : Type 0} (i : Bytes) (xs ys : List (Bytes × A))
    → of_ident i (xs ++ ys) ≡ of_ident i xs ++ of_ident i ys
of_ident-append i [] ys = refl
of_ident-append i ((j, a) ∷ xs) ys = elim (Bool-cases (bytes_eq j i)) [
  | inl e ↦ rw e (ap (◌∷◌ a) (of_ident-append i xs ys))
  | inr e ↦ rw e (of_ident-append i xs ys)
]

pub set_watch-own :
    (i : Bytes) (w : Watch) (ws : List (Bytes × Watch))
    → of_ident i ws ≡ []
    → of_ident i (set_watch i w ws) ≡ w ∷ []
unfolding set_watch
set_watch-own i w [] h = rw ((bytes_eq_iff i i).1 refl) refl
set_watch-own i w ((j, v) ∷ ws) h = elim (Bool-cases (bytes_eq j i)) [
  | inl e ↦ let h' : v ∷ of_ident i ws ≡ [] = rw e at h in absurd (ground (arith, h'))
  | inr e ↦ rw (e, e) (set_watch-own i w ws (rw e at h))
]

pub set_watch-other :
    (i j : Bytes) (w : Watch) (ws : List (Bytes × Watch))
    → bytes_eq j i ≡ false
    → of_ident i (set_watch j w ws) ≡ of_ident i ws
unfolding set_watch
set_watch-other i j w [] h = rw h refl
set_watch-other i j w ((k, v) ∷ ws) h = elim (Bool-cases (bytes_eq k j)) [
  | inl e ↦
      let same : k ≡ j = (bytes_eq_iff k j).0 e in
      let h' : bytes_eq k i ≡ false = subst (λ x. bytes_eq x i ≡ false) (sym same) h in
      rw (e, h, h') refl
  | inr e ↦ rw e (elim (Bool-cases (bytes_eq k i)) [
    | inl e' ↦ rw e' (ap (◌∷◌ v) (set_watch-other i j w ws h))
    | inr e' ↦ rw e' (set_watch-other i j w ws h)
  ])
]

module _ {D : Type 0} where
  -- What the watcher of the client has then: it waits, or it has been sent an update.
  abbrev pub waiting : Watch → Option (Update D) → List Watch
  waiting w none = w ∷ []
  waiting w (some u) = []

  abbrev pub answer : Option (Update D) → List (Update D)
  answer none = []
  answer (some u) = u ∷ []

  pub first_wanted-append :
      (w : Watch) (us vs : List (Update D)) (u : Update D)
      → first_wanted w us ≡ some u
      → first_wanted w (us ++ vs) ≡ some u
  unfolding first_wanted
  first_wanted-append w [] vs u h = absurd (ground (arith, h))
  first_wanted-append w (v ∷ us) vs u h = elim (Bool-cases (wants w v)) [
    | inl e ↦ rw e (rw e at h)
    | inr e ↦ rw e (first_wanted-append w us vs u (rw e at h))
  ]

  settle-other :
      (i j : Bytes) (v : Watch) (o : Option (Update D))
      (rest : List (Bytes × Watch) × List (Bytes × Update D))
      → bytes_eq j i ≡ false
      → (of_ident i (settle j v o rest).0 ≡ of_ident i rest.0)
        × (of_ident i (settle j v o rest).1 ≡ of_ident i rest.1)
  unfolding settle
  settle-other i j v none rest h = (rw h refl, refl)
  settle-other i j v (some u) rest h = (refl, rw h refl)

  settle-own :
      (i j : Bytes) (v : Watch) (o : Option (Update D))
      (rest : List (Bytes × Watch) × List (Bytes × Update D))
      → bytes_eq j i ≡ true
      → of_ident i rest.0 ≡ []
      → of_ident i rest.1 ≡ []
      → (of_ident i (settle j v o rest).0 ≡ waiting v o)
        × (of_ident i (settle j v o rest).1 ≡ answer o)
  unfolding settle
  settle-own i j v none rest h none_left none_sent = (rw h (ap (◌∷◌ v) none_left), none_sent)
  settle-own i j v (some u) rest h none_left none_sent = (none_left, rw h (ap (◌∷◌ u) none_sent))

module _ {D R : Type 0} (s : StateServer D R) (i : Bytes) where
  pub resolve_all-none :
      (ws : List (Bytes × Watch))
      → of_ident i ws ≡ []
      → (of_ident i (resolve_all s ws).0 ≡ []) × (of_ident i (resolve_all s ws).1 ≡ [])
  unfolding resolve_all
  resolve_all-none [] h = (refl, refl)
  resolve_all-none ((j, v) ∷ ws) h = elim (Bool-cases (bytes_eq j i)) [
    | inl e ↦ let h' : v ∷ of_ident i ws ≡ [] = rw e at h in absurd (ground (arith, h'))
    | inr e ↦
        let (left, sent) = resolve_all-none ws (rw e at h) in
        let (left', sent') = settle-other i j v (resolve_watcher s v) (resolve_all s ws) e in
        (left' ∙ left, sent' ∙ sent)
  ]

  pub resolve_all-one :
      (w : Watch) (ws : List (Bytes × Watch))
      → of_ident i ws ≡ w ∷ []
      → (of_ident i (resolve_all s ws).0 ≡ waiting w (resolve_watcher s w))
        × (of_ident i (resolve_all s ws).1 ≡ answer (resolve_watcher s w))
  unfolding resolve_all
  resolve_all-one w [] h = absurd (ground (arith, h))
  resolve_all-one w ((j, v) ∷ ws) h = elim (Bool-cases (bytes_eq j i)) [
    | inl e ↦
        let h' : v ∷ of_ident i ws ≡ w ∷ [] = rw e at h in
        let same : v ≡ w = ground (arith, h') in
        let nobody : of_ident i ws ≡ [] = ground (arith, h') in
        let (left, sent) = resolve_all-none ws nobody in
        let (left', sent') =
          settle-own i j v (resolve_watcher s v) (resolve_all s ws) e left sent in
        (
          left' ∙ ap (λ x. waiting x (resolve_watcher s x)) same,
          sent' ∙ ap (λ x. answer (resolve_watcher s x)) same,
        )
    | inr e ↦
        let (left, sent) = resolve_all-one w ws (rw e at h) in
        let (left', sent') = settle-other i j v (resolve_watcher s v) (resolve_all s ws) e in
        (left' ∙ left, sent' ∙ sent)
  ]
