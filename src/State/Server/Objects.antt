-- ===== src/State/Server/Objects.antt =====
-- The dicts of the server as objects: a new one, a write, and what leaves them alone.

use zproc.Prelude.{
  if◌then◌else◌, Bool-cases, Option-cases, ok, Result-cases, Bytes, bytes_eq, bytes_eq_iff, ℕ, ◌≡◌,
  refl, ◌∙◌, inl, inr, some, arith,
}
use zproc.State.Server.{Env, Reply, StateServer, update, resolve_pending}
use zproc.State.Handlers.{can_pickle, reply, bind_new, log_entry, put_entry, finish}
use zproc.State.Server.Contract.{IsValid, contents, view}

pub update-own : {V : Type 0} (f : ℕ → V) (a : ℕ) (v : V) → update f a v a ≡ v
update-own f a v = ground arith

module _ {D M F R : Type 0} (env : Env D M F R) where
  pub view-bind_new :
      (ns ns' : Bytes) (d : D) (s : StateServer D R)
      → IsValid s
      → view env (bind_new env ns d s) ns' ≡ (if bytes_eq ns' ns then d else view env s ns')
  unfolding view bind_new
  view-bind_new ns ns' d s v = elim (Option-cases (s.state_map ns')) [
    | inl e ↦ ground arith
    | inr (a, e) ↦ ground (arith, v.allocated ns' a e)
  ]

  pub bind_new-IsValid :
      (ns : Bytes) (d : D) (s : StateServer D R) → IsValid s → IsValid (bind_new env ns d s)
  unfolding bind_new
  bind_new-IsValid ns d s v = record {
    allocated = λ ns' a e. ground (arith, v.allocated ns' a);
    separate = λ ns' ns'' a e e'. ground (
      arith,
      v.allocated ns' a,
      v.allocated ns'' a,
      v.separate ns' ns'' a,
      bytes_eq_iff ns' ns,
      bytes_eq_iff ns'' ns,
    );
  }

  -- A write through `self.state` shows in its own namespace only.
  pub view-write :
      (ns ns' : Bytes) (a : ℕ) (d : D) (s : StateServer D R)
      → IsValid s
      → s.state_map ns ≡ some a
      → view env (record s { dicts = update s.dicts a d }) ns'
        ≡ (if bytes_eq ns' ns then d else view env s ns')
  unfolding view
  view-write ns ns' a d s v at = elim (Option-cases (s.state_map ns')) [
    | inl e ↦ ground (arith, bytes_eq_iff ns' ns)
    | inr (b, e) ↦ ground (arith, bytes_eq_iff ns' ns, v.separate ns' ns b)
  ]

  -- After a request on `ns`: its dict is `d`, every other one is as before, and the server is valid.
  pub record Serves (ns : Bytes) (d : D) (s s' : StateServer D R) : Type 0 where
    pub views : (ns' : Bytes) → view env s' ns' ≡ (if bytes_eq ns' ns then d else view env s ns')
    pub valid : IsValid s'

  -- The same dicts, whatever else has changed.
  pub record Same (s s' : StateServer D R) : Type 0 where
    pub dicts : s'.dicts ≡ s.dicts
    pub fresh : s'.fresh ≡ s.fresh
    pub state_map : s'.state_map ≡ s.state_map

  pub Same-trans : (s t u : StateServer D R) → Same s t → Same t u → Same s u
  Same-trans s t u h k = record {
    dicts = k.dicts ∙ h.dicts;
    fresh = k.fresh ∙ h.fresh;
    state_map = k.state_map ∙ h.state_map;
  }

  pub view-Same : (s s' : StateServer D R) (ns : Bytes) → Same s s' → view env s' ns ≡ view env s ns
  unfolding view
  view-Same s s' ns e = λ i. contents env (e.dicts i) (e.state_map i ns)

  pub IsValid-Same : (s s' : StateServer D R) → Same s s' → IsValid s → IsValid s'
  IsValid-Same s s' e v = record {
    allocated = λ ns a h. rw e.fresh (v.allocated ns a (rw e.state_map at h));
    separate = λ ns ns' a h h'. v.separate ns ns' a (rw e.state_map at h) (rw e.state_map at h');
  }

  pub Serves-Same :
      (ns : Bytes) (d : D) (s s' s'' : StateServer D R)
      → Same s' s''
      → Serves ns d s s'
      → Serves ns d s s''
  Serves-Same ns d s s' s'' e h = record {
    views = λ ns'. view-Same s' s'' ns' e ∙ h.views ns';
    valid = IsValid-Same s' s'' e h.valid;
  }

  pub finish-Same :
      (ident ns : Bytes) (a : ℕ) (old : D) (stamp : ℕ) (s : StateServer D R)
      → Same s (finish env ident ns a old stamp (ok tt) s).1
  unfolding finish put_entry resolve_pending
  finish-Same ident ns a old stamp s = elim (Result-cases (log_entry env old (s.dicts a))) [
    | inl (b, e) ↦ rw e (record { dicts = refl; fresh = refl; state_map = refl })
    | inr (x, e) ↦ rw e (record { dicts = refl; fresh = refl; state_map = refl })
  ]

  pub reply-Same :
      (ident : Bytes) (r : Reply D R) (s : StateServer D R) → Same s (reply env ident r s).1
  unfolding reply
  reply-Same ident r s = elim (Bool-cases (can_pickle env r)) [
    | inl e ↦ rw e (record { dicts = refl; fresh = refl; state_map = refl })
    | inr e ↦ rw e (record { dicts = refl; fresh = refl; state_map = refl })
  ]
