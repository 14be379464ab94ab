-- ===== src/State/Server/History.antt =====
-- What a request puts into the history of its namespace, from which the watchers are served.

use zproc.Prelude.{
  if◌then◌else◌, Bool-cases, Result, ok, raise, Result-cases, Bytes, bytes_eq, bytes_eq_iff, ℕ, ◌<◌,
  ◌≡◌, refl, ap, ◌∙◌, inl, inr, Bool, false, Option, none, some, List, [], ◌∷◌, append-nil, ◌++◌,
  map, arith,
}
use zproc.State.Server.{
  Effect, Env, Command, run_fn_atomically, run_dict_method, get_state, set_state, on_state,
  returned, snapshot, done, remote_exception, Update, Slot, StateServer, update, resolve_pending,
}
use zproc.State.Handlers.{
  can_pickle, reply, bind_new, log_entry, put_entry, finish, with_copy, mutate_safely, reply_result,
  call_and_reply, with_fn, set_state_body, handle, lookup_state, dispatch, or_stop, reply_exception,
  serve_request,
}
use zproc.State.Server.Contract.{IsValid, view}
use zproc.State.Server.Atomic.{lookup_state-Found}
use zproc.State.Server.Objects.{update-own}

-- Every update can be logged: its dicts can be pickled, and `==` does not raise on them.
abbrev pub IsLogged : {D M F R : Type 0} → Env D M F R → Type 0
IsLogged env = (old new : _) → (b : Bool) × (log_entry env old new ≡ ok b)

-- The slot with these updates after its own.
abbrev pub append_updates : {D : Type 0} → Slot D → List (Update D) → Slot D
append_updates slot us = record {
  timestamps = slot.timestamps ++ map (λ u. u.stamp) us;
  updates = slot.updates ++ us;
}

module _ {D M F R : Type 0} (env : Env D M F R) (ident : Bytes) (stamp : ℕ) where
  -- What `==` says; an exception counts as a no.
  unfoldable pub is_identical : D → D → Bool
  is_identical new old = elim (env.same new old) [ ok b ↦ b | raise e ↦ false ]

  unfoldable pub update_of : D → D → Update D
  unfolding is_identical
  update_of old new = record {
    ident = ident;
    before = old;
    after = new;
    stamp = stamp;
    identical = is_identical new old;
  }

  -- Nothing is done to a dict that cannot be copied.
  unfoldable pub log_from : Result D → (D → List (Update D)) → List (Update D)
  log_from (raise e) k = []
  log_from (ok old) k = k old

  -- What a call on the dict `d` is to leave in the history: one update if it succeeds, else nothing.
  unfoldable pub call_log : Effect D R → D → List (Update D)
  unfolding update_of log_from
  call_log effect d =
      let (r, d') = effect d in
      log_from (env.deepcopy d) (λ old. elim r [
        | raise e ↦ []
        | ok v ↦ if env.result_picklable v then update_of old d' ∷ [] else []
      ])

  unfoldable pub load_log : Result (Effect D R) → D → List (Update D)
  load_log (raise e) d = []
  load_log (ok fn) d = call_log fn d

  -- `set_state` logs the old dict twice: the new one is not in `self.state`.
  unfoldable pub command_log : Command D M F → D → List (Update D)
  unfolding call_log load_log update_of log_from
  command_log (run_fn_atomically f) d = load_log (env.load_fn f) d
  command_log (run_dict_method m) d = call_log (env.call_method m) d
  command_log get_state d = []
  command_log (set_state new) d = log_from (env.deepcopy d) (λ old. update_of old d ∷ [])

  -- An update that can be logged has the flag that `==` gives.
  pub log_entry-identical :
      (old new : D)
      → (b : Bool) × (log_entry env old new ≡ ok b)
      → log_entry env old new ≡ ok (is_identical new old)
  unfolding log_entry is_identical
  log_entry-identical old new (b, e) = ground (arith, e)

  module _ (ns : Bytes) (a : ℕ) (s : StateServer D R) (all : IsLogged env) where
    -- The history of `ns` has these updates more, and the others none.
    abbrev Logs : List (Update D) → StateServer D R → Type 0
    Logs us s' =
        (ns' : Bytes)
        → s'.history ns'
          ≡ (if bytes_eq ns' ns then append_updates (s.history ns) us else s.history ns')

    Logs-nothing : Logs [] s
    Logs-nothing ns' = elim (Bool-cases (bytes_eq ns' ns)) [
      | inl e ↦
          let same : ns' ≡ ns = (bytes_eq_iff ns' ns).0 e in
          rw (e, same, append-nil (s.history ns).timestamps, append-nil (s.history ns).updates)
      | inr e ↦ rw e
    ]

    put_entry-Logs :
        (old new : D) (s' : StateServer D R)
        → s'.history ≡ s.history
        → Logs
            (update_of old new ∷ [])
            (put_entry env ident ns old new stamp (ok (is_identical new old)) s').1
    unfolding put_entry resolve_pending update_of
    put_entry-Logs old new s' same ns' = rw same

    finish-Logs :
        (old new : D) (s' : StateServer D R)
        → s'.history ≡ s.history
        → s'.dicts a ≡ new
        → Logs (update_of old new ∷ []) (finish env ident ns a old stamp (ok tt) s').1
    unfolding finish
    finish-Logs old new s' same e ns' =
        rw (e, log_entry-identical old new (all old new)) (put_entry-Logs old new s' same ns')

    call-Logs :
        (effect : Effect D R)
        → Logs
            (call_log effect (s.dicts a))
            (mutate_safely env ident ns a stamp (call_and_reply env ident a effect) s).1
    unfolding mutate_safely with_copy call_log
    call-Logs effect = elim (Result-cases (env.deepcopy (s.dicts a))) [
      | inl (old, e) ↦ elim (Result-cases (effect (s.dicts a)).0) [
        | inl (v, h) ↦
            unfold call_and_reply reply_result reply can_pickle in
            elim (Bool-cases (env.result_picklable v)) [
              | inl k ↦
                  rw (e, h, k)
                    (finish-Logs old (effect (s.dicts a)).1
                      (record s {
                        dicts = update s.dicts a (effect (s.dicts a)).1;
                        replies = s.replies ++ (ident, returned v) ∷ [];
                      })
                      refl (update-own s.dicts a (effect (s.dicts a)).1))
              | inr k ↦ unfold finish bind_new in rw (e, h, k) Logs-nothing
            ]
        | inr (x, h) ↦ unfold call_and_reply reply_result finish bind_new in rw (e, h) Logs-nothing
      ]
      | inr (x, e) ↦ rw e Logs-nothing
    ]

    load-Logs :
        (loaded : Result (Effect D R))
        → Logs (load_log loaded (s.dicts a)) (with_fn env ident ns a stamp loaded s).1
    unfolding load_log with_fn mutate_safely call_and_reply call_log
    load-Logs (raise e) = Logs-nothing
    load-Logs (ok fn) = call-Logs fn

    handle-Logs :
        (c : Command D M F)
        → a < s.fresh
        → Logs (command_log c (s.dicts a)) (handle env ident ns a stamp c s).1
    unfolding handle command_log mutate_safely
    handle-Logs (run_fn_atomically f) h = load-Logs (env.load_fn f)
    handle-Logs (run_dict_method m) h = call-Logs (env.call_method m)
    handle-Logs get_state h =
        unfold reply in
        elim (Bool-cases (can_pickle env (snapshot (s.dicts a)))) [
          | inl k ↦ rw k Logs-nothing
          | inr k ↦ rw k Logs-nothing
        ]
    handle-Logs (set_state new) h = elim (Result-cases (env.deepcopy (s.dicts a))) [
      | inl (old, e) ↦
          let s1 = bind_new env ns new s in
          unfold with_copy set_state_body reply can_pickle bind_new in
          rw e (
            finish-Logs old (s.dicts a) (record s1 { replies = s.replies ++ (ident, done) ∷ [] })
              refl (ground (arith, h)))
      | inr (x, e) ↦ rw e Logs-nothing
    ]

  pub reply_exception-history :
      (p : Result (Unit {0}) × StateServer D R)
      → (reply_exception env ident p).history ≡ p.1.history
  unfolding reply_exception reply or_stop
  reply_exception-history (ok u, s) = refl
  reply_exception-history (raise e, s) = elim (Bool-cases (can_pickle env (remote_exception e))) [
    | inl h ↦ rw h refl
    | inr h ↦ rw h refl
  ]

  pub lookup_state-history :
      (o : Option ℕ) (ns : Bytes) (s : StateServer D R)
      → (lookup_state env o ns s).1.history ≡ s.history
  unfolding lookup_state bind_new
  lookup_state-history (some b) ns s = refl
  lookup_state-history none ns s = refl

-- A call that succeeds puts exactly one update into the history of its namespace, with the client, the
-- dict before and after it, its time and whether the two are equal; one that fails, and `get_state`,
-- put none; and the history of every other namespace stays what it was. For `set_state` the update
-- has the old dict in both places. Nothing is put for a dict that cannot be copied. Hypothesis: every
-- update can be logged: its dicts can be pickled, and `==` does not raise on them.
pub serve_request_history :
    {D M F R : Type 0} (env : Env D M F R) (ident : Bytes) (stamp : ℕ) (ns : Bytes)
    (c : Command D M F) (s : StateServer D R)
    → IsLogged env
    → IsValid s
    → (ns' : Bytes)
    → (serve_request env ident stamp (on_state ns c) s).history ns' ≡ (
        if bytes_eq ns' ns
        then append_updates (s.history ns) (command_log env ident stamp c (view env s ns))
        else s.history ns')
unfolding serve_request dispatch
serve_request_history env ident stamp ns c s all v ns' =
    let (a, s') = lookup_state env (s.state_map ns) ns s in
    let found = lookup_state-Found env ns s (s.state_map ns) v refl in
    let same : s'.history ≡ s.history =
      lookup_state-history env ident stamp (s.state_map ns) ns s in
    ap (λ h. h ns') (reply_exception-history env ident stamp (handle env ident ns a stamp c s'))
    ∙ (handle-Logs env ident stamp ns a s' all c (found.valid.allocated ns a found.at) ns' ∙ λ i.
        if bytes_eq ns' ns
        then append_updates (same i ns) (command_log env ident stamp c (found.same_dict i))
        else same i ns')
