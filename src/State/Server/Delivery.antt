-- ===== src/State/Server/Delivery.antt =====
-- What a request does to the watchers and the history: nothing, or one step of both.

use zproc.Prelude.{
  Bool-cases, Result, ok, raise, Result-cases, Bytes, bytes_eq, bytes_eq_iff, ℕ, ◌≡◌, refl, sym, ap,
  ◌∙◌, ◌⊎◌, inl, inr, Option, none, some, List, [], ◌∷◌, append-nil, ◌++◌,
}
use zproc.State.Server.{
  Effect, Env, Command, run_fn_atomically, run_dict_method, get_state, set_state, Query, ping,
  get_server_meta, time, unknown_cmd, Request, on_state, query, Reply, returned, snapshot, done,
  pong, server_meta, now, remote_exception, Update, StateServer, update, update_at, resolve_pending,
}
use zproc.State.Handlers.{
  can_pickle, reply, bind_new, put_entry, finish, with_copy, mutate_safely, reply_result,
  call_and_reply, with_fn, set_state_body, handle, lookup_state, visit, handle_query, dispatch,
  or_stop, reply_exception, serve_request,
}
use zproc.State.Server.History.{IsLogged, append_updates, update_of, log_entry-identical}

module _ {D R : Type 0} where
  pub record Still (s s' : StateServer D R) : Type 0 where
    pub same_pending : s'.pending ≡ s.pending
    pub same_published : s'.published ≡ s.published
    pub same_history : s'.history ≡ s.history

  -- The history of `t` is that of `s` with something at its end, and the watchers are the same.
  pub record Grown (s t : StateServer D R) : Type 0 where
    pub same_pending : t.pending ≡ s.pending
    pub same_published : t.published ≡ s.published
    pub grown :
        (ns : Bytes)
        → (us : List (Update D)) × ((t.history ns).updates ≡ (s.history ns).updates ++ us)

  -- Nothing, or the history has grown and then the watchers have been served.
  abbrev pub Settles : StateServer D R → StateServer D R → Type 0
  Settles s s' = Still s s' ⊎ ((t : StateServer D R) × Grown s t × Still (resolve_pending t) s')

  pub Still-refl : (s : StateServer D R) → Still s s
  Still-refl s = record { same_pending = refl; same_published = refl; same_history = refl }

  Still-trans : (s t u : StateServer D R) → Still s t → Still t u → Still s u
  Still-trans s t u h k = record {
    same_pending = k.same_pending ∙ h.same_pending;
    same_published = k.same_published ∙ h.same_published;
    same_history = k.same_history ∙ h.same_history;
  }

  Still-Settles : (s t u : StateServer D R) → Still s t → Settles t u → Settles s u
  Still-Settles s t u h (inl k) = inl (Still-trans s t u h k)
  Still-Settles s t u h (inr (t', grown, k)) = inr (
    t',
    record {
      same_pending = grown.same_pending ∙ h.same_pending;
      same_published = grown.same_published ∙ h.same_published;
      grown = λ ns.
          let (us, e) = grown.grown ns in
          (us, e ∙ ap (λ history. (history ns).updates ++ us) h.same_history);
    },
    k,
  )

  Settles-Still : (s t u : StateServer D R) → Settles s t → Still t u → Settles s u
  Settles-Still s t u (inl h) k = inl (Still-trans s t u h k)
  Settles-Still s t u (inr (t', grown, h)) k =
      inr (t', grown, Still-trans (resolve_pending t') t u h k)

  -- The server with one update more.
  abbrev put : Bytes → Update D → StateServer D R → StateServer D R
  put ns u s = record s {
    history = update_at s.history ns (append_updates (s.history ns) (u ∷ []));
  }

  put-Grown : (ns : Bytes) (u : Update D) (s : StateServer D R) → Grown s (put ns u s)
  put-Grown ns u s = record {
    same_pending = refl;
    same_published = refl;
    grown = λ ns'. elim (Bool-cases (bytes_eq ns' ns)) [
      | inl e ↦
          let same : ns' ≡ ns = (bytes_eq_iff ns' ns).0 e in
          (u ∷ [], rw e (ap (λ n. (s.history n).updates ++ u ∷ []) (sym same)))
      | inr e ↦ ([], rw e (sym (append-nil (s.history ns').updates)))
    ];
  }

module _ {D M F R : Type 0} (env : Env D M F R) (all : IsLogged env) where
  reply-Still :
      (ident : Bytes) (r : Reply D R) (s : StateServer D R) → Still s (reply env ident r s).1
  unfolding reply
  reply-Still ident r s = elim (Bool-cases (can_pickle env r)) [
    | inl e ↦ rw e (record { same_pending = refl; same_published = refl; same_history = refl })
    | inr e ↦ rw e (Still-refl s)
  ]

  bind_new-Still : (ns : Bytes) (d : D) (s : StateServer D R) → Still s (bind_new env ns d s)
  unfolding bind_new
  bind_new-Still ns d s = record { same_pending = refl; same_published = refl; same_history = refl }

  reply_result-Still :
      (ident : Bytes) (r : Result R) (s : StateServer D R) → Still s (reply_result env ident r s).1
  unfolding reply_result
  reply_result-Still ident (ok v) s = reply-Still ident (returned v) s
  reply_result-Still ident (raise e) s = Still-refl s

  lookup_state-Still :
      (o : Option ℕ) (ns : Bytes) (s : StateServer D R) → Still s (lookup_state env o ns s).1
  unfolding lookup_state
  lookup_state-Still (some a) ns s = Still-refl s
  lookup_state-Still none ns s = bind_new-Still ns env.empty s

  visit-Still : (o : Option Bytes) (s : StateServer D R) → Still s (visit env o s)
  unfolding visit
  visit-Still none s = Still-refl s
  visit-Still (some ns) s = lookup_state-Still (s.state_map ns) ns s

  pub exception-Still :
      (ident : Bytes) (p : Result (Unit {0}) × StateServer D R)
      → Still p.1 (reply_exception env ident p)
  unfolding reply_exception reply or_stop
  exception-Still ident (ok u, s) = Still-refl s
  exception-Still ident (raise e, s) = elim (Bool-cases (can_pickle env (remote_exception e))) [
    | inl h ↦ rw h (record { same_pending = refl; same_published = refl; same_history = refl })
    | inr h ↦ rw h (record { same_pending = refl; same_published = refl; same_history = refl })
  ]

  finish-Settles :
      (ident ns : Bytes) (a : ℕ) (old : D) (stamp : ℕ) (r : Result (Unit {0})) (s : StateServer D R)
      → Settles s (finish env ident ns a old stamp r s).1
  unfolding finish put_entry update_of
  finish-Settles ident ns a old stamp (raise e) s = inl (bind_new-Still ns old s)
  finish-Settles ident ns a old stamp (ok u) s =
      let u = update_of env ident stamp old (s.dicts a) in
      rw (log_entry-identical env ident stamp old (s.dicts a) (all old (s.dicts a)))
        (inr (put ns u s, put-Grown ns u s, Still-refl (resolve_pending (put ns u s))))

  call-Settles :
      (ident ns : Bytes) (a stamp : ℕ) (effect : Effect D R) (s : StateServer D R)
      → Settles s (mutate_safely env ident ns a stamp (call_and_reply env ident a effect) s).1
  unfolding mutate_safely with_copy call_and_reply
  call-Settles ident ns a stamp effect s =
      let (r, d) = effect (s.dicts a) in
      let s1 = record s { dicts = update s.dicts a d } in
      let s2 = reply_result env ident r s1 in
      elim (Result-cases (env.deepcopy (s.dicts a))) [
        | inl (old, e) ↦ rw e (
            Still-Settles s s2.1 _
              (Still-trans s s1 s2.1
                (record { same_pending = refl; same_published = refl; same_history = refl })
                (reply_result-Still ident r s1))
              (finish-Settles ident ns a old stamp s2.0 s2.1))
        | inr (x, e) ↦ rw e (inl (Still-refl s))
      ]

  load-Settles :
      (ident ns : Bytes) (a stamp : ℕ) (loaded : Result (Effect D R)) (s : StateServer D R)
      → Settles s (with_fn env ident ns a stamp loaded s).1
  unfolding with_fn
  load-Settles ident ns a stamp (raise e) s = inl (Still-refl s)
  load-Settles ident ns a stamp (ok fn) s = call-Settles ident ns a stamp fn s

  handle-Settles :
      (ident ns : Bytes) (a stamp : ℕ) (c : Command D M F) (s : StateServer D R)
      → Settles s (handle env ident ns a stamp c s).1
  unfolding handle mutate_safely with_copy set_state_body
  handle-Settles ident ns a stamp (run_fn_atomically f) s =
      load-Settles ident ns a stamp (env.load_fn f) s
  handle-Settles ident ns a stamp (run_dict_method m) s =
      call-Settles ident ns a stamp (env.call_method m) s
  handle-Settles ident ns a stamp get_state s = inl (reply-Still ident (snapshot (s.dicts a)) s)
  handle-Settles ident ns a stamp (set_state new) s =
      let s1 = bind_new env ns new s in
      let s2 = reply env ident done s1 in
      elim (Result-cases (env.deepcopy (s.dicts a))) [
        | inl (old, e) ↦ rw e (
            Still-Settles s s2.1 _
              (Still-trans s s1 s2.1 (bind_new-Still ns new s) (reply-Still ident done s1))
              (finish-Settles ident ns a old stamp s2.0 s2.1))
        | inr (x, e) ↦ rw e (inl (Still-refl s))
      ]

  query-Still :
      (ident : Bytes) (stamp : ℕ) (q : Query) (s : StateServer D R)
      → Still s (handle_query env ident stamp q s).1
  unfolding handle_query
  query-Still ident stamp (ping payload) s = reply-Still ident (pong payload) s
  query-Still ident stamp get_server_meta s = reply-Still ident server_meta s
  query-Still ident stamp time s = reply-Still ident (now stamp) s
  query-Still ident stamp unknown_cmd s = Still-refl s

  -- Every request, with the reply to its exception
  pub serve_request-Settles :
      (ident : Bytes) (stamp : ℕ) (r : Request D M F) (s : StateServer D R)
      → Settles s (serve_request env ident stamp r s)
  unfolding serve_request dispatch
  serve_request-Settles ident stamp (on_state ns c) s =
      let (a, s1) = lookup_state env (s.state_map ns) ns s in
      let p = handle env ident ns a stamp c s1 in
      Still-Settles s s1 _ (lookup_state-Still (s.state_map ns) ns s)
        (Settles-Still s1 p.1 _ (handle-Settles ident ns a stamp c s1) (exception-Still ident p))
  serve_request-Settles ident stamp (query o q) s =
      let p = handle_query env ident stamp q (visit env o s) in
      inl (
        Still-trans s (visit env o s) _ (visit-Still o s) (
          Still-trans (visit env o s) p.1 _ (query-Still ident stamp q (visit env o s))
            (exception-Still ident p)))
