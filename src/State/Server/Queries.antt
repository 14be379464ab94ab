-- ===== src/State/Server/Queries.antt =====
-- The requests that do not use the state leave it alone.

use zproc.Prelude.{
  Bool-cases, key_error, raise, Bytes, ℕ, ◌≡◌, refl, ◌∙◌, inl, inr, Option, none, some, [],
}
use zproc.State.Server.{
  Env, Query, ping, get_server_meta, time, unknown_cmd, Reply, pong, server_meta, now, StateServer,
}
use zproc.State.Handlers.{can_pickle, reply, lookup_state, visit, handle_query, reply_exception}
use zproc.State.Server.Contract.{IsValid, view}
use zproc.State.Server.Objects.{Same, Same-trans, reply-Same}
use zproc.State.Server.Atomic.{lookup_state-Found, reply_exception-Same}
use zproc.State.Server.History.{reply_exception-history, lookup_state-history}

module _ {D M F R : Type 0} (env : Env D M F R) where
  -- A namespace that is named gets a dict, which reads as the missing one did.
  pub record Visited (s s' : StateServer D R) : Type 0 where
    pub valid : IsValid s'
    pub same_views : (ns : Bytes) → view env s' ns ≡ view env s ns
    pub same_history : s'.history ≡ s.history

  pub visit-Visited :
      (o : Option Bytes) (s : StateServer D R) → IsValid s → Visited s (visit env o s)
  unfolding visit lookup_state
  visit-Visited none s v = record { valid = v; same_views = λ ns. refl; same_history = refl }
  visit-Visited (some ns) s v =
      let found = lookup_state-Found env ns s (s.state_map ns) v refl in
      record {
        valid = found.valid;
        same_views = found.same_views;
        same_history = lookup_state-history env [] 0 (s.state_map ns) ns s;
      }

  reply-history :
      (ident : Bytes) (r : Reply D R) (s : StateServer D R)
      → (reply_exception env ident (reply env ident r s)).history ≡ s.history
  unfolding reply
  reply-history ident r s =
      reply_exception-history env ident 0 (reply env ident r s)
      ∙ elim (Bool-cases (can_pickle env r)) [ inl e ↦ rw e refl | inr e ↦ rw e refl ]

  reply-Same_all :
      (ident : Bytes) (r : Reply D R) (s : StateServer D R)
      → Same env s (reply_exception env ident (reply env ident r s))
  reply-Same_all ident r s =
      Same-trans env s (reply env ident r s).1 _ (reply-Same env ident r s)
        (reply_exception-Same env ident (reply env ident r s))

  pub query-Same :
      (ident : Bytes) (stamp : ℕ) (q : Query) (s : StateServer D R)
      → Same env s (reply_exception env ident (handle_query env ident stamp q s))
  unfolding handle_query
  query-Same ident stamp (ping payload) s = reply-Same_all ident (pong payload) s
  query-Same ident stamp get_server_meta s = reply-Same_all ident server_meta s
  query-Same ident stamp time s = reply-Same_all ident (now stamp) s
  query-Same ident stamp unknown_cmd s = reply_exception-Same env ident (raise key_error, s)

  pub query-history :
      (ident : Bytes) (stamp : ℕ) (q : Query) (s : StateServer D R)
      → (reply_exception env ident (handle_query env ident stamp q s)).history ≡ s.history
  unfolding handle_query
  query-history ident stamp (ping payload) s = reply-history ident (pong payload) s
  query-history ident stamp get_server_meta s = reply-history ident server_meta s
  query-history ident stamp time s = reply-history ident (now stamp) s
  query-history ident stamp unknown_cmd s =
      reply_exception-history env ident stamp (raise key_error, s)
