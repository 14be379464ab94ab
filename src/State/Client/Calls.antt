-- ===== src/State/Client/Calls.antt =====
-- A method of `State` does to the dict on the server what it would do to a dict of the client.

use zproc.Prelude.{
  if◌then◌else◌, Bool-cases, length, drop, drop-append, Result, Bytes, bytes_eq, bytes_eq_iff, ℕ,
  ◌≡◌, refl, sym, ap, ◌∙◌, subst, inl, inr, true, Option, some, List, ◌++◌,
}
use zproc.State.Server.{Env, Command, Request, on_state, Reply, StateServer}
use zproc.State.Client.{loads_reply, replies_to, loads_first, serve_if_running, s_request_reply}
use zproc.State.Server.Contract.{IsValid, view, command_spec}
use zproc.State.Server.Atomic.{serve_request_atomic}
use zproc.State.Server.Replies.{CanLog, CanSend, serve_request_replies}
use zproc.State.Handlers.{serve_request}

pub serve_if_running-running :
    {D M F R : Type 0} (env : Env D M F R) (ident : Bytes) (stamp : ℕ) (r : Request D M F)
    (s : StateServer D R)
    → s.is_running ≡ true
    → serve_if_running env ident stamp r s ≡ serve_request env ident stamp r s
unfolding serve_if_running
serve_if_running-running env ident stamp r s e =
    ap (λ b. if b then serve_request env ident stamp r s else s) e

pub serve_if_running-start :
    {D M F R : Type 0} (env : Env D M F R) (ident : Bytes) (stamp : ℕ) (r : Request D M F)
    (s : StateServer D R)
    → (serve_if_running env ident stamp r s).is_running ≡ true
    → s.is_running ≡ true
unfolding serve_if_running
serve_if_running-start env ident stamp r s running = elim (Bool-cases s.is_running) [
  | inl e ↦ e
  | inr e ↦
      sym (ap (λ b. (if b then serve_request env ident stamp r s else s).is_running) e) ∙ running
]

-- What is to come back, and the dict afterwards.
unfoldable pub local_call :
    {D M F R : Type 0} → Env D M F R → Command D M F → D → Option (Result (Reply D R)) × D
unfolding command_spec loads_reply
local_call env c d = (some (loads_reply env (command_spec env c d).0), (command_spec env c d).1)

drop-length : {A : Type 0} (xs ys : List A) → drop (length xs) (xs ++ ys) ≡ ys
drop-length xs ys = drop-append (length xs) xs ys refl

-- The request of a client gives it the result of its command on the dict of the namespace, or raises
-- its exception, and the dict is then what the command leaves: it is as if the command had run in the
-- client. The dicts of other namespaces stay what they were. Hypotheses: the server is valid and is
-- running; the reply is not an exception that cannot be pickled; and if the dict can be copied, then the
-- update from the copy to the dict, and to what the command makes of it, can be pickled and compared.
pub s_request_reply_lem :
    {D M F R : Type 0} (env : Env D M F R) (ident : Bytes) (stamp : ℕ) (ns : Bytes)
    (c : Command D M F) (s : StateServer D R)
    → IsValid s
    → s.is_running ≡ true
    → CanSend env (command_spec env c (view env s ns)).0
    → CanLog env (view env s ns) (view env s ns)
    → CanLog env (view env s ns) (command_spec env c (view env s ns)).1
    → let (r, s') = s_request_reply env ident stamp ns c s in
      let (r', d') = local_call env c (view env s ns) in
      (r ≡ r')
      × ((ns' : Bytes) → view env s' ns' ≡ (if bytes_eq ns' ns then d' else view env s ns'))
      × IsValid s'
unfolding s_request_reply local_call loads_first replies_to
s_request_reply_lem env ident stamp ns c s v running sent kept logged =
    let same = serve_if_running-running env ident stamp (on_state ns c) s running in
    let answered = serve_request_replies env ident stamp ns c s v sent kept logged in
    let served = serve_request_atomic env ident stamp ns c s v in
    let mine : bytes_eq ident ident ≡ true = (bytes_eq_iff ident ident).1 refl in
    (
      ap (λ s'. loads_first env (replies_to env ident (drop (length s.replies) s'.replies))) same
          ∙ ap (λ rs. loads_first env (replies_to env ident (drop (length s.replies) rs))) answered
          ∙ (ap (λ rs. loads_first env (replies_to env ident rs)) (drop-length s.replies _)
              ∙ rw mine),
      (λ ns'. ap (λ s'. view env s' ns') same ∙ served.0 ns'),
      subst IsValid (sym same) served.1,
    )
