-- ===== src/State/Server.antt =====
-- `StateServer` of zproc/state/server.py, and the loop of `main` in zproc/server/main.py that drives
-- it. The dicts of the state are objects on a heap, since `self.state` and the entry of `state_map`
-- may be one object or two. `self.identity`, `self.namespace` and `self.state` are set by
-- `recv_request` and reset after each tick: here they are arguments of the methods. Time is a number
-- that grows with the clock.
pub mod Bisect
pub mod Watchers
pub mod Contract
pub mod Objects
pub mod Atomic
pub mod Replies
pub mod Answers
pub mod Queries
pub mod Ends
pub mod Runs
pub mod History
pub mod Slots
pub mod Log
pub mod Delivery
pub mod Times
pub mod Idents
pub mod Delivered
pub mod Answered
pub mod RunAnswer
pub mod Unseen
use zproc.Prelude.{
  ◌==◌, if◌then◌else◌, drop, Error, Result, Bytes, bytes_eq, ℕ, Bool, ◌&&◌, Option, none, some,
  List, [], ◌∷◌, ◌++◌,
}
use Bisect.{bisect}

-- What a call makes of a dict: its result or exception, and the dict afterwards.
abbrev pub Effect : Type 0 → Type 0 → Type 0
Effect D R = D → Result R × D

-- What the server takes from outside: `D` is the type of the contents of a dict, `M` that of a
-- method's name with its arguments, `F` that of a pickled function with its arguments, `R` that of
-- results.
pub record Env (D M F R : Type 0) : Type 0 where
  pub empty : D
  -- copy.deepcopy, which raises on a dict with what it cannot copy
  pub deepcopy : D → Result D
  -- `==` on dicts, which may raise
  pub same : D → D → Result Bool
  -- getattr(state, name)(*args, **kwargs)
  pub call_method : M → Effect D R
  -- serializer.loads_fn, and the call of what it returns
  pub load_fn : F → Result (Effect D R)
  -- whether serializer.dumps takes it
  pub picklable : D → Bool
  pub result_picklable : R → Bool
  -- the same of a RemoteException made from it
  pub error_picklable : Error → Bool

pub data Command (D M F : Type 0) : Type 0 where
  run_fn_atomically : F → Command D M F
  run_dict_method : M → Command D M F
  get_state : Command D M F
  set_state : D → Command D M F

-- The commands that do not use the state: `ping` with its payload, `get_server_meta`, `time`, and one
-- that is missing or unknown.
pub data Query : Type 0 where
  ping : Bytes → Query
  get_server_meta : Query
  time : Query
  unknown_cmd : Query

-- A request on the state always comes with a namespace (`State._s_request_reply`), another one may.
pub data Request (D M F : Type 0) : Type 0 where
  on_state : Bytes → Command D M F → Request D M F
  query : Option Bytes → Query → Request D M F

pub data Reply (D R : Type 0) : Type 0 where
  returned : R → Reply D R
  snapshot : D → Reply D R
  done : Reply D R
  pong : Bytes → Reply D R
  server_meta : Reply D R
  now : ℕ → Reply D R
  remote_exception : Error → Reply D R

-- One item of the second list of a history slot: the identity of the client that made the update,
-- the pickled (old, new, stamp), and whether old and new are equal.
pub record Update (D : Type 0) : Type 0 where
  pub ident : Bytes
  pub before : D
  pub after : D
  pub stamp : ℕ
  pub identical : Bool

pub record Slot (D : Type 0) : Type 0 where
  pub timestamps : List ℕ
  pub updates : List (Update D)

pub record Watch : Type 0 where
  pub s_ident : Bytes
  pub namespace : Bytes
  pub identical_not_okay : Bool
  pub only_after : ℕ

pub record StateServer (D R : Type 0) : Type 0 where
  -- the heap: the contents of each dict object, and the next free address
  pub dicts : ℕ → D
  pub fresh : ℕ
  -- defaultdict(dict): `none` is a namespace that no request has named so far
  pub state_map : Bytes → Option ℕ
  pub history : Bytes → Slot D
  pub pending : List (Bytes × Watch)
  -- the messages sent on the two sockets
  pub replies : List (Bytes × Reply D R)
  pub published : List (Bytes × Update D)
  -- the process is still in the loop of `main`
  pub is_running : Bool

abbrev pub update {ℓ} : {V : Type ℓ} → (ℕ → V) → ℕ → V → ℕ → V
update f a v b = if b == a then v else f b

abbrev pub update_at {ℓ} : {V : Type ℓ} → (Bytes → V) → Bytes → V → Bytes → V
update_at f k v j = if bytes_eq j k then v else f j

-- `resolve_watcher` without the sending: the first update that the watcher accepts. The `while`
-- loop steps through the updates from `index` on, and ends by an IndexError past the last.
unfoldable pub first_accepted : {D : Type 0} → Watch → List (Update D) → Option (Update D)
first_accepted w [] = none
first_accepted w (u ∷ us) =
    let rest = first_accepted w us in
    if bytes_eq u.ident w.s_ident
    then rest
    else if w.identical_not_okay && u.identical
    then rest
    else some u

-- `self.pending[w_ident] = watch`
unfoldable pub set_watch : Bytes → Watch → List (Bytes × Watch) → List (Bytes × Watch)
set_watch w_ident w [] = (w_ident, w) ∷ []
set_watch w_ident w ((j, v) ∷ ws) =
    if bytes_eq j w_ident then (w_ident, w) ∷ ws else (j, v) ∷ set_watch w_ident w ws

-- A pending watcher is sent its update and taken off, or left.
unfoldable pub settle :
    {D : Type 0}
    → Bytes
    → Watch
    → Option (Update D)
    → List (Bytes × Watch) × List (Bytes × Update D)
    → List (Bytes × Watch) × List (Bytes × Update D)
settle w_ident w none (left, sent) = ((w_ident, w) ∷ left, sent)
settle w_ident w (some u) (left, sent) = (left, (w_ident, u) ∷ sent)

module _ {D R : Type 0} where
  unfoldable pub resolve_watcher : StateServer D R → Watch → Option (Update D)
  resolve_watcher s w =
      let slot = s.history w.namespace in
      first_accepted w (drop (bisect slot.timestamps w.only_after) slot.updates)

  -- The loop of `resolve_pending`: those left pending, and what is published.
  unfoldable pub resolve_all :
      StateServer D R → List (Bytes × Watch) → List (Bytes × Watch) × List (Bytes × Update D)
  unfolding settle
  resolve_all s [] = ([], [])
  resolve_all s ((w_ident, w) ∷ ws) = settle w_ident w (resolve_watcher s w) (resolve_all s ws)

  unfoldable pub resolve_pending : StateServer D R → StateServer D R
  resolve_pending s =
      let (left, sent) = resolve_all s s.pending in
      record s { pending = left; published = s.published ++ sent }
