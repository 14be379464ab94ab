-- ===== src/Startup/Binding.antt =====
-- Starting a server, as one sequence of binds.

use zproc.Prelude.{
  if◌then◌else◌, get_or, Result, ok, raise, ◌>>=◌, Result-cases, traverse, Bytes, ◌≡◌, refl, sym,
  inl, inr, Option, none, some, List, [], ◌∷◌,
}
use zproc.Startup.{
  message_of, loads_message, ServerMeta, Network, Binder, to_random_ipc, to_random_tcp,
  to_random_address, contains, ipc, explain, after_state, bind_with, two_addresses,
  start_task_server, start_task_proxy, bind_state_router, server_meta_of, start_server,
}

unfoldable pub addresses : ServerMeta → List Bytes
addresses m =
    m.state_router ∷ m.watcher_router ∷ m.task_router ∷ m.task_result_pull ∷ m.task_proxy_in
    ∷ m.task_proxy_out ∷ []

five-addresses :
    (version a : Bytes) (r1 r2 r3 r4 r5 : Result Bytes)
    → (do
      m ←
          after_state version a r1
            (loads_message (message_of (do b ← r2; c ← r3; ok (b, c))))
            (loads_message (message_of (do b ← r4; c ← r5; ok (b, c))))
      ok (addresses m))
      ≡ (do others ← traverse (λ r. r) (r1 ∷ r2 ∷ r3 ∷ r4 ∷ r5 ∷ []); ok (a ∷ others))
unfolding after_state addresses loads_message message_of traverse
five-addresses version a (raise e) r2 r3 r4 r5 = refl
five-addresses version a (ok b) (raise e) r3 r4 r5 = refl
five-addresses version a (ok b) (ok c) (raise e) r4 r5 = refl
five-addresses version a (ok b) (ok c) (ok d) (raise e) r5 = refl
five-addresses version a (ok b) (ok c) (ok d) (ok f) (raise e) = refl
five-addresses version a (ok b) (ok c) (ok d) (ok f) (ok g) = refl

module _ (net : Network) where
  -- The sockets in the order in which they are bound, with the binder for those that get a random
  -- address: the first is the state's.
  unfoldable pub bind_all : Option Bytes → Result (List Bytes)
  unfolding bind_with contains
  bind_all none = traverse (bind_with net to_random_address) (0 ∷ 1 ∷ 2 ∷ 3 ∷ 4 ∷ 5 ∷ [])
  bind_all (some []) = traverse (bind_with net to_random_address) (0 ∷ 1 ∷ 2 ∷ 3 ∷ 4 ∷ 5 ∷ [])
  bind_all (some (x ∷ xs)) = do
    _ ← net.bind 0 (x ∷ xs)
    others ←
        traverse (bind_with net (if contains ipc (x ∷ xs) then to_random_ipc else to_random_tcp))
          (1 ∷ 2 ∷ 3 ∷ 4 ∷ 5 ∷ [])
    ok ((x ∷ xs) ∷ others)

  -- What is left when the state's socket is bound, or not.
  from_router : Bytes → Result (Bytes × Binder) → Result (List Bytes)
  from_router version router = do
    m ← (do
      (state, binder) ← router
      after_state version state (bind_with net binder 1) (start_task_server net binder)
          (start_task_proxy net binder))
    ok (addresses m)

  from_router_ok :
      (version a : Bytes) (binder : Binder)
      → from_router version (ok (a, binder))
        ≡ (do others ← traverse (bind_with net binder) (1 ∷ 2 ∷ 3 ∷ 4 ∷ 5 ∷ []); ok (a ∷ others))
  unfolding from_router start_task_server start_task_proxy two_addresses traverse
  from_router_ok version a binder =
      let b = bind_with net binder in five-addresses version a (b 1) (b 2) (b 3) (b 4) (b 5)

  from_router-random :
      (version : Bytes) (binder : Binder) (state : Result Bytes)
      → from_router version (do a ← state; ok (a, binder)) ≡ (do
        a ← state
        others ← traverse (bind_with net binder) (1 ∷ 2 ∷ 3 ∷ 4 ∷ 5 ∷ [])
        ok (a ∷ others))
  unfolding from_router
  from_router-random version binder (raise e) = refl
  from_router-random version binder (ok a) = from_router_ok version a binder

  from_router-given :
      (version a : Bytes) (binder : Binder) (state : Result (Unit {0}))
      → from_router version (do _ ← state; ok (a, binder)) ≡ (do
        _ ← state
        others ← traverse (bind_with net binder) (1 ∷ 2 ∷ 3 ∷ 4 ∷ 5 ∷ [])
        ok (a ∷ others))
  unfolding from_router
  from_router-given version a binder (raise e) = refl
  from_router-given version a binder (ok _) = from_router_ok version a binder

  -- The addresses that the server announces, as if it were one process.
  announced :
      (version : Bytes) (server_address : Option Bytes)
      → (do m ← server_meta_of net version server_address; ok (addresses m))
        ≡ bind_all server_address
  unfolding server_meta_of bind_state_router start_task_server start_task_proxy bind_all traverse
      from_router
  announced version none =
      from_router-random version to_random_address (bind_with net to_random_address 0)
  announced version (some []) =
      from_router-random version to_random_address (bind_with net to_random_address 0)
  announced version (some (x ∷ xs)) = from_router-given version (x ∷ xs) _ (net.bind 0 (x ∷ xs))

  -- `start_server` gives the address of the state's socket when the six sockets of the server can be
  -- bound one after the other, and the addresses that the server of three processes announces are the
  -- ones so bound. Otherwise it raises the first exception of these binds, with a ZMQError of errno 98
  -- as a ConnectionError and one of errno 22 as a ValueError.
  pub start_server_lem :
      (version : Bytes) (server_address : Option Bytes)
      → ((do m ← server_meta_of net version server_address; ok (addresses m))
          ≡ bind_all server_address)
        × (start_server net version server_address
            ≡ explain (do bound ← bind_all server_address; ok (get_or bound 0 [])))
  unfolding start_server message_of loads_message addresses
  start_server_lem version o =
      let same = announced version o in
      (
        same,
        elim (Result-cases (server_meta_of net version o)) [
          | inl (m, e) ↦ rw (sym same, e)
          | inr (x, e) ↦ rw (sym same, e)
        ],
      )
