-- ===== src/Task/Workers.antt =====
-- The workers of `Swarm` in zproc/task/swarm.py: `count`, its setter, `start` and `stop`. A worker ends
-- by itself once it reads an EMPTY_MULTIPART, which may be any time after that is sent.
pub mod Counting
use zproc.Prelude.{
  ltb, if◌then◌else◌, range, Error, Result, ok, raise, Bytes, ℕ, suc, ◌+◌, ◌-◌, Bool, true, false,
  Option, none, some, List, [], ◌∷◌, ◌++◌, map,
}

pub record Workers : Type 0 where
  -- `worker_list`: whether each process is alive
  pub worker_list : List Bool
  -- the EMPTY_MULTIPART messages sent so far
  pub told_to_end : ℕ

unfoldable pub alive_in : List Bool → ℕ
alive_in [] = 0
alive_in (is_alive ∷ ws) = let rest = alive_in ws in if is_alive then suc rest else rest

unfoldable pub count : Workers → ℕ
unfolding alive_in
count w = alive_in w.worker_list

-- The loop of the setter that starts `n` workers: `replies` gives what each sends when it is up, `none`
-- for the empty message and `some e` for a RemoteException, which is raised here.
unfoldable pub start_workers : List (Option Error) → Workers → Result (Unit {0}) × Workers
start_workers [] w = (ok tt, w)
start_workers (some e ∷ replies) w = (raise e, w)
start_workers (none ∷ replies) w =
    start_workers replies (record w { worker_list = w.worker_list ++ true ∷ [] })

unfoldable pub set_count : (ℕ → Option Error) → ℕ → Workers → Result (Unit {0}) × Workers
unfolding count start_workers range
set_count reply value w =
    if ltb (count w) value
    then start_workers (map reply (range (value - count w))) w
    else (ok tt, record w { told_to_end = w.told_to_end + (count w - value) })

-- `start`: as many as there are CPUs, if no count is given.
unfoldable pub start : (ℕ → Option Error) → ℕ → Option ℕ → Workers → Result (Unit {0}) × Workers
unfolding set_count
start reply cpu_count none w = set_count reply cpu_count w
start reply cpu_count (some n) w = set_count reply n w

-- `stop`: with `force` the processes are terminated, and none is alive once they have ended.
unfoldable pub stop : (ℕ → Option Error) → Bool → Workers → Result (Unit {0}) × Workers
unfolding set_count
stop reply true w = (ok tt, record w { worker_list = map (λ p. false) w.worker_list })
stop reply false w = set_count reply 0 w

-- A `Swarm`, without its sockets.
pub record Swarm : Type 0 where
  pub server_address : Bytes
  pub namespace : Bytes
  pub workers : Workers

unfoldable pub new_swarm : Bytes → Bytes → Swarm
new_swarm server_address namespace = record {
  server_address = server_address;
  namespace = namespace;
  workers = record { worker_list = []; told_to_end = 0 };
}

-- What a worker sends to the process that starts it, when it has tried to connect: an empty message, or
-- its exception.
unfoldable pub started_reply : Result (Unit {0}) → Option Error
started_reply (ok _) = none
started_reply (raise e) = some e

unfoldable pub with_workers : Swarm → Result (Unit {0}) × Workers → Result Swarm
with_workers swarm (raise e, w) = raise e
with_workers swarm (ok _, w) = ok (record swarm { workers = w })

-- `create_swarm` of a context with this address and namespace. `connect` tells for each worker how its
-- start goes.
unfoldable pub create_swarm : (ℕ → Result (Unit {0})) → ℕ → Bytes → Bytes → Option ℕ → Result Swarm
unfolding new_swarm start with_workers started_reply
create_swarm connect cpu_count server_address namespace n =
    let swarm = new_swarm server_address namespace in
    with_workers swarm (start (λ i. started_reply (connect i)) cpu_count n swarm.workers)
