-- ===== src/Examples/Starting.antt =====
-- Starting processes and servers, signals, and functions in caches.
use zproc.Prelude.{
  ◌==◌, if◌then◌else◌, take, drop, get_or, assertion_error, attribute_error, runtime_error,
  connection_error, zmq_error, ok, raise, ◌>>=◌, bytes_eq, ℕ, ◌+◌, ◌-◌, ◌%◌, ◌≡◌, refl, ap, ◌↔◌,
  false, none, some, List, [], ◌∷◌, ◌++◌, map, arith,
}
use zproc.Task.Ids.{negsuc}
use zproc.Process.Group.{Backend, Parent, start, start_all, stop_all}
use zproc.Process.Group.Starting.{before_error, first_error, start_all_lem}
use zproc.Task.MapPlus.{map_plus}
use zproc.Process.Context.{ProcessKwargs, set_defaults, Context, process_of, spawn_map}
use zproc.Process.Context.Rows.{row_of, processes_of, spawn_map_lem}
use zproc.Startup.{payload, Network, ipc, explain, server_meta_of, start_server, req_server_meta}
use zproc.Startup.Binding.{addresses, bind_all, start_server_lem}
use zproc.Exceptions.{
  Disposition, sig_dfl, sig_exc_handler, other_handler, signals, signal_to_exception,
  exception_to_signal,
}
use zproc.Exceptions.Rollback.{exception_to_signal-signal_to_exception}
use zproc.Serializer.{
  cache_get, get_or_make, Pickler, get_fn_hash, dumps_fn, loads_fn, dumps_all, loads_all,
}
use zproc.Serializer.Caches.{first_made, or_made, dumps_fn_lem, loads_fn-dumps_fn}

-- A child is the number of times it was started; it can be started once.
abbrev once : Backend ℕ
once = record {
  start_child = λ c. if c == 0 then ok 1 else raise assertion_error;
  terminate = λ c. if c == 0 then raise attribute_error else ok c;
  pid = λ c. some 100;
  exitcode = λ c. some (negsuc 14);
}

abbrev parent : ℕ → Parent ℕ
parent n = record { child = n; is_closed = false }

abbrev parents : List (Parent ℕ)
parents = parent 0 ∷ parent 1 ∷ parent 0 ∷ []

start_all_example :
    let n = before_error once (start once) parents in
    start_all once parents ≡ (
      first_error once (drop n parents),
      map (λ p. (start once p).1) (take n parents) ++ drop n parents,
    )
start_all_example = start_all_lem once parents

-- The third process is not started, and no exception shows it.
third_left : start_all once parents ≡ (ok tt, parent 1 ∷ parent 1 ∷ parent 0 ∷ [])
unfolding start_all
third_left = refl

stopped : (stop_all once (parent 1 ∷ parent 0 ∷ parent 1 ∷ [])).0 ≡ raise attribute_error
unfolding stop_all
stopped = refl

abbrev no_kwargs : ProcessKwargs ℕ ℕ
no_kwargs = record {
  args = none;
  kwargs = none;
  start = none;
  pass_context = none;
  retry_for = none;
  retry_delay = none;
  max_retries = none;
  retry_args = none;
  retry_kwargs = none;
  backend = none;
  namespace = none;
}

abbrev context : Context ℕ ℕ ℕ
context = record {
  process_list = [];
  backend = 1;
  namespace = 120 ∷ [];
  process_kwargs = set_defaults (120 ∷ []) 1 (record no_kwargs { pass_context = some false });
  server_address = 97 ∷ [];
}

spawn_map_example :
    spawn_map 0 context 42 (some (1 ∷ 2 ∷ [])) none (some (9 ∷ [])) none none no_kwargs ≡ (do
      rows ← map_plus row_of (some (1 ∷ 2 ∷ [])) none (some (9 ∷ [])) none none
      let ps = processes_of (process_of 0 context 42 no_kwargs) rows
      ok (ps, record context { process_list = context.process_list ++ ps }))
spawn_map_example =
    spawn_map_lem 0 context 42 (some (1 ∷ 2 ∷ [])) none (some (9 ∷ [])) none none no_kwargs

-- Address 7 is in use.
abbrev network : Network
network = record {
  bind = λ sock address. if bytes_eq address (7 ∷ []) then raise (zmq_error 98) else ok tt;
  ipc_address = λ sock. ipc ++ sock ∷ [];
  bind_to_random_port = λ sock. ok (40000 + sock);
  tcp_address = λ port. port ∷ [];
}

start_server_example :
    ((do m ← server_meta_of network (1 ∷ []) (some (8 ∷ [])); ok (addresses m))
      ≡ bind_all network (some (8 ∷ [])))
    × (start_server network (1 ∷ []) (some (8 ∷ []))
        ≡ explain (do bound ← bind_all network (some (8 ∷ [])); ok (get_or bound 0 [])))
start_server_example = start_server_lem network (1 ∷ []) (some (8 ∷ []))

address_in_use : start_server network (1 ∷ []) (some (7 ∷ [])) ≡ raise connection_error
unfolding start_server bytes_eq
address_in_use = refl

other_version :
    (do m ← server_meta_of network (1 ∷ []) none; req_server_meta (2 ∷ []) (payload m))
    ≡ raise runtime_error
unfolding server_meta_of req_server_meta bytes_eq
other_version = refl

abbrev dispositions : ℕ → Disposition
dispositions n = if n == 15 then other_handler 1 else sig_dfl

rollback_example :
    let (e, during) = signal_to_exception 2 dispositions in
    (during 2 ≡ sig_exc_handler)
    × ((exception_to_signal e during ≡ exception_to_signal (signals 2) during)
        × (((m : ℕ) → exception_to_signal e during m ≡ dispositions m)
            ↔ (dispositions 2 ≡ sig_dfl)))
rollback_example = exception_to_signal-signal_to_exception 2 dispositions

-- A function is a number, the hash of its code is the last digit, and 9 has no code.
abbrev digits : Pickler ℕ ℕ
digits = record {
  code_hash = λ fn. if fn == 9 then none else some (fn % 10);
  object_hash = λ fn. fn;
  bytes_hash = λ b. b;
  cloud_dumps = λ fn. ok (fn + 1000);
  cloud_loads = λ b. ok (b - 1000);
}

dumps_fn_example :
    (dumps_fn digits 23 (dumps_all digits (11 ∷ 13 ∷ []) [])).0
    ≡ or_made
        (get_fn_hash digits)
        digits.cloud_dumps
        (first_made (get_fn_hash digits) digits.cloud_dumps (get_fn_hash digits 23) (11 ∷ 13 ∷ []))
        (digits.cloud_dumps 23)
dumps_fn_example = dumps_fn_lem digits (11 ∷ 13 ∷ []) 23

-- The bytes of 13, for 23.
stale : (dumps_fn digits 23 (dumps_all digits (11 ∷ 13 ∷ []) [])).0 ≡ ok 1013
unfolding dumps_all dumps_fn get_or_make cache_get get_fn_hash
stale = refl

loads_fn-dumps_fn_example :
    ((dumps_fn digits 23 (dumps_all digits (11 ∷ 23 ∷ []) [])).0 >>= λ b.
    (loads_fn digits b (loads_all digits (1011 ∷ []) [])).0)
    ≡ (digits.cloud_dumps 23 >>= digits.cloud_loads)
unfolding get_fn_hash
loads_fn-dumps_fn_example =
    loads_fn-dumps_fn digits (11 ∷ 23 ∷ []) (1011 ∷ []) 23
      (λ e. absurd (omega (arith, e)), (λ e. refl, tt))
      (λ b made. (λ e. ap (λ x. ok (x - 1000)) e, tt))
