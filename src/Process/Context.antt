-- ===== src/Process/Context.antt =====
-- The constructors of `Process` (zproc/process.py) and `Context` (zproc/context.py), and `_process` and
-- `spawn_map` of `Context`: which arguments and options a child process gets. Strings are the bytes of
-- their encoding. What an exception of `spawn_map` leaves in `process_list` is not part of the model.
pub mod Rows
use zproc.Prelude.{
  assertion_error, Result, ok, raise, ◌>>=◌, Bytes, ℕ, Bool, true, Option, none, some, List, [],
  ◌∷◌, ◌++◌,
}
use zproc.Task.MapPlus.{Kwargs, or_empty, map_plus}
use zproc.Process.Child.{RetryFor}

-- Keyword arguments of `Process`; `none` is one that is not given. `B` is the type of backends.
pub record ProcessKwargs (A B : Type 0) : Type 0 where
  pub args : Option (Option (List A))
  pub kwargs : Option (Option (Kwargs A))
  pub start : Option Bool
  pub pass_context : Option Bool
  pub retry_for : Option (Option (List RetryFor))
  pub retry_delay : Option ℕ
  pub max_retries : Option (Option ℕ)
  pub retry_args : Option (Option (List A))
  pub retry_kwargs : Option (Option (Kwargs A))
  pub backend : Option B
  pub namespace : Option Bytes

-- What the constructor of `Process` passes to the backend and starts.
pub record NewProcess (A B T : Type 0) : Type 0 where
  pub target : T
  pub server_address : Bytes
  pub namespace : Bytes
  pub pass_context : Bool
  pub target_args : List A
  pub target_kwargs : Kwargs A
  pub retry_for : Option (List RetryFor)
  pub retry_delay : ℕ
  pub max_retries : Option ℕ
  pub retry_args : Option (List A)
  pub retry_kwargs : Option (Kwargs A)
  pub backend : B
  pub is_started : Bool

-- A keyword argument, or its default.
abbrev pub or_default {ℓ} : {X : Type ℓ} → Option X → X → X
or_default none x = x
or_default (some y) x = y

abbrev pub prefer {ℓ} : {X : Type ℓ} → Option X → Option X → Option X
prefer (some y) o = some y
prefer none o = o

-- "default"
abbrev pub default_namespace : Bytes
default_namespace = 100 ∷ 101 ∷ 102 ∷ 97 ∷ 117 ∷ 108 ∷ 116 ∷ []

module _ {A B : Type 0} where
  -- `{**old, **new}`
  unfoldable pub merge_kwargs : ProcessKwargs A B → ProcessKwargs A B → ProcessKwargs A B
  merge_kwargs old new = record {
    args = prefer new.args old.args;
    kwargs = prefer new.kwargs old.kwargs;
    start = prefer new.start old.start;
    pass_context = prefer new.pass_context old.pass_context;
    retry_for = prefer new.retry_for old.retry_for;
    retry_delay = prefer new.retry_delay old.retry_delay;
    max_retries = prefer new.max_retries old.max_retries;
    retry_args = prefer new.retry_args old.retry_args;
    retry_kwargs = prefer new.retry_kwargs old.retry_kwargs;
    backend = prefer new.backend old.backend;
    namespace = prefer new.namespace old.namespace;
  }

  -- The constructor of `Process`; `multiprocessing_process` is the default of its `backend`.
  unfoldable pub new_process : {T : Type 0} → B → Bytes → T → ProcessKwargs A B → NewProcess A B T
  new_process multiprocessing_process server_address target kw = record {
    target = target;
    server_address = server_address;
    namespace = or_default kw.namespace default_namespace;
    pass_context = or_default kw.pass_context true;
    target_args = or_empty (or_default kw.args none);
    target_kwargs = or_empty (or_default kw.kwargs none);
    retry_for = or_default kw.retry_for (some []);
    retry_delay = or_default kw.retry_delay 5;
    max_retries = or_default kw.max_retries (some 0);
    retry_args = or_default kw.retry_args none;
    retry_kwargs = or_default kw.retry_kwargs none;
    backend = or_default kw.backend multiprocessing_process;
    is_started = or_default kw.start true;
  }

  -- `process_kwargs.setdefault`, for the namespace and the backend
  unfoldable pub set_defaults : Bytes → B → ProcessKwargs A B → ProcessKwargs A B
  set_defaults namespace backend kw = record kw {
    namespace = some (or_default kw.namespace namespace);
    backend = some (or_default kw.backend backend);
  }

  -- `args=args, kwargs=kwargs, **process_kwargs`
  unfoldable pub with_row : ProcessKwargs A B → List A → Kwargs A → ProcessKwargs A B
  with_row kw args kwargs = record kw { args = some (some args); kwargs = some (some kwargs) }

-- The address that the Context is connected to: that of the server it starts, or the one given.
unfoldable pub address_of : Option (Result Bytes) → Option Bytes → Result Bytes
address_of (some r) o = r
address_of none none = raise assertion_error
address_of none (some address) = ok address

pub record Context (A B T : Type 0) : Type 0 where
  pub process_list : List (NewProcess A B T)
  pub backend : B
  pub namespace : Bytes
  pub process_kwargs : ProcessKwargs A B
  pub server_address : Bytes

module _ {A B T : Type 0} where
  -- The constructor. `start_server` is what `tools.start_server` does with the address, if it is called.
  unfoldable pub new_context :
      Option Bytes → Option (Result Bytes) → B → Bytes → ProcessKwargs A B → Result (Context A B T)
  unfolding set_defaults address_of
  new_context server_address start_server backend namespace kw = do
    address ← address_of start_server server_address
    ok (record {
      process_list = [];
      backend = backend;
      namespace = namespace;
      process_kwargs = set_defaults namespace backend kw;
      server_address = address;
    })

  -- `start_server`: the address is that of the new server from then on.
  unfoldable pub start_server : Result Bytes → Context A B T → Result (Context A B T)
  start_server started ctx = do address ← started; ok (record ctx { server_address = address })

  -- `_process` without the list
  unfoldable pub process_of : B → Context A B T → T → ProcessKwargs A B → NewProcess A B T
  unfolding new_process merge_kwargs
  process_of multiprocessing_process ctx target kw =
      new_process multiprocessing_process ctx.server_address target
        (merge_kwargs ctx.process_kwargs kw)

  -- `spawn_map`: the processes, and the context with them.
  unfoldable pub spawn_map :
      B
      → Context A B T
      → T
      → Option (List A)
      → Option (List (List A))
      → Option (List A)
      → Option (List (Kwargs A))
      → Option (Kwargs A)
      → ProcessKwargs A B
      → Result (List (NewProcess A B T) × Context A B T)
  unfolding map_plus process_of with_row
  spawn_map multiprocessing_process ctx target map_iter map_args args map_kwargs kwargs kw = do
    ps ←
        map_plus (λ a k. ok (process_of multiprocessing_process ctx target (with_row kw a k)))
          map_iter map_args args map_kwargs kwargs
    ok (ps, record ctx { process_list = ctx.process_list ++ ps })
