-- ===== src/Health/Server.antt =====
-- health_http/server.go and health_http/options.go: the health handler with a server of its own, as a
-- task. The server of `net/http` is a parameter.
use svcinit.Common.{
  ℕ, String, Option, none, some, List, [], ◌∷◌, ◌++◌, Action, Outcome, returned, panicked,
  if◌then◌else◌,
}
use svcinit.Errors.{Error, is_opt}
use svcinit.Context.{Ctx}
use svcinit.Step.{Step, setup, start, stop}
use svcinit.Task.{TaskInfo, no_info}
use svcinit.Health.{
  Handler, HandlerOption, Probe, new_handler, service_started, service_terminating, register,
}

-- What is used of `*http.Server`, a value of type `V`: `make` is the literal with the address and the
-- read timeout, `set_handler` sets the mux with the patterns of the probes, `set_base_context` the
-- context of its requests; `closed` is the address of `http.ErrServerClosed`.
-- `shutdown` may be called on a nil server.
pub record HttpServer (V W : Type 0) : Type 0 where
  pub make : String → V
  pub set_handler : List (String × Probe) → V → V
  pub set_base_context : Ctx → V → V
  pub listen_and_serve : V → Action W (Option Error)
  pub shutdown : Option V → Ctx → Action W (Option Error)
  pub closed : ℕ

abbrev pub ServerProvider : Type 0 → Type 0 → Type 0
ServerProvider V W = Ctx → String → Action W (Option V × Option Error)

pub record Server (R V W : Type 0) : Type 0 where
  pub server : Option V
  pub handler_options : List (HandlerOption R)
  pub handler : Handler R
  pub address : String
  pub http_server_provider : Option (ServerProvider V W)
  pub task_name : String

-- ServerOption; an option of the handler is one too.
pub data ServerOption (R V W : Type 0) : Type 0 where
  with_server_address : String → ServerOption R V W
  with_server_provider : Option (ServerProvider V W) → ServerOption R V W
  with_server_task_name : String → ServerOption R V W
  handler_option : HandlerOption R → ServerOption R V W

-- A server that was closed has not failed.
abbrev pub unless_closed : ℕ → Option Error → Option Error
unless_closed closed err = if is_opt closed err then none else err

abbrev served : ℕ → Outcome (Option Error) → Outcome (Option Error)
served closed panicked = panicked
served closed (returned err) = returned (unless_closed closed err)

module _ {R V W : Type 0} where
  unfoldable pub apply_server_option : Server R V W → ServerOption R V W → Server R V W
  apply_server_option h (with_server_address address) = record h { address = address }
  apply_server_option h (with_server_provider f) = record h { http_server_provider = f }
  apply_server_option h (with_server_task_name name) = record h { task_name = name }
  apply_server_option h (handler_option o) = record h {
    handler_options = h.handler_options ++ o ∷ [];
  }

  unfoldable pub apply_server_options : Server R V W → List (ServerOption R V W) → Server R V W
  unfolding apply_server_option
  apply_server_options h [] = h
  apply_server_options h (o ∷ os) = apply_server_options (apply_server_option h o) os

  unfoldable pub new_server : List (ServerOption R V W) → Server R V W
  unfolding apply_server_options new_handler
  new_server options =
      let h =
        apply_server_options
          (record {
            server = none;
            handler_options = [];
            handler = new_handler [];
            address = ":6060";
            http_server_provider = none;
            task_name = "health";
          })
          options in
      record h { handler = new_handler h.handler_options }

  -- Code of the library or the caller, which does not reach the task.
  abbrev beside : {A : Type 0} → Action W A → Action (Server R V W × W) A
  beside m (h, w) = let (r, w') = m w in (r, (h, w'))

  module _ (http : HttpServer V W) where
    -- The new mux becomes the server's handler; there must be a server.
    abbrev install : Option V → Action (Server R V W × W) (Option Error)
    unfolding register
    install none (h, w) = (panicked, (record h { server = none }, w))
    install (some v) (h, w) =
        (returned none, (record h { server = some (http.set_handler (register h.handler) v) }, w))

    abbrev provided : Outcome (Option V × Option Error) → Action (Server R V W × W) (Option Error)
    unfolding install
    provided panicked v = (panicked, v)
    provided (returned (server, some err)) (h, w) =
        (returned (some err), (record h { server = server }, w))
    provided (returned (server, none)) v = install server v

    abbrev setup_server :
        Ctx → Option (ServerProvider V W) → Action (Server R V W × W) (Option Error)
    unfolding provided install
    setup_server ctx none (h, w) = install (some (http.make h.address)) (h, w)
    setup_server ctx (some f) (h, w) = let (r, w') = f ctx h.address w in provided r (h, w')

    abbrev start_server : Ctx → Option V → Action (Server R V W × W) (Option Error)
    start_server ctx none v = (panicked, v)
    start_server ctx (some v) (h, w) =
        let v' = http.set_base_context ctx v in
        let (r, w') = http.listen_and_serve v' w in
        (served http.closed r, (record h { server = some v' }, w'))

    unfoldable pub run : Ctx → Step → Action (Server R V W × W) (Option Error)
    unfolding setup_server
    run ctx setup (h, w) = setup_server ctx h.http_server_provider (h, w)
    run ctx start (h, w) = start_server ctx h.server (h, w)
    run ctx stop (h, w) = beside (http.shutdown h.server ctx) (h, w)
    run ctx s v = (returned none, v)

  unfoldable pub server_started : Server R V W → Server R V W
  unfolding service_started
  server_started h = record h { handler = service_started h.handler }

  unfoldable pub server_terminating : Server R V W → Server R V W
  unfolding service_terminating
  server_terminating h = record h { handler = service_terminating h.handler }

  unfoldable pub server_task_info : Server R V W → W → TaskInfo W
  server_task_info h w = record no_info { name = h.task_name }
