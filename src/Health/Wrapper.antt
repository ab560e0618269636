-- ===== src/Health/Wrapper.antt =====
-- health_http/wrap_http.go: the application's handler behind the probes. The mux of `net/http` is a
-- parameter.
pub mod Answers
use svcinit.Common.{
  String, Bool, true, false, not, Option, none, some, List, [], ◌∷◌, ◌++◌, if◌then◌else◌, map,
}
use svcinit.Health.{
  Probe, Response, not_ready_412, Handler, probe_http_handler, service_started, service_terminating,
  register,
}

-- What a pattern leads to: one of the probes, or `serveApp`.
pub data Target : Type 0 where
  probe : Probe → Target
  app : Target

-- What is used of `*http.ServeMux`, a value of type `M`, for requests of type `R`: `handle` panics, which
-- is `none`, for a pattern that is malformed or in conflict with another; `target` is the pattern's
-- handler that a request is given to, and `none` where the mux answers by itself with `own_answer`.
-- `not_found` is the answer of `http.NotFoundHandler`.
pub record ServeMux (R M : Type 0) : Type 0 where
  pub new_serve_mux : M
  pub handle : String → Target → M → Option M
  pub target : M → R → Option Target
  pub own_answer : M → R → Response
  pub not_found : R → Response

-- `http_handler` is the pointer of SetHTTPHandler, `none` before its first call, to a handler that may
-- be nil. The health handler is shared with those who signal it.
pub record HttpWrapper (R M : Type 0) : Type 0 where
  pub http_handler : Option (Option (R → Response))
  pub health_handler : Handler R
  pub mux : M

abbrev pub probe_pattern : String × Probe → String × Target
probe_pattern (pattern, p) = (pattern, probe p)

-- The patterns of a wrapper, in the order in which they are added.
abbrev pub wrapper_patterns : {R : Type 0} → Handler R → List (String × Target)
wrapper_patterns h = map probe_pattern (register h) ++ ("/", app) ∷ []

-- A call of a handler, which panics if it is nil.
abbrev pub call_handler : {R : Type 0} → Option (R → Response) → R → Option Response
call_handler none r = none
call_handler (some handler) r = some (handler r)

module _ {R M : Type 0} where
  abbrev pub handle_all : ServeMux R M → List (String × Target) → M → Option M
  handle_all lib [] m = some m
  handle_all lib ((pattern, target) ∷ rest) m = elim (lib.handle pattern target m) [
    | some m' ↦ handle_all lib rest m'
    | none ↦ none
  ]

  abbrev pub fresh_wrapper : Handler R → M → HttpWrapper R M
  fresh_wrapper h m = record { http_handler = none; health_handler = h; mux = m }

  -- NewHTTPWrapper; `none` if the mux panics.
  unfoldable pub new_http_wrapper : ServeMux R M → Handler R → Option (HttpWrapper R M)
  new_http_wrapper lib health_handler =
      elim (handle_all lib (wrapper_patterns health_handler) lib.new_serve_mux) [
        | some m ↦ some (fresh_wrapper health_handler m)
        | none ↦ none
      ]

  unfoldable pub set_http_handler : Option (R → Response) → HttpWrapper R M → HttpWrapper R M
  set_http_handler handler h = record h { http_handler = some handler }

  -- HTTPWrapper.serveApp: what is not a probe goes to the application, once the service has started.
  unfoldable pub serve_app : ServeMux R M → HttpWrapper R M → R → Option Response
  serve_app lib h r =
      if not h.health_handler.is_started then some not_ready_412 else elim h.http_handler [
        | some http_handler ↦ call_handler http_handler r
        | none ↦ some (lib.not_found r)
      ]

  abbrev pub serve_target : ServeMux R M → HttpWrapper R M → Option Target → R → Option Response
  serve_target lib h none r = some (lib.own_answer h.mux r)
  serve_target lib h (some (probe p)) r = probe_http_handler h.health_handler p r
  serve_target lib h (some app) r = serve_app lib h r

  -- HTTPWrapper.ServeHTTP; `none` is a panic.
  unfoldable pub serve_http : ServeMux R M → HttpWrapper R M → R → Option Response
  serve_http lib h r = serve_target lib h (lib.target h.mux r) r
