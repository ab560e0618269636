-- ===== src/Examples/Wrapped.antt =====
-- Tests: an application behind the probes.
use svcinit.Common.{
  String, Bool, ◌||◌, not, ◌≡◌, refl, true, Option, none, some, List, [], ◌∷◌, ◌++◌, any,
  if◌then◌else◌, str_eq,
}
use svcinit.Health.{
  HandlerOption, Response, readiness, not_ready_412, with_startup_probe, with_startup_probe_path,
  new_handler,
}
use svcinit.Health.Probes.{starts, is_start, is_terminate, asks_startup_probe}
use svcinit.Health.Wrapper.{
  Target, probe, app, ServeMux, HttpWrapper, fresh_wrapper, new_http_wrapper, serve_http,
}
use svcinit.Health.Wrapper.Answers.{
  Call, signals, sets, signals_of, last_set, app_answer, expected_for, call_all,
  new_http_wrapper-answers,
}

abbrev Patterns : Type 0
Patterns = List (String × Target)

abbrev target_of : Patterns → String → Option Target
target_of [] r = none
target_of ((pattern, t) ∷ rest) r =
    if str_eq pattern r || str_eq pattern "/" then some t else target_of rest r

abbrev has_pattern : Patterns → String → Bool
has_pattern ps pattern = any (λ p. str_eq p.0 pattern) ps

-- A mux of exact patterns, each of which it takes once; "/" is for all that the ones before it leave.
abbrev mux : ServeMux String Patterns
mux = record {
  new_serve_mux = [];
  handle = λ pattern t ps. if has_pattern ps pattern then none else some (ps ++ (pattern, t) ∷ []);
  target = target_of;
  own_answer = λ ps r. record { code = 400; body = "" };
  not_found = λ r. record { code = 404; body = "404 page not found" };
}

abbrev probe_options : List (HandlerOption String)
probe_options = with_startup_probe_path "/up" ∷ with_startup_probe true ∷ []

abbrev page : Response
page = record { code = 200; body = "page" }

abbrev calls : List (Call String)
calls = sets none ∷ signals starts ∷ sets (some (λ r. page)) ∷ []

abbrev patterns : Patterns
patterns =
    ("GET /up", probe svcinit.Health.startup)
    ∷ ("GET /healthz", probe svcinit.Health.liveness)
    ∷ ("GET /ready", probe readiness)
    ∷ ("/", app)
    ∷ []

new_http_wrapper-answers_example :
    (w : HttpWrapper String Patterns) × (new_http_wrapper mux (new_handler probe_options) ≡ some w)
    × (serve_http mux (call_all calls w) "GET /"
        ≡ expected_for
            (not (asks_startup_probe probe_options) || any is_start (signals_of calls))
            (any is_terminate (signals_of calls))
            (some (mux.own_answer patterns "GET /"))
            (app_answer mux.not_found (last_set none calls) "GET /")
            (mux.target patterns "GET /"))
unfolding new_handler svcinit.Health.register
new_http_wrapper-answers_example =
    new_http_wrapper-answers mux probe_options calls patterns "GET /" refl refl

not_yet :
    serve_http mux (fresh_wrapper (new_handler probe_options) patterns) "GET /" ≡ some not_ready_412
unfolding new_handler svcinit.Health.apply_handler_options serve_http
    svcinit.Health.Wrapper.set_http_handler svcinit.Health.Wrapper.serve_app
    svcinit.Health.service_started
not_yet = refl

page_served :
    serve_http mux (call_all calls (fresh_wrapper (new_handler probe_options) patterns)) "GET /"
    ≡ some page
unfolding new_handler svcinit.Health.apply_handler_options serve_http
    svcinit.Health.Wrapper.set_http_handler svcinit.Health.Wrapper.serve_app
    svcinit.Health.service_started
page_served = refl
