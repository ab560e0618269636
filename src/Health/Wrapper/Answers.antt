-- ===== src/Health/Wrapper/Answers.antt =====
-- What a wrapped application answers over the life of a service.
use svcinit.Common.{
  ◌≡◌, refl, Bool, true, false, not, ◌||◌, Option, some, none, List, [], ◌∷◌, any, if◌then◌else◌,
  ap, ◌∙◌,
}
use svcinit.Health.{Probe, Response, not_ready_412, HandlerOption, new_handler, probe_http_handler}
use svcinit.Health.Probes.{
  Signal, is_start, is_terminate, expected, has_probe_handler, asks_startup_probe, give, give_all,
  new_handler-started, new_handler-probes,
}
use svcinit.Health.Wrapper.{
  Target, probe, app, ServeMux, HttpWrapper, handle_all, wrapper_patterns, fresh_wrapper,
  new_http_wrapper, set_http_handler, call_handler, serve_app, serve_target, serve_http,
}

-- A call on a wrapper or on the health handler that it shares.
pub data Call (R : Type 0) : Type 0 where
  signals : Signal → Call R
  sets : Option (R → Response) → Call R

-- What a request should be answered, by what its target is: the probes and the application by whether
-- the service counts as started and whether it is terminating.
abbrev pub expected_for :
    (up down : Bool) → (mux_says app_says : Option Response) → Option Target → Option Response
expected_for up down mux_says app_says none = mux_says
expected_for up down mux_says app_says (some (probe p)) = some (expected up down p)
expected_for up down mux_says app_says (some app) = if up then app_says else some not_ready_412

module _ {R : Type 0} where
  abbrev pub signals_of : List (Call R) → List Signal
  signals_of [] = []
  signals_of (signals s ∷ cs) = s ∷ signals_of cs
  signals_of (sets f ∷ cs) = signals_of cs

  -- The handler that was set last, if one was.
  abbrev pub last_set :
      Option (Option (R → Response)) → List (Call R) → Option (Option (R → Response))
  last_set h [] = h
  last_set h (signals s ∷ cs) = last_set h cs
  last_set h (sets f ∷ cs) = last_set (some f) cs

  -- What the application should answer, a panic being `none`.
  abbrev pub app_answer : (R → Response) → Option (Option (R → Response)) → R → Option Response
  app_answer not_found none r = some (not_found r)
  app_answer not_found (some f) r = call_handler f r

  answer_when :
      (not_found : R → Response) (set : Option (Option (R → Response))) (r : R) (up : Bool)
      → (if not up
          then some not_ready_412
          else elim set [ some f ↦ call_handler f r | none ↦ some (not_found r) ])
        ≡ (if up then app_answer not_found set r else some not_ready_412)
  answer_when not_found set r false = refl
  answer_when not_found none r true = refl
  answer_when not_found (some f) r true = refl

module _ {R M : Type 0} where
  abbrev pub call_wrapper : Call R → HttpWrapper R M → HttpWrapper R M
  call_wrapper (signals s) w = record w { health_handler = give s w.health_handler }
  call_wrapper (sets f) w = set_http_handler f w

  abbrev pub call_all : List (Call R) → HttpWrapper R M → HttpWrapper R M
  call_all [] w = w
  call_all (c ∷ cs) w = call_all cs (call_wrapper c w)

  -- The calls act on the health handler by their signals and on the application's handler by the last
  -- one set, and leave the mux.
  call_all-parts :
      (cs : List (Call R)) (w : HttpWrapper R M)
      → call_all cs w ≡ record {
        http_handler = last_set w.http_handler cs;
        health_handler = give_all (signals_of cs) w.health_handler;
        mux = w.mux;
      }
  unfolding set_http_handler
  call_all-parts [] w = refl
  call_all-parts (signals s ∷ cs) w = call_all-parts cs (call_wrapper (signals s) w)
  call_all-parts (sets f ∷ cs) w = call_all-parts cs (call_wrapper (sets f) w)

  serve_app-answer :
      (lib : ServeMux R M) (w : HttpWrapper R M) (r : R) (up : Bool)
      → w.health_handler.is_started ≡ up
      → serve_app lib w r
        ≡ (if up then app_answer lib.not_found w.http_handler r else some not_ready_412)
  unfolding serve_app
  serve_app-answer lib w r up started =
      ap
        (λ b.
          if not b
          then some not_ready_412
          else elim w.http_handler [ some f ↦ call_handler f r | none ↦ some (lib.not_found r) ])
        started
      ∙ answer_when (lib.not_found) w.http_handler r up

  serve_target-answer :
      (lib : ServeMux R M) (w : HttpWrapper R M) (r : R) (up down : Bool) (t : Option Target)
      → w.health_handler.is_started ≡ up
      → ((p : Probe) → probe_http_handler w.health_handler p r ≡ some (expected up down p))
      → serve_target lib w t r
        ≡ expected_for up down
            (some (lib.own_answer w.mux r))
            (app_answer lib.not_found w.http_handler r)
            t
  unfolding serve_app probe_http_handler
  serve_target-answer lib w r up down none started probes = refl
  serve_target-answer lib w r up down (some (probe p)) started probes = probes p
  serve_target-answer lib w r up down (some app) started probes =
      serve_app-answer lib w r up started

  -- For a wrapper of a handler that NewHandler built from options without a probe handler, where
  -- the mux takes the patterns of the three probes and "/", the wrapper is built, and after any
  -- sequence of ServiceStarted, ServiceTerminating and SetHTTPHandler calls a request is answered
  -- by what the mux gives it to: liveness with 200; startup and readiness with 412 until the
  -- service counts as started (ServiceStarted was called, or no startup probe was asked for), and
  -- then with 200, but readiness with 503 once ServiceTerminating was called; the application with
  -- 412 until the service counts as started, and then by the handler set last, or as not found if
  -- none was set (a nil handler panics); and what the mux gives to no pattern, by the mux.
  pub new_http_wrapper-answers :
      (lib : ServeMux R M) (os : List (HandlerOption R)) (cs : List (Call R)) (m : M) (r : R)
      → has_probe_handler os ≡ false
      → handle_all lib (wrapper_patterns (new_handler os)) lib.new_serve_mux ≡ some m
      → (w : HttpWrapper R M) × (new_http_wrapper lib (new_handler os) ≡ some w)
        × (serve_http lib (call_all cs w) r
            ≡ expected_for
                (not (asks_startup_probe os) || any is_start (signals_of cs))
                (any is_terminate (signals_of cs))
                (some (lib.own_answer m r))
                (app_answer lib.not_found (last_set none cs) r)
                (lib.target m r))
  unfolding new_http_wrapper serve_http
  new_http_wrapper-answers lib os cs m r none_given taken =
      let up = not (asks_startup_probe os) || any is_start (signals_of cs) in
      let down = any is_terminate (signals_of cs) in
      let w = fresh_wrapper (new_handler os) m in
      (
        w,
        ap (λ t. elim t [ some m' ↦ some (fresh_wrapper (new_handler os) m') | none ↦ none ]) taken,
        ap (λ v. serve_target lib v (lib.target v.mux r) r) (call_all-parts cs w)
            ∙ serve_target-answer lib _ r up down (lib.target m r)
                (new_handler-started os (signals_of cs) none_given)
                (λ p. new_handler-probes os (signals_of cs) p r none_given),
      )
