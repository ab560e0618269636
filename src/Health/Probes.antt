-- ===== src/Health/Probes.antt =====
-- What the probes report over the life of a service.
use svcinit.Common.{
  ◌≡◌, refl, Bool, true, false, not, ◌||◌, some, List, [], ◌∷◌, arith, any, if◌then◌else◌, ap, ap₂,
  ◌∙◌,
}
use svcinit.Health.{
  Probe, startup, liveness, readiness, Response, ok_200, not_ready_412, shutting_down_503,
  default_probe_handler, Handler, HandlerOption, apply_handler_options, apply_handler_option,
  default_handler, init, new_handler, or_default, call_probe, status_of, service_started,
  service_terminating, probe_http_handler, with_startup_probe, with_startup_probe_path,
  with_liveness_probe_path, with_readiness_probe_path, with_probe_handler,
}

-- A signal that the service gives its health handler.
pub data Signal : Type 0 where
  starts terminates : Signal

abbrev pub is_start : Signal → Bool
is_start starts = true
is_start terminates = false

abbrev pub is_terminate : Signal → Bool
is_terminate starts = false
is_terminate terminates = true

-- What the probes should report: by whether the service counts as started and whether it is
-- terminating.
abbrev pub expected : (up down : Bool) → Probe → Response
expected up down liveness = ok_200
expected up down startup = if up then ok_200 else not_ready_412
expected up down readiness =
    if up then (if down then shutting_down_503 else ok_200) else not_ready_412

-- Whether the options set a probe handler, and whether the last WithStartupProbe asks for the probe.
abbrev pub has_probe_handler : {R : Type 0} → List (HandlerOption R) → Bool
has_probe_handler [] = false
has_probe_handler (with_probe_handler p ∷ os) = true
has_probe_handler (o ∷ os) = has_probe_handler os

abbrev pub last_startup_probe : {R : Type 0} → Bool → List (HandlerOption R) → Bool
last_startup_probe b [] = b
last_startup_probe b (with_startup_probe asked ∷ os) = last_startup_probe asked os
last_startup_probe b (o ∷ os) = last_startup_probe b os

abbrev pub asks_startup_probe : {R : Type 0} → List (HandlerOption R) → Bool
asks_startup_probe os = last_startup_probe false os

module _ {R : Type 0} where
  abbrev pub give : Signal → Handler R → Handler R
  give starts h = service_started h
  give terminates h = service_terminating h

  abbrev pub give_all : List Signal → Handler R → Handler R
  give_all [] h = h
  give_all (s ∷ ss) h = give_all ss (give s h)

  give_all_flags :
      (ss : List Signal) (h : Handler R)
      → ((give_all ss h).is_started ≡ h.is_started || any is_start ss)
        × ((give_all ss h).is_terminating ≡ h.is_terminating || any is_terminate ss)
        × ((give_all ss h).probe_handler ≡ h.probe_handler)
  unfolding service_started service_terminating
  give_all_flags [] h = ground arith
  give_all_flags (starts ∷ ss) h =
      ground (arith, give_all_flags ss (record h { is_started = true }))
  give_all_flags (terminates ∷ ss) h =
      ground (arith, give_all_flags ss (record h { is_terminating = true }))

  apply_handler_options_flags :
      (os : List (HandlerOption R)) (h : Handler R)
      → ((apply_handler_options h os).is_started ≡ h.is_started)
        × ((apply_handler_options h os).is_terminating ≡ h.is_terminating)
  unfolding apply_handler_options apply_handler_option
  apply_handler_options_flags [] h = ground arith
  apply_handler_options_flags (with_startup_probe b ∷ os) h =
      apply_handler_options_flags os (record h { startup_probe = b })
  apply_handler_options_flags (with_startup_probe_path p ∷ os) h =
      apply_handler_options_flags os (record h { startup_probe_path = p })
  apply_handler_options_flags (with_liveness_probe_path p ∷ os) h =
      apply_handler_options_flags os (record h { liveness_probe_path = p })
  apply_handler_options_flags (with_readiness_probe_path p ∷ os) h =
      apply_handler_options_flags os (record h { readiness_probe_path = p })
  apply_handler_options_flags (with_probe_handler p ∷ os) h =
      apply_handler_options_flags os (record h { probe_handler = p })

  -- The default probe handler answers by the two flags alone.
  default_probe_handler-expected :
      (up down : Bool) (p : Probe) (r : R)
      → default_probe_handler p (record { is_started = up; is_terminating = down }) r
        ≡ expected up down p
  unfolding default_probe_handler
  default_probe_handler-expected true true startup r = refl
  default_probe_handler-expected true true liveness r = refl
  default_probe_handler-expected true true readiness r = refl
  default_probe_handler-expected true false startup r = refl
  default_probe_handler-expected true false liveness r = refl
  default_probe_handler-expected true false readiness r = refl
  default_probe_handler-expected false true startup r = refl
  default_probe_handler-expected false true liveness r = refl
  default_probe_handler-expected false true readiness r = refl
  default_probe_handler-expected false false startup r = refl
  default_probe_handler-expected false false liveness r = refl
  default_probe_handler-expected false false readiness r = refl

  init_flags :
      (h : Handler R)
      → h.is_started ≡ false
      → ((init h).is_started ≡ not h.startup_probe)
        × ((init h).is_terminating ≡ h.is_terminating)
        × ((init h).probe_handler ≡ h.probe_handler)
  unfolding init
  init_flags h fresh = ground arith

  apply_handler_options_startup :
      (os : List (HandlerOption R)) (h : Handler R)
      → (apply_handler_options h os).startup_probe ≡ last_startup_probe h.startup_probe os
  unfolding apply_handler_options apply_handler_option
  apply_handler_options_startup [] h = refl
  apply_handler_options_startup (with_startup_probe b ∷ os) h =
      apply_handler_options_startup os (record h { startup_probe = b })
  apply_handler_options_startup (with_startup_probe_path p ∷ os) h =
      apply_handler_options_startup os (record h { startup_probe_path = p })
  apply_handler_options_startup (with_liveness_probe_path p ∷ os) h =
      apply_handler_options_startup os (record h { liveness_probe_path = p })
  apply_handler_options_startup (with_readiness_probe_path p ∷ os) h =
      apply_handler_options_startup os (record h { readiness_probe_path = p })
  apply_handler_options_startup (with_probe_handler p ∷ os) h =
      apply_handler_options_startup os (record h { probe_handler = p })

  apply_handler_options_default :
      (os : List (HandlerOption R)) (h : Handler R)
      → has_probe_handler os ≡ false
      → (apply_handler_options h os).probe_handler ≡ h.probe_handler
  unfolding apply_handler_options apply_handler_option
  apply_handler_options_default [] h none_given = refl
  apply_handler_options_default (with_startup_probe b ∷ os) h none_given =
      apply_handler_options_default os (record h { startup_probe = b }) none_given
  apply_handler_options_default (with_startup_probe_path p ∷ os) h none_given =
      apply_handler_options_default os (record h { startup_probe_path = p }) none_given
  apply_handler_options_default (with_liveness_probe_path p ∷ os) h none_given =
      apply_handler_options_default os (record h { liveness_probe_path = p }) none_given
  apply_handler_options_default (with_readiness_probe_path p ∷ os) h none_given =
      apply_handler_options_default os (record h { readiness_probe_path = p }) none_given
  apply_handler_options_default (with_probe_handler p ∷ os) h none_given =
      ground (arith, none_given)

  new_handler_flags :
      (os : List (HandlerOption R))
      → has_probe_handler os ≡ false
      → ((new_handler os).is_started ≡ not (asks_startup_probe os))
        × ((new_handler os).is_terminating ≡ false)
        × ((new_handler os).probe_handler ≡ some default_probe_handler)
  unfolding new_handler
  new_handler_flags os none_given =
      let h = apply_handler_options default_handler os in
      let (up, down) = apply_handler_options_flags os default_handler in
      let (started, terminating, handler) =
        init_flags (record h { probe_handler = or_default h.probe_handler }) up in
      (
        started ∙ ap not (apply_handler_options_startup os default_handler),
        terminating ∙ down,
        handler ∙ ap or_default (apply_handler_options_default os default_handler none_given),
      )

  pub new_handler-started :
      (os : List (HandlerOption R)) (signals : List Signal)
      → has_probe_handler os ≡ false
      → (give_all signals (new_handler os)).is_started
        ≡ not (asks_startup_probe os) || any is_start signals
  new_handler-started os signals none_given =
      (give_all_flags signals (new_handler os)).0
      ∙ ap (λ b. b || any is_start signals) (new_handler_flags os none_given).0

  -- For a handler built by NewHandler from options without a probe handler, after any sequence of
  -- ServiceStarted and ServiceTerminating calls: liveness answers 200; startup answers 200 if no
  -- startup probe was asked for or ServiceStarted was called, and 412 otherwise; readiness moreover
  -- answers 503 once ServiceTerminating was called.
  pub new_handler-probes :
      (os : List (HandlerOption R)) (signals : List Signal) (p : Probe) (r : R)
      → has_probe_handler os ≡ false
      → probe_http_handler (give_all signals (new_handler os)) p r
        ≡ some (
            expected
              (not (asks_startup_probe os) || any is_start signals)
              (any is_terminate signals)
              p)
  unfolding probe_http_handler
  new_handler-probes os signals p r none_given =
      let (up, down, handler) = give_all_flags signals (new_handler os) in
      let (up₀, down₀, handler₀) = new_handler_flags os none_given in
      ap (λ h. call_probe h p (status_of (give_all signals (new_handler os))) r)
        (handler ∙ handler₀)
      ∙ ap some (
          ap₂ (λ u d. default_probe_handler p (record { is_started = u; is_terminating = d }) r)
            (up ∙ ap (λ b. b || any is_start signals) up₀)
            (down ∙ ap (λ b. b || any is_terminate signals) down₀)
          ∙ default_probe_handler-expected _ _ p r)
