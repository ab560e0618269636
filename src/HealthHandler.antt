-- ===== src/HealthHandler.antt =====
-- health.go: handlers of the two health signals, built from callback functions.
use svcinit.Common.{Option, none, some, List, [], ◌∷◌}
use svcinit.Context.{Ctx}

-- HealthHandler, an interface.
pub record HealthHandler (W : Type 0) : Type 0 where
  pub service_started : Ctx → W → W
  pub service_terminating : Ctx → W → W

-- buildHealthHandler: a nil function is `none`.
pub record HealthCallbacks (W : Type 0) : Type 0 where
  pub on_started : Option (Ctx → W → W)
  pub on_terminating : Option (Ctx → W → W)

-- BuildHealthHandlerOption
pub data HealthHandlerOption (W : Type 0) : Type 0 where
  with_service_started with_service_terminating : Option (Ctx → W → W) → HealthHandlerOption W

module _ {W : Type 0} where
  unfoldable pub apply_health_option : HealthCallbacks W → HealthHandlerOption W → HealthCallbacks W
  apply_health_option h (with_service_started f) = record h { on_started = f }
  apply_health_option h (with_service_terminating f) = record h { on_terminating = f }

  unfoldable pub apply_health_options :
      HealthCallbacks W → List (HealthHandlerOption W) → HealthCallbacks W
  unfolding apply_health_option
  apply_health_options h [] = h
  apply_health_options h (o ∷ os) = apply_health_options (apply_health_option h o) os

  unfoldable pub call_or_skip : Option (Ctx → W → W) → Ctx → W → W
  call_or_skip none ctx w = w
  call_or_skip (some f) ctx w = f ctx w

  unfoldable pub build_health_handler : List (HealthHandlerOption W) → HealthHandler W
  unfolding apply_health_options call_or_skip
  build_health_handler options =
      let h = apply_health_options (record { on_started = none; on_terminating = none }) options in
      record {
        service_started = call_or_skip h.on_started;
        service_terminating = call_or_skip h.on_terminating;
      }
