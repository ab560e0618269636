-- ===== src/Health.antt =====
-- health_http: the state behind the HTTP probes, and what each request is answered. The server's mux
-- and its transport are `net/http`.
pub mod Probes
pub mod Server
pub mod Wrapper
use svcinit.Common.{
  ℕ, String, Bool, true, false, not, Option, none, some, List, [], ◌∷◌, ◌++◌, if◌then◌else◌,
}

pub data Probe : Type 0 where
  startup liveness readiness : Probe

pub record Status : Type 0 where
  pub is_started : Bool
  pub is_terminating : Bool

-- A response: the status code, and the body if one is written.
pub record Response : Type 0 where
  pub code : ℕ
  pub body : String

abbrev pub ok_200 : Response
ok_200 = record { code = 200; body = "" }

abbrev pub not_ready_412 : Response
not_ready_412 = record { code = 412; body = "service not ready" }

abbrev pub shutting_down_503 : Response
shutting_down_503 = record { code = 503; body = "service shutting down" }

abbrev is_liveness : Probe → Bool
is_liveness liveness = true
is_liveness p = false

abbrev is_readiness : Probe → Bool
is_readiness readiness = true
is_readiness p = false

-- ProbeHandler, for a request of type `R`.
abbrev pub ProbeHandler : Type 0 → Type 0
ProbeHandler R = Probe → Status → R → Response

unfoldable pub default_probe_handler : {R : Type 0} → ProbeHandler R
default_probe_handler probe status r =
    if is_liveness probe
    then ok_200
    else if not status.is_started
    then not_ready_412
    else if is_readiness probe
    then (if status.is_terminating then shutting_down_503 else ok_200)
    else ok_200

pub record Handler (R : Type 0) : Type 0 where
  pub startup_probe_path : String
  pub liveness_probe_path : String
  pub readiness_probe_path : String
  pub startup_probe : Bool
  pub probe_handler : Option (ProbeHandler R)
  pub is_started : Bool
  pub is_terminating : Bool

-- HandlerOption.
pub data HandlerOption (R : Type 0) : Type 0 where
  with_startup_probe : Bool → HandlerOption R
  with_startup_probe_path : String → HandlerOption R
  with_liveness_probe_path : String → HandlerOption R
  with_readiness_probe_path : String → HandlerOption R
  with_probe_handler : Option (ProbeHandler R) → HandlerOption R

module _ {R : Type 0} where
  unfoldable pub apply_handler_option : Handler R → HandlerOption R → Handler R
  apply_handler_option h (with_startup_probe b) = record h { startup_probe = b }
  apply_handler_option h (with_startup_probe_path p) = record h { startup_probe_path = p }
  apply_handler_option h (with_liveness_probe_path p) = record h { liveness_probe_path = p }
  apply_handler_option h (with_readiness_probe_path p) = record h { readiness_probe_path = p }
  apply_handler_option h (with_probe_handler p) = record h { probe_handler = p }

  unfoldable pub apply_handler_options : Handler R → List (HandlerOption R) → Handler R
  unfolding apply_handler_option
  apply_handler_options h [] = h
  apply_handler_options h (o ∷ os) = apply_handler_options (apply_handler_option h o) os

  abbrev pub default_handler : Handler R
  default_handler = record {
    startup_probe_path = "/startup";
    liveness_probe_path = "/healthz";
    readiness_probe_path = "/ready";
    startup_probe = false;
    probe_handler = none;
    is_started = false;
    is_terminating = false;
  }

  abbrev pub or_default : Option (ProbeHandler R) → Option (ProbeHandler R)
  unfolding default_probe_handler
  or_default none = some default_probe_handler
  or_default h = h

  -- `init`: without a startup probe the service counts as started.
  unfoldable pub init : Handler R → Handler R
  init h = if not h.startup_probe then record h { is_started = true } else h

  unfoldable pub new_handler : List (HandlerOption R) → Handler R
  unfolding apply_handler_options init default_probe_handler
  new_handler os =
      let h = apply_handler_options default_handler os in
      init (record h { probe_handler = or_default h.probe_handler })

  unfoldable pub service_started : Handler R → Handler R
  service_started h = record h { is_started = true }

  unfoldable pub service_terminating : Handler R → Handler R
  service_terminating h = record h { is_terminating = true }

  abbrev pub status_of : Handler R → Status
  status_of h = record { is_started = h.is_started; is_terminating = h.is_terminating }

  abbrev pub call_probe : Option (ProbeHandler R) → Probe → Status → R → Option Response
  call_probe none p s r = none
  call_probe (some f) p s r = some (f p s r)

  -- The handler of one probe; a nil probe handler would panic, which is `none`.
  unfoldable pub probe_http_handler : Handler R → Probe → R → Option Response
  probe_http_handler h p r = call_probe h.probe_handler p (status_of h) r

  -- `Register`: the patterns added to a mux, in order, and what serves them.
  unfoldable pub register : Handler R → List (String × Probe)
  register h =
      (Prim.Native.String.◌++◌ "GET " h.startup_probe_path, startup)
      ∷ (Prim.Native.String.◌++◌ "GET " h.liveness_probe_path, liveness)
      ∷ (Prim.Native.String.◌++◌ "GET " h.readiness_probe_path, readiness)
      ∷ []
