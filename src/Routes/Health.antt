-- ===== src/Routes/Health.antt =====
-- The health routes (routes/health.go), which stand outside the key gate.
use eudi_api_registration.Base.{Option, none, some, Error}
use eudi_api_registration.Json.{Json, obj, member, end, str}
use eudi_api_registration.Routes.{Response, json}

abbrev pub healthz : Response Json
healthz = json (obj (member "status" (str "ok") end))

-- The argument is what the ping of the database returns within its time limit, `none` for nil. The
-- keys of a map are written in their order.
abbrev pub readyz : Option Error → Response Json
readyz (some e) = record {
  status = 503;
  body = obj (
      member "components" (obj (member "postgres" (str "unreachable") end))
        (member "status" (str "degraded") end));
}
readyz none = json (obj (member "status" (str "ok") end))
