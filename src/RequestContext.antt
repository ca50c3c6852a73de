-- ===== src/RequestContext.antt =====
-- request_context.py and middleware.py: the identifier of each request, and what is recorded of it.
pub mod Identifiers
use multi_tenant_saas_api.Base.{
  ◌-◌, ℕ, Bool, true, false, ◌&&◌, ◌||◌, Option, none, some, List, [], ◌∷◌, ◌++◌, Text, codes,
  text_eq, strip, length, leb, ltb, ◌==◌, uuid_str, map, if◌then◌else◌,
}

-- `_REQUEST_ID_PATTERN`: letters, digits, and `.`, `_`, `:`, `-`, at least one.
abbrev pub request_id_char : ℕ → Bool
request_id_char c =
    (leb 65 c && leb c 90)
    || (leb 97 c && leb c 122)
    || (leb 48 c && leb c 57)
    || (c == b'.')
    || (c == b'_')
    || (c == b':')
    || (c == b'-')

abbrev pub all_chars : (ℕ → Bool) → Text → Bool
all_chars p [] = true
all_chars p (c ∷ s) = p c && all_chars p s

unfoldable pub valid_request_id : Text → Bool
valid_request_id s = ltb 0 (length s) && leb (length s) 128 && all_chars request_id_char s

-- `fresh` is the `uuid.uuid4()` that is drawn where the header does not serve.
unfoldable pub resolve_request_id : ℕ → Option Text → Text
unfolding valid_request_id strip
resolve_request_id fresh none = uuid_str fresh
resolve_request_id fresh (some incoming_request_id) =
    let candidate = strip incoming_request_id in
    if valid_request_id candidate then candidate else uuid_str fresh

pub data LogEvent : Type 0 where
  request_failed : Text → Text → LogEvent
  request_completed : Text → Text → ℕ → LogEvent

-- A log record has the identifier that is bound when it is emitted; the labels of an HTTP metric.
pub record LogRecord : Type 0 where
  pub event : LogEvent
  pub request_id : Option Text

pub record HttpRequestMetric : Type 0 where
  pub method : Text
  pub path : Text
  pub status_code : ℕ

-- The context variable, the log, and the HTTP requests recorded. Durations are not modelled.
pub record Context : Type 0 where
  pub request_id : Option Text
  pub log : List LogRecord
  pub api_requests : List HttpRequestMetric

pub record HttpRequest : Type 0 where
  pub method : Text
  pub path : Text
  pub x_request_id : Option Text
  -- the path of the route that matched
  pub route : Option Text

pub record HttpResponse : Type 0 where
  pub status_code : ℕ
  pub headers : List (Text × Text)

-- `call_next`: a response, or an exception (`none`).
abbrev pub Endpoint : Type 0
Endpoint = Context → Option HttpResponse × Context

abbrev pub bind_request_id : Text → Context → Context
bind_request_id i ctx = record ctx { request_id = some i }

-- The token of the binding is the value before it.
abbrev pub reset_request_id : Option Text → Context → Context
reset_request_id token ctx = record ctx { request_id = token }

abbrev log_event : LogEvent → Context → Context
log_event e ctx = record ctx {
  log = ctx.log ++ record { event = e; request_id = ctx.request_id } ∷ [];
}

abbrev pub request_id_header : Text
request_id_header = codes "x-request-id"

abbrev drop_header : Text → List (Text × Text) → List (Text × Text)
drop_header name [] = []
drop_header name ((n, v) ∷ hs) =
    let rest = drop_header name hs in if text_eq n name then rest else (n, v) ∷ rest

-- `response.headers[name] = value`: names are kept in lower case. The first header of the name gets
-- the value, and the later ones are deleted.
unfoldable pub set_header : Text → Text → List (Text × Text) → List (Text × Text)
set_header name value [] = (name, value) ∷ []
set_header name value ((n, v) ∷ hs) =
    let rest = set_header name value hs in
    if text_eq n name then (n, value) ∷ drop_header name hs else (n, v) ∷ rest

unfoldable pub get_header : Text → List (Text × Text) → Option Text
get_header name [] = none
get_header name ((n, v) ∷ hs) = if text_eq n name then some v else get_header name hs

abbrev identified : Text → HttpResponse → HttpResponse
identified i response = record response {
  headers = set_header request_id_header i response.headers;
}

abbrev pub finish :
    HttpRequest → Text → Option Text → Option HttpResponse × Context → Option HttpResponse × Context
finish request i token (none, ctx) =
    (none, reset_request_id token (log_event (request_failed request.method request.path) ctx))
finish request i token (some response, ctx) = (
  some (identified i response),
  reset_request_id token
      (log_event (request_completed request.method request.path response.status_code) ctx),
)

unfoldable pub request_id_middleware :
    ℕ → HttpRequest → Endpoint → Context → Option HttpResponse × Context
unfolding resolve_request_id
request_id_middleware fresh request call_next ctx =
    let i = resolve_request_id fresh request.x_request_id in
    finish request i ctx.request_id (call_next (bind_request_id i ctx))

abbrev system_paths : List Text
system_paths = codes "/healthz" ∷ codes "/readyz" ∷ codes "/metrics" ∷ []

abbrev is_system_path : Text → List Text → Bool
is_system_path path [] = false
is_system_path path (p ∷ ps) = text_eq path p || is_system_path path ps

unfoldable pub route_label : HttpRequest → Text
unfolding text_eq
route_label request = elim request.route [
  | some route_path ↦ route_path
  | none ↦ if is_system_path request.path system_paths then request.path else codes "unmatched"
]

abbrev pub upper : Text → Text
upper s = map (λ c. if leb 97 c && leb c 122 then c - 32 else c) s

-- `MetricsService.record_http_request`
abbrev pub record_http_request : Text → Text → ℕ → Context → Context
record_http_request method path status_code ctx = record ctx {
  api_requests =
      ctx.api_requests
      ++ record { method = upper method; path = path; status_code = status_code } ∷ [];
}

-- The status of an exception is 500.
abbrev pub status_of : Option HttpResponse → ℕ
status_of none = 500
status_of (some response) = response.status_code

abbrev pub recorded : HttpRequest → Option HttpResponse × Context → Option HttpResponse × Context
recorded request p =
    (p.0, record_http_request request.method (route_label request) (status_of p.0) p.1)

unfoldable pub metrics_middleware : HttpRequest → Endpoint → Context → Option HttpResponse × Context
unfolding route_label
metrics_middleware request call_next ctx = recorded request (call_next ctx)

-- app.py: the metrics middleware is installed last, and so is the outer one.
unfoldable pub serve_request : ℕ → HttpRequest → Endpoint → Context → Option HttpResponse × Context
unfolding metrics_middleware request_id_middleware
serve_request fresh request endpoint ctx =
    metrics_middleware request (request_id_middleware fresh request endpoint) ctx
