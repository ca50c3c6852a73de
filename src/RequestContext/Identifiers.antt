-- ===== src/RequestContext/Identifiers.antt =====
-- Every request has a safe identifier, and leaves one record.
use multi_tenant_saas_api.Base.{
  ℕ, ◌≡◌, refl, sym, subst, Bool, true, Option, none, some, List, [], ◌∷◌, ◌++◌, Text, text_eq,
  text_eq_refl, strip, length, uuid_str, hex, arith, Bool-cases, inl, inr, drop,
}
use multi_tenant_saas_api.Base.Paging.{All-page, All-drop}
use multi_tenant_saas_api.Auth.Uuid.Texts.{is_hex, AllHex, hex-AllHex, group, uuid_str-groups}
use multi_tenant_saas_api.RequestContext.{
  request_id_char, all_chars, valid_request_id, resolve_request_id, Context, HttpRequest,
  HttpResponse, Endpoint, bind_request_id, request_id_header, set_header, get_header, route_label,
  upper, status_of, request_id_middleware, metrics_middleware, serve_request, finish, recorded,
}

hex_is_request_id : (c : ℕ) → is_hex c ≡ true → request_id_char c ≡ true
hex_is_request_id c h = ground arith

all_hex : (s : Text) → AllHex s → all_chars request_id_char s ≡ true
all_hex [] a = refl
all_hex (c ∷ s) a = ground (arith, hex_is_request_id c a.0, all_hex s a.1)

all_chars-append :
    (p : ℕ → Bool) (s t : Text)
    → all_chars p s ≡ true
    → all_chars p t ≡ true
    → all_chars p (s ++ t) ≡ true
all_chars-append p [] t a b = b
all_chars-append p (c ∷ s) t a b = ground (arith, all_chars-append p s t)

-- The five groups, with their dashes.
dashed_chars :
    (a b c d e : Text)
    → all_chars request_id_char a ≡ true
    → all_chars request_id_char b ≡ true
    → all_chars request_id_char c ≡ true
    → all_chars request_id_char d ≡ true
    → all_chars request_id_char e ≡ true
    → all_chars request_id_char (a ++ b'-' ∷ b ++ b'-' ∷ c ++ b'-' ∷ d ++ b'-' ∷ e) ≡ true
dashed_chars a b c d e ha hb hc hd he =
    all_chars-append request_id_char (a ++ b'-' ∷ b ++ b'-' ∷ c ++ b'-' ∷ d) (b'-' ∷ e)
      (all_chars-append request_id_char (a ++ b'-' ∷ b ++ b'-' ∷ c) (b'-' ∷ d)
        (all_chars-append request_id_char (a ++ b'-' ∷ b) (b'-' ∷ c)
          (all_chars-append request_id_char a (b'-' ∷ b) ha hb) hc)
        hd)
      he

module _ (n : ℕ) where
  uuid_str-length : length (uuid_str n) ≡ 36
  unfolding uuid_str
  uuid_str-length = refl

  piece : (at size : ℕ) → all_chars request_id_char (group at size (hex 32 n)) ≡ true
  piece at size =
      all_hex (group at size (hex 32 n)) (All-page _ size at (hex 32 n) (hex-AllHex 32 n))

  uuid_str-chars : all_chars request_id_char (uuid_str n) ≡ true
  uuid_str-chars =
      subst (λ s. all_chars request_id_char s ≡ true) (sym (uuid_str-groups n))
        (dashed_chars (group 0 8 (hex 32 n)) (group 8 4 (hex 32 n)) (group 12 4 (hex 32 n))
          (group 16 4 (hex 32 n)) (drop 20 (hex 32 n)) (piece 0 8) (piece 8 4) (piece 12 4)
          (piece 16 4) (all_hex (drop 20 (hex 32 n)) (All-drop _ 20 (hex 32 n) (hex-AllHex 32 n))))

  uuid_str-valid : valid_request_id (uuid_str n) ≡ true
  unfolding valid_request_id
  uuid_str-valid = rw (uuid_str-length, uuid_str-chars) refl

resolve_request_id-valid :
    (fresh : ℕ) (incoming : Option Text)
    → valid_request_id (resolve_request_id fresh incoming) ≡ true
unfolding resolve_request_id
resolve_request_id-valid fresh none = uuid_str-valid fresh
resolve_request_id-valid fresh (some s) = elim (Bool-cases (valid_request_id (strip s))) [
  | inl good ↦ rw good good
  | inr bad ↦ rw bad (uuid_str-valid fresh)
]

get_header-set :
    (name value : Text) (hs : List (Text × Text))
    → get_header name (set_header name value hs) ≡ some value
unfolding get_header set_header
get_header-set name value [] = rw (text_eq_refl name) refl
get_header-set name value ((n, v) ∷ hs) = elim (Bool-cases (text_eq n name)) [
  | inl same ↦ rw (same, same) refl
  | inr other ↦ rw (other, other) (get_header-set name value hs)
]

-- A response has the header `X-Request-ID` with the identifier.
abbrev pub Carries : Text → Option HttpResponse → Type 0
Carries i none = Unit
Carries i (some response) = get_header request_id_header response.headers ≡ some i

finished :
    (request : HttpRequest) (i : Text) (token : Option Text) (q : Option HttpResponse × Context)
    → Carries i (recorded request (finish request i token q)).0
      × ((recorded request (finish request i token q)).1.request_id ≡ token)
      × ((recorded request (finish request i token q)).1.api_requests
          ≡ q.1.api_requests
            ++ record {
              method = upper request.method;
              path = route_label request;
              status_code = status_of q.0;
            }
              ∷ [])
finished request i token (none, ctx) = (tt, refl, refl)
finished request i token (some response, ctx) =
    (get_header-set request_id_header i response.headers, refl, refl)

-- Whatever the endpoint does and whatever the header of the request holds: the request runs under
-- an identifier of 1 to 128 of the allowed characters, its response, where there is one, carries that identifier, the
-- context variable is as before afterwards, and just one HTTP request is recorded on top of what
-- the endpoint left, under the route's label and with the status of the response, or 500 for an
-- exception.
pub serve_request_lem :
    (fresh : ℕ) (request : HttpRequest) (endpoint : Endpoint) (ctx : Context)
    → (valid_request_id (resolve_request_id fresh request.x_request_id) ≡ true)
      × Carries
          (resolve_request_id fresh request.x_request_id)
          (serve_request fresh request endpoint ctx).0
      × ((serve_request fresh request endpoint ctx).1.request_id ≡ ctx.request_id)
      × ((serve_request fresh request endpoint ctx).1.api_requests
          ≡ (endpoint
              (bind_request_id (resolve_request_id fresh request.x_request_id) ctx)).1.api_requests
            ++ record {
              method = upper request.method;
              path = route_label request;
              status_code =
                  status_of
                    (endpoint
                      (bind_request_id (resolve_request_id fresh request.x_request_id) ctx)).0;
            }
              ∷ [])
unfolding serve_request metrics_middleware request_id_middleware
serve_request_lem fresh request endpoint ctx =
    let i = resolve_request_id fresh request.x_request_id in
    let f = finished request i ctx.request_id (endpoint (bind_request_id i ctx)) in
    (resolve_request_id-valid fresh request.x_request_id, f.0, f.1, f.2)
