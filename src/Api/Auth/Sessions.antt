-- ===== src/Api/Auth/Sessions.antt =====
-- What a client that has logged in over src/AuthHttp.cpp may do with its cookie.
use hao_short_link.Prelude.{
  Bool, Bytes, List, Option, [], arith, bytes_beq_iff, bytes_eq, codes, false, if◌then◌else◌,
  nat_eq, refl, some, true, ℕ, ◌==◌, ◌∷◌, ◌≡◌,
}
use hao_short_link.Prelude.Int.{int_eq, ℤ}
use hao_short_link.Prelude.Map.{lookup, pair_eq}
use hao_short_link.Account.Repository.{AuthRepository}
use hao_short_link.Account.Service.{AuthenticatedSession, Digests, answer, authenticate, login}
use hao_short_link.Api.Auth.{
  AuthHttpConfig, authenticate_request, parse_credentials, session_cookie,
  session_token_from_request,
}
use hao_short_link.Api.Json.{JsonValues}
use hao_short_link.Api.Origin.{is_same_origin_request, require_same_origin_request}
use hao_short_link.Http.Request.{HttpRequest, insert_in_order}
use hao_short_link.Http.Response.{
  HttpResponse, HttpStatusCode, add_response_header, set_content_length, set_content_type,
  set_error_response, set_json_body,
}
use hao_short_link.ShortLink.Record.{status_eq}

pub lookup-insert_in_order :
    (key other value : Bytes) (entries : List (Bytes × Bytes))
    → lookup other (insert_in_order key value entries)
      ≡ (if key == other then some value else lookup other entries)
unfolding lookup insert_in_order
lookup-insert_in_order key other value [] = refl
lookup-insert_in_order key other value ((k, v) ∷ rest) = ground (
  arith,
  lookup-insert_in_order key other value rest,
  bytes_beq_iff key other,
  bytes_beq_iff k key,
  bytes_beq_iff k other,
)

pub error_status :
    (code : HttpStatusCode) (name message : Bytes) (r : HttpResponse)
    → (set_error_response code name message r).status_code ≡ code
unfolding set_error_response set_json_body set_content_type set_content_length add_response_header
error_status code name message r = refl

picked :
    (b : Bool) (x y : HttpResponse) (code : HttpStatusCode)
    → y.status_code ≡ code
    → let done : HttpResponse × Bool = if b then (x, true) else (y, false) in
      done.1 ≡ false → done.0.status_code ≡ code
picked true x y code h e = absurd (ground arith)
picked false x y code h e = h

pub refused_status :
    (request : HttpRequest) (r : HttpResponse)
    → (require_same_origin_request request r).1 ≡ false
    → (require_same_origin_request request r).0.status_code ≡ HttpStatusCode.forbidden
unfolding require_same_origin_request
refused_status request r =
    picked (is_same_origin_request request) _ _ HttpStatusCode.forbidden (error_status _ _ _ _)

module _ {T J : Type 0} (repository : AuthRepository T) (digests : Digests) (ttl : ℤ)
    (json : JsonValues J) (config : AuthHttpConfig) (before_1970 : ℕ → Bytes) where
  -- An empty token is no session's either.
  pub authenticate_request-token :
      (request : HttpRequest) (now : ℤ) (t : T) (token : Bytes)
      → session_token_from_request config request ≡ token
      → authenticate_request repository digests ttl json config before_1970 request now t
        ≡ authenticate repository digests ttl token now t
  unfolding authenticate_request authenticate
  authenticate_request-token request now t [] e = rw e refl
  authenticate_request-token request now t (c ∷ token) e = rw e refl

  -- The login behind an answer.
  record LoggedIn (request : HttpRequest) (drawn : Option Bytes) (now now' : ℤ) (t : T)
      (done : T × HttpResponse) : Type 0 where
    username : Bytes
    password : Bytes
    session : AuthenticatedSession
    credentials : parse_credentials json request ≡ some (username, password)
    result : (login repository digests ttl username password drawn now t).1 ≡ answer (some session)
    state : done.0 ≡ (login repository digests ttl username password drawn now t).0
    cookie : lookup (codes "Set-Cookie") done.1.headers ≡ some (session_cookie config session now')
