-- ===== src/Api/Auth.antt =====
-- apps/shortlink_server: src/AuthHttp.cpp, over any repository of accounts. The JSON library, the
-- hasher, the digest and the drawn bytes are arguments, and so is the clock.
pub mod Cookies
pub mod Sessions
use hao_short_link.Prelude.{
  Bool, Bytes, Option, [], bytes_eq, codes, if◌then◌else◌, is_empty, length, ltb, nat_eq, none, not,
  some, suc, zero, ℕ, ◌++◌, ◌==◌, ◌>>=◌, ◌||◌, ◌∷◌,
}
use hao_short_link.Prelude.Int.{int_eq, ℤ, ◌-ℤ◌}
use hao_short_link.Prelude.Map.{lookup, pair_eq}
use hao_short_link.Account.Repository.{AuthRepository, User, UserStatus}
use hao_short_link.Account.Service.{
  AuthResult, AuthenticatedSession, Digests, ResultStatus, authenticate, login, logout,
  register_user,
}
use hao_short_link.Api.Json.{JsonValues, format_time, has_json_content_type}
use hao_short_link.Api.Origin.{require_same_origin_request}
use hao_short_link.Decimal.{int_to_string, is_space, to_string}
use hao_short_link.Http.Request.{HttpRequest, get_header, split_at}
use hao_short_link.Http.Response.{
  HttpResponse, HttpStatusCode, add_response_header, escape_json_string, set_content_length,
  set_error_response, set_json_body, set_status,
}
use hao_short_link.ShortLink.Record.{status_eq}

pub record AuthHttpConfig : Type 0 where
  pub cookie_name : Bytes
  pub cookie_secure : Bool
  pub registration_enabled : Bool

abbrev no_store : HttpResponse → HttpResponse
no_store = add_response_header (codes "Cache-Control") (codes "no-store")

abbrev secured : AuthHttpConfig → Bytes → Bytes
secured config cookie = if config.cookie_secure then cookie ++ codes "; Secure" else cookie

-- The session's time that is left may be negative, if the clock has passed its end.
unfoldable pub session_cookie : AuthHttpConfig → AuthenticatedSession → ℤ → Bytes
session_cookie config session now = secured config (
    config.cookie_name
    ++ codes "="
    ++ session.token
    ++ codes "; Path=/; HttpOnly; SameSite=Lax; Max-Age="
    ++ int_to_string (session.expires_at -ℤ now))

unfoldable pub set_session_cookie :
    AuthHttpConfig → AuthenticatedSession → ℤ → HttpResponse → HttpResponse
set_session_cookie config session now r =
    no_store (add_response_header (codes "Set-Cookie") (session_cookie config session now) r)

unfoldable pub clear_session_cookie : AuthHttpConfig → HttpResponse → HttpResponse
clear_session_cookie config r = no_store (
    add_response_header (codes "Set-Cookie")
      (secured config (config.cookie_name ++ codes "=; Path=/; HttpOnly; SameSite=Lax; Max-Age=0"))
      r)

unfoldable pub user_status_to_string : UserStatus → Bytes
user_status_to_string UserStatus.active = codes "active"
user_status_to_string UserStatus.disabled = codes "disabled"

-- The inner loop over separators and spaces.
unfoldable pub skip_separators : Bytes → Bytes
skip_separators [] = []
skip_separators (c ∷ s) = if (c == b';') || is_space c then skip_separators s else c ∷ s

abbrev pub if_named : Bytes → Option (Bytes × Bytes) → Option Bytes
if_named name none = none
if_named name (some (key, value)) = if key == name then some value else none

-- The value of an item, if its name is the one that is searched.
unfoldable pub value_of : Bytes → Bytes → Option Bytes
value_of name item = if_named name (split_at b'=' item)

abbrev pub or_nothing : Option Bytes → Bytes
or_nothing none = []
or_nothing (some value) = value

abbrev pub or_later : Option Bytes → Bytes → Bytes
or_later none later = later
or_later (some value) later = value

-- A round of the outer loop, by the item in front and what follows its `;`.
abbrev pub scan_item : Bytes → (Bytes → Bytes) → Bytes → Option (Bytes × Bytes) → Bytes
scan_item name next text none = or_nothing (value_of name text)
scan_item name next text (some (front, rest)) = or_later (value_of name front) (next rest)

-- A round that goes on reads a `;`, so that the length is fuel enough.
unfoldable pub scan_cookies : Bytes → ℕ → Bytes → Bytes
scan_cookies name zero cookie = []
scan_cookies name (suc fuel) cookie =
    let text = skip_separators cookie in
    scan_item name (scan_cookies name fuel) text (split_at b';' text)

unfoldable pub session_token_from_request : AuthHttpConfig → HttpRequest → Bytes
session_token_from_request config request =
    let cookie = get_header (codes "Cookie") request in
    scan_cookies config.cookie_name (length cookie) cookie

unfoldable pub user_json : (ℕ → Bytes) → User → Bytes
user_json before_1970 user =
    codes "{\"id\":"
    ++ to_string user.id
    ++ codes ",\"username\":\""
    ++ escape_json_string user.username
    ++ codes "\",\"status\":\""
    ++ user_status_to_string user.status
    ++ codes "\",\"created_at\":\""
    ++ format_time before_1970 user.created_at
    ++ codes "\",\"updated_at\":\""
    ++ format_time before_1970 user.updated_at
    ++ codes "\"}"

unfoldable pub parse_credentials :
    {J : Type 0} → JsonValues J → HttpRequest → Option (Bytes × Bytes)
parse_credentials json request =
    if not (has_json_content_type request) || ltb 4096 (length request.content) then none else do
      object ← json.parse request.content
      members ← json.members object
      username ← lookup (codes "username") members >>= json.as_text
      password ← lookup (codes "password") members >>= json.as_text
      if length members == 2 then some (username, password) else none

unfoldable pub respond_with_session :
    (ℕ → Bytes)
    → AuthHttpConfig
    → AuthenticatedSession
    → HttpStatusCode
    → Bytes
    → ℤ
    → HttpResponse
    → HttpResponse
respond_with_session before_1970 config session status message now r =
    set_json_body
      (codes "{\"user\":"
        ++ user_json before_1970 session.user
        ++ codes ",\"session_expires_at\":\""
        ++ format_time before_1970 session.expires_at
        ++ codes "\"}")
      (set_status status message (set_session_cookie config session now r))

-- The answer to each status of `registerUser`; a success has a session.
unfoldable pub answer_registration :
    (ℕ → Bytes) → AuthHttpConfig → AuthResult → ℤ → HttpResponse → HttpResponse
answer_registration before_1970 config result now r = elim result.status [
  | ResultStatus.success ↦ elim result.session [
    | some session ↦
        respond_with_session before_1970 config session HttpStatusCode.created (codes "Created") now
          r
    | none ↦ r
  ]
  | ResultStatus.invalid_username ↦
      set_error_response HttpStatusCode.bad_request (codes "invalid_username")
        (codes "Username must be 3-32 ASCII letters, numbers, _ or -") r
  | ResultStatus.invalid_password ↦
      set_error_response HttpStatusCode.bad_request (codes "invalid_password")
        (codes "Password must be between 10 and 128 bytes") r
  | ResultStatus.username_conflict ↦
      set_error_response HttpStatusCode.conflict (codes "username_conflict")
        (codes "Username already exists") r
  | ResultStatus.invalid_credentials ↦
      set_error_response HttpStatusCode.internal_server_error (codes "authentication_error")
        (codes "Unable to create account") r
  | ResultStatus.error ↦
      set_error_response HttpStatusCode.internal_server_error (codes "authentication_error")
        (codes "Unable to create account") r
]

abbrev login_failed : HttpResponse → HttpResponse
login_failed =
    set_error_response HttpStatusCode.internal_server_error (codes "authentication_error")
      (codes "Unable to create session")

unfoldable pub answer_login :
    (ℕ → Bytes)
    → AuthHttpConfig
    → ResultStatus
    → Option AuthenticatedSession
    → ℤ
    → HttpResponse
    → HttpResponse
answer_login before_1970 config ResultStatus.success (some session) now r =
    respond_with_session before_1970 config session HttpStatusCode.ok (codes "OK") now r
answer_login before_1970 config ResultStatus.success none now r = login_failed r
answer_login before_1970 config ResultStatus.invalid_credentials session now r =
    set_error_response HttpStatusCode.unauthorized (codes "invalid_credentials")
      (codes "Invalid username or password") r
answer_login before_1970 config ResultStatus.invalid_username session now r = login_failed r
answer_login before_1970 config ResultStatus.invalid_password session now r = login_failed r
answer_login before_1970 config ResultStatus.username_conflict session now r = login_failed r
answer_login before_1970 config ResultStatus.error session now r = login_failed r

abbrev not_credentials : HttpResponse → HttpResponse
not_credentials =
    set_error_response HttpStatusCode.bad_request (codes "invalid_request")
      (codes "Request must contain username and password")

unfoldable pub require_found : HttpResponse → Option User → HttpResponse × Option User
require_found r (some user) = (r, some user)
require_found r none = (
  set_error_response HttpStatusCode.unauthorized (codes "authentication_required")
      (codes "Authentication required") (no_store r),
  none,
)

module _ {T J : Type 0} (repository : AuthRepository T) (digests : Digests) (ttl : ℤ)
    (json : JsonValues J) (config : AuthHttpConfig) (before_1970 : ℕ → Bytes) where
  -- `hash` is the password hasher in this call; the clock is read by the repository, for the session
  -- and for the cookie.
  unfoldable pub handle_register :
      HttpRequest
      → (Bytes → Option Bytes)
      → Option Bytes
      → ℤ
      → ℤ
      → ℤ
      → HttpResponse
      → T
      → T × HttpResponse
  handle_register request hash drawn now now' now'' r t =
      let (checked, same) = require_same_origin_request request (no_store r) in
      if not same
      then (t, checked)
      else if not config.registration_enabled
      then (
        t,
        set_error_response HttpStatusCode.forbidden (codes "registration_disabled")
            (codes "Registration is disabled") checked,
      )
      else elim (parse_credentials json request) [
        | none ↦ (t, not_credentials checked)
        | some (username, password) ↦
            let (t₁, result) =
              register_user repository digests ttl username password (hash password) drawn now now'
                t in
            (t₁, answer_registration before_1970 config result now'' checked)
      ]

  unfoldable pub login_with :
      Option (Bytes × Bytes) → Option Bytes → ℤ → ℤ → HttpResponse → T → T × HttpResponse
  login_with none drawn now now' r t = (t, not_credentials r)
  login_with (some (username, password)) drawn now now' r t =
      let (t₁, result) = login repository digests ttl username password drawn now t in
      (t₁, answer_login before_1970 config result.status result.session now' r)

  unfoldable pub handle_login :
      HttpRequest → Option Bytes → ℤ → ℤ → HttpResponse → T → T × HttpResponse
  handle_login request drawn now now' r t =
      let (checked, same) = require_same_origin_request request (no_store r) in
      if not same
      then (t, checked)
      else login_with (parse_credentials json request) drawn now now' checked t

  unfoldable pub authenticate_request : HttpRequest → ℤ → T → Option User
  authenticate_request request now t =
      let token = session_token_from_request config request in
      if is_empty token then none else authenticate repository digests ttl token now t

  -- The response, and the user if the handler goes on.
  unfoldable pub require_authenticated_user :
      HttpRequest → ℤ → HttpResponse → T → HttpResponse × Option User
  require_authenticated_user request now r t = require_found r (authenticate_request request now t)

  -- DELETE /api/auth/session
  unfoldable pub handle_logout : HttpRequest → ℤ → HttpResponse → T → T × HttpResponse
  handle_logout request now r t =
      let (checked, same) = require_same_origin_request request (no_store r) in
      let token = session_token_from_request config request in
      if not same then (t, checked) else (
        logout repository digests ttl token now t,
        record (set_content_length 0 (
            set_status HttpStatusCode.no_content (codes "No Content")
              (clear_session_cookie config checked))) { body = [] },
      )

  -- GET /api/me
  unfoldable pub handle_me : HttpRequest → ℤ → HttpResponse → T → HttpResponse
  handle_me request now r t =
      let (checked, found) = require_authenticated_user request now r t in
      elim found [
        | none ↦ checked
        | some user ↦
            set_json_body (user_json before_1970 user)
              (set_status HttpStatusCode.ok (codes "OK") (no_store checked))
      ]
