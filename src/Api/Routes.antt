-- ===== src/Api/Routes.antt =====
-- apps/shortlink_server: the routes of `registerShortLinkHttpApi` in src/ShortLinkHttpApi.cpp, as
-- what each does with a request that the router has matched, with the guards in front of the handlers.
-- The state is that of the two repositories, which a client of this module chooses.
pub mod Guards
pub mod Protection
use hao_short_link.Prelude.{
  Bool, Bytes, Option, [], bytes_eq, codes, if◌then◌else◌, nat_eq, none, not, some, ℕ, ◌||◌, ◌∷◌,
}
use hao_short_link.Prelude.Int.{int_eq, ℤ}
use hao_short_link.Prelude.Map.{pair_eq}
use hao_short_link.Access.Statistics.{AccessStatisticsQuery}
use hao_short_link.Account.Repository.{AuthRepository, User}
use hao_short_link.Account.Service.{Digests, refuse}
use hao_short_link.Api.Auth.{AuthHttpConfig, require_authenticated_user}
use hao_short_link.Api.Json.{HandlerReply, JsonValues, replied, set_json}
use hao_short_link.Api.Limiter.{LimitResult}
use hao_short_link.Api.Links.{handle_create, handle_detail, handle_list, handle_update}
use hao_short_link.Api.Origin.{require_same_origin_request}
use hao_short_link.Api.Statistics.{AccessStatisticsSnapshot, handle_statistics}
use hao_short_link.Http.Request.{HttpRequest}
use hao_short_link.Http.Response.{HttpResponse, HttpStatusCode, add_response_header}
use hao_short_link.ShortLink.Metrics.{ShortLinkMetrics, Storage}
use hao_short_link.ShortLink.Record.{Outcome}
use hao_short_link.ShortLink.Repository.{ShortLinkRepository}

unfoldable pub handle_health : {J : Type 0} → JsonValues J → HttpResponse → HandlerReply
handle_health json r =
    set_json json HttpStatusCode.ok (codes "OK")
      (json.object ((codes "status", json.text (codes "ok")) ∷ [])) r

-- `is_healthy` is the answer of the pool of connections.
unfoldable pub handle_readiness :
    {J : Type 0} → JsonValues J → Bool → Bool → HttpResponse → HandlerReply
handle_readiness json requires_mysql is_healthy r =
    if not requires_mysql || is_healthy
    then set_json json HttpStatusCode.ok (codes "OK")
        (json.object ((codes "status", json.text (codes "ready")) ∷ [])) r
    else set_json json HttpStatusCode.service_unavailable (codes "Service Unavailable")
        (json.object ((codes "status", json.text (codes "not_ready")) ∷ [])) r

unfoldable pub mark_found : HttpResponse × Option User → HttpResponse × Option User
mark_found (r, none) = (r, none)
mark_found (r, some user) =
    (add_response_header (codes "Cache-Control") (codes "no-store") r, some user)

-- The handler, if there is a user.
abbrev pub go_on {ℓ} :
    {B : Type ℓ} → (HttpResponse → B) → (User → HttpResponse → B) → HttpResponse × Option User → B
go_on refuse handler (r, none) = refuse r
go_on refuse handler (r, some user) = handler user r

module _ {A T J : Type 0} (accounts : AuthRepository A) (digests : Digests) (ttl : ℤ)
    (repository : ShortLinkRepository T) (json : JsonValues J) (config : AuthHttpConfig)
    (before_1970 : ℕ → Bytes) where
  -- The response, and the user if the handler goes on.
  unfoldable pub authenticate_user : HttpRequest → ℤ → HttpResponse → A → HttpResponse × Option User
  authenticate_user request now r a =
      mark_found
        (require_authenticated_user accounts digests ttl json config before_1970 request now r a)

  -- A handler behind the check of the session, as GET routes have it.
  unfoldable pub with_user {ℓ} :
      {B : Type ℓ}
      → HttpRequest
      → ℤ
      → HttpResponse
      → A
      → (HttpResponse → B)
      → (User → HttpResponse → B)
      → B
  with_user request now r a refuse handler =
      go_on refuse handler (authenticate_user request now r a)

  -- A handler behind the check of the origin, too, as the routes that change something have it.
  unfoldable pub with_origin_and_user {ℓ} :
      {B : Type ℓ}
      → HttpRequest
      → ℤ
      → HttpResponse
      → A
      → (HttpResponse → B)
      → (User → HttpResponse → B)
      → B
  with_origin_and_user request now r a refuse handler =
      let (checked, same) = require_same_origin_request request r in
      let guarded = with_user request now checked a refuse handler in
      if same then guarded else refuse checked

  -- POST /api/short-links
  unfoldable pub post_link :
      HttpRequest
      → Option LimitResult
      → Storage
      → ℤ
      → ℤ
      → ℤ
      → ℤ
      → HttpResponse
      → ShortLinkMetrics
      → A × T
      → T × ShortLinkMetrics × HandlerReply
  post_link request limit storage now₀ now now' now'' r m (a, t) =
      with_origin_and_user request now₀ r a (λ refused. (t, m, replied refused))
        (λ user checked.
          handle_create repository json before_1970 request limit storage user.id now now' now''
            checked m t)

  -- GET /api/short-links
  unfoldable pub get_links : HttpRequest → ℤ → HttpResponse → A × T → T × HandlerReply
  get_links request now r (a, t) =
      with_user request now r a (λ refused. (t, replied refused))
        (λ user checked. handle_list repository json before_1970 request user.id checked t)

  -- GET /api/short-links/:code
  unfoldable pub get_link_detail : HttpRequest → ℤ → HttpResponse → A × T → T × HandlerReply
  get_link_detail request now r (a, t) =
      with_user request now r a (λ refused. (t, replied refused))
        (λ user checked. handle_detail repository json before_1970 request user.id checked t)

  -- PUT /api/short-links/:code
  unfoldable pub put_link : HttpRequest → ℤ → ℤ → HttpResponse → A × T → T × HandlerReply
  put_link request now now' r (a, t) =
      with_origin_and_user request now r a (λ refused. (t, replied refused))
        (λ user checked. handle_update repository json before_1970 request user.id now' checked t)

  -- GET /api/short-links/:code/statistics
  unfoldable pub get_statistics :
      (Bytes → AccessStatisticsQuery → Outcome (Option AccessStatisticsSnapshot))
      → HttpRequest
      → ℤ
      → ℕ
      → HttpResponse
      → A × T
      → T × HandlerReply
  get_statistics statistics request now now' r (a, t) =
      with_user request now r a (λ refused. (t, replied refused))
        (λ user checked.
          handle_statistics repository statistics json before_1970 request user.id now' checked t)
