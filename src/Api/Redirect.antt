-- ===== src/Api/Redirect.antt =====
-- apps/shortlink_server: src/RedirectHandler.cpp. Publishing an event never throws; the events that
-- are published are in a list, the latest first. Where the drawing of an event's id throws, none is
-- published.
pub mod Events
use hao_short_link.Prelude.{Bytes, List, Option, bytes_eq, codes, nat_eq, none, some, ◌∷◌}
use hao_short_link.Prelude.Int.{int_eq, pos, ℤ}
use hao_short_link.Prelude.Map.{pair_eq}
use hao_short_link.Access.Event.{AccessEvent, AccessEventResult}
use hao_short_link.Api.Json.{HandlerReply, left_with, replied}
use hao_short_link.Api.Links.{code_of}
use hao_short_link.Http.Request.{HttpRequest}
use hao_short_link.Http.Response.{HttpResponse, HttpStatusCode, set_error_response, set_redirect}
use hao_short_link.ShortLink.Metrics.{ShortLinkMetrics}
use hao_short_link.ShortLink.Record.{Outcome, backend_failure, returned, short_code_conflict}
use hao_short_link.ShortLink.Repository.{ShortLinkRepository}
use hao_short_link.ShortLink.Service.{RedirectResult, RedirectStatus, resolve}

unfoldable pub publish_access_event :
    Option Bytes
    → ℤ
    → HttpRequest
    → Bytes
    → AccessEventResult
    → ℤ
    → List AccessEvent
    → List AccessEvent
publish_access_event none now_ms request code result http_status events = events
publish_access_event (some event_id) now_ms request code result http_status events =
    record {
      event_id = event_id;
      occurred_at_ms = now_ms;
      request_id = request.request_id;
      code = code;
      result = result;
      http_status = http_status;
    }
    ∷ events

unfoldable pub event_of : RedirectStatus → AccessEventResult × ℤ
event_of RedirectStatus.success = (AccessEventResult.success, pos 302)
event_of RedirectStatus.disabled = (AccessEventResult.disabled, pos 404)
event_of RedirectStatus.expired = (AccessEventResult.expired, pos 404)
event_of RedirectStatus.not_found = (AccessEventResult.not_found, pos 404)

-- `*result.originalUrl`; a success has it.
unfoldable pub answer_redirect : RedirectResult → HttpResponse → HttpResponse
answer_redirect result r =
    let not_found =
      set_error_response HttpStatusCode.not_found (codes "short_link_not_found")
        (codes "Short link not found") r in
    elim result.status [
      | RedirectStatus.success ↦ elim result.original_url [
        | some url ↦ set_redirect url r
        | none ↦ r
      ]
      | RedirectStatus.not_found ↦ not_found
      | RedirectStatus.disabled ↦ not_found
      | RedirectStatus.expired ↦ not_found
    ]

-- What follows the lookup: the events, and the reply.
unfoldable pub settle_redirect :
    HttpRequest
    → Option Bytes
    → ℤ
    → HttpResponse
    → List AccessEvent
    → Outcome RedirectResult
    → List AccessEvent × HandlerReply
settle_redirect request event_id now_ms r events (returned res) = (
  publish_access_event event_id now_ms request (code_of request) (event_of res.status).0
      (event_of res.status).1 events,
  replied (answer_redirect res r),
)
settle_redirect request event_id now_ms r events short_code_conflict = (
  publish_access_event event_id now_ms request (code_of request) AccessEventResult.error (pos 500)
      events,
  left_with r,
)
settle_redirect request event_id now_ms r events backend_failure = (
  publish_access_event event_id now_ms request (code_of request) AccessEventResult.error (pos 500)
      events,
  left_with r,
)

module _ {T : Type 0} (repository : ShortLinkRepository T) where
  -- The clock is read twice by the service, and once for the event. `event_id` is the drawn id.
  unfoldable pub handle_redirect :
      HttpRequest
      → Option Bytes
      → ℤ
      → ℤ
      → ℤ
      → HttpResponse
      → Option ShortLinkMetrics
      → List AccessEvent
      → T
      → T × Option ShortLinkMetrics × List AccessEvent × HandlerReply
  handle_redirect request event_id now now' now_ms r m events t =
      let (t₁, m₁, out) = resolve repository (code_of request) now now' t m in
      let (events₁, reply) = settle_redirect request event_id now_ms r events out in
      (t₁, m₁, events₁, reply)
