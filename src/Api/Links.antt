-- ===== src/Api/Links.antt =====
-- apps/shortlink_server: the handlers of src/ShortLinkHttpApi.cpp for links, over any repository. The
-- counters of the handlers are apart from those that the repository's state may hold.
pub mod Ownership
pub mod Limited
pub mod Window
pub mod Creations
pub mod Asked
pub mod Pages
use hao_short_link.Prelude.{
  Bool, Bytes, List, Option, [], bytes_eq, codes, false, if◌then◌else◌, length, ltb, map, nat_eq,
  none, not, some, suc, take, true, ℕ, ◌++◌, ◌∷◌,
}
use hao_short_link.Prelude.Int.{int_eq, ℤ}
use hao_short_link.Prelude.Map.{pair_eq}
use hao_short_link.Api.Json.{
  HandlerReply, JsonValues, format_time, left_with, null_or, replied, set_json,
}
use hao_short_link.Api.Limiter.{LimitResult, LimitStatus}
use hao_short_link.Api.Reading.{
  Reading, accepted, parse_object, read_change, read_creation, read_list_query, rejected,
}
use hao_short_link.Decimal.{int_to_string}
use hao_short_link.Http.Request.{HttpRequest, get_path_parameters}
use hao_short_link.Http.Response.{
  HttpResponse, HttpStatusCode, add_response_header, set_error_response, set_status,
}
use hao_short_link.ShortLink.Metrics.{
  Backend, BackendOperation, CreateResult, RateLimitResult, ShortLinkMetrics, Storage,
  record_backend_error, record_create, record_rate_limit,
}
use hao_short_link.ShortLink.Record.{
  LifecycleUpdate, ListQuery, Outcome, ShortLinkRecord, backend_failure, returned,
  short_code_conflict, status_to_string,
}
use hao_short_link.ShortLink.Repository.{ShortLinkRepository}
use hao_short_link.ShortLink.Service.{
  CreatedLink, create_short_link, get_for_owner, list_owned, update_link_lifecycle,
}

abbrev pub bad_request : Bytes → Bytes → HttpResponse → HandlerReply
bad_request error_code message r =
    replied (set_error_response HttpStatusCode.bad_request error_code message r)

abbrev pub link_not_found : HttpResponse → HandlerReply
link_not_found r = replied (
    set_error_response HttpStatusCode.not_found (codes "short_link_not_found")
      (codes "Short link not found") r)

-- `records.back().id`
unfoldable pub back_id : List ShortLinkRecord → Option ℕ
back_id [] = none
back_id (r ∷ records) = elim (back_id records) [ none ↦ some r.id | some id ↦ some id ]

-- The label of an answer that is printed, or of the exception of the printer.
abbrev pub label_reply : HandlerReply → CreateResult × HandlerReply
label_reply (left_with r) = (CreateResult.error, left_with r)
label_reply (replied r) = (CreateResult.success, replied r)

module _ {J : Type 0} (json : JsonValues J) (before_1970 : ℕ → Bytes) where
  unfoldable pub record_json : ShortLinkRecord → J
  record_json r = json.object (
      (codes "id", json.number r.id)
      ∷ (codes "code", json.text r.code)
      ∷ (codes "short_url", json.text (codes "/s/" ++ r.code))
      ∷ (codes "original_url", json.text r.original_url)
      ∷ (codes "status", json.text (status_to_string r.status))
      ∷ (codes "expires_at", null_or json (λ e. json.text (format_time before_1970 e)) r.expires_at)
      ∷ (codes "created_at", json.text (format_time before_1970 r.created_at))
      ∷ (codes "updated_at", json.text (format_time before_1970 r.updated_at))
      ∷ [])

  unfoldable pub page_json : List ShortLinkRecord → Option ℕ → J
  page_json records next_cursor = json.object (
      (codes "items", json.array (map record_json records))
      ∷ (codes "next_cursor", null_or json json.number next_cursor)
      ∷ [])

  -- The answer to the records that were fetched, one more than the page may hold.
  unfoldable pub answer_page : ℕ → List ShortLinkRecord → HttpResponse → HandlerReply
  answer_page requested_limit records r =
      let has_more = ltb requested_limit (length records) in
      let page = if has_more then take requested_limit records else records in
      set_json json HttpStatusCode.ok (codes "OK")
        (page_json page (if has_more then back_id page else none)) r

  unfoldable pub answer_link : Outcome (Option ShortLinkRecord) → HttpResponse → HandlerReply
  answer_link (returned none) r = link_not_found r
  answer_link (returned (some link)) r =
      set_json json HttpStatusCode.ok (codes "OK") (record_json link) r
  answer_link short_code_conflict r = left_with r
  answer_link backend_failure r = left_with r

  unfoldable pub refuse_creation : Option Bytes → HttpResponse → HandlerReply
  refuse_creation none r =
      bad_request (codes "invalid_url")
        (codes "URL must start with http:// or https:// and expiry must be future") r
  refuse_creation (some custom_code) r =
      bad_request (codes "invalid_custom_code")
        (codes "custom_code must contain 4-32 allowed characters") r

  -- The `try` block: the answer, and the label that is counted.
  unfoldable pub answer_creation :
      Option Bytes → Outcome (Option CreatedLink) → HttpResponse → CreateResult × HandlerReply
  answer_creation custom_code (returned none) r =
      (CreateResult.invalid, refuse_creation custom_code r)
  answer_creation custom_code (returned (some created)) r =
      label_reply
        (set_json json HttpStatusCode.created (codes "Created") (record_json created.link) r)
  answer_creation custom_code short_code_conflict r = (
    CreateResult.invalid,
    replied (
        set_error_response HttpStatusCode.conflict (codes "short_code_conflict")
          (codes "Short code already exists") r),
  )
  answer_creation custom_code backend_failure r = (CreateResult.error, left_with r)

abbrev pub code_of : HttpRequest → Bytes
code_of = get_path_parameters (codes "param1")

-- The rate limit in front of a creation: the counters, the response, and whether it goes on.
unfoldable pub limit_create :
    Option LimitResult → ShortLinkMetrics → HttpResponse → ShortLinkMetrics × HttpResponse × Bool
limit_create none m r = (m, r, true)
limit_create (some result) m r = elim result.status [
  | LimitStatus.allowed ↦ (record_rate_limit RateLimitResult.allowed m, r, true)
  | LimitStatus.limited ↦ (
    record_rate_limit RateLimitResult.limited m,
    set_status HttpStatusCode.too_many_requests (codes "Too Many Requests") (
        set_error_response HttpStatusCode.too_many_requests (codes "rate_limit_exceeded")
          (codes "Too many requests")
          (add_response_header (codes "Retry-After") (int_to_string result.retry_after_seconds) r)),
    false,
  )
  | LimitStatus.error ↦ (
    record_backend_error Backend.redis BackendOperation.rate_limit
        (record_rate_limit RateLimitResult.error m),
    r,
    true,
  )
]

module _ {T J : Type 0} (repository : ShortLinkRepository T) (json : JsonValues J)
    (before_1970 : ℕ → Bytes) where
  -- The creation that a request asks for; the clock is read by the service and by the repository.
  unfoldable pub create_read :
      Reading (Bytes × Option ℤ × Option Bytes)
      → ℕ
      → ℤ
      → ℤ
      → HttpResponse
      → T
      → T × CreateResult × HandlerReply
  create_read (rejected e m) owner_id now now' r t = (t, CreateResult.invalid, bad_request e m r)
  create_read (accepted (url, expires_at, custom_code)) owner_id now now' r t =
      let (t₁, out) = create_short_link repository url expires_at owner_id custom_code now now' t in
      let (label, reply) = answer_creation json before_1970 custom_code out r in (t₁, label, reply)

  -- Behind the rate limit, the handler reads the clock, too.
  unfoldable pub create_from :
      HttpRequest → ℕ → ℤ → ℤ → ℤ → HttpResponse → T → T × CreateResult × HandlerReply
  create_from request owner_id now now' now'' r t =
      create_read (read_creation json now (parse_object json request)) owner_id now' now'' r t

  unfoldable pub handle_create :
      HttpRequest
      → Option LimitResult
      → Storage
      → ℕ
      → ℤ
      → ℤ
      → ℤ
      → HttpResponse
      → ShortLinkMetrics
      → T
      → T × ShortLinkMetrics × HandlerReply
  handle_create request limit storage owner_id now now' now'' r m t =
      let (m₁, r₁, goes_on) = limit_create limit m r in
      let (t₁, result, reply) = create_from request owner_id now now' now'' r₁ t in
      if not goes_on then (t, m₁, replied r₁) else (t₁, record_create result storage m₁, reply)

  unfoldable pub handle_detail : HttpRequest → ℕ → HttpResponse → T → T × HandlerReply
  handle_detail request owner_id r t =
      let (t₁, out) = get_for_owner repository (code_of request) owner_id t in
      (t₁, answer_link json before_1970 out r)

  unfoldable pub answer_list : Reading ListQuery → HttpResponse → T → T × HandlerReply
  answer_list (rejected e m) r t = (t, bad_request e m r)
  answer_list (accepted query) r t =
      let (t₁, out) = list_owned repository (record query { limit = suc query.limit }) t in
      (
        t₁,
        elim out as (λ _. HandlerReply) [
          | returned records ↦ answer_page json before_1970 query.limit records r
          | short_code_conflict ↦ left_with r
          | backend_failure ↦ left_with r
        ],
      )

  unfoldable pub handle_list : HttpRequest → ℕ → HttpResponse → T → T × HandlerReply
  handle_list request owner_id r t = answer_list (read_list_query owner_id request) r t

  unfoldable pub answer_update :
      Bytes → Reading LifecycleUpdate → ℤ → HttpResponse → T → T × HandlerReply
  answer_update code (rejected e m) now r t = (t, bad_request e m r)
  answer_update code (accepted update) now r t =
      let (t₁, out) = update_link_lifecycle repository code update now t in
      (t₁, answer_link json before_1970 out r)

  unfoldable pub handle_update : HttpRequest → ℕ → ℤ → HttpResponse → T → T × HandlerReply
  handle_update request owner_id now r t =
      answer_update (code_of request) (read_change json owner_id (parse_object json request)) now r
        t
