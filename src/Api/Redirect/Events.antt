-- ===== src/Api/Redirect/Events.antt =====
-- The access event of a redirect, next to the answer of src/RedirectHandler.cpp.
-- The status line of a reply; the server answers an exception with 500.
use hao_short_link.Prelude.{
  Bool-cases, Bytes, List, Option, ap, arith, bytes_eq, inl, inr, nat_eq, none, refl, some, sym, ℕ,
  ◌↔◌, ◌∙◌, ◌∷◌, ◌≡◌, ◌≢◌, ◌⊎◌,
}
use hao_short_link.Prelude.Int.{int_eq, pos, ℤ}
use hao_short_link.Prelude.Map.{pair_eq}
use hao_short_link.Access.Event.{AccessEvent, AccessEventResult, expected_http_status}
use hao_short_link.Api.Json.{HandlerReply, left_with, replied}
use hao_short_link.Api.Links.{code_of, link_not_found}
use hao_short_link.Api.Redirect.{
  answer_redirect, event_of, handle_redirect, publish_access_event, settle_redirect,
}
use hao_short_link.Http.Request.{HttpRequest}
use hao_short_link.Http.Response.{
  HttpResponse, add_response_header, set_content_length, set_content_type, set_error_response,
  set_json_body, set_redirect, status_number,
}
use hao_short_link.ShortLink.Metrics.{ShortLinkMetrics}
use hao_short_link.ShortLink.Record.{
  LookupResult, Outcome, ShortLinkRecord, Status, backend_failure, returned, returned-injective,
  short_code_conflict, status_beq,
}
use hao_short_link.ShortLink.Repository.{IsRepository, ShortLinkRepository}
use hao_short_link.ShortLink.Service.{
  RedirectResult, RedirectStatus, finish, is_expired, judge, resolve,
}
use hao_short_link.ShortLink.Service.Redirects.{Redirects, resolve-Redirects}
use mathlib.Core.Option.{none-ne-some}
use mathlib.Core.Path.{subst}

abbrev pub reply_number : HandlerReply → ℕ
reply_number (replied r) = status_number r.status_code
reply_number (left_with r) = 500

-- A target is there with a success only.
abbrev Shaped : RedirectResult → Type 0
Shaped res =
    ((res.status ≡ RedirectStatus.success) × (url : Bytes) × (res.original_url ≡ some url))
    ⊎ ((res.status ≢ RedirectStatus.success) × (res.original_url ≡ none))

judge-Shaped : (found : Option ShortLinkRecord) (now : ℤ) → Shaped (judge found now).0
unfolding judge
judge-Shaped none now = inr ((λ e. cc), refl)
judge-Shaped (some r) now = elim (Bool-cases (status_beq r.status Status.disabled)) [
  | inl e ↦ rw e (inr ((λ f. cc), refl))
  | inr e ↦ rw e (elim (Bool-cases (is_expired r now)) [
    | inl f ↦ rw f (inr ((λ g. cc), refl))
    | inr f ↦ rw f (inl (refl, r.original_url, refl))
  ])
]

-- The event of a result, with the status that goes with it.
abbrev pub event_now : HttpRequest → Bytes → ℤ → AccessEventResult → AccessEvent
event_now request event_id now_ms result = record {
  event_id = event_id;
  occurred_at_ms = now_ms;
  request_id = request.request_id;
  code = code_of request;
  result = result;
  http_status = expected_http_status result;
}

-- What the result of an event tells of the link and of the reply.
pub record Told (link : Option ShortLinkRecord) (now : ℤ) (r : HttpResponse) (reply : HandlerReply)
    (result : AccessEventResult) : Type 0 where
  pub same_status : pos (reply_number reply) ≡ expected_http_status result
  pub redirects :
      result ≡ AccessEventResult.success
      → (url : Bytes) × Redirects link now url × (reply ≡ replied (set_redirect url r))
  pub refuses :
      result ≢ AccessEventResult.success
      → result ≢ AccessEventResult.error
      → (url : Bytes) → Redirects link now url
      → ⊥

number_of_redirect :
    (url : Bytes) (r : HttpResponse) → reply_number (replied (set_redirect url r)) ≡ 302
unfolding set_redirect set_content_length add_response_header
number_of_redirect url r = refl

not_found_reply : (r : HttpResponse) → reply_number (link_not_found r) ≡ 404
unfolding set_error_response set_json_body set_content_type set_content_length add_response_header
not_found_reply r = refl

untargeted :
    (status : RedirectStatus) (url : Option Bytes)
    → status ≢ RedirectStatus.success
    → Shaped (record { status = status; original_url = url })
    → url ≡ none
untargeted status url bad (inl (e, _, _)) = absurd (bad e)
untargeted status url bad (inr (_, e)) = e

refused-Told :
    (link : Option ShortLinkRecord) (now : ℤ) (url : Option Bytes) (r : HttpResponse)
    (result : AccessEventResult)
    → url ≡ none
    → ((other : Bytes) → (url ≡ some other) ↔ Redirects link now other)
    → result ≢ AccessEventResult.success
    → pos 404 ≡ expected_http_status result
    → Told link now r (link_not_found r) result
refused-Told link now url r result gone targets bad e = record {
  same_status = ap pos (not_found_reply r) ∙ e;
  redirects = λ good. absurd (bad good);
  refuses = λ no wrong other h. none-ne-some other (sym gone ∙ (targets other).1 h);
}

-- The event and the answer of a lookup that did not throw.
answer_redirect-Told :
    (link : Option ShortLinkRecord) (now : ℤ) (status : RedirectStatus) (url : Option Bytes)
    (r : HttpResponse)
    → Shaped (record { status = status; original_url = url })
    → ((other : Bytes) → (url ≡ some other) ↔ Redirects link now other)
    → let res : RedirectResult = record { status = status; original_url = url } in
      ((event_of status).1 ≡ expected_http_status (event_of status).0)
      × Told link now r (replied (answer_redirect res r)) (event_of status).0
unfolding answer_redirect event_of expected_http_status
answer_redirect-Told link now RedirectStatus.success none r h targets = absurd (shape h)
  where
    shape : Shaped (record { status = RedirectStatus.success; original_url = none }) → ⊥
    shape (inl (e, url, here)) = none-ne-some url here
    shape (inr (bad, e)) = bad refl
answer_redirect-Told link now RedirectStatus.success (some url) r h targets = (
  refl,
  record {
    same_status = ap pos (number_of_redirect url r);
    redirects = λ e. (url, (targets url).0 refl, refl);
    refuses = λ no wrong other here. absurd (no refl);
  },
)
answer_redirect-Told link now RedirectStatus.not_found url r h targets =
    (refl, refused-Told link now url r _ (untargeted _ url (λ e. cc) h) targets (λ e. cc) refl)
answer_redirect-Told link now RedirectStatus.disabled url r h targets =
    (refl, refused-Told link now url r _ (untargeted _ url (λ e. cc) h) targets (λ e. cc) refl)
answer_redirect-Told link now RedirectStatus.expired url r h targets =
    (refl, refused-Told link now url r _ (untargeted _ url (λ e. cc) h) targets (λ e. cc) refl)

-- An exception.
failed-Told :
    (link : Option ShortLinkRecord) (now : ℤ) (r : HttpResponse)
    → Told link now r (left_with r) AccessEventResult.error
unfolding expected_http_status
failed-Told link now r = record {
  same_status = refl;
  redirects = λ e. cc;
  refuses = λ no wrong url h. absurd (wrong refl);
}

module _ {T : Type 0} (repository : ShortLinkRepository T) (Valid : T → Type 0)
    (links_of : T → Bytes → Option ShortLinkRecord)
    (contract : IsRepository repository Valid links_of) where
  finish-Shaped :
      (out : Outcome LookupResult) (now : ℤ) (m : Option ShortLinkMetrics) (res : RedirectResult)
      → (finish repository out now m).1 ≡ returned res
      → Shaped res
  unfolding finish
  finish-Shaped (returned found) now m res e =
      subst Shaped (returned-injective _ _ e) (judge-Shaped found.found now)
  finish-Shaped short_code_conflict now m res e = ground arith
  finish-Shaped backend_failure now m res e = ground arith

  settle_redirect-Told :
      (request : HttpRequest) (event_id : Bytes) (now' now_ms : ℤ) (r : HttpResponse)
      (events : List AccessEvent) (link : Option ShortLinkRecord) (out : Outcome RedirectResult)
      → ((res : RedirectResult)
          → out ≡ returned res
          → Shaped res × ((url : Bytes) → (res.original_url ≡ some url) ↔ Redirects link now' url))
      → let done = settle_redirect request (some event_id) now_ms r events out in
        (result : AccessEventResult) × (done.0 ≡ event_now request event_id now_ms result ∷ events)
        × Told link now' r done.1 result
  unfolding settle_redirect publish_access_event expected_http_status
  settle_redirect-Told request event_id now' now_ms r events link (returned res) h =
      let (shaped, targets) = h res refl in
      let (same, tells) =
        answer_redirect-Told link now' res.status res.original_url r shaped targets in
      (
        (event_of res.status).0,
        ap
            (λ (n : ℤ).
              publish_access_event (some event_id) now_ms request (code_of request)
                (event_of res.status).0 n events)
            same,
        tells,
      )
  settle_redirect-Told request event_id now' now_ms r events link short_code_conflict h =
      (AccessEventResult.error, refl, failed-Told link now' r)
  settle_redirect-Told request event_id now' now_ms r events link backend_failure h =
      (AccessEventResult.error, refl, failed-Told link now' r)

  -- Over a repository that keeps its contract, a redirect for which an id is drawn publishes one
  -- event, with that id, the request's id, the code and the clock. Its HTTP status is the one that its
  -- result allows and that the client is answered with. It tells a success only if the client is sent
  -- to the target of an active link that is not over, and unless the lookup failed no such link is
  -- refused.
  pub handle_redirect-Told :
      (request : HttpRequest) (event_id : Bytes) (now now' now_ms : ℤ) (r : HttpResponse)
      (m : Option ShortLinkMetrics) (events : List AccessEvent) (t : T)
      → Valid t
      → let done =
          handle_redirect repository request (some event_id) now now' now_ms r m events t in
        (result : AccessEventResult) × (done.2 ≡ event_now request event_id now_ms result ∷ events)
        × Told (links_of t (code_of request)) now' r done.3 result
  unfolding handle_redirect resolve
  handle_redirect-Told request event_id now now' now_ms r m events t valid =
      settle_redirect-Told request event_id now' now_ms r events _
        (resolve repository (code_of request) now now' t m).2
        (λ res e. (
          finish-Shaped _ now' m res e,
          resolve-Redirects repository Valid links_of contract (code_of request) now now' t m res
              valid e,
        ))
