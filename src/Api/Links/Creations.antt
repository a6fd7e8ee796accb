-- ===== src/Api/Links/Creations.antt =====
-- What `handleCreate` of src/ShortLinkHttpApi.cpp counts, and what it leaves.
use hao_short_link.Prelude.{Bytes, Option, [], bytes_eq, nat_eq, none, some, ℕ, ◌++◌, ◌∷◌, ◌≡◌, ◌⊎◌}
use hao_short_link.Prelude.Int.{int_eq, ℤ}
use hao_short_link.Prelude.Map.{pair_eq}
use hao_short_link.Api.Json.{HandlerReply, JsonValues, left_with, replied}
use hao_short_link.Api.Limiter.{LimitResult}
use hao_short_link.Api.Links.{record_json}
use hao_short_link.Api.Links.Limited.{limit_series}
use hao_short_link.Api.Reading.{Reading, accepted, rejected}
use hao_short_link.Http.Response.{HttpResponse, HttpStatusCode}
use hao_short_link.ShortLink.Metrics.{CreateResult, RateLimitResult, ShortLinkMetrics, Storage}
use hao_short_link.ShortLink.Metrics.Counts.{Series, count}
use hao_short_link.ShortLink.Metrics.Several.{bumped}
use hao_short_link.ShortLink.Record.{
  Outcome, ShortLinkRecord, backend_failure, returned, short_code_conflict,
}
use hao_short_link.ShortLink.Repository.{IsRepository, ShortLinkRepository}
use hao_short_link.ShortLink.Service.{CreatedLink, create_short_link}

-- The answer that goes with a label.
abbrev pub GoesWith : CreateResult → HandlerReply → Type 0
GoesWith CreateResult.success reply =
    (r : HttpResponse) × (reply ≡ replied r) × (r.status_code ≡ HttpStatusCode.created)
GoesWith CreateResult.invalid reply =
    (r : HttpResponse) × (reply ≡ replied r)
    × ((r.status_code ≡ HttpStatusCode.bad_request) ⊎ (r.status_code ≡ HttpStatusCode.conflict))
GoesWith CreateResult.error reply = (r : HttpResponse) × (reply ≡ left_with r)

module _ {J : Type 0} (json : JsonValues J) (before_1970 : ℕ → Bytes) where
  -- The label of what the service answers; the answer to a creation may fail to be printed.
  abbrev pub Labels : Outcome (Option CreatedLink) → CreateResult → Type 0
  Labels (returned none) label = label ≡ CreateResult.invalid
  Labels (returned (some created)) label =
      (label ≡ CreateResult.success)
      ⊎ ((label ≡ CreateResult.error)
          × (json.dump (record_json json before_1970 created.link) ≡ none))
  Labels short_code_conflict label = label ≡ CreateResult.invalid
  Labels backend_failure label = label ≡ CreateResult.error

module _ {T J : Type 0} (repository : ShortLinkRepository T) (Valid : T → Type 0)
    (links_of : T → Bytes → Option ShortLinkRecord)
    (contract : IsRepository repository Valid links_of) (json : JsonValues J)
    (before_1970 : ℕ → Bytes) where
  -- The creation that was asked for is done, and labelled by what the service made of it; nothing is
  -- done where the request was refused.
  abbrev pub DoneAs :
      Reading (Bytes × Option ℤ × Option Bytes) → ℕ → ℤ → ℤ → T → T → CreateResult → Type 0
  DoneAs (rejected e message) owner_id now now' t after label =
      (after ≡ t) × (label ≡ CreateResult.invalid)
  DoneAs (accepted (url, expires_at, custom)) owner_id now now' t after label =
      let made = create_short_link repository url expires_at owner_id custom now now' t in
      (after ≡ made.0) × Labels json before_1970 made.1 label

  -- What a creation that the rate limit lets pass comes to.
  pub record Settles (t : T) (m : ShortLinkMetrics) (limit : Option LimitResult) (storage : Storage)
      (asked : Reading (Bytes × Option ℤ × Option Bytes)) (owner_id : ℕ) (now now' : ℤ)
      (done : T × ShortLinkMetrics × HandlerReply) : Type 0 where
    pub label : CreateResult
    pub counted :
        (s : Series)
        → count s done.1
          ≡ bumped (limit_series limit ++ (Series.creates label storage ∷ [])) s (count s m)
    pub answered_so : GoesWith label done.2
    pub done_as : DoneAs asked owner_id now now' t done.0 label
    pub keeps :
        (code : Bytes) (link : ShortLinkRecord)
        → links_of t code ≡ some link
        → links_of done.0 code ≡ some link

  -- What a creation that the rate limit stops comes to.
  pub record Stopped (t : T) (m : ShortLinkMetrics) (done : T × ShortLinkMetrics × HandlerReply)
      : Type 0 where
    pub same : done.0 ≡ t
    pub counted :
        (s : Series)
        → count s done.1 ≡ bumped (Series.rate_limits RateLimitResult.limited ∷ []) s (count s m)
    pub response : HttpResponse
    pub answered_so : done.2 ≡ replied response
    pub too_many : response.status_code ≡ HttpStatusCode.too_many_requests
