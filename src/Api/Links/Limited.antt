-- ===== src/Api/Links/Limited.antt =====
-- What the rate limit in front of `handleCreate` of src/ShortLinkHttpApi.cpp counts and lets pass.
use hao_short_link.Prelude.{
  Bool, List, Option, [], ap, arith, bytes_eq, false, nat_eq, none, not, refl, some, sym, true,
  ◌++◌, ◌∙◌, ◌∷◌, ◌≡◌,
}
use hao_short_link.Prelude.Int.{int_eq}
use hao_short_link.Prelude.Map.{pair_eq}
use hao_short_link.Api.Limiter.{LimitResult, LimitStatus}
use hao_short_link.Api.Links.{limit_create}
use hao_short_link.Http.Response.{HttpResponse, HttpStatusCode}
use hao_short_link.ShortLink.Metrics.{
  Backend, BackendOperation, CreateResult, RateLimitResult, ShortLinkMetrics, Storage,
  record_create,
}
use hao_short_link.ShortLink.Metrics.Counts.{Series, WellSized, count, record_series}
use hao_short_link.ShortLink.Metrics.Several.{bumped, count-record_all, record_all, record_all-snoc}

abbrev pub is_limited : Option LimitResult → Bool
is_limited none = false
is_limited (some result) = elim result.status [
  | LimitStatus.limited ↦ true
  | LimitStatus.allowed ↦ false
  | LimitStatus.error ↦ false
]

pub limit_create-limited :
    (limit : Option LimitResult) (m : ShortLinkMetrics) (r : HttpResponse)
    → ((limit_create limit m r).2 ≡ not (is_limited limit))
      × (is_limited limit ≡ true
          → (limit_create limit m r).1.status_code ≡ HttpStatusCode.too_many_requests)
unfolding limit_create
limit_create-limited none m r = (refl, λ e. ground arith)
limit_create-limited (some result) m r = by_status result.status refl
  where
    by_status :
        (status : LimitStatus)
        → result.status ≡ status
        → ((limit_create (some result) m r).2 ≡ not (is_limited (some result)))
          × (is_limited (some result) ≡ true
              → (limit_create (some result) m r).1.status_code ≡ HttpStatusCode.too_many_requests)
    by_status LimitStatus.allowed e = rw e (refl, λ f. ground arith)
    by_status LimitStatus.limited e = rw e (refl, λ f. refl)
    by_status LimitStatus.error e = rw e (refl, λ f. ground arith)

-- What the rate limit counts by its answer; a check that failed is an error of Redis, too.
abbrev pub limit_series : Option LimitResult → List Series
limit_series none = []
limit_series (some result) = elim result.status [
  | LimitStatus.allowed ↦ Series.rate_limits RateLimitResult.allowed ∷ []
  | LimitStatus.limited ↦ Series.rate_limits RateLimitResult.limited ∷ []
  | LimitStatus.error ↦
      Series.rate_limits RateLimitResult.error
      ∷ Series.backend_errors Backend.redis BackendOperation.rate_limit
      ∷ []
]

pub limit_create-record :
    (limit : Option LimitResult) (m : ShortLinkMetrics) (r : HttpResponse)
    → (limit_create limit m r).0 ≡ record_all (limit_series limit) m
unfolding limit_create record_series
limit_create-record none m r = refl
limit_create-record (some result) m r = by_status result.status refl
  where
    by_status :
        (status : LimitStatus)
        → result.status ≡ status
        → (limit_create (some result) m r).0 ≡ record_all (limit_series (some result)) m
    by_status LimitStatus.allowed e = rw e refl
    by_status LimitStatus.limited e = rw e refl
    by_status LimitStatus.error e = rw e refl

pub limited-series :
    (limit : Option LimitResult)
    → is_limited limit ≡ true
    → limit_series limit ≡ Series.rate_limits RateLimitResult.limited ∷ []
limited-series none e = ground arith
limited-series (some result) e = by_status result.status refl
  where
    by_status :
        (status : LimitStatus)
        → result.status ≡ status
        → limit_series (some result) ≡ Series.rate_limits RateLimitResult.limited ∷ []
    by_status LimitStatus.allowed f = absurd (ground (arith, rw f at e))
    by_status LimitStatus.limited f = rw f refl
    by_status LimitStatus.error f = absurd (ground (arith, rw f at e))

-- The counters behind the rate limit and a creation with a label.
pub created-count :
    (label : CreateResult) (storage : Storage) (limit : Option LimitResult) (m : ShortLinkMetrics)
    (r : HttpResponse) (s : Series)
    → WellSized m
    → count s (record_create label storage (limit_create limit m r).0)
      ≡ bumped (limit_series limit ++ (Series.creates label storage ∷ [])) s (count s m)
unfolding record_series
created-count label storage limit m r s sized =
    ap (count s) (
      ap (record_create label storage) (limit_create-record limit m r)
      ∙ sym (record_all-snoc (limit_series limit) (Series.creates label storage) m))
    ∙ count-record_all (limit_series limit ++ (Series.creates label storage ∷ [])) s m sized
