-- ===== src/ShortLink/Metrics/Counts.antt =====
-- Each labelled series of the metrics has a counter of its own: what the index arithmetic of
-- src/ShortLinkMetrics.cpp has to give.
use hao_short_link.Prelude.{
  Bool, List, [], ap, arith, bytes_eq, false, if◌then◌else◌, length, nat_eq, refl, suc, true, zero,
  ℕ, ◌%◌, ◌&&◌, ◌*◌, ◌+◌, ◌<◌, ◌==◌, ◌^◌, ◌∙◌, ◌∷◌, ◌≡◌,
}
use hao_short_link.Prelude.Int.{int_eq}
use hao_short_link.Prelude.Map.{pair_eq}
use hao_short_link.ShortLink.Metrics.{
  Backend, BackendOperation, CacheOperation, CacheResult, CreateResult, RateLimitResult,
  RedirectResult, RedirectSource, ShortLinkMetrics, Storage, backend_index, backend_operation_index,
  cache_operation_index, cache_result_index, create_result_index, fetch_add,
  rate_limit_result_index, record_backend_error, record_cache, record_create, record_rate_limit,
  record_redirect, redirect_result_index, redirect_source_index, storage_index,
}
use native.Mathlib.Nat.{mul-le-mul_right}

-- The arrays have the sizes that the enumerations' counts give.
abbrev pub WellSized : ShortLinkMetrics → Type 0
WellSized m =
    (length m.create_counters ≡ 2 * 3)
    × (length m.redirect_counters ≡ 3 * 5)
    × (length m.cache_counters ≡ 3 * 4)
    × (length m.backend_error_counters ≡ 2 * 9)
    × (length m.rate_limit_counters ≡ 3)

-- The value of a counter; 0 out of bounds.
abbrev pub counter : List ℕ → ℕ → ℕ
counter [] i = 0
counter (c ∷ cs) zero = c
counter (c ∷ cs) (suc i) = counter cs i

-- A labelled series, as Prometheus sees it.
pub data Series : Type 0 where
  creates : CreateResult → Storage → Series
  redirects : RedirectResult → RedirectSource → Series
  caches : CacheOperation → CacheResult → Series
  backend_errors : Backend → BackendOperation → Series
  rate_limits : RateLimitResult → Series

-- The call that records one occurrence of a series.
unfoldable pub record_series : Series → ShortLinkMetrics → ShortLinkMetrics
record_series (creates r s) m = record_create r s m
record_series (redirects r s) m = record_redirect r s m
record_series (caches o r) m = record_cache o r m
record_series (backend_errors b o) m = record_backend_error b o m
record_series (rate_limits r) m = record_rate_limit r m

-- The value that `renderPrometheus` prints for a series.
pub count : Series → ShortLinkMetrics → ℕ
count (creates r s) m = counter m.create_counters (storage_index s * 3 + create_result_index r)
count (redirects r s) m =
    counter m.redirect_counters (redirect_source_index s * 5 + redirect_result_index r)
count (caches o r) m = counter m.cache_counters (cache_operation_index o * 4 + cache_result_index r)
count (backend_errors b o) m =
    counter m.backend_error_counters (backend_index b * 9 + backend_operation_index o)
count (rate_limits r) m = counter m.rate_limit_counters (rate_limit_result_index r)

-- The same kind of series with the same labels.
abbrev pub same_series : Series → Series → Bool
same_series (creates r s) (creates r' s') =
    (storage_index s == storage_index s') && (create_result_index r == create_result_index r')
same_series (redirects r s) (redirects r' s') =
    (redirect_source_index s == redirect_source_index s')
    && (redirect_result_index r == redirect_result_index r')
same_series (caches o r) (caches o' r') =
    (cache_operation_index o == cache_operation_index o')
    && (cache_result_index r == cache_result_index r')
same_series (backend_errors b o) (backend_errors b' o') =
    (backend_index b == backend_index b')
    && (backend_operation_index o == backend_operation_index o')
same_series (rate_limits r) (rate_limits r') =
    rate_limit_result_index r == rate_limit_result_index r'
same_series (creates r s) _ = false
same_series (redirects r s) _ = false
same_series (caches o r) _ = false
same_series (backend_errors b o) _ = false
same_series (rate_limits r) _ = false

pub length-fetch_add : (cs : List ℕ) (i : ℕ) → length (fetch_add cs i) ≡ length cs
unfolding fetch_add
length-fetch_add [] i = refl
length-fetch_add (c ∷ cs) zero = refl
length-fetch_add (c ∷ cs) (suc i) = ap suc (length-fetch_add cs i)

counter-fetch_add :
    (cs : List ℕ) (i j : ℕ)
    → i < length cs
    → counter (fetch_add cs i) j ≡ (if i == j then (counter cs i + 1) % 2 ^ 64 else counter cs j)
unfolding fetch_add
counter-fetch_add [] i j h = absurd (omega arith)
counter-fetch_add (c ∷ cs) zero zero h = refl
counter-fetch_add (c ∷ cs) zero (suc j) h = ground arith
counter-fetch_add (c ∷ cs) (suc i) zero h = ground arith
counter-fetch_add (c ∷ cs) (suc i) (suc j) h =
    ground (arith, counter-fetch_add cs i j (omega arith))

cell-lt : (w a b a' b' : ℕ) → b < w → a < a' → a * w + b < a' * w + b'
cell-lt w a b a' b' h lt = omega (arith, mul-le-mul_right w lt)

-- Two cells of a matrix with rows of `w` have one index only if they are one cell.
cell-eq : (w a b a' b' : ℕ) → b < w → b' < w → (a * w + b == a' * w + b') ≡ ((a == a') && (b == b'))
cell-eq w a b a' b' h h' = ground (arith, cell-lt w a b a' b' h, cell-lt w a' b' a b h')

counter-cell :
    (w : ℕ) (cs : List ℕ) (a b a' b' : ℕ)
    → a * w + b < length cs
    → b < w
    → b' < w
    → counter (fetch_add cs (a * w + b)) (a' * w + b') ≡ (
        if (a == a') && (b == b')
        then (counter cs (a * w + b) + 1) % 2 ^ 64
        else counter cs (a' * w + b'))
counter-cell w cs a b a' b' i h h' =
    rw (← cell-eq w a b a' b' h h') (counter-fetch_add cs (a * w + b) (a' * w + b') i)

-- Recording keeps the arrays' sizes.
pub record_series-WellSized :
    (e : Series) (m : ShortLinkMetrics) → WellSized m → WellSized (record_series e m)
unfolding record_series record_create record_redirect record_cache record_backend_error
    record_rate_limit
record_series-WellSized (creates r s) m h =
    ground (arith, length-fetch_add m.create_counters (storage_index s * 3 + create_result_index r))
record_series-WellSized (redirects r s) m h = (h.0, length-fetch_add _ _ ∙ h.1, h.2, h.3, h.4)
record_series-WellSized (caches o r) m h = (h.0, h.1, length-fetch_add _ _ ∙ h.2, h.3, h.4)
record_series-WellSized (backend_errors b o) m h = (h.0, h.1, h.2, length-fetch_add _ _ ∙ h.3, h.4)
record_series-WellSized (rate_limits r) m h = (h.0, h.1, h.2, h.3, length-fetch_add _ _ ∙ h.4)

-- Recording a series adds one, modulo 2 ^ 64, to the counter of that series, and leaves the counter
-- of every other series as it was.
pub count-record_series :
    (e e' : Series) (m : ShortLinkMetrics)
    → WellSized m
    → count e' (record_series e m)
      ≡ (if same_series e e' then (count e m + 1) % 2 ^ 64 else count e' m)
unfolding count record_series record_create record_redirect record_cache record_backend_error
    record_rate_limit
count-record_series (creates r s) (creates r' s') m h =
    counter-cell 3 _ (storage_index s) _ (storage_index s') _ (ground arith) (ground arith)
      (ground arith)
count-record_series (redirects r s) (redirects r' s') m h =
    counter-cell 5 _ (redirect_source_index s) _ (redirect_source_index s') _ (ground arith)
      (ground arith) (ground arith)
count-record_series (caches o r) (caches o' r') m h =
    counter-cell 4 _ (cache_operation_index o) _ (cache_operation_index o') _ (ground arith)
      (ground arith) (ground arith)
count-record_series (backend_errors b o) (backend_errors b' o') m h =
    counter-cell 9 _ (backend_index b) _ (backend_index b') _ (ground arith) (ground arith)
      (ground arith)
count-record_series (rate_limits r) (rate_limits r') m h =
    counter-fetch_add _ _ (rate_limit_result_index r') (ground arith)
count-record_series (creates r s) _ m h = refl
count-record_series (redirects r s) _ m h = refl
count-record_series (caches o r) _ m h = refl
count-record_series (backend_errors b o) _ m h = refl
count-record_series (rate_limits r) _ m h = refl

-- One series has one counter.
pub count-same :
    (e s : Series) (m : ShortLinkMetrics) → same_series e s ≡ true → count e m ≡ count s m
unfolding count
count-same (creates r s) (creates r' s') m h = ground arith
count-same (redirects r s) (redirects r' s') m h = ground arith
count-same (caches o r) (caches o' r') m h = ground arith
count-same (backend_errors b o) (backend_errors b' o') m h = ground arith
count-same (rate_limits r) (rate_limits r') m h = ground arith
count-same (creates r s) _ m h = ground arith
count-same (redirects r s) _ m h = ground arith
count-same (caches o r) _ m h = ground arith
count-same (backend_errors b o) _ m h = ground arith
count-same (rate_limits r) _ m h = ground arith
