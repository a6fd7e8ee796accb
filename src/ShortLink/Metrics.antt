-- ===== src/ShortLink/Metrics.antt =====
-- apps/shortlink_server: include/shortlink/ShortLinkMetrics.h and src/ShortLinkMetrics.cpp, the
-- counters that the application keeps. A counter array is a list, addressed by the source's index.
pub mod Counts
pub mod Several
use hao_short_link.Prelude.{List, [], replicate, suc, zero, ℕ, ◌%◌, ◌*◌, ◌+◌, ◌^◌, ◌∷◌}

pub data Storage : Type 0 where
  memory mysql : Storage

pub data CreateResult : Type 0 where
  success invalid error : CreateResult

pub data RedirectSource : Type 0 where
  memory mysql redis : RedirectSource

pub data RedirectResult : Type 0 where
  success not_found disabled expired error : RedirectResult

pub data CacheOperation : Type 0 where
  get set delete : CacheOperation

pub data CacheResult : Type 0 where
  hit miss success error : CacheResult

pub data Backend : Type 0 where
  mysql redis : Backend

pub data BackendOperation : Type 0 where
  create find list update statistics get set delete rate_limit : BackendOperation

pub data RateLimitResult : Type 0 where
  allowed limited error : RateLimitResult

-- `static_cast<std::size_t>` of each enumeration: the position of the constructor.
abbrev pub storage_index : Storage → ℕ
storage_index Storage.memory = 0
storage_index Storage.mysql = 1

abbrev pub create_result_index : CreateResult → ℕ
create_result_index CreateResult.success = 0
create_result_index CreateResult.invalid = 1
create_result_index CreateResult.error = 2

abbrev pub redirect_source_index : RedirectSource → ℕ
redirect_source_index RedirectSource.memory = 0
redirect_source_index RedirectSource.mysql = 1
redirect_source_index RedirectSource.redis = 2

abbrev pub redirect_result_index : RedirectResult → ℕ
redirect_result_index RedirectResult.success = 0
redirect_result_index RedirectResult.not_found = 1
redirect_result_index RedirectResult.disabled = 2
redirect_result_index RedirectResult.expired = 3
redirect_result_index RedirectResult.error = 4

abbrev pub cache_operation_index : CacheOperation → ℕ
cache_operation_index CacheOperation.get = 0
cache_operation_index CacheOperation.set = 1
cache_operation_index CacheOperation.delete = 2

abbrev pub cache_result_index : CacheResult → ℕ
cache_result_index CacheResult.hit = 0
cache_result_index CacheResult.miss = 1
cache_result_index CacheResult.success = 2
cache_result_index CacheResult.error = 3

abbrev pub backend_index : Backend → ℕ
backend_index Backend.mysql = 0
backend_index Backend.redis = 1

abbrev pub backend_operation_index : BackendOperation → ℕ
backend_operation_index BackendOperation.create = 0
backend_operation_index BackendOperation.find = 1
backend_operation_index BackendOperation.list = 2
backend_operation_index BackendOperation.update = 3
backend_operation_index BackendOperation.statistics = 4
backend_operation_index BackendOperation.get = 5
backend_operation_index BackendOperation.set = 6
backend_operation_index BackendOperation.delete = 7
backend_operation_index BackendOperation.rate_limit = 8

abbrev pub rate_limit_result_index : RateLimitResult → ℕ
rate_limit_result_index RateLimitResult.allowed = 0
rate_limit_result_index RateLimitResult.limited = 1
rate_limit_result_index RateLimitResult.error = 2

pub record ShortLinkMetrics : Type 0 where
  pub create_counters : List ℕ
  pub redirect_counters : List ℕ
  pub cache_counters : List ℕ
  pub backend_error_counters : List ℕ
  pub rate_limit_counters : List ℕ

-- The constructor resets each array to zeros: rows times columns of the enumerations' counts.
abbrev pub initial_metrics : ShortLinkMetrics
initial_metrics = record {
  create_counters = replicate (2 * 3) 0;
  redirect_counters = replicate (3 * 5) 0;
  cache_counters = replicate (3 * 4) 0;
  backend_error_counters = replicate (2 * 9) 0;
  rate_limit_counters = replicate 3 0;
}

-- `counters[index].fetch_add(1)`: the counter wraps at 2 ^ 64. Out of bounds, which the source
-- never reaches (`Counts`), nothing changes.
unfoldable pub fetch_add : List ℕ → ℕ → List ℕ
fetch_add [] i = []
fetch_add (c ∷ cs) zero = ((c + 1) % 2 ^ 64) ∷ cs
fetch_add (c ∷ cs) (suc i) = c ∷ fetch_add cs i

unfoldable pub record_create : CreateResult → Storage → ShortLinkMetrics → ShortLinkMetrics
record_create result storage m =
    let index = storage_index storage * 3 + create_result_index result in
    record m { create_counters = fetch_add m.create_counters index }

unfoldable pub record_redirect :
    RedirectResult → RedirectSource → ShortLinkMetrics → ShortLinkMetrics
record_redirect result source m =
    let index = redirect_source_index source * 5 + redirect_result_index result in
    record m { redirect_counters = fetch_add m.redirect_counters index }

unfoldable pub record_cache : CacheOperation → CacheResult → ShortLinkMetrics → ShortLinkMetrics
record_cache operation result m =
    let index = cache_operation_index operation * 4 + cache_result_index result in
    record m { cache_counters = fetch_add m.cache_counters index }

unfoldable pub record_backend_error :
    Backend → BackendOperation → ShortLinkMetrics → ShortLinkMetrics
record_backend_error backend operation m =
    let index = backend_index backend * 9 + backend_operation_index operation in
    record m { backend_error_counters = fetch_add m.backend_error_counters index }

unfoldable pub record_rate_limit : RateLimitResult → ShortLinkMetrics → ShortLinkMetrics
record_rate_limit result m = record m {
  rate_limit_counters = fetch_add m.rate_limit_counters (rate_limit_result_index result);
}
