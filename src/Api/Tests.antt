-- ===== src/Api/Tests.antt =====
-- The handlers of the HTTP API at concrete inputs, over the memory repositories.
use hao_short_link.Prelude.{
  Bytes, List, Option, [], arith, bytes_beq, bytes_eq, codes, drop, false, length, map, nat_eq,
  none, refl, some, take, true, ℕ, ◌+◌, ◌<◌, ◌∷◌, ◌≡◌, ◌≤◌, ◌⊎◌,
}
use hao_short_link.Prelude.Int.{int_eq, pos, ◌-ℤ◌}
use hao_short_link.Prelude.Map.{lookup, pair_eq}
use hao_short_link.Access.Event.{AccessEventResult, fields}
use hao_short_link.Access.Statistics.{
  AccessStatisticsInterval, AccessStatisticsQuery, access_statistics_bucket_seconds,
  is_valid_access_statistics_query, parse_access_statistics_interval,
}
use hao_short_link.Account.Memory.{memory_auth}
use hao_short_link.Account.Repository.{User}
use hao_short_link.Account.Service.Tests.{ann_digests, ann_password, one_user}
use hao_short_link.Api.Auth.{AuthHttpConfig}
use hao_short_link.Api.Json.{JsonValues, set_json}
use hao_short_link.Api.Limiter.{LimitResult, LimitStatus, LimiterConfig, Stage, live_window}
use hao_short_link.Api.Links.{code_of, handle_list}
use hao_short_link.Api.Links.Asked.{Asks}
use hao_short_link.Api.Links.Pages.{cursor_behind, handle_list-pages, page_of}
use hao_short_link.Api.Links.Window.{count_passing, limit_create-window}
use hao_short_link.Api.Reading.{
  accepted, list_query, parse_unsigned, parse_unsigned_from, read_cursor, read_limit,
  read_list_query, read_status,
}
use hao_short_link.Api.Reading.Unsigned.{parse_unsigned-reference}
use hao_short_link.Api.Redirect.{handle_redirect}
use hao_short_link.Api.Redirect.Events.{Told, event_now, handle_redirect-Told}
use hao_short_link.Api.Routes.{put_link}
use hao_short_link.Api.Routes.Guards.{Comes}
use hao_short_link.Api.Routes.Protection.{put_link-protects}
use hao_short_link.Api.Statistics.{
  check_range, default_end, parse_statistics_query, query_in, range_of, read_end, read_interval,
}
use hao_short_link.Api.Statistics.Query.{parse_statistics_query-valid}
use hao_short_link.Http.Request.{HttpRequest, get_query_parameters, initial_request}
use hao_short_link.Http.Response.{HttpResponse, HttpStatusCode, initial_response}
use hao_short_link.ShortLink.Memory.{MemoryRepository, new_record}
use hao_short_link.ShortLink.Memory.Contract.{memory-IsRepository, memory_repository}
use hao_short_link.ShortLink.Memory.Invariant.{IsValid, view}
use hao_short_link.ShortLink.Memory.Listing.{matches}
use hao_short_link.ShortLink.Metrics.{initial_metrics}
use hao_short_link.ShortLink.Record.{ListQuery, ShortLinkRecord}

data Value : Type 0 where
  leaf : Bytes → Value
  branch : List (Bytes × Bytes) → Value

abbrev as_leaf : Bytes × Bytes → Bytes × Value
as_leaf (key, value) = (key, leaf value)

-- A library that reads every text as the given object, and prints every value as nothing.
abbrev reads : List (Bytes × Bytes) → JsonValues Value
reads members = record {
  null = leaf [];
  text = leaf;
  number = λ n. leaf [];
  array = λ items. leaf [];
  object = λ fields. leaf [];
  dump = λ j. some [];
  parse = λ s. some (branch members);
  members = λ j. elim j [ leaf s ↦ none | branch fields ↦ some (map as_leaf fields) ];
  as_text = λ j. elim j [ leaf s ↦ some s | branch fields ↦ none ];
  is_null = λ j. false;
}

abbrev before_1970 : ℕ → Bytes
before_1970 n = []

abbrev response : HttpResponse
response = initial_response true

-- A link "docs" of user 1, and a request for it.
abbrev docs : ShortLinkRecord
docs = new_record 1 1 (codes "docs") (codes "https://a.example/") none (pos 10)

abbrev one_link : MemoryRepository
one_link = record { links = (codes "docs", docs) ∷ []; next_id = 2 }

abbrev to_docs : HttpRequest
to_docs = record initial_request { path_parameters = (codes "param1", codes "docs") ∷ [] }

handle_redirect-Told_example :
    let done =
      handle_redirect memory_repository to_docs
        (some (codes "0123"))
        (pos 20)
        (pos 20)
        (pos 20000)
        response
        none
        []
        one_link in
    (result : AccessEventResult) × (done.2
      ≡ event_now to_docs (codes "0123") (pos 20000) result ∷ [])
    × Told (view one_link (code_of to_docs)) (pos 20) response done.3 result
handle_redirect-Told_example =
    handle_redirect-Told memory_repository (λ t. Unit {0}) view memory-IsRepository to_docs
      (codes "0123") (pos 20) (pos 20) (pos 20000) response none [] one_link tt

-- Behind it, a second link of user 1.
abbrev notes : ShortLinkRecord
notes = new_record 2 1 (codes "notes") (codes "https://b.example/") none (pos 10)

abbrev two_links : MemoryRepository
two_links = record { links = (codes "docs", docs) ∷ (codes "notes", notes) ∷ []; next_id = 3 }

abbrev for_links : HttpRequest
for_links = record initial_request { query_parameters = (codes "limit", codes "1") ∷ [] }

abbrev first_link : ListQuery
first_link = record { cursor = 0; limit = 1; owner_id = some 1; status = none }

two_links-IsValid : IsValid two_links
two_links-IsValid = record {
  keyed = (refl, (refl, tt));
  fresh = omega arith;
  distinct = ((omega arith, tt), (tt, tt));
}

asks_first : read_list_query 1 for_links ≡ accepted first_link
unfolding read_list_query list_query read_cursor read_limit read_status parse_unsigned
    parse_unsigned_from get_query_parameters lookup bytes_beq
asks_first = refl

handle_list-pages_example :
    let found = matches two_links first_link in
    let next_cursor = cursor_behind 1 found in
    Asks 1 for_links first_link
    × (handle_list memory_repository (reads []) before_1970 for_links 1 response two_links ≡ (
      two_links,
      set_json
          (reads [])
          HttpStatusCode.ok
          (codes "OK")
          (page_of (reads []) before_1970 (take 1 found) next_cursor)
          response,
    ))
    × ((length found ≤ 1) → next_cursor ≡ none)
    × ((1 < length found)
        → (id : ℕ) × (next_cursor ≡ some id)
          × (matches two_links (record first_link { cursor = id }) ≡ drop 1 found))
handle_list-pages_example =
    handle_list-pages (reads []) before_1970 for_links 1 response two_links first_link
      two_links-IsValid asks_first

abbrev limits : LimiterConfig
limits = record { database = pos 0; requests = pos 2; window_seconds = 60 }

no_window : (now : ℕ) → 100 ≤ now → live_window none now ≡ none
unfolding live_window
no_window now h = refl

-- The second check fails, and the creation passes.
abbrev checks : List (Stage × ℕ)
checks = (Stage.nowhere, 100) ∷ (Stage.eval, 110) ∷ (Stage.nowhere, 120) ∷ (Stage.nowhere, 159) ∷ []

limit_create-window_example : count_passing limits initial_metrics response none checks ≤ 2 + 1
limit_create-window_example =
    (limit_create-window limits none 100 initial_metrics response no_window).0 checks (
      (omega arith, omega arith),
      ((omega arith, omega arith), ((omega arith, omega arith), ((omega arith, omega arith), tt))),
    )

-- Ann logs in.
abbrev ann : JsonValues Value
ann = reads ((codes "username", codes "ANN") ∷ (codes "password", ann_password) ∷ [])

abbrev config : AuthHttpConfig
config = record {
  cookie_name = codes "hao_session";
  cookie_secure = false;
  registration_enabled = true;
}

abbrev to_log_in : HttpRequest
to_log_in = record initial_request {
  headers = (codes "Content-Type", codes "application/json") ∷ [];
}

parse_unsigned-reference_example : parse_unsigned (codes "305") ≡ some 305
parse_unsigned-reference_example = parse_unsigned-reference (codes "305")

-- A request to change "docs" that no session comes with.
put_link-protects_example :
    let done =
      put_link memory_auth ann_digests
        (pos 100)
        memory_repository
        ann
        config
        before_1970
        to_docs
        (pos 20)
        (pos 20)
        response
        (one_user, one_link) in
    (view done.0 (codes "docs") ≡ some docs)
    ⊎ ((user : User) × Comes memory_auth ann_digests
          (pos 100)
          memory_repository
          ann
          config
          before_1970
          to_docs
          (pos 20)
          one_user
          user
        × (user.id ≡ docs.owner_id)
        × (code_of to_docs ≡ codes "docs"))
unfolding lookup bytes_beq
put_link-protects_example =
    put_link-protects memory_auth ann_digests (pos 100) ann config before_1970 to_docs (pos 20)
      (pos 20) response one_user one_link (codes "docs") docs refl

-- The rate limit could not be checked.
abbrev unchecked : Option LimitResult
unchecked = some (record { status = LimitStatus.error; retry_after_seconds = pos 0 })

abbrev for_statistics : HttpRequest
for_statistics = record initial_request { query_parameters = (codes "interval", codes "hour") ∷ [] }

abbrev last_week : AccessStatisticsQuery
last_week = record {
  from_epoch_seconds = pos 0;
  to_epoch_seconds = pos 604800;
  interval = AccessStatisticsInterval.hour;
}

takes_week : parse_statistics_query for_statistics 604800 ≡ accepted last_week
unfolding parse_statistics_query query_in range_of read_interval read_end check_range default_end
    parse_access_statistics_interval access_statistics_bucket_seconds get_query_parameters lookup
    bytes_beq ◌-ℤ◌
takes_week = refl

parse_statistics_query-valid_example : is_valid_access_statistics_query last_week ≡ true
parse_statistics_query-valid_example =
    parse_statistics_query-valid for_statistics 604800 last_week (omega arith) takes_week
