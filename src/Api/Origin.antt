-- ===== src/Api/Origin.antt =====
-- apps/shortlink_server: src/SameOriginPolicy.cpp.
use hao_short_link.Prelude.{
  Bool, Bytes, [], all_of, bytes_eq, codes, false, if◌then◌else◌, is_empty, leb, nat_eq, not, true,
  ◌&&◌, ◌++◌, ◌+◌, ◌==◌, ◌||◌, ◌∷◌,
}
use hao_short_link.Prelude.Int.{int_eq}
use hao_short_link.Prelude.Map.{pair_eq}
use hao_short_link.Decimal.{is_space}
use hao_short_link.Http.Request.{HttpRequest, get_header}
use hao_short_link.Http.Response.{
  HttpResponse, HttpStatusCode, add_response_header, set_error_response,
}

unfoldable pub ascii_lower : Bytes → Bytes
ascii_lower [] = []
ascii_lower (ch ∷ value) = (if leb b'A' ch && leb ch b'Z' then ch + 32 else ch) ∷ ascii_lower value

unfoldable pub is_valid_authority : Bytes → Bool
is_valid_authority authority =
    not (is_empty authority)
    && all_of
        (λ ch. not (is_space ch || (ch == b'/') || (ch == b'?') || (ch == b'#') || (ch == b'@')))
        authority

-- The tests behind the first header, once the origin is not empty.
unfoldable pub origin_is_host : Bytes → Bytes → Bytes → Bool
origin_is_host origin host forwarded =
    let lowered = ascii_lower forwarded in
    let scheme = if is_empty lowered then codes "http" else lowered in
    if not (is_valid_authority host)
    then false
    else if not (scheme == codes "http") && not (scheme == codes "https")
    then false
    else ascii_lower origin == scheme ++ codes "://" ++ ascii_lower host

unfoldable pub is_same_origin_request : HttpRequest → Bool
is_same_origin_request request =
    let origin = get_header (codes "Origin") request in
    if ascii_lower (get_header (codes "Sec-Fetch-Site") request) == codes "cross-site"
    then false
    else if is_empty origin
    then true
    else origin_is_host origin (get_header (codes "Host") request)
        (get_header (codes "X-Forwarded-Proto") request)

-- The response, and whether the handler goes on.
unfoldable pub require_same_origin_request : HttpRequest → HttpResponse → HttpResponse × Bool
require_same_origin_request request r =
    let marked = add_response_header (codes "Cache-Control") (codes "no-store") r in
    if is_same_origin_request request then (marked, true) else (
      set_error_response HttpStatusCode.forbidden (codes "origin_not_allowed")
          (codes "Request origin is not allowed") marked,
      false,
    )
