-- ===== src/Http/Response.antt =====
-- HttpServer: src/http/HttpResponse.cpp with its header, and include/utils/JsonUtil.h. The field
-- `isFile_`, which nothing reads, is left out.
use hao_short_link.Prelude.{
  Bool, Bytes, List, [], bytes_eq, codes, if◌then◌else◌, length, nat_eq, take, ℕ, ◌++◌, ◌==◌, ◌∷◌,
}
use hao_short_link.Prelude.Int.{int_eq}
use hao_short_link.Prelude.Map.{pair_eq}
use hao_short_link.Decimal.{to_string}
use hao_short_link.Http.Request.{insert_in_order}

pub data HttpStatusCode : Type 0 where
  unknown ok created no_content moved_permanently found bad_request unauthorized forbidden not_found
        conflict too_many_requests internal_server_error service_unavailable :
      HttpStatusCode

abbrev pub status_number : HttpStatusCode → ℕ
status_number HttpStatusCode.unknown = 0
status_number HttpStatusCode.ok = 200
status_number HttpStatusCode.created = 201
status_number HttpStatusCode.no_content = 204
status_number HttpStatusCode.moved_permanently = 301
status_number HttpStatusCode.found = 302
status_number HttpStatusCode.bad_request = 400
status_number HttpStatusCode.unauthorized = 401
status_number HttpStatusCode.forbidden = 403
status_number HttpStatusCode.not_found = 404
status_number HttpStatusCode.conflict = 409
status_number HttpStatusCode.too_many_requests = 429
status_number HttpStatusCode.internal_server_error = 500
status_number HttpStatusCode.service_unavailable = 503

-- `headers_` is a `std::map`, written in the order of its keys.
pub record HttpResponse : Type 0 where
  pub http_version : Bytes
  pub status_code : HttpStatusCode
  pub status_message : Bytes
  pub close_connection : Bool
  pub headers : List (Bytes × Bytes)
  pub route_pattern : Bytes
  pub body : Bytes

abbrev pub initial_response : Bool → HttpResponse
initial_response close = record {
  http_version = codes "HTTP/1.1";
  status_code = HttpStatusCode.unknown;
  status_message = [];
  close_connection = close;
  headers = [];
  route_pattern = [];
  body = [];
}

abbrev escape_char : ℕ → Bytes
escape_char c =
    if c == b'\\'
    then b'\\' ∷ b'\\' ∷ []
    else if c == b'"'
    then b'\\' ∷ b'"' ∷ []
    else if c == 10
    then codes "\\n"
    else if c == 13
    then codes "\\r"
    else if c == 9
    then codes "\\t"
    else c ∷ []

unfoldable pub escape_json_string : Bytes → Bytes
escape_json_string [] = []
escape_json_string (c ∷ value) = escape_char c ++ escape_json_string value

unfoldable pub add_response_header : Bytes → Bytes → HttpResponse → HttpResponse
add_response_header key value r = record r { headers = insert_in_order key value r.headers }

unfoldable pub set_content_type : Bytes → HttpResponse → HttpResponse
set_content_type = add_response_header (codes "Content-Type")

unfoldable pub set_content_length : ℕ → HttpResponse → HttpResponse
set_content_length n = add_response_header (codes "Content-Length") (to_string n)

abbrev pub set_status : HttpStatusCode → Bytes → HttpResponse → HttpResponse
set_status code message r = record r { status_code = code; status_message = message }

unfoldable pub set_json_body : Bytes → HttpResponse → HttpResponse
set_json_body body r =
    let typed = set_content_type (codes "application/json; charset=utf-8") r in
    record (set_content_length (length body) typed) { body = body }

unfoldable pub error_body : Bytes → Bytes → Bytes
error_body error_code message =
    codes "{\"error\":{\"code\":\""
    ++ escape_json_string error_code
    ++ codes "\",\"message\":\""
    ++ escape_json_string message
    ++ codes "\"}}"

unfoldable pub set_error_response : HttpStatusCode → Bytes → Bytes → HttpResponse → HttpResponse
set_error_response status_code error_code message r =
    set_json_body (error_body error_code message) (set_status status_code message r)

unfoldable pub set_redirect : Bytes → HttpResponse → HttpResponse
set_redirect location r =
    let located =
      add_response_header (codes "Location") location
        (set_status HttpStatusCode.found (codes "Found") r) in
    record (set_content_length 0 located) { body = [] }

unfoldable pub set_status_line : Bytes → HttpStatusCode → Bytes → HttpResponse → HttpResponse
set_status_line version status_code status_message r = record r {
  http_version = version;
  status_code = status_code;
  status_message = status_message;
}

abbrev pub crlf : Bytes
crlf = 13 ∷ 10 ∷ []

unfoldable pub header_lines : List (Bytes × Bytes) → Bytes
header_lines [] = []
header_lines ((key, value) ∷ rest) = key ++ codes ": " ++ value ++ crlf ++ header_lines rest

-- `snprintf` into 32 bytes keeps 31 characters at most.
unfoldable pub append_to_buffer : HttpResponse → Bytes → Bytes
append_to_buffer r buffer =
    buffer
    ++ take 31 (r.http_version ++ codes " " ++ to_string (status_number r.status_code) ++ codes " ")
    ++ r.status_message
    ++ crlf
    ++ (if r.close_connection then codes "Connection: close" else codes "Connection: Keep-Alive")
    ++ crlf
    ++ header_lines r.headers
    ++ crlf
    ++ r.body
