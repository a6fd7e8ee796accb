-- ===== src/Http/Context.antt =====
-- HttpServer: src/http/HttpContext.cpp and its header. The buffer is the sequence of its unread
-- bytes; where its first line end stands is the answer of the buffer's own search.
pub mod Rounds
pub mod Chunks
pub mod Tests
use hao_short_link.Prelude.{
  Bool, Bytes, List, Option, [], bytes_eq, codes, drop, false, if◌then◌else◌, is_empty, length, ltb,
  nat_eq, none, not, some, suc, take, true, zero, ℕ, ◌++◌, ◌+◌, ◌-◌, ◌==◌, ◌^◌, ◌||◌, ◌∷◌,
}
use hao_short_link.Prelude.Int.{int_eq, negsuc, pos, ℤ}
use hao_short_link.Prelude.Map.{pair_eq}
use hao_short_link.Decimal.{stoi}
use hao_short_link.Http.Request.{
  HttpRequest, Method, add_header, get_header, initial_request, method_eq, set_method,
  set_query_parameters, split_at,
}

pub data HttpRequestParseState : Type 0 where
  expect_request_line expect_headers expect_body got_all : HttpRequestParseState

pub record HttpContext : Type 0 where
  pub state : HttpRequestParseState
  pub request : HttpRequest

abbrev pub initial_context : HttpContext
initial_context = record {
  state = HttpRequestParseState.expect_request_line;
  request = initial_request;
}

abbrev pub is_got_all : HttpRequestParseState → Bool
is_got_all HttpRequestParseState.got_all = true
is_got_all HttpRequestParseState.expect_request_line = false
is_got_all HttpRequestParseState.expect_headers = false
is_got_all HttpRequestParseState.expect_body = false

unfoldable pub gotten_all : HttpContext → Bool
gotten_all c = is_got_all c.state

unfoldable pub reset : HttpContext → HttpContext
reset c = initial_context

-- The target of a request, cut at its `?`.
unfoldable pub set_target : Bytes → HttpRequest → HttpRequest
set_target target r = elim (split_at b'?' target) [
  | none ↦ record r { path = target }
  | some (path, argument) ↦ set_query_parameters argument (record r { path = path })
]

unfoldable pub set_version : Bytes → HttpRequest → HttpRequest × Bool
set_version text r =
    if text == codes "HTTP/1.1"
    then (record r { version = codes "HTTP/1.1" }, true)
    else if text == codes "HTTP/1.0"
    then (record r { version = codes "HTTP/1.0" }, true)
    else (r, false)

unfoldable pub process_target : Bytes → HttpRequest → HttpRequest × Bool
process_target text r = elim (split_at b' ' text) [
  | none ↦ (r, false)
  | some (target, version) ↦ set_version version (set_target target r)
]

unfoldable pub process_request_line : Bytes → HttpRequest → HttpRequest × Bool
process_request_line line r = elim (split_at b' ' line) [
  | none ↦ (r, false)
  | some (method, text) ↦
      let (r₁, known) = set_method method r in if known then process_target text r₁ else (r₁, false)
]

-- What one round of the loop does: it changes nothing and leaves the loop, it leaves the loop with
-- an answer, it goes on, or `std::stoi` throws.
pub data Round : Type 0 where
  waits : Round
  ends : HttpContext → Bytes → Bool → Round
  goes : HttpContext → Bytes → Round
  stoi_throws : Round

abbrev pub in_state : HttpRequestParseState → HttpRequest → HttpContext
in_state state r = record { state = state; request = r }

-- The conversion of an `int` to `uint64_t`.
abbrev pub to_u64 : ℤ → ℕ
to_u64 (pos n) = n
to_u64 (negsuc n) = 2 ^ 64 - 1 - n

unfoldable pub has_body : Method → Bool
has_body m = m == Method.post || m == Method.put

-- The empty line behind the headers; `rest` is what follows it.
unfoldable pub end_headers : HttpRequest → Bytes → Round
end_headers r rest =
    let text = get_header (codes "Content-Length") r in
    let finished = HttpRequestParseState.got_all in
    if not (has_body r.method)
    then ends (in_state finished r) rest true
    else if is_empty text
    then ends (in_state HttpRequestParseState.expect_headers r) rest false
    else elim (stoi text) [
      | none ↦ stoi_throws
      | some n ↦
          let r₁ = record r { content_length = to_u64 n } in
          if ltb 0 (to_u64 n)
          then goes (in_state HttpRequestParseState.expect_body r₁) rest
          else ends (in_state finished r₁) rest true
    ]

unfoldable pub take_request_line : ℕ → HttpRequest → Bytes → Bytes → Bytes → Round
take_request_line now r line rest buf =
    let (r₁, ok) = process_request_line line r in
    if ok
    then goes (in_state HttpRequestParseState.expect_headers (record r₁ { receive_time = now }))
        rest
    else ends (in_state HttpRequestParseState.expect_request_line r₁) buf false

unfoldable pub take_header : HttpRequest → Bytes → Bytes → Round
take_header r line rest = elim (split_at b':' line) [
  | some (key, value) ↦
      goes (in_state HttpRequestParseState.expect_headers (add_header key value r)) rest
  | none ↦
      if is_empty line
      then end_headers r rest
      else ends (in_state HttpRequestParseState.expect_headers r) rest false
]

unfoldable pub take_body : HttpRequest → Bytes → Round
take_body r buf =
    if ltb (length buf) r.content_length
    then waits
    else ends
        (in_state HttpRequestParseState.got_all (record r { content = take r.content_length buf }))
        (drop r.content_length buf) true

-- What `parseRequest` gives back: the context, the unread bytes and the answer; an exception; or
-- nothing within the fuel.
pub data ParseResult : Type 0 where
  parsed : HttpContext → Bytes → Bool → ParseResult
  threw : ParseResult
  out_of_fuel : ParseResult

abbrev pub concat : List Bytes → Bytes
concat [] = []
concat (piece ∷ rest) = piece ++ concat rest

module _ (find_crlf : Bytes → Option ℕ) (now : ℕ) where
  -- In the state `got_all` no branch is taken, and the loop never ends.
  unfoldable pub round_in : HttpRequestParseState → HttpRequest → Bytes → Round
  round_in HttpRequestParseState.expect_request_line r buf = elim (find_crlf buf) [
    | none ↦ waits
    | some n ↦ take_request_line now r (take n buf) (drop (n + 2) buf) buf
  ]
  round_in HttpRequestParseState.expect_headers r buf = elim (find_crlf buf) [
    | none ↦ waits
    | some n ↦ take_header r (take n buf) (drop (n + 2) buf)
  ]
  round_in HttpRequestParseState.expect_body r buf = take_body r buf
  round_in HttpRequestParseState.got_all r buf = goes (in_state HttpRequestParseState.got_all r) buf

  unfoldable pub rounds : ℕ → HttpContext → Bytes → ParseResult
  rounds zero c buf = out_of_fuel
  rounds (suc fuel) c buf = elim (round_in c.state c.request buf) [
    | waits ↦ parsed c buf true
    | ends c₁ buf₁ ok ↦ parsed c₁ buf₁ ok
    | goes c₁ buf₁ ↦ rounds fuel c₁ buf₁
    | stoi_throws ↦ threw
  ]

  -- A round that goes on reads two bytes at least.
  unfoldable pub parse_request : HttpContext → Bytes → ParseResult
  parse_request c buf = rounds (suc (length buf)) c buf

  -- The pieces arrive one after the other. A request that is complete, refused or failed stops the
  -- reading, and leaves the pieces that follow unread.
  unfoldable pub feed : HttpContext → Bytes → List Bytes → ParseResult
  feed c buf [] = parsed c buf true
  feed c buf (piece ∷ rest) = elim (parse_request c (buf ++ piece)) [
    | parsed c₁ buf₁ ok ↦
        let later = feed c₁ buf₁ rest in
        if not ok || gotten_all c₁ then parsed c₁ (buf₁ ++ concat rest) ok else later
    | threw ↦ threw
    | out_of_fuel ↦ out_of_fuel
  ]
