-- ===== src/Http/Context/Tests.antt =====
-- A request that arrives in two pieces, cut within its header.
-- The first line end, as the buffer finds it.
use hao_short_link.Prelude.{
  Bytes, List, Option, Option-cases, [], arith, bytes_beq, bytes_eq, codes, if◌then◌else◌, inl, inr,
  length, nat_eq, none, refl, some, suc, ℕ, ◌&&◌, ◌++◌, ◌+◌, ◌==◌, ◌>>=◌, ◌∷◌, ◌≡◌, ◌≢◌, ◌≤◌,
}
use hao_short_link.Prelude.Int.{int_eq}
use hao_short_link.Prelude.Map.{insert, lookup, pair_eq}
use hao_short_link.Decimal.{magnitude, scan_digits, skip_space, stoi, stoll}
use hao_short_link.Http.Context.{
  ParseResult, end_headers, feed, gotten_all, has_body, initial_context, out_of_fuel, parse_request,
  parsed, process_request_line, process_target, round_in, rounds, set_target, set_version,
  take_body, take_header, take_request_line, threw,
}
use hao_short_link.Http.Context.Chunks.{parse_request-concat}
use hao_short_link.Http.Context.Rounds.{FindsCrlf}
use hao_short_link.Http.Request.{
  add_header, add_pairs, find_ignoring_case, get_header, insert_in_order, method_of, set_method,
  set_query_parameters, split_at, trim_end,
}

abbrev find_crlf : Bytes → Option ℕ
find_crlf [] = none
find_crlf (c ∷ []) = none
find_crlf (c ∷ d ∷ s) =
    if c == 13 && d == 10 then some 0 else (do n ← find_crlf (d ∷ s); some (suc n))

find_crlf-inside : (buf : Bytes) (n : ℕ) → find_crlf buf ≡ some n → n + 2 ≤ length buf
find_crlf-inside [] n e = cc
find_crlf-inside (c ∷ []) n e = cc
find_crlf-inside (c ∷ d ∷ s) n e = elim (Option-cases (find_crlf (d ∷ s))) [
  | inl lost ↦ ground arith
  | inr (k, f) ↦ ground (arith, find_crlf-inside (d ∷ s) k f)
]

find_crlf-kept :
    (buf more : Bytes) (n : ℕ) → find_crlf buf ≡ some n → find_crlf (buf ++ more) ≡ some n
find_crlf-kept [] more n e = cc
find_crlf-kept (c ∷ []) more n e = cc
find_crlf-kept (c ∷ d ∷ s) more n e = elim (Option-cases (find_crlf (d ∷ s))) [
  | inl lost ↦ ground arith
  | inr (k, f) ↦ ground (arith, find_crlf-kept (d ∷ s) more k f)
]

find_crlf-laws : FindsCrlf find_crlf
find_crlf-laws = record { inside = find_crlf-inside; kept = find_crlf-kept }

abbrev first_piece : Bytes
first_piece = codes "PUT /s?a=1 HTTP/1.1" ++ 13 ∷ 10 ∷ codes "Content-Le"

abbrev second_piece : Bytes
second_piece = codes "ngth: 2 " ++ 13 ∷ 10 ∷ 13 ∷ 10 ∷ codes "hiGET"

abbrev summary : ParseResult → List Bytes
summary (parsed c buf ok) = c.request.path ∷ c.request.content ∷ buf ∷ []
summary threw = []
summary out_of_fuel = []

reads_body :
    summary (parse_request find_crlf 7 initial_context (first_piece ++ second_piece))
    ≡ codes "/s" ∷ codes "hi" ∷ codes "GET" ∷ []
unfolding parse_request rounds round_in take_request_line process_request_line split_at set_method
    method_of bytes_beq process_target set_version take_header end_headers has_body add_header
    set_target set_query_parameters add_pairs insert insert_in_order trim_end skip_space get_header
    lookup find_ignoring_case stoi stoll magnitude scan_digits take_body
reads_body = refl

parse_request-concat_example :
    (feed find_crlf 7 initial_context [] (first_piece ∷ second_piece ∷ [])
      ≡ parse_request find_crlf 7 initial_context (first_piece ++ (second_piece ++ [])))
    × (parse_request find_crlf 7 initial_context (first_piece ++ (second_piece ++ []))
        ≢ out_of_fuel)
unfolding gotten_all
parse_request-concat_example =
    parse_request-concat find_crlf find_crlf-laws 7 initial_context [] first_piece
      (second_piece ∷ []) refl
