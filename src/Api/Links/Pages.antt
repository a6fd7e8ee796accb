-- ===== src/Api/Links/Pages.antt =====
-- The pages that `handleList` of src/ShortLinkHttpApi.cpp gives, over the memory repository.
use hao_short_link.Prelude.{
  Bool-cases, Bytes, List, Option, [], ap, arith, bytes_eq, codes, drop, if◌then◌else◌, inl, inr,
  length, ltb, map, nat_eq, none, refl, some, suc, sym, take, take_all, true, zero, ℕ, ◌<◌, ◌∙◌,
  ◌∷◌, ◌≡◌, ◌≤◌,
}
use hao_short_link.Prelude.Int.{int_eq}
use hao_short_link.Prelude.Map.{pair_eq}
use hao_short_link.Api.Json.{HandlerReply, JsonValues, null_or, set_json}
use hao_short_link.Api.Links.{
  answer_list, answer_page, back_id, handle_list, page_json, record_json,
}
use hao_short_link.Api.Links.Asked.{Asks, read_list_query-Asks}
use hao_short_link.Api.Reading.{accepted, read_list_query}
use hao_short_link.Http.Request.{HttpRequest}
use hao_short_link.Http.Response.{HttpResponse, HttpStatusCode}
use hao_short_link.ShortLink.Memory.{MemoryRepository, skips}
use hao_short_link.ShortLink.Memory.Contract.{memory_repository}
use hao_short_link.ShortLink.Memory.Invariant.{IsValid}
use hao_short_link.ShortLink.Memory.Listing.{Above-take, list-eq-take, matches, matches-Above}
use hao_short_link.ShortLink.Memory.Paging.{
  above, above-last_id, above-matches, last_id, le-last_id,
}
use hao_short_link.ShortLink.Record.{ListQuery, ShortLinkRecord}
use hao_short_link.ShortLink.Service.{list_owned}
use mathlib.Core.Path.{subst}

module _ {ℓ} {A : Type ℓ} where
  take-take : (n : ℕ) (s : List A) → take n (take (suc n) s) ≡ take n s
  take-take zero s = refl
  take-take (suc n) [] = refl
  take-take (suc n) (x ∷ s) = ap (◌∷◌ x) (take-take n s)

  -- One more than the page shows whether the page is all.
  more : (n : ℕ) (s : List A) → ltb n (length (take (suc n) s)) ≡ ltb n (length s)
  more n [] = refl
  more zero (x ∷ s) = ground arith
  more (suc n) (x ∷ s) = ground (arith, more n s)

back_id-cons :
    (r : ShortLinkRecord) (s : List ShortLinkRecord) → back_id (r ∷ s) ≡ some (last_id r.id s)
unfolding back_id
back_id-cons r [] = refl
back_id-cons r (x ∷ s) = rw (back_id-cons x s) refl

-- The id of the last link of the page, where more links are behind it.
abbrev pub cursor_behind : ℕ → List ShortLinkRecord → Option ℕ
cursor_behind limit found =
    if ltb limit (length found) then some (last_id 0 (take limit found)) else none

back_id-take :
    (limit : ℕ) (found : List ShortLinkRecord)
    → 1 ≤ limit
    → ltb limit (length found) ≡ true
    → back_id (take limit found) ≡ some (last_id 0 (take limit found))
back_id-take limit [] one long = ground arith
back_id-take zero (x ∷ s) one long = absurd (omega (arith, one))
back_id-take (suc limit) (x ∷ s) one long = back_id-cons x (take limit s)

-- What is sent for a page and the cursor behind it.
abbrev pub page_of : {J : Type 0} → JsonValues J → (ℕ → Bytes) → List ShortLinkRecord → Option ℕ → J
page_of json before_1970 page next_cursor = json.object (
    (codes "items", json.array (map (record_json json before_1970) page))
    ∷ (codes "next_cursor", null_or json json.number next_cursor)
    ∷ [])

-- The answer to one record more than the page holds.
answer_page-take :
    {J : Type 0} (json : JsonValues J) (before_1970 : ℕ → Bytes) (limit : ℕ)
    (found : List ShortLinkRecord) (r : HttpResponse)
    → 1 ≤ limit
    → answer_page json before_1970 limit (take (suc limit) found) r
      ≡ set_json json HttpStatusCode.ok
          (codes "OK")
          (page_of json before_1970 (take limit found) (cursor_behind limit found))
          r
unfolding answer_page page_json
answer_page-take json before_1970 limit found r one = elim (Bool-cases (ltb limit (length found))) [
  | inl long ↦
      rw (more limit found, long, take-take limit found, back_id-take limit found one long) refl
  | inr short ↦
      rw (more limit found, short)
        (ap (λ s. set_json json HttpStatusCode.ok (codes "OK") (page_of json before_1970 s none) r)
          (take_all (suc limit) found (ground arith) ∙ sym (take_all limit found (ground arith))))
]

rest_behind :
    (t : MemoryRepository) (query : ListQuery) (id : ℕ)
    → IsValid t
    → last_id query.cursor (take query.limit (matches t query)) ≡ id
    → matches t (record query { cursor = id }) ≡ drop query.limit (matches t query)
rest_behind t query id v last =
    let page = take query.limit (matches t query) in
    let rising = matches-Above t query v in
    above-matches t query id (
      subst (λ (n : ℕ). query.cursor ≤ n) last
        (le-last_id query.cursor page (Above-take query.cursor query.limit _ rising)))
    ∙ ap (λ n. above n (matches t query)) (sym last)
    ∙ above-last_id query.cursor query.limit _ rising

answer_list-take :
    {J : Type 0} (json : JsonValues J) (before_1970 : ℕ → Bytes) (r : HttpResponse)
    (t : MemoryRepository) (query : ListQuery)
    → answer_list memory_repository json before_1970 (accepted query) r t
      ≡ (t, answer_page json before_1970 query.limit (take (suc query.limit) (matches t query)) r)
unfolding answer_list list_owned skips
answer_list-take json before_1970 r t query =
    ap (λ s. (t, answer_page json before_1970 query.limit s r))
      (list-eq-take t (record query { limit = suc query.limit }))

last_id-start :
    (n limit : ℕ) (found : List ShortLinkRecord)
    → 1 ≤ limit
    → limit < length found
    → last_id n (take limit found) ≡ last_id 0 (take limit found)
last_id-start n limit [] one long = absurd (omega (arith, one, long))
last_id-start n zero (x ∷ s) one long = absurd (omega (arith, one))
last_id-start n (suc limit) (x ∷ s) one long = refl

-- Over the memory repository, a request for links whose parameters are accepted asks for the links of
-- the user behind the cursor and in the state that it gives, from the start and in any state if it
-- gives none, 1 to 100 or by default 50 of them. It is answered with the first ones of the links that
-- match, up to its limit, without a change of the repository. The answer has no next cursor if no more links match than that; if
-- more do, it has one, and the links that match a request with that cursor are exactly the ones
-- behind the page.
pub handle_list-pages :
    {J : Type 0} (json : JsonValues J) (before_1970 : ℕ → Bytes) (request : HttpRequest)
    (owner_id : ℕ) (r : HttpResponse) (t : MemoryRepository) (query : ListQuery)
    → IsValid t
    → read_list_query owner_id request ≡ accepted query
    → let found = matches t query in
      let next_cursor = cursor_behind query.limit found in
      Asks owner_id request query
      × (handle_list memory_repository json before_1970 request owner_id r t ≡ (
        t,
        set_json json HttpStatusCode.ok
            (codes "OK")
            (page_of json before_1970 (take query.limit found) next_cursor)
            r,
      ))
      × ((length found ≤ query.limit) → next_cursor ≡ none)
      × ((query.limit < length found)
          → (id : ℕ) × (next_cursor ≡ some id)
            × (matches t (record query { cursor = id }) ≡ drop query.limit found))
unfolding handle_list
handle_list-pages json before_1970 request owner_id r t query v e =
    let found = matches t query in
    let asks = read_list_query-Asks owner_id request query e in
    (
      asks,
      ap (λ q. answer_list memory_repository json before_1970 q r t) e
          ∙ answer_list-take json before_1970 r t query
          ∙ ap (λ (reply : HandlerReply). (t, reply))
              (answer_page-take json before_1970 query.limit found r asks.some_link),
      (λ short. ground arith),
      λ long. (
        last_id 0 (take query.limit found),
        ground arith,
        rest_behind t query _ v (last_id-start query.cursor query.limit found asks.some_link long),
      ),
    )
