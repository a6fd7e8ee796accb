-- ===== src/Api/Links/Asked.antt =====
-- What the parameters of a request for links ask for, in `handleList` of src/ShortLinkHttpApi.cpp.
use hao_short_link.Prelude.{
  Bool-cases, Bytes, Option, Option-cases, arith, bytes_eq, codes, if◌then◌else◌, inl, inr,
  is_empty, nat_eq, none, refl, some, ℕ, ◌≡◌, ◌≤◌,
}
use hao_short_link.Prelude.Int.{int_eq}
use hao_short_link.Prelude.Map.{pair_eq}
use hao_short_link.Api.Reading.{
  Reading, accepted, list_query, parse_unsigned, read_cursor, read_limit, read_list_query,
  read_status, rejected,
}
use hao_short_link.Http.Request.{HttpRequest, get_query_parameters}
use hao_short_link.ShortLink.Record.{ListQuery, Status, parse_status}
use mathlib.Core.Path.{subst}

pub accepted-injective {ℓ} : {A : Type ℓ} (a b : A) → accepted a ≡ accepted b → a ≡ b
accepted-injective a b e = cc

-- The number that a parameter gives, with what counts where it is missing.
abbrev pub number_asked : ℕ → Bytes → Option ℕ
number_asked missing value = if is_empty value then some missing else parse_unsigned value

abbrev pub status_asked : Bytes → Option Status
status_asked value = if is_empty value then none else parse_status value

-- The query is the one that the request's parameters ask for.
pub record Asks (owner_id : ℕ) (request : HttpRequest) (query : ListQuery) : Type 0 where
  pub of_owner : query.owner_id ≡ some owner_id
  pub from_cursor :
      number_asked 0 (get_query_parameters (codes "cursor") request) ≡ some query.cursor
  pub to_limit : number_asked 50 (get_query_parameters (codes "limit") request) ≡ some query.limit
  pub in_status : status_asked (get_query_parameters (codes "status") request) ≡ query.status
  pub some_link : 1 ≤ query.limit
  pub bounded : query.limit ≤ 100

read_cursor-asked :
    (value : Bytes) (n : ℕ) → read_cursor value ≡ accepted n → number_asked 0 value ≡ some n
unfolding read_cursor
read_cursor-asked value n e = elim (Bool-cases (is_empty value)) [
  | inl missing ↦ ground arith
  | inr given ↦ elim (Option-cases (parse_unsigned value)) [
    | inl bad ↦ ground arith
    | inr (m, good) ↦ ground arith
  ]
]

read_limit-asked :
    (value : Bytes) (n : ℕ)
    → read_limit value ≡ accepted n
    → (number_asked 50 value ≡ some n) × (1 ≤ n) × (n ≤ 100)
unfolding read_limit
read_limit-asked value n e = elim (Bool-cases (is_empty value)) [
  | inl missing ↦ ground arith
  | inr given ↦ elim (Option-cases (parse_unsigned value)) [
    | inl bad ↦ ground arith
    | inr (m, good) ↦ ground arith
  ]
]

read_status-asked :
    (value : Bytes) (status : Option Status)
    → read_status value ≡ accepted status
    → status_asked value ≡ status
unfolding read_status
read_status-asked value status e = elim (Bool-cases (is_empty value)) [
  | inl missing ↦ ground arith
  | inr given ↦ elim (Option-cases (parse_status value)) [
    | inl bad ↦ ground arith
    | inr (s, good) ↦ ground arith
  ]
]

-- An accepted query has three accepted parameters.
list_query-parts :
    (owner_id : ℕ) (cursor limit : Reading ℕ) (status : Reading (Option Status)) (query : ListQuery)
    → list_query owner_id cursor limit status ≡ accepted query
    → (query.owner_id ≡ some owner_id)
      × (cursor ≡ accepted query.cursor)
      × (limit ≡ accepted query.limit)
      × (status ≡ accepted query.status)
unfolding list_query
list_query-parts owner_id (rejected e m) limit status query p = ground arith
list_query-parts owner_id (accepted c) (rejected e m) status query p = ground arith
list_query-parts owner_id (accepted c) (accepted n) (rejected e m) query p = ground arith
list_query-parts owner_id (accepted c) (accepted n) (accepted status) query p =
    subst
      (λ (q : ListQuery).
        (q.owner_id ≡ some owner_id)
        × (accepted c ≡ accepted q.cursor)
        × (accepted n ≡ accepted q.limit)
        × (accepted status ≡ accepted q.status))
      (accepted-injective _ _ p) (refl, refl, refl, refl)

pub read_list_query-Asks :
    (owner_id : ℕ) (request : HttpRequest) (query : ListQuery)
    → read_list_query owner_id request ≡ accepted query
    → Asks owner_id request query
unfolding read_list_query
read_list_query-Asks owner_id request query e =
    let (owner, cursor, limit, status) = list_query-parts owner_id _ _ _ query e in
    let (given, least, most) = read_limit-asked _ query.limit limit in
    record {
      of_owner = owner;
      from_cursor = read_cursor-asked _ query.cursor cursor;
      to_limit = given;
      in_status = read_status-asked _ query.status status;
      some_link = least;
      bounded = most;
    }
