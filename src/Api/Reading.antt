-- ===== src/Api/Reading.antt =====
-- apps/shortlink_server: how the handlers of src/ShortLinkHttpApi.cpp read a request.
pub mod Unsigned
use hao_short_link.Prelude.{
  Bool, Bytes, List, Option, [], all_of, bytes_eq, codes, false, if◌then◌else◌, is_digit, is_empty,
  length, ltb, nat_eq, none, not, some, true, ℕ, ◌*◌, ◌+◌, ◌-◌, ◌/◌, ◌==◌, ◌>>=◌, ◌^◌, ◌||◌, ◌∷◌,
}
use hao_short_link.Prelude.Int.{int_eq, leb_ℤ, ℤ}
use hao_short_link.Prelude.Map.{lookup, pair_eq}
use hao_short_link.Api.Json.{JsonValues, has_json_content_type}
use hao_short_link.Http.Request.{HttpRequest, get_query_parameters}
use hao_short_link.ShortLink.Record.{LifecycleUpdate, ListQuery, Status, parse_status, status_eq}
use hao_short_link.ShortLink.Timestamp.{parse_utc_timestamp}

-- A request that is read, or the code and the message of the error that it is refused with.
pub data Reading {ℓ} (A : Type ℓ) : Type ℓ where
  rejected : Bytes → Bytes → Reading A
  accepted : A → Reading A

-- `result > (max - digit) / 10` guards the overflow.
unfoldable pub parse_unsigned_from : ℕ → Bytes → Option ℕ
parse_unsigned_from result [] = some result
parse_unsigned_from result (ch ∷ value) =
    let digit = ch - b'0' in
    let rest = parse_unsigned_from (result * 10 + digit) value in
    if not (is_digit ch) || ltb ((2 ^ 64 - 1 - digit) / 10) result then none else rest

unfoldable pub parse_unsigned : Bytes → Option ℕ
parse_unsigned value = if is_empty value then none else parse_unsigned_from 0 value

-- The parameters of the query of `handleList`.
unfoldable pub read_cursor : Bytes → Reading ℕ
read_cursor value = if is_empty value then accepted 0 else elim (parse_unsigned value) [
  | none ↦ rejected (codes "invalid_cursor") (codes "cursor must be an unsigned integer")
  | some cursor ↦ accepted cursor
]

unfoldable pub read_limit : Bytes → Reading ℕ
read_limit value =
    let refusal = rejected (codes "invalid_limit") (codes "limit must be between 1 and 100") in
    if is_empty value then accepted 50 else elim (parse_unsigned value) [
      | none ↦ refusal
      | some limit ↦ if ltb limit 1 || ltb 100 limit then refusal else accepted limit
    ]

unfoldable pub read_status : Bytes → Reading (Option Status)
read_status value = if is_empty value then accepted none else elim (parse_status value) [
  | none ↦ rejected (codes "invalid_status") (codes "status must be active or disabled")
  | some status ↦ accepted (some status)
]

-- The first parameter that is refused refuses the request.
unfoldable pub list_query : ℕ → Reading ℕ → Reading ℕ → Reading (Option Status) → Reading ListQuery
list_query owner_id (rejected e m) limit status = rejected e m
list_query owner_id (accepted cursor) (rejected e m) status = rejected e m
list_query owner_id (accepted cursor) (accepted limit) (rejected e m) = rejected e m
list_query owner_id (accepted cursor) (accepted limit) (accepted status) =
    accepted (record { cursor = cursor; limit = limit; owner_id = some owner_id; status = status })

-- The query, with the limit that was asked for: one more is fetched.
unfoldable pub read_list_query : ℕ → HttpRequest → Reading ListQuery
read_list_query owner_id request =
    list_query owner_id (read_cursor (get_query_parameters (codes "cursor") request))
      (read_limit (get_query_parameters (codes "limit") request))
      (read_status (get_query_parameters (codes "status") request))

abbrev pub no_change : ℕ → LifecycleUpdate
no_change owner_id = record {
  status = none;
  expires_at_provided = false;
  expires_at = none;
  owner_id = some owner_id;
}

module _ {J : Type 0} (json : JsonValues J) where
  unfoldable pub parse_object : HttpRequest → Reading (List (Bytes × J))
  parse_object request =
      if not (has_json_content_type request) || ltb 16384 (length request.content)
      then rejected (codes "invalid_request") (codes "Content-Type must be application/json")
      else elim (json.parse request.content >>= json.members) [
        | none ↦ rejected (codes "invalid_request") (codes "Request body must be a JSON object")
        | some members ↦ accepted members
      ]

  abbrev is_create_field : Bytes → Bool
  is_create_field key =
      (key == codes "url") || (key == codes "expires_at") || (key == codes "custom_code")

  -- The time that a new link ends, `now` being the handler's look at the clock.
  unfoldable pub read_expiry : ℤ → Option J → Reading (Option ℤ)
  read_expiry now none = accepted none
  read_expiry now (some j) =
      if json.is_null j then accepted none else elim (json.as_text j >>= parse_utc_timestamp) [
        | none ↦ rejected (codes "invalid_expires_at") (codes "expires_at must be a UTC timestamp")
        | some expires_at ↦
            if leb_ℤ expires_at now
            then rejected (codes "invalid_expires_at") (codes "expires_at must be in the future")
            else accepted (some expires_at)
      ]

  unfoldable pub read_custom_code : Option J → Reading (Option Bytes)
  read_custom_code none = accepted none
  read_custom_code (some j) = if json.is_null j then accepted none else elim (json.as_text j) [
    | none ↦ rejected (codes "invalid_custom_code") (codes "custom_code must be a string")
    | some custom_code ↦ accepted (some custom_code)
  ]

  -- The target, the end and the code that a creation asks for.
  unfoldable pub read_create : ℤ → List (Bytes × J) → Reading (Bytes × Option ℤ × Option Bytes)
  read_create now members =
      if not (all_of (λ item. is_create_field item.0) members)
      then rejected (codes "invalid_request") (codes "Unknown create field")
      else elim (lookup (codes "url") members >>= json.as_text) [
        | none ↦ rejected (codes "invalid_request") (codes "url must be a string")
        | some url ↦ elim (read_expiry now (lookup (codes "expires_at") members)) [
          | rejected e m ↦ rejected e m
          | accepted expires_at ↦ elim (read_custom_code (lookup (codes "custom_code") members)) [
            | rejected e m ↦ rejected e m
            | accepted custom_code ↦ accepted (url, expires_at, custom_code)
          ]
        ]
      ]

  unfoldable pub read_creation :
      ℤ → Reading (List (Bytes × J)) → Reading (Bytes × Option ℤ × Option Bytes)
  read_creation now (rejected e m) = rejected e m
  read_creation now (accepted members) = read_create now members

  -- What a field of an update changes; the first two tests are the conditions of the source's `if`s.
  unfoldable pub read_status_field : J → LifecycleUpdate → Option (Reading LifecycleUpdate)
  read_status_field value update = elim (json.as_text value) [
    | none ↦ none
    | some text ↦ elim (parse_status text) [
      | none ↦ some (rejected (codes "invalid_status") (codes "status must be active or disabled"))
      | some status ↦ some (accepted (record update { status = some status }))
    ]
  ]

  unfoldable pub read_end_field : J → LifecycleUpdate → Reading LifecycleUpdate
  read_end_field value update =
      if json.is_null value
      then accepted (record update { expires_at_provided = true })
      else elim (json.as_text value >>= parse_utc_timestamp) [
        | none ↦
            rejected (codes "invalid_expires_at")
              (codes "expires_at must be null or a UTC timestamp")
        | some expires_at ↦
            accepted (record update { expires_at_provided = true; expires_at = some expires_at })
      ]

  abbrev unknown_field : Reading LifecycleUpdate
  unknown_field =
      rejected (codes "invalid_request") (codes "Only status and expires_at may be updated")

  unfoldable pub read_field : Bytes → J → LifecycleUpdate → Reading LifecycleUpdate
  read_field key value update =
      if key == codes "status"
      then elim (read_status_field value update) [ some reading ↦ reading | none ↦ unknown_field ]
      else if key == codes "expires_at"
      then read_end_field value update
      else unknown_field

  -- The fields of an update, in the order of their names.
  unfoldable pub read_update : List (Bytes × J) → LifecycleUpdate → Reading LifecycleUpdate
  read_update [] update = accepted update
  read_update ((key, value) ∷ rest) update = elim (read_field key value update) [
    | rejected e m ↦ rejected e m
    | accepted changed ↦ read_update rest changed
  ]

  -- The change that a request of the user asks for; a change has one field or two.
  unfoldable pub read_change : ℕ → Reading (List (Bytes × J)) → Reading LifecycleUpdate
  read_change owner_id (rejected e m) = rejected e m
  read_change owner_id (accepted members) =
      if (length members == 0) || ltb 2 (length members)
      then unknown_field
      else read_update members (no_change owner_id)
