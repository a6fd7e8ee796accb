-- ===== src/Access/Event.antt =====
-- apps/shortlink_server: include/shortlink/AccessEvent.h and src/AccessEvent.cpp. The JSON library is
-- a parameter. Generating an id and reading the clock are left out.
pub mod RoundTrip
mod Tests
use hao_short_link.Prelude.{
  Bool, Bytes, List, Option, [], all_of, bytes_eq, codes, if◌then◌else◌, is_empty, leb, length, ltb,
  nat_eq, none, not, some, ℕ, ◌%◌, ◌&&◌, ◌-◌, ◌==◌, ◌>>=◌, ◌^◌, ◌||◌, ◌∷◌, ◌≡◌,
}
use hao_short_link.Prelude.Int.{int_eq, ltb_ℤ, negsuc, pos, ℤ}
use hao_short_link.Prelude.Map.{pair_eq}
use hao_short_link.ShortLink.Record.{status_eq}

pub data AccessEventResult : Type 0 where
  success not_found disabled expired error : AccessEventResult

pub record AccessEvent : Type 0 where
  pub event_id : Bytes
  pub occurred_at_ms : ℤ
  pub request_id : Bytes
  pub code : Bytes
  pub result : AccessEventResult
  pub http_status : ℤ

pub data AccessEventParseError : Type 0 where
  no_error invalid_json unsupported_schema unsupported_event_type invalid_contract :
      AccessEventParseError

pub record AccessEventParseResult : Type 0 where
  pub event : Option AccessEvent
  pub error : AccessEventParseError

abbrev pub event_id_length : ℕ
event_id_length = 32

abbrev pub max_request_id_length : ℕ
max_request_id_length = 64

abbrev pub max_code_length : ℕ
max_code_length = 128

abbrev pub schema_version : ℤ
schema_version = pos 1

abbrev pub event_type : Bytes
event_type = codes "short_link_access"

unfoldable pub is_lowercase_hex : Bytes → Bool
is_lowercase_hex value =
    (length value == event_id_length)
    && all_of (λ ch. (leb b'0' ch && leb ch b'9') || (leb b'a' ch && leb ch b'f')) value

unfoldable pub is_safe_request_id : Bytes → Bool
is_safe_request_id value =
    not (is_empty value)
    && leb (length value) max_request_id_length
    && all_of
        (λ ch.
          (leb b'a' ch && leb ch b'z')
          || (leb b'A' ch && leb ch b'Z')
          || (leb b'0' ch && leb ch b'9')
          || (ch == b'.')
          || (ch == b'_')
          || (ch == b'-'))
        value

unfoldable pub expected_http_status : AccessEventResult → ℤ
expected_http_status AccessEventResult.success = pos 302
expected_http_status AccessEventResult.not_found = pos 404
expected_http_status AccessEventResult.disabled = pos 404
expected_http_status AccessEventResult.expired = pos 404
expected_http_status AccessEventResult.error = pos 500

unfoldable pub access_event_result_to_string : AccessEventResult → Bytes
access_event_result_to_string AccessEventResult.success = codes "success"
access_event_result_to_string AccessEventResult.not_found = codes "not_found"
access_event_result_to_string AccessEventResult.disabled = codes "disabled"
access_event_result_to_string AccessEventResult.expired = codes "expired"
access_event_result_to_string AccessEventResult.error = codes "error"

unfoldable pub parse_access_event_result : Bytes → Option AccessEventResult
parse_access_event_result value =
    if value == codes "success"
    then some AccessEventResult.success
    else if value == codes "not_found"
    then some AccessEventResult.not_found
    else if value == codes "disabled"
    then some AccessEventResult.disabled
    else if value == codes "expired"
    then some AccessEventResult.expired
    else if value == codes "error"
    then some AccessEventResult.error
    else none

unfoldable pub is_valid_access_event : AccessEvent → Bool
is_valid_access_event event =
    is_lowercase_hex event.event_id
    && ltb_ℤ (pos 0) event.occurred_at_ms
    && is_safe_request_id event.request_id
    && not (is_empty event.code)
    && leb (length event.code) max_code_length
    && (event.http_status == expected_http_status event.result)

-- A member of an object that is written.
pub data Field : Type 0 where
  text : Bytes → Field
  number : ℤ → Field

-- What the code uses of the JSON library. `dump` throws on a text that is not UTF-8, and `parse`
-- without exceptions gives a discarded value on a text that is not JSON: both are `none`. `string`
-- and `integer` are the type tests with the `get` behind them, for int64.
pub record JsonLibrary (Value : Type 0) : Type 0 where
  pub dump : List (Bytes × Field) → Option Bytes
  pub parse : Bytes → Option Value
  pub is_object : Value → Bool
  pub member : Value → Bytes → Option Value
  pub string : Value → Option Bytes
  pub integer : Value → Option ℤ

-- `get<int>` of an integer: the conversion keeps the low 32 bits.
unfoldable pub to_int : ℤ → ℤ
to_int (pos n) =
    let low = n % 2 ^ 32 in if ltb low (2 ^ 31) then pos low else negsuc (2 ^ 32 - low - 1)
to_int (negsuc n) =
    let low = n % 2 ^ 32 in if ltb low (2 ^ 31) then negsuc low else pos (2 ^ 32 - low - 1)

unfoldable pub fields : AccessEvent → List (Bytes × Field)
fields event =
    (codes "schema_version", number schema_version)
    ∷ (codes "event_type", text event_type)
    ∷ (codes "event_id", text event.event_id)
    ∷ (codes "occurred_at_ms", number event.occurred_at_ms)
    ∷ (codes "request_id", text event.request_id)
    ∷ (codes "code", text event.code)
    ∷ (codes "result", text (access_event_result_to_string event.result))
    ∷ (codes "http_status", number event.http_status)
    ∷ []

abbrev pub refused : AccessEventParseError → AccessEventParseResult
refused e = record { event = none; error = e }

-- The last test, of the event that has been put together.
unfoldable pub accept : AccessEvent → AccessEventParseResult
accept event =
    if is_valid_access_event event
    then record { event = some event; error = AccessEventParseError.no_error }
    else refused AccessEventParseError.invalid_contract

module _ {Value : Type 0} (json : JsonLibrary Value) where
  -- The value that a member is read as.
  abbrev pub ReadsAs : Field → Option Value → Type 0
  ReadsAs (text value) found = (j : Value) × (found ≡ some j) × (json.string j ≡ some value)
  ReadsAs (number value) found = (j : Value) × (found ≡ some j) × (json.integer j ≡ some value)

  -- An invalid event throws, as does the library: `none`.
  unfoldable pub serialize_access_event : AccessEvent → Option Bytes
  serialize_access_event event =
      if is_valid_access_event event then json.dump (fields event) else none

  abbrev pub text_member : Value → Bytes → Option Bytes
  text_member j name = json.member j name >>= json.string

  abbrev pub number_member : Value → Bytes → Option ℤ
  number_member j name = json.member j name >>= json.integer

  -- The members after the schema and the type.
  unfoldable pub read_event : Value → Option AccessEvent
  read_event j = do
    event_id ← text_member j (codes "event_id")
    occurred_at_ms ← number_member j (codes "occurred_at_ms")
    request_id ← text_member j (codes "request_id")
    code ← text_member j (codes "code")
    result_text ← text_member j (codes "result")
    http_status ← number_member j (codes "http_status")
    result ← parse_access_event_result result_text
    some (record {
      event_id = event_id;
      occurred_at_ms = occurred_at_ms;
      request_id = request_id;
      code = code;
      result = result;
      http_status = to_int http_status;
    })

  unfoldable pub read_typed : Value → AccessEventParseResult
  read_typed j = elim (text_member j (codes "event_type")) [
    | none ↦ refused AccessEventParseError.invalid_contract
    | some kind ↦
        if not (kind == event_type)
        then refused AccessEventParseError.unsupported_event_type
        else elim (read_event j) [
          | none ↦ refused AccessEventParseError.invalid_contract
          | some event ↦ accept event
        ]
  ]

  unfoldable pub read_object : Value → AccessEventParseResult
  read_object j = elim (number_member j (codes "schema_version")) [
    | none ↦ refused AccessEventParseError.invalid_contract
    | some version ↦
        if not (to_int version == schema_version)
        then refused AccessEventParseError.unsupported_schema
        else read_typed j
  ]

  unfoldable pub parse_access_event_detailed : Bytes → AccessEventParseResult
  parse_access_event_detailed payload = elim (json.parse payload) [
    | none ↦ refused AccessEventParseError.invalid_json
    | some j ↦
        if not (json.is_object j)
        then refused AccessEventParseError.invalid_contract
        else read_object j
  ]

  unfoldable pub parse_access_event : Bytes → Option AccessEvent
  parse_access_event payload = (parse_access_event_detailed payload).event
