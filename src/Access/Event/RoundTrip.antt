-- ===== src/Access/Event/RoundTrip.antt =====
-- A written event is read back, and what is read is valid.
use hao_short_link.Prelude.{
  Bool-cases, Bytes, List, Option-cases, ap, arith, bytes_beq, bytes_eq, codes, inl, inr, nat_eq,
  none, refl, some, sym, true, ◌==◌, ◌>>=◌, ◌∙◌, ◌≡◌, ◌≢◌,
}
use hao_short_link.Prelude.Int.{int_beq_iff, int_eq, ℤ}
use hao_short_link.Prelude.Map.{lookup, pair_eq}
use hao_short_link.Access.Event.{
  AccessEvent, AccessEventParseError, AccessEventParseResult, AccessEventResult, Field, JsonLibrary,
  ReadsAs, accept, access_event_result_to_string, event_type, expected_http_status, fields,
  is_valid_access_event, number, number_member, parse_access_event_detailed,
  parse_access_event_result, read_event, read_object, read_typed, refused, schema_version,
  serialize_access_event, text, text_member, to_int,
}
use hao_short_link.ShortLink.Record.{status_eq}
use mathlib.Core.Option.{none-ne-some}

some_is {ℓ} : {A : Type ℓ} (a b : A) → some a ≡ some b → a ≡ b
some_is a b e = cc

-- The library's documented behaviour: a dumped object is parsed as an object with its members.
pub record JsonLaws {Value : Type 0} (json : JsonLibrary Value) : Type 0 where
  pub written :
      (members : List (Bytes × Field)) (payload : Bytes)
      → json.dump members ≡ some payload
      → (j : Value) × (json.parse payload ≡ some j)
        × (json.is_object j ≡ true)
        × ((name : Bytes) (value : Field)
            → lookup name members ≡ some value
            → ReadsAs json value (json.member j name))

parse_access_event_result-to_string :
    (result : AccessEventResult)
    → parse_access_event_result (access_event_result_to_string result) ≡ some result
unfolding parse_access_event_result access_event_result_to_string bytes_beq
parse_access_event_result-to_string AccessEventResult.success = refl
parse_access_event_result-to_string AccessEventResult.not_found = refl
parse_access_event_result-to_string AccessEventResult.disabled = refl
parse_access_event_result-to_string AccessEventResult.expired = refl
parse_access_event_result-to_string AccessEventResult.error = refl

to_int-status :
    (result : AccessEventResult)
    → to_int (expected_http_status result) ≡ expected_http_status result
unfolding to_int expected_http_status
to_int-status AccessEventResult.success = refl
to_int-status AccessEventResult.not_found = refl
to_int-status AccessEventResult.disabled = refl
to_int-status AccessEventResult.expired = refl
to_int-status AccessEventResult.error = refl

status-valid :
    (event : AccessEvent)
    → is_valid_access_event event ≡ true
    → event.http_status ≡ expected_http_status event.result
unfolding is_valid_access_event
status-valid event h =
    ground (arith, int_beq_iff event.http_status (expected_http_status event.result))

-- The event is valid and there is no error, or there is an error.
abbrev pub Explained : AccessEventParseResult → Type 0
Explained res =
    ((event : AccessEvent)
      → res.event ≡ some event
      → (res.error ≡ AccessEventParseError.no_error) × (is_valid_access_event event ≡ true))
    × (res.event ≡ none → res.error ≢ AccessEventParseError.no_error)

refused-Explained :
    (e : AccessEventParseError) → e ≢ AccessEventParseError.no_error → Explained (refused e)
refused-Explained e ne = (λ event found. absurd (none-ne-some event found), λ _. ne)

accept-Explained : (event : AccessEvent) → Explained (accept event)
unfolding accept
accept-Explained event = elim (Bool-cases (is_valid_access_event event)) [
  | inl valid ↦
      rw (accept, valid)
        (
          λ other found. (refl, ap is_valid_access_event (sym (some_is _ _ found)) ∙ valid),
          λ missing. absurd (none-ne-some event (sym missing)),
        )
  | inr bad ↦ rw (accept, bad) (refused-Explained _ (ground arith))
]

same_version : (to_int schema_version == schema_version) ≡ true
unfolding to_int
same_version = refl

same_status :
    (event : AccessEvent)
    → is_valid_access_event event ≡ true
    → to_int event.http_status ≡ event.http_status
same_status event valid =
    ap to_int (status-valid event valid)
    ∙ to_int-status event.result
    ∙ sym (status-valid event valid)

module _ {Value : Type 0} (json : JsonLibrary Value) where
  text-reads :
      (j : Value) (name value : Bytes)
      → ReadsAs json (text value) (json.member j name)
      → text_member json j name ≡ some value
  text-reads j name value (k, found, is) = rw (found, ◌>>=◌) is

  number-reads :
      (j : Value) (name : Bytes) (value : ℤ)
      → ReadsAs json (number value) (json.member j name)
      → number_member json j name ≡ some value
  number-reads j name value (k, found, is) = rw (found, ◌>>=◌) is

  read_event-fields :
      (event : AccessEvent) (j : Value)
      → is_valid_access_event event ≡ true
      → ((name : Bytes) (value : Field)
          → lookup name (fields event) ≡ some value
          → ReadsAs json value (json.member j name))
      → read_event json j ≡ some event
  unfolding read_event fields lookup bytes_beq
  read_event-fields event j valid has =
      rw
        (
          text-reads j (codes "event_id") _ (has (codes "event_id") _ refl),
          number-reads j (codes "occurred_at_ms") _ (has (codes "occurred_at_ms") _ refl),
          text-reads j (codes "request_id") _ (has (codes "request_id") _ refl),
          text-reads j (codes "code") _ (has (codes "code") _ refl),
          text-reads j (codes "result") _ (has (codes "result") _ refl),
          number-reads j (codes "http_status") _ (has (codes "http_status") _ refl),
          parse_access_event_result-to_string event.result,
        )
        (ap (λ (status : ℤ). some (record event { http_status = status }))
          (same_status event valid))

  read_typed-fields :
      (event : AccessEvent) (j : Value)
      → is_valid_access_event event ≡ true
      → text_member json j (codes "event_type") ≡ some event_type
      → read_event json j ≡ some event
      → read_typed json j ≡ record { event = some event; error = AccessEventParseError.no_error }
  unfolding read_typed accept bytes_beq
  read_typed-fields event j valid kind read = rw (read_typed, kind, read, accept, valid)

  -- An event that could be written is read back as that event.
  pub parse-serialize_access_event :
      (event : AccessEvent) (payload : Bytes)
      → JsonLaws json
      → serialize_access_event json event ≡ some payload
      → parse_access_event_detailed json payload
        ≡ record { event = some event; error = AccessEventParseError.no_error }
  unfolding serialize_access_event parse_access_event_detailed fields lookup bytes_beq read_object
  parse-serialize_access_event event payload laws e =
      elim (Bool-cases (is_valid_access_event event)) [
        | inr bad ↦ absurd (none-ne-some payload (rw (serialize_access_event, bad) at e))
        | inl valid ↦
            let dumped = rw (serialize_access_event, valid) at e in
            let (j, parsed, object, has) = laws.written (fields event) payload dumped in
            let version =
              number-reads j (codes "schema_version") schema_version
                (has (codes "schema_version") _ refl) in
            let kind =
              text-reads j (codes "event_type") event_type (has (codes "event_type") _ refl) in
            rw (parse_access_event_detailed, parsed, object, read_object, version, same_version)
              (read_typed-fields event j valid kind (read_event-fields event j valid has))
      ]

  read_typed-Explained : (j : Value) → Explained (read_typed json j)
  unfolding read_typed
  read_typed-Explained j = elim (Option-cases (text_member json j (codes "event_type"))) [
    | inl missing ↦ rw (read_typed, missing) (refused-Explained _ (ground arith))
    | inr (kind, e) ↦ elim (Bool-cases (kind == event_type)) [
      | inr other ↦ rw (read_typed, e, other) (refused-Explained _ (ground arith))
      | inl same ↦ elim (Option-cases (read_event json j)) [
        | inl unread ↦ rw (read_typed, e, same, unread) (refused-Explained _ (ground arith))
        | inr (event, read) ↦ rw (read_typed, e, same, read) (accept-Explained event)
      ]
    ]
  ]

  read_object-Explained : (j : Value) → Explained (read_object json j)
  unfolding read_object
  read_object-Explained j = elim (Option-cases (number_member json j (codes "schema_version"))) [
    | inl missing ↦ rw (read_object, missing) (refused-Explained _ (ground arith))
    | inr (version, e) ↦ elim (Bool-cases (to_int version == schema_version)) [
      | inr other ↦ rw (read_object, e, other) (refused-Explained _ (ground arith))
      | inl same ↦ rw (read_object, e, same) (read_typed-Explained j)
    ]
  ]

  -- A payload is read as an event only if the event is valid, and then no error is reported; if no
  -- event is read, an error is.
  pub parse_access_event_detailed-Explained :
      (payload : Bytes) → Explained (parse_access_event_detailed json payload)
  unfolding parse_access_event_detailed
  parse_access_event_detailed-Explained payload = elim (Option-cases (json.parse payload)) [
    | inl bad ↦ rw (parse_access_event_detailed, bad) (refused-Explained _ (ground arith))
    | inr (j, e) ↦ elim (Bool-cases (json.is_object j)) [
      | inr other ↦ rw (parse_access_event_detailed, e, other) (refused-Explained _ (ground arith))
      | inl is ↦ rw (parse_access_event_detailed, e, is) (read_object-Explained j)
    ]
  ]
