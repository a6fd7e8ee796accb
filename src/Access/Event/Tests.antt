-- ===== src/Access/Event/Tests.antt =====
-- A JSON library that knows one object, and an event at that object.
use hao_short_link.Prelude.{
  Bool, Bool-cases, Bytes, List, Option, [], ap, arith, bytes_beq, bytes_beq_iff, bytes_eq, codes,
  false, if◌then◌else◌, inl, inr, is_some, nat_eq, none, not, refl, some, sym, true, ◌&&◌, ◌==◌,
  ◌↔◌, ◌∙◌, ◌∷◌, ◌≡◌,
}
use hao_short_link.Prelude.Int.{int_beq_iff, int_eq, pos, ℤ}
use hao_short_link.Prelude.Map.{lookup, pair_eq}
use hao_short_link.Access.Event.{
  AccessEvent, AccessEventParseError, AccessEventResult, Field, JsonLibrary, ReadsAs,
  access_event_result_to_string, expected_http_status, fields, is_lowercase_hex, is_safe_request_id,
  is_valid_access_event, number, parse_access_event_detailed, serialize_access_event, text,
}
use hao_short_link.Access.Event.RoundTrip.{
  Explained, JsonLaws, parse-serialize_access_event, parse_access_event_detailed-Explained,
}
use hao_short_link.ShortLink.Record.{status_eq}
use mathlib.Core.Option
use mathlib.Core.Option.{none-ne-some}

abbrev event : AccessEvent
event = record {
  event_id = codes "00000000000000010000000000000002";
  occurred_at_ms = pos 1709208000000;
  request_id = codes "req-1";
  code = codes "docs";
  result = AccessEventResult.success;
  http_status = pos 302;
}

field_beq : Field → Field → Bool
field_beq (text s) (text t) = s == t
field_beq (number m) (number n) = m == n
field_beq (text s) (number n) = false
field_beq (number m) (text t) = false

field_beq_iff : (a b : Field) → (field_beq a b ≡ true) ↔ (a ≡ b)
unfolding field_beq
field_beq_iff (text s) (text t) = ground (arith, bytes_beq_iff s t)
field_beq_iff (number m) (number n) = ground (arith, int_beq_iff m n)
field_beq_iff (text s) (number n) = ground arith
field_beq_iff (number m) (text t) = ground arith

members_beq : List (Bytes × Field) → List (Bytes × Field) → Bool
members_beq [] [] = true
members_beq [] (b ∷ bs) = false
members_beq (a ∷ ms) [] = false
members_beq ((k, v) ∷ ms) ((l, w) ∷ bs) = (k == l) && (field_beq v w && members_beq ms bs)

members_beq-eq : (ms bs : List (Bytes × Field)) → members_beq ms bs ≡ true → ms ≡ bs
unfolding members_beq
members_beq-eq [] [] h = refl
members_beq-eq [] (b ∷ bs) h = ground arith
members_beq-eq (a ∷ ms) [] h = ground arith
members_beq-eq ((k, v) ∷ ms) ((l, w) ∷ bs) h =
    ground (arith, bytes_beq_iff k l, field_beq_iff v w, members_beq-eq ms bs)

sample : List (Bytes × Field)
unfolding fields access_event_result_to_string
sample = fields event

-- A value is the object, `none`, or one of its members.
sample_string : Option Field → Option Bytes
sample_string (some (text s)) = some s
sample_string (some (number n)) = none
sample_string none = none

sample_integer : Option Field → Option ℤ
sample_integer (some (number n)) = some n
sample_integer (some (text s)) = none
sample_integer none = none

abbrev library : JsonLibrary (Option Field)
library = record {
  dump = λ members. if members_beq members sample then some (codes "{}") else none;
  parse = λ payload. some none;
  is_object = λ j. not (is_some j);
  member = λ j name. Option.map some (lookup name sample);
  string = sample_string;
  integer = sample_integer;
}

reads :
    (value : Field) (found : Option Field)
    → found ≡ some value
    → ReadsAs library value (Option.map some found)
unfolding sample_string sample_integer
reads (text s) found e = (some (text s), ap (Option.map some) e, refl)
reads (number n) found e = (some (number n), ap (Option.map some) e, refl)

library-JsonLaws : JsonLaws library
library-JsonLaws = record {
  written = λ members payload e. elim (Bool-cases (members_beq members sample)) [
    | inl same ↦ (
      none,
      refl,
      refl,
      λ name value found.
          reads value (lookup name sample)
            (ap (lookup name) (sym (members_beq-eq members sample same)) ∙ found),
    )
    | inr other ↦ absurd (none-ne-some payload (rw other at e))
  ];
}

parse-serialize_access_event_example :
    parse_access_event_detailed library (codes "{}")
    ≡ record { event = some event; error = AccessEventParseError.no_error }
unfolding serialize_access_event is_valid_access_event is_lowercase_hex is_safe_request_id
    expected_http_status members_beq field_beq sample fields bytes_beq
parse-serialize_access_event_example =
    parse-serialize_access_event library event (codes "{}") library-JsonLaws refl

parse_access_event_detailed-Explained_example :
    Explained (parse_access_event_detailed library (codes "x"))
parse_access_event_detailed-Explained_example =
    parse_access_event_detailed-Explained library (codes "x")
