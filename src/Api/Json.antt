-- ===== src/Api/Json.antt =====
-- apps/shortlink_server: what the handlers of src/AuthHttp.cpp and src/ShortLinkHttpApi.cpp share:
-- the JSON library that they call, JSON answers and times.
-- What the code uses of the JSON library. `object` keeps the last value of a name; `dump` throws on a
-- text that is not UTF-8, and `parse` without exceptions gives a discarded value on a text that is
-- not JSON: both are `none`. `members` are those of `items()`, for an object only.
use hao_short_link.Prelude.{
  Bool, Bytes, List, Option, [], bytes_eq, codes, nat_eq, none, some, starts_with, ℕ, ◌||◌, ◌∷◌,
}
use hao_short_link.Prelude.Int.{int_eq, negsuc, pos, ℤ}
use hao_short_link.Prelude.Map.{pair_eq}
use hao_short_link.Http.Request.{HttpRequest, get_header}
use hao_short_link.Http.Response.{HttpResponse, HttpStatusCode, set_json_body, set_status}
use hao_short_link.ShortLink.Timestamp.{format_utc_timestamp}

pub record JsonValues (J : Type 0) : Type 0 where
  pub null : J
  pub text : Bytes → J
  pub number : ℕ → J
  pub array : List J → J
  pub object : List (Bytes × J) → J
  pub dump : J → Option Bytes
  pub parse : Bytes → Option J
  pub members : J → Option (List (Bytes × J))
  pub as_text : J → Option Bytes
  pub is_null : J → Bool

-- A handler answers, or an exception leaves it, with what was written to the response by then.
pub data HandlerReply : Type 0 where
  replied : HttpResponse → HandlerReply
  left_with : HttpResponse → HandlerReply

-- `find(needle) != npos`
unfoldable pub contains : Bytes → Bytes → Bool
contains needle [] = starts_with [] needle
contains needle (c ∷ s) = starts_with (c ∷ s) needle || contains needle s

unfoldable pub has_json_content_type : HttpRequest → Bool
has_json_content_type request =
    contains (codes "application/json") (get_header (codes "Content-Type") request)

-- `formatUtcTimestamp`, where the C library prints the times before 1970.
unfoldable pub format_time : (ℕ → Bytes) → ℤ → Bytes
format_time before_1970 (pos n) = format_utc_timestamp n
format_time before_1970 (negsuc n) = before_1970 n

abbrev pub reply_printed : Option Bytes → HttpResponse → HandlerReply
reply_printed none r = left_with r
reply_printed (some s) r = replied (set_json_body s r)

module _ {J : Type 0} (json : JsonValues J) where
  unfoldable pub set_json : HttpStatusCode → Bytes → J → HttpResponse → HandlerReply
  set_json status message body r = reply_printed (json.dump body) (set_status status message r)

  abbrev pub null_or {ℓ} : {A : Type ℓ} → (A → J) → Option A → J
  null_or print none = json.null
  null_or print (some a) = print a
