-- ===== src/Http/Request.antt =====
-- HttpServer: src/http/HttpRequest.cpp and its header. A pair of pointers into the buffer is the text
-- between them. The time of receipt and the request's id are left out of the record where no code
-- modelled here reads them.
use hao_short_link.Prelude.{
  Bool, Bytes, Eq, List, Option, [], arith, bytes_eq, codes, false, if◌then◌else◌, is_empty, leb,
  ltb, map, nat_eq, none, not, some, true, ℕ, ◌&&◌, ◌++◌, ◌+◌, ◌==◌, ◌>>=◌, ◌||◌, ◌↔◌, ◌∷◌, ◌≡◌,
}
use hao_short_link.Prelude.Int.{int_eq}
use hao_short_link.Prelude.Map.{insert, lookup, pair_eq}
use hao_short_link.Decimal.{is_space, skip_space}

pub data Method : Type 0 where
  invalid get post head put delete options : Method

abbrev pub method_number : Method → ℕ
method_number Method.invalid = 0
method_number Method.get = 1
method_number Method.post = 2
method_number Method.head = 3
method_number Method.put = 4
method_number Method.delete = 5
method_number Method.options = 6

abbrev pub method_beq : Method → Method → Bool
method_beq a b = method_number a == method_number b

pub method_beq_iff : (a b : Method) → (method_beq a b ≡ true) ↔ (a ≡ b)
method_beq_iff a b = ground arith

instance abbrev pub method_eq : Eq Method
method_eq = record { equal = method_beq; equal_iff = method_beq_iff }

-- `headers_` is a `std::map`, whose order the search without case follows; the two other maps are
-- never walked.
pub record HttpRequest : Type 0 where
  pub method : Method
  pub version : Bytes
  pub path : Bytes
  pub path_parameters : List (Bytes × Bytes)
  pub query_parameters : List (Bytes × Bytes)
  pub receive_time : ℕ
  pub headers : List (Bytes × Bytes)
  pub request_id : Bytes
  pub content : Bytes
  pub content_length : ℕ

abbrev pub initial_request : HttpRequest
initial_request = record {
  method = Method.invalid;
  version = codes "Unknown";
  path = [];
  path_parameters = [];
  query_parameters = [];
  receive_time = 0;
  headers = [];
  request_id = [];
  content = [];
  content_length = 0;
}

-- The text in front of the first `c` and the text behind it.
unfoldable pub split_at : ℕ → Bytes → Option (Bytes × Bytes)
split_at c [] = none
split_at c (b ∷ s) =
    if b == c then some ([], s) else (do (front, behind) ← split_at c s; some (b ∷ front, behind))

unfoldable pub method_of : Bytes → Method
method_of m =
    if m == codes "GET"
    then Method.get
    else if m == codes "POST"
    then Method.post
    else if m == codes "PUT"
    then Method.put
    else if m == codes "DELETE"
    then Method.delete
    else if m == codes "OPTIONS"
    then Method.options
    else Method.invalid

-- The request with its new method, and whether that is a known one.
unfoldable pub set_method : Bytes → HttpRequest → HttpRequest × Bool
set_method m r = (record r { method = method_of m }, not (method_of m == Method.invalid))

unfoldable pub set_path_parameters : Bytes → Bytes → HttpRequest → HttpRequest
set_path_parameters key value r = record r { path_parameters = insert key value r.path_parameters }

abbrev or_empty : Option Bytes → Bytes
or_empty none = []
or_empty (some s) = s

unfoldable pub get_path_parameters : Bytes → HttpRequest → Bytes
get_path_parameters key r = or_empty (lookup key r.path_parameters)

unfoldable pub get_query_parameters : Bytes → HttpRequest → Bytes
get_query_parameters key r = or_empty (lookup key r.query_parameters)

-- One parameter between two `&`; without a `=` it is dropped.
abbrev add_pair : Bytes → List (Bytes × Bytes) → List (Bytes × Bytes)
add_pair pair parameters = elim (split_at b'=' pair) [
  | none ↦ parameters
  | some (key, value) ↦ insert key value parameters
]

-- The loop over the text `pending ++ rest`, whose part `pending` holds no `&`.
unfoldable pub add_pairs : Bytes → Bytes → List (Bytes × Bytes) → List (Bytes × Bytes)
add_pairs pending [] parameters = add_pair pending parameters
add_pairs pending (c ∷ rest) parameters =
    let same = c == b'&' in
    add_pairs (if same then [] else pending ++ (c ∷ [])) rest
      (if same then add_pair pending parameters else parameters)

unfoldable pub set_query_parameters : Bytes → HttpRequest → HttpRequest
set_query_parameters argument r = record r {
  query_parameters = add_pairs [] argument r.query_parameters;
}

-- `operator<` of `std::string`.
abbrev bytes_ltb : Bytes → Bytes → Bool
bytes_ltb [] [] = false
bytes_ltb [] (d ∷ t) = true
bytes_ltb (c ∷ s) [] = false
bytes_ltb (c ∷ s) (d ∷ t) = ltb c d || (c == d && bytes_ltb s t)

-- `map[key] = value`, in the order of the keys.
unfoldable pub insert_in_order : Bytes → Bytes → List (Bytes × Bytes) → List (Bytes × Bytes)
insert_in_order key value [] = (key, value) ∷ []
insert_in_order key value ((k, v) ∷ rest) =
    if k == key
    then (key, value) ∷ rest
    else if bytes_ltb key k
    then (key, value) ∷ (k, v) ∷ rest
    else (k, v) ∷ insert_in_order key value rest

unfoldable pub trim_end : Bytes → Bytes
trim_end [] = []
trim_end (c ∷ s) = let rest = trim_end s in if is_space c && is_empty rest then [] else c ∷ rest

-- The line without its end, cut at its first colon.
unfoldable pub add_header : Bytes → Bytes → HttpRequest → HttpRequest
add_header key behind_colon r = record r {
  headers = insert_in_order key (trim_end (skip_space behind_colon)) r.headers;
}

abbrev pub to_lower : ℕ → ℕ
to_lower c = if leb 65 c && leb c 90 then c + 32 else c

abbrev pub lower : Bytes → Bytes
lower = map to_lower

unfoldable pub find_ignoring_case : Bytes → List (Bytes × Bytes) → Bytes
find_ignoring_case field [] = []
find_ignoring_case field ((k, v) ∷ rest) =
    if lower k == lower field then v else find_ignoring_case field rest

unfoldable pub get_header : Bytes → HttpRequest → Bytes
get_header field r = elim (lookup field r.headers) [
  | some value ↦ value
  | none ↦ find_ignoring_case field r.headers
]
