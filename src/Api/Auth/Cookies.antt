-- ===== src/Api/Auth/Cookies.antt =====
-- The Cookie header that a client sends, and `sessionTokenFromRequest` of src/AuthHttp.cpp on it.
use hao_short_link.Prelude.{
  All, All-append, Bytes, Lacks, List, [], ap, append-nil, append_assoc, arith, bytes_eq, codes,
  false, if◌then◌else◌, length, length-append, nat_eq, none, refl, some, suc, sym, zero, ℕ, ◌++◌,
  ◌==◌, ◌∙◌, ◌∷◌, ◌≡◌, ◌≢◌, ◌≤◌,
}
use hao_short_link.Prelude.Int.{int_eq}
use hao_short_link.Prelude.Map.{lookup, pair_eq}
use hao_short_link.Api.Auth.{
  AuthHttpConfig, if_named, or_later, or_nothing, scan_cookies, scan_item,
  session_token_from_request, skip_separators, value_of,
}
use hao_short_link.Decimal.{is_space}
use hao_short_link.Http.Context.Rounds.{behind}
use hao_short_link.Http.Request.{HttpRequest, get_header, split_at}
use native.Mathlib.Nat.{le_refl}

abbrev item : Bytes × Bytes → Bytes
item (key, value) = key ++ (b'=' ∷ value)

-- The header of cookies, in the form that clients send.
abbrev pub cookie_header : List (Bytes × Bytes) → Bytes
cookie_header [] = []
cookie_header (cookie ∷ []) = item cookie
cookie_header (cookie ∷ other ∷ rest) = item cookie ++ (b';' ∷ b' ' ∷ cookie_header (other ∷ rest))

-- A name has no space, `=` or `;`, and a value no `;`.
abbrev pub IsCookie : Bytes × Bytes → Type 0
IsCookie (key, value) =
    All (λ c. (c ≢ b'=') × (c ≢ b';') × (is_space c ≡ false)) key × Lacks b';' value

split_at-Lacks : (c : ℕ) (s : Bytes) → Lacks c s → split_at c s ≡ none
unfolding split_at
split_at-Lacks c [] h = refl
split_at-Lacks c (b ∷ s) (ne, h) = ground (arith, split_at-Lacks c s h)

split_at-append :
    (c : ℕ) (front behind : Bytes)
    → Lacks c front
    → split_at c (front ++ (c ∷ behind)) ≡ some (front, behind)
unfolding split_at
split_at-append c [] behind h = ground arith
split_at-append c (b ∷ front) behind (ne, h) = ground (arith, split_at-append c front behind h)

key-Lacks :
    (key : Bytes)
    → All (λ c. (c ≢ b'=') × (c ≢ b';') × (is_space c ≡ false)) key
    → Lacks b'=' key × Lacks b';' key
key-Lacks [] h = (tt, tt)
key-Lacks (c ∷ key) ((a, b, d), h) = let (x, y) = key-Lacks key h in ((a, x), (b, y))

item-Lacks : (cookie : Bytes × Bytes) → IsCookie cookie → Lacks b';' (item cookie)
item-Lacks (key, value) (h, v) =
    All-append (λ c. c ≢ b';') key (b'=' ∷ value) (key-Lacks key h).1
      ((λ e. absurd (omega arith)), v)

value_of-item :
    (name key value : Bytes)
    → IsCookie (key, value)
    → value_of name (item (key, value)) ≡ (if key == name then some value else none)
unfolding value_of
value_of-item name key value (h, v) =
    ap (if_named name) (split_at-append b'=' key value (key-Lacks key h).0)

skip-key :
    (key s : Bytes)
    → All (λ c. (c ≢ b'=') × (c ≢ b';') × (is_space c ≡ false)) key
    → skip_separators (key ++ (b'=' ∷ s)) ≡ key ++ (b'=' ∷ s)
unfolding skip_separators
skip-key [] s h = refl
skip-key (c ∷ key) s ((a, b, d), h) = ground arith

length-skip_separators : (s : Bytes) → length (skip_separators s) ≤ length s
unfolding skip_separators
length-skip_separators [] = omega arith
length-skip_separators (c ∷ s) = ground (arith, length-skip_separators s)

-- A round over the last item, and one over an item that others follow.
scan_last :
    (name : Bytes) (fuel : ℕ) (s key value : Bytes)
    → IsCookie (key, value)
    → skip_separators s ≡ item (key, value)
    → scan_cookies name (suc fuel) s ≡ (if key == name then value else [])
unfolding scan_cookies
scan_last name fuel s key value h e =
    ap (λ text. scan_item name (scan_cookies name fuel) text (split_at b';' text)) e
    ∙ ap (scan_item name (scan_cookies name fuel) (item (key, value)))
        (split_at-Lacks b';' (item (key, value)) (item-Lacks (key, value) h))
    ∙ ap or_nothing (value_of-item name key value h)
    ∙ ground arith

scan_next :
    (name : Bytes) (fuel : ℕ) (s key value rest : Bytes)
    → IsCookie (key, value)
    → skip_separators s ≡ item (key, value) ++ (b';' ∷ rest)
    → scan_cookies name (suc fuel) s ≡ (if key == name then value else scan_cookies name fuel rest)
unfolding scan_cookies
scan_next name fuel s key value rest h e =
    ap (λ text. scan_item name (scan_cookies name fuel) text (split_at b';' text)) e
    ∙ ap (scan_item name (scan_cookies name fuel) (item (key, value) ++ (b';' ∷ rest)))
        (split_at-append b';' (item (key, value)) rest (item-Lacks (key, value) h))
    ∙ ap (λ v. or_later v (scan_cookies name fuel rest)) (value_of-item name key value h)
    ∙ ground arith

skip-header :
    (cookies : List (Bytes × Bytes))
    → All IsCookie cookies
    → skip_separators (b' ' ∷ cookie_header cookies) ≡ cookie_header cookies
unfolding skip_separators
skip-header [] h = refl
skip-header ((key, value) ∷ []) ((k, v), h) = skip-key key value k
skip-header ((key, value) ∷ other ∷ rest) ((k, v), h) =
    ap skip_separators (append_assoc key (b'=' ∷ value) _)
    ∙ skip-key key _ k
    ∙ sym (append_assoc key (b'=' ∷ value) _)

-- A text that is not empty once its separators are skipped is not empty.
some_text :
    (s key value rest : Bytes) → skip_separators s ≡ item (key, value) ++ rest → 1 ≤ length s
some_text s key value rest e = omega (
  arith,
  ap length e,
  length-skip_separators s,
  length-append (item (key, value)) rest,
  length-append key (b'=' ∷ value),
)

-- The rest behind an item is shorter than the text.
rest_shorter :
    (s key value rest : Bytes) (fuel : ℕ)
    → skip_separators s ≡ item (key, value) ++ (b';' ∷ rest)
    → length s ≤ suc fuel
    → length rest ≤ fuel
rest_shorter s key value rest fuel e h =
    omega (
      arith,
      ap length e,
      length-skip_separators s,
      length-append (item (key, value)) (b';' ∷ rest),
    )

-- A text that is the header once its separators in front are skipped.
scan_cookies-lookup :
    (name : Bytes) (fuel : ℕ) (cookies : List (Bytes × Bytes)) (s : Bytes)
    → All IsCookie cookies
    → skip_separators s ≡ cookie_header cookies
    → length s ≤ fuel
    → scan_cookies name fuel s ≡ or_nothing (lookup name cookies)
unfolding scan_cookies lookup value_of split_at
scan_cookies-lookup name zero [] s h e size = refl
scan_cookies-lookup name (suc fuel) [] s h e size =
    ap (λ text. scan_item name (scan_cookies name fuel) text (split_at b';' text)) e
scan_cookies-lookup name zero ((key, value) ∷ []) s h e size =
    absurd (omega (arith, some_text s key value [] (e ∙ sym (append-nil _))))
scan_cookies-lookup name (suc fuel) ((key, value) ∷ []) s (h, _) e size =
    scan_last name fuel s key value h e ∙ ground arith
scan_cookies-lookup name zero ((key, value) ∷ other ∷ rest) s h e size =
    absurd (omega (arith, some_text s key value _ e))
scan_cookies-lookup name (suc fuel) ((key, value) ∷ other ∷ rest) s (h, hs) e size =
    scan_next name fuel s key value _ h e
    ∙ ap (λ later. if key == name then value else later)
        (scan_cookies-lookup name fuel (other ∷ rest) (b' ' ∷ cookie_header (other ∷ rest)) hs
          (skip-header (other ∷ rest) hs) (rest_shorter s key value _ fuel e size))
    ∙ ground arith

-- From a request whose Cookie header is that of a list of cookies, the token of the session is the
-- value of the first cookie with the configured name, or empty if there is none.
pub session_token_from_request-lookup :
    (config : AuthHttpConfig) (request : HttpRequest) (cookies : List (Bytes × Bytes))
    → All IsCookie cookies
    → get_header (codes "Cookie") request ≡ cookie_header cookies
    → session_token_from_request config request ≡ or_nothing (lookup config.cookie_name cookies)
unfolding session_token_from_request skip_separators
session_token_from_request-lookup config request cookies h e =
    ap (λ s. scan_cookies config.cookie_name (length s) s) e
    ∙ scan_cookies-lookup config.cookie_name _ cookies (cookie_header cookies) h
        (skip-header cookies h) (le_refl _)
