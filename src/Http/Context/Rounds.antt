-- ===== src/Http/Context/Rounds.antt =====
-- One round of the parser's loop: what more bytes behind the unread ones change, and what it reads.
-- What is documented of the buffer's search for a line end: the end stands within the unread bytes,
-- and it is the first one, so that bytes that come later do not move it.
use hao_short_link.Prelude.{
  Bool, Bool-cases, Bytes, List, Option, Option-cases, [], ap, arith, bytes_eq, codes, drop, false,
  inl, inr, length, length-append, ltb, nat_eq, not, refl, some, suc, take, true, zero, ℕ, ◌++◌,
  ◌+◌, ◌-◌, ◌<◌, ◌||◌, ◌∷◌, ◌≡◌, ◌≢◌, ◌≤◌,
}
use hao_short_link.Prelude.Int.{int_eq}
use hao_short_link.Prelude.Map.{pair_eq}
use hao_short_link.Decimal.{stoi}
use hao_short_link.Http.Context.{
  HttpContext, HttpRequestParseState, Round, end_headers, ends, goes, gotten_all, is_got_all,
  round_in, stoi_throws, take_body, take_header, take_request_line, waits,
}
use hao_short_link.Http.Request.{HttpRequest, get_header}

pub record FindsCrlf (find_crlf : Bytes → Option ℕ) : Type 0 where
  pub inside : (buf : Bytes) (n : ℕ) → find_crlf buf ≡ some n → n + 2 ≤ length buf
  pub kept : (buf more : Bytes) (n : ℕ) → find_crlf buf ≡ some n → find_crlf (buf ++ more) ≡ some n

take-within {ℓ} :
    {A : Type ℓ} (n : ℕ) (xs ys : List A) → n ≤ length xs → take n (xs ++ ys) ≡ take n xs
take-within zero xs ys h = refl
take-within (suc n) [] ys h = absurd (omega arith)
take-within (suc n) (x ∷ xs) ys h = ap (◌∷◌ x) (take-within n xs ys (omega arith))

drop-within {ℓ} :
    {A : Type ℓ} (n : ℕ) (xs ys : List A) → n ≤ length xs → drop n (xs ++ ys) ≡ drop n xs ++ ys
drop-within zero xs ys h = refl
drop-within (suc n) [] ys h = absurd (omega arith)
drop-within (suc n) (x ∷ xs) ys h = drop-within n xs ys (omega arith)

length-drop {ℓ} : {A : Type ℓ} (n : ℕ) (xs : List A) → length (drop n xs) ≡ length xs - n
length-drop zero xs = omega arith
length-drop (suc n) [] = omega arith
length-drop (suc n) (x ∷ xs) = omega (arith, length-drop n xs)

-- A round with more bytes behind what it reads.
abbrev pub behind : Bytes → Round → Round
behind more waits = waits
behind more (ends c buf ok) = ends c (buf ++ more) ok
behind more (goes c buf) = goes c (buf ++ more)
behind more stoi_throws = stoi_throws

take_request_line-append :
    (now : ℕ) (r : HttpRequest) (line rest buf more : Bytes)
    → take_request_line now r line (rest ++ more) (buf ++ more)
      ≡ behind more (take_request_line now r line rest buf)
unfolding take_request_line
take_request_line-append now r line rest buf more = ground arith

end_headers-append :
    (r : HttpRequest) (rest more : Bytes)
    → end_headers r (rest ++ more) ≡ behind more (end_headers r rest)
unfolding end_headers
end_headers-append r rest more =
    elim (Option-cases (stoi (get_header (codes "Content-Length") r))) [
      | inl bad ↦ rw bad (ground arith)
      | inr (n, e) ↦ rw e (ground arith)
    ]

take_header-append :
    (r : HttpRequest) (line rest more : Bytes)
    → take_header r line (rest ++ more) ≡ behind more (take_header r line rest)
unfolding take_header
take_header-append r line rest more = ground (arith, end_headers-append r rest more)

take_body-append :
    (r : HttpRequest) (buf more : Bytes)
    → take_body r buf ≢ waits
    → take_body r (buf ++ more) ≡ behind more (take_body r buf)
unfolding take_body
take_body-append r buf more h = elim (Bool-cases (ltb (length buf) r.content_length)) [
  | inl short ↦ absurd (h (rw short refl))
  | inr full ↦ ground (
    arith,
    length-append buf more,
    take-within r.content_length buf more,
    drop-within r.content_length buf more,
  )
]

module _ (find_crlf : Bytes → Option ℕ) (laws : FindsCrlf find_crlf) (now : ℕ) where
  pub round_in-append :
      (s : HttpRequestParseState) (r : HttpRequest) (buf more : Bytes)
      → round_in find_crlf now s r buf ≢ waits
      → round_in find_crlf now s r (buf ++ more) ≡ behind more (round_in find_crlf now s r buf)
  unfolding round_in
  round_in-append HttpRequestParseState.got_all r buf more h = refl
  round_in-append HttpRequestParseState.expect_body r buf more h = take_body-append r buf more h
  round_in-append HttpRequestParseState.expect_headers r buf more h =
      elim (Option-cases (find_crlf buf)) [
        | inl lost ↦ absurd (h (rw (lost, round_in) refl))
        | inr (n, e) ↦
            let fits = laws.inside buf n e in
            rw
              (
                round_in,
                e,
                laws.kept buf more n e,
                take-within n buf more (omega (arith, fits)),
                drop-within (n + 2) buf more fits,
              )
              (take_header-append r (take n buf) (drop (n + 2) buf) more)
      ]
  round_in-append HttpRequestParseState.expect_request_line r buf more h =
      elim (Option-cases (find_crlf buf)) [
        | inl lost ↦ absurd (h (rw (lost, round_in) refl))
        | inr (n, e) ↦
            let fits = laws.inside buf n e in
            rw
              (
                round_in,
                e,
                laws.kept buf more n e,
                take-within n buf more (omega (arith, fits)),
                drop-within (n + 2) buf more fits,
              )
              (take_request_line-append now r (take n buf) (drop (n + 2) buf) buf more)
      ]

  -- A round that goes on has read at least two bytes, and has not finished.
  take_request_line-goes :
      (r : HttpRequest) (line rest buf buf₁ : Bytes) (c₁ : HttpContext)
      → take_request_line now r line rest buf ≡ goes c₁ buf₁
      → (buf₁ ≡ rest) × (gotten_all c₁ ≡ false)
  unfolding take_request_line gotten_all
  take_request_line-goes r line rest buf buf₁ c₁ e = ground arith

  end_headers-goes :
      (r : HttpRequest) (rest buf₁ : Bytes) (c₁ : HttpContext)
      → end_headers r rest ≡ goes c₁ buf₁
      → (buf₁ ≡ rest) × (gotten_all c₁ ≡ false)
  unfolding end_headers gotten_all
  end_headers-goes r rest buf₁ c₁ e = ground arith

  take_header-goes :
      (r : HttpRequest) (line rest buf₁ : Bytes) (c₁ : HttpContext)
      → take_header r line rest ≡ goes c₁ buf₁
      → (buf₁ ≡ rest) × (gotten_all c₁ ≡ false)
  unfolding take_header gotten_all
  take_header-goes r line rest buf₁ c₁ e = ground (arith, end_headers-goes r rest buf₁ c₁)

  take_body-goes :
      (r : HttpRequest) (buf buf₁ : Bytes) (c₁ : HttpContext) → take_body r buf ≢ goes c₁ buf₁
  unfolding take_body
  take_body-goes r buf buf₁ c₁ e = ground arith

  pub round_in-goes :
      (s : HttpRequestParseState) (r : HttpRequest) (buf buf₁ : Bytes) (c₁ : HttpContext)
      → is_got_all s ≡ false
      → round_in find_crlf now s r buf ≡ goes c₁ buf₁
      → (length buf₁ < length buf) × (gotten_all c₁ ≡ false)
  unfolding round_in
  round_in-goes HttpRequestParseState.got_all r buf buf₁ c₁ u e = cc
  round_in-goes HttpRequestParseState.expect_body r buf buf₁ c₁ u e =
      absurd (take_body-goes r buf buf₁ c₁ e)
  round_in-goes HttpRequestParseState.expect_headers r buf buf₁ c₁ u e =
      elim (Option-cases (find_crlf buf)) [
        | inl lost ↦ ground arith
        | inr (n, f) ↦ ground (
          arith,
          laws.inside buf n f,
          length-drop (n + 2) buf,
          take_header-goes r (take n buf) (drop (n + 2) buf) buf₁ c₁,
        )
      ]
  round_in-goes HttpRequestParseState.expect_request_line r buf buf₁ c₁ u e =
      elim (Option-cases (find_crlf buf)) [
        | inl lost ↦ ground arith
        | inr (n, f) ↦ ground (
          arith,
          laws.inside buf n f,
          length-drop (n + 2) buf,
          take_request_line-goes r (take n buf) (drop (n + 2) buf) buf buf₁ c₁,
        )
      ]

  pub round_in-ends :
      (s : HttpRequestParseState) (r : HttpRequest) (buf buf₁ : Bytes) (c₁ : HttpContext)
      (ok : Bool)
      → round_in find_crlf now s r buf ≡ ends c₁ buf₁ ok
      → (not ok || gotten_all c₁) ≡ true
  unfolding round_in take_body take_header take_request_line end_headers gotten_all
  round_in-ends HttpRequestParseState.got_all r buf buf₁ c₁ ok e = cc
  round_in-ends HttpRequestParseState.expect_body r buf buf₁ c₁ ok e = ground arith
  round_in-ends HttpRequestParseState.expect_headers r buf buf₁ c₁ ok e = ground arith
  round_in-ends HttpRequestParseState.expect_request_line r buf buf₁ c₁ ok e = ground arith
