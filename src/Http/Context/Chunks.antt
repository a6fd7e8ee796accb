-- ===== src/Http/Context/Chunks.antt =====
-- The parser reads the same request however the network cuts its bytes into pieces.
use hao_short_link.Prelude.{
  Bool-cases, Bytes, List, Option, [], ap, append-nil, append_assoc, arith, bytes_eq, false,
  if◌then◌else◌, inl, inr, length, length-append, nat_eq, not, refl, suc, sym, true, zero, ℕ, ◌++◌,
  ◌<◌, ◌||◌, ◌∙◌, ◌∷◌, ◌≡◌, ◌≢◌,
}
use hao_short_link.Prelude.Int.{int_eq}
use hao_short_link.Prelude.Map.{pair_eq}
use hao_short_link.Http.Context.{
  HttpContext, ParseResult, Round, concat, ends, feed, goes, gotten_all, out_of_fuel, parse_request,
  parsed, round_in, rounds, stoi_throws, threw, waits,
}
use hao_short_link.Http.Context.Rounds.{
  FindsCrlf, behind, round_in-append, round_in-ends, round_in-goes,
}

module _ (find_crlf : Bytes → Option ℕ) (laws : FindsCrlf find_crlf) (now : ℕ) where
  -- Two loops agree on every context that is not complete.
  abbrev Agree : ℕ → ℕ → Type 0
  Agree f g =
      (c : HttpContext) (buf : Bytes)
      → length buf < f
      → length buf < g
      → gotten_all c ≡ false
      → rounds find_crlf now f c buf ≡ rounds find_crlf now g c buf

  Agree-suc : (f g : ℕ) → Agree f g → Agree (suc f) (suc g)
  unfolding rounds gotten_all
  Agree-suc f g ih c buf h k u = step (round_in find_crlf now c.state c.request buf) refl
    where
      step :
          (x : Round)
          → round_in find_crlf now c.state c.request buf ≡ x
          → rounds find_crlf now (suc f) c buf ≡ rounds find_crlf now (suc g) c buf
      step waits e = rw (rounds, e) refl
      step (ends c₁ buf₁ ok) e = rw (rounds, e) refl
      step stoi_throws e = rw (rounds, e) refl
      step (goes c₁ buf₁) e =
          let (shorter, v) = round_in-goes find_crlf laws now c.state c.request buf buf₁ c₁ u e in
          rw (rounds, e) (ih c₁ buf₁ (omega arith) (omega arith) v)

  rounds_enough : (f g : ℕ) → Agree f g
  rounds_enough zero g c buf h k u = absurd (omega arith)
  rounds_enough (suc f) zero c buf h k u = absurd (omega arith)
  rounds_enough (suc f) (suc g) c buf h k u = Agree-suc f g (rounds_enough f g) c buf h k u

  -- More bytes come, if the request was not complete and not refused.
  abbrev resume : Bytes → ParseResult → ParseResult
  resume more (parsed c buf ok) =
      if not ok || gotten_all c
      then parsed c (buf ++ more) ok
      else parse_request find_crlf now c (buf ++ more)
  resume more threw = threw
  resume more out_of_fuel = out_of_fuel

  waiting-resume :
      (f : ℕ) (c : HttpContext) (buf more : Bytes)
      → round_in find_crlf now c.state c.request buf ≡ waits
      → gotten_all c ≡ false
      → resume more (rounds find_crlf now (suc f) c buf)
        ≡ parse_request find_crlf now c (buf ++ more)
  unfolding rounds gotten_all
  waiting-resume f c buf more e u = rw (rounds, e, u) refl

  abbrev Resumes : ℕ → Bytes → Type 0
  Resumes f more =
      (g : ℕ) (c : HttpContext) (buf : Bytes)
      → length buf < f
      → length (buf ++ more) < g
      → gotten_all c ≡ false
      → rounds find_crlf now g c (buf ++ more) ≡ resume more (rounds find_crlf now f c buf)

  Resumes-suc : (f : ℕ) (more : Bytes) → Resumes f more → Resumes (suc f) more
  unfolding rounds gotten_all parse_request
  Resumes-suc f more ih zero c buf h k u = absurd (omega arith)
  Resumes-suc f more ih (suc g) c buf h k u =
      step (round_in find_crlf now c.state c.request buf) refl
    where
      later :
          (x : Round)
          → round_in find_crlf now c.state c.request buf ≡ x
          → x ≢ waits
          → round_in find_crlf now c.state c.request (buf ++ more) ≡ behind more x
      later x e other =
          rw e at
            (round_in-append find_crlf laws now c.state c.request buf more (λ w. other (sym e ∙ w)))

      step :
          (x : Round)
          → round_in find_crlf now c.state c.request buf ≡ x
          → rounds find_crlf now (suc g) c (buf ++ more)
            ≡ resume more (rounds find_crlf now (suc f) c buf)
      step waits e =
          rounds_enough (suc g) (suc (length (buf ++ more))) c (buf ++ more) k (omega arith) u
          ∙ sym (waiting-resume f c buf more e u)
      step (ends c₁ buf₁ ok) e =
          rw
            (
              rounds,
              later _ e (λ w. cc),
              e,
              round_in-ends find_crlf laws now c.state c.request buf buf₁ c₁ ok e,
            )
            refl
      step stoi_throws e = rw (rounds, later _ e (λ w. cc), e) refl
      step (goes c₁ buf₁) e =
          let (shorter, v) = round_in-goes find_crlf laws now c.state c.request buf buf₁ c₁ u e in
          rw (rounds, later _ e (λ w. cc), e)
            (ih g c₁ buf₁ (omega arith)
              (omega (arith, shorter, length-append buf more, length-append buf₁ more)) v)

  rounds-Resumes : (f : ℕ) (more : Bytes) → Resumes f more
  rounds-Resumes zero more g c buf h k u = absurd (omega arith)
  rounds-Resumes (suc f) more g c buf h k u =
      Resumes-suc f more (rounds-Resumes f more) g c buf h k u

  parse_request-append :
      (c : HttpContext) (buf more : Bytes)
      → gotten_all c ≡ false
      → parse_request find_crlf now c (buf ++ more)
        ≡ resume more (parse_request find_crlf now c buf)
  unfolding parse_request
  parse_request-append c buf more u =
      rounds-Resumes (suc (length buf)) more (suc (length (buf ++ more))) c buf (omega arith)
        (omega arith) u

  Finishes-suc :
      (f : ℕ)
      → ((c : HttpContext) (buf : Bytes)
          → length buf < f
          → gotten_all c ≡ false
          → rounds find_crlf now f c buf ≢ out_of_fuel)
      → (c : HttpContext) (buf : Bytes) → length buf < suc f
      → gotten_all c ≡ false
      → rounds find_crlf now (suc f) c buf ≢ out_of_fuel
  unfolding rounds gotten_all
  Finishes-suc f ih c buf h u = step (round_in find_crlf now c.state c.request buf) refl
    where
      step :
          (x : Round)
          → round_in find_crlf now c.state c.request buf ≡ x
          → rounds find_crlf now (suc f) c buf ≢ out_of_fuel
      step waits e w = cc
      step (ends c₁ buf₁ ok) e w = cc
      step stoi_throws e w = cc
      step (goes c₁ buf₁) e w =
          let (shorter, v) = round_in-goes find_crlf laws now c.state c.request buf buf₁ c₁ u e in
          ih c₁ buf₁ (omega arith) v (rw (e, rounds) at w)

  rounds-Finishes :
      (f : ℕ) (c : HttpContext) (buf : Bytes)
      → length buf < f
      → gotten_all c ≡ false
      → rounds find_crlf now f c buf ≢ out_of_fuel
  rounds-Finishes zero c buf h u = absurd (omega arith)
  rounds-Finishes (suc f) c buf h u = Finishes-suc f (rounds-Finishes f) c buf h u

  -- A parser that waits changes nothing when it is asked again.
  waits_again :
      (c c₁ : HttpContext) (buf buf₁ : Bytes)
      → gotten_all c ≡ false
      → parse_request find_crlf now c buf ≡ parsed c₁ buf₁ true
      → gotten_all c₁ ≡ false
      → parse_request find_crlf now c₁ buf₁ ≡ parsed c₁ buf₁ true
  waits_again c c₁ buf buf₁ u e v =
      let again = parse_request-append c buf [] u in
      sym (rw (append-nil buf, e, v, append-nil buf₁) at again)

  abbrev IsWaiting : HttpContext → Bytes → Type 0
  IsWaiting c buf = (gotten_all c ≡ false) × (parse_request find_crlf now c buf ≡ parsed c buf true)

  abbrev Feeds : List Bytes → Type 0
  Feeds rest =
      (c : HttpContext) (buf : Bytes)
      → IsWaiting c buf
      → feed find_crlf now c buf rest ≡ parse_request find_crlf now c (buf ++ concat rest)

  feed_cons :
      (piece : Bytes) (rest : List Bytes)
      → Feeds rest
      → (c : HttpContext) (buf : Bytes) → gotten_all c ≡ false
      → feed find_crlf now c buf (piece ∷ rest)
        ≡ parse_request find_crlf now c (buf ++ (piece ++ concat rest))
  unfolding feed
  feed_cons piece rest ih c buf u =
      step (parse_request find_crlf now c (buf ++ piece)) refl
      ∙ sym (parse_request-append c (buf ++ piece) (concat rest) u)
      ∙ ap (parse_request find_crlf now c) (append_assoc buf piece (concat rest))
    where
      step :
          (x : ParseResult)
          → parse_request find_crlf now c (buf ++ piece) ≡ x
          → feed find_crlf now c buf (piece ∷ rest)
            ≡ resume (concat rest) (parse_request find_crlf now c (buf ++ piece))
      step threw e = rw (feed, e) refl
      step out_of_fuel e = rw (feed, e) refl
      step (parsed c₁ buf₁ false) e = rw (feed, e) refl
      step (parsed c₁ buf₁ true) e = elim (Bool-cases (gotten_all c₁)) [
        | inl complete ↦ rw (feed, e, complete) refl
        | inr open_still ↦
            rw (feed, e, open_still)
              (ih c₁ buf₁ (open_still, waits_again c c₁ (buf ++ piece) buf₁ u e open_still))
      ]

  feed_all : (rest : List Bytes) → Feeds rest
  unfolding feed
  feed_all [] c buf w = sym w.1 ∙ ap (parse_request find_crlf now c) (sym (append-nil buf))
  feed_all (piece ∷ rest) c buf w = feed_cons piece rest (feed_all rest) c buf w.0

  -- However a connection's bytes are cut into pieces, reading them piece by piece, with one receive
  -- time for all, gives the request, the unread bytes and the answer that reading them at once gives;
  -- and the loop ends.
  pub parse_request-concat :
      (c : HttpContext) (buf : Bytes) (piece : Bytes) (rest : List Bytes)
      → gotten_all c ≡ false
      → (feed find_crlf now c buf (piece ∷ rest)
          ≡ parse_request find_crlf now c (buf ++ (piece ++ concat rest)))
        × (parse_request find_crlf now c (buf ++ (piece ++ concat rest)) ≢ out_of_fuel)
  unfolding parse_request
  parse_request-concat c buf piece rest u =
      (feed_cons piece rest (feed_all rest) c buf u, rounds-Finishes _ c _ (omega arith) u)
