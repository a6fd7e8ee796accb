-- ===== src/Decimal/RoundTrip.antt =====
-- What is printed is read back, and a print holds digits only.
use hao_short_link.Prelude.{
  All, Bool-cases, Bytes, [], ap, arith, bytes_eq, if◌then◌else◌, inl, inr, is_digit, nat_eq, refl,
  some, suc, sym, true, zero, ℕ, ◌%◌, ◌*◌, ◌+◌, ◌/◌, ◌==◌, ◌∙◌, ◌∷◌, ◌≡◌, ◌≤◌,
}
use hao_short_link.Prelude.Int.{int_eq, neg_part, negsuc, pos, pos_part, ℤ}
use hao_short_link.Decimal.{
  emit, int_to_string, magnitude, max_i64, max_u64, scan_digits, stoll, stoull, to_string,
}
use hao_short_link.ShortLink.Record.{status_eq}
use native.Mathlib.Nat.{le_refl}

emit_fuel : (f g n : ℕ) (out : Bytes) → n ≤ f → n ≤ g → emit f n out ≡ emit g n out
unfolding emit
emit_fuel zero zero n out h k = refl
emit_fuel zero (suc g) n out h k = ground arith
emit_fuel (suc f) zero n out h k = ground arith
emit_fuel (suc f) (suc g) n out h k = ground (arith, emit_fuel f g (n / 10) ((b'0' + n % 10) ∷ out))

-- The loop goes on as long as the number has more digits; the fuel does not show.
pub emit_step :
    (fuel n : ℕ) (out : Bytes)
    → n ≤ fuel
    → emit fuel n out ≡ (
        if n / 10 == 0
        then (b'0' + n % 10) ∷ out
        else emit (n / 10) (n / 10) ((b'0' + n % 10) ∷ out))
emit_step fuel n out h =
    emit_fuel fuel (suc n) n out h (omega arith)
    ∙ unfold emit in
      ground
        (arith, emit_fuel n (n / 10) (n / 10) ((b'0' + n % 10) ∷ out) (omega arith) (omega arith))

abbrev pub IsDigit : ℕ → Type 0
IsDigit c = is_digit c ≡ true

remainder-IsDigit : (n : ℕ) → IsDigit (b'0' + n % 10)
remainder-IsDigit n = ground arith

emit-IsDigit : (fuel n : ℕ) (out : Bytes) → All IsDigit out → All IsDigit (emit fuel n out)
unfolding emit
emit-IsDigit zero n out h = (remainder-IsDigit n, h)
emit-IsDigit (suc fuel) n out h = elim (Bool-cases (n / 10 == 0)) [
  | inl e ↦ rw e (remainder-IsDigit n, h)
  | inr e ↦ rw e (emit-IsDigit fuel (n / 10) _ (remainder-IsDigit n, h))
]

-- A print holds digits only.
pub to_string-IsDigit : (n : ℕ) → All IsDigit (to_string n)
unfolding to_string
to_string-IsDigit n = emit-IsDigit n n [] tt

scan_digit :
    (n m : ℕ) (out : Bytes)
    → scan_digits n ((b'0' + m % 10) ∷ out) ≡ scan_digits (n * 10 + m % 10) out
unfolding scan_digits
scan_digit n m out =
    rw (remainder-IsDigit m, scan_digits) (ap (λ (k : ℕ). scan_digits k out) (omega arith))

scan-emit :
    (fuel n : ℕ) (out : Bytes) → n ≤ fuel → scan_digits 0 (emit fuel n out) ≡ scan_digits n out
unfolding emit
scan-emit zero n out h = scan_digit 0 n out ∙ ap (λ (k : ℕ). scan_digits k out) (omega arith)
scan-emit (suc fuel) n out h = elim (Bool-cases (n / 10 == 0)) [
  | inl e ↦ rw e (scan_digit 0 n out ∙ ap (λ (k : ℕ). scan_digits k out) (ground arith))
  | inr e ↦ rw e (
      scan-emit fuel (n / 10) _ (omega arith)
      ∙ (scan_digit (n / 10) n out ∙ ap (λ (k : ℕ). scan_digits k out) (omega arith)))
]

emit-cons : (fuel n : ℕ) (out : Bytes) → (c : ℕ) × (s : Bytes) × (emit fuel n out ≡ c ∷ s)
unfolding emit
emit-cons zero n out = (b'0' + n % 10, out, refl)
emit-cons (suc fuel) n out = elim (Bool-cases (n / 10 == 0)) [
  | inl e ↦ (b'0' + n % 10, out, rw e)
  | inr e ↦ rw e (emit-cons fuel (n / 10) _)
]

-- What the proofs below use of a print: a digit in front, and the value of all of it.
record Printed (n : ℕ) (text : Bytes) : Type 0 where
  first : ℕ
  rest : Bytes
  splits : text ≡ first ∷ rest
  digit : IsDigit first
  valued : scan_digits 0 (first ∷ rest) ≡ n

to_string-Printed : (n : ℕ) → Printed n (to_string n)
unfolding to_string
to_string-Printed n =
    let (c, s, e) = emit-cons n n [] in
    record {
      first = c;
      rest = s;
      splits = e;
      digit = (rw e at (to_string-IsDigit n)).0;
      valued =
          ap (scan_digits 0) (sym e) ∙ (scan-emit n n [] (le_refl n) ∙ unfold scan_digits in refl);
    }

magnitude-Printed : (n : ℕ) (text : Bytes) → Printed n text → magnitude text ≡ some n
unfolding magnitude
magnitude-Printed n text p = rw (p.splits, p.digit) (ap some p.valued)

stoull-Printed : (n : ℕ) (text : Bytes) → Printed n text → n ≤ max_u64 → stoull text ≡ some n
unfolding stoull
stoull-Printed n text p h =
    rw p.splits (ground (arith, p.digit, rw p.splits at (magnitude-Printed n text p)))

stoll-Printed : (n : ℕ) (text : Bytes) → Printed n text → n ≤ max_i64 → stoll text ≡ some (pos n)
unfolding stoll
stoll-Printed n text p h =
    rw p.splits (ground (arith, p.digit, rw p.splits at (magnitude-Printed n text p)))

stoll-minus :
    (n : ℕ) (text : Bytes)
    → Printed (suc n) text
    → suc n ≤ max_i64 + 1
    → stoll (b'-' ∷ text) ≡ some (negsuc n)
unfolding stoll
stoll-minus n text p h = ground (arith, magnitude-Printed (suc n) text p)

-- A print begins with a digit.
pub to_string-cons : (n : ℕ) → (c : ℕ) × (s : Bytes) × (to_string n ≡ c ∷ s) × IsDigit c
to_string-cons n = let p = to_string-Printed n in (p.first, p.rest, p.splits, p.digit)

-- Every uint64 is read back from its print.
pub stoull-to_string : (n : ℕ) → n ≤ max_u64 → stoull (to_string n) ≡ some n
stoull-to_string n h = stoull-Printed n (to_string n) (to_string-Printed n) h

-- Every int64 is read back from its print.
pub stoll-int_to_string :
    (z : ℤ) → pos_part z ≤ max_i64 → neg_part z ≤ max_i64 + 1 → stoll (int_to_string z) ≡ some z
unfolding int_to_string
stoll-int_to_string (pos n) h k = stoll-Printed n (to_string n) (to_string-Printed n) h
stoll-int_to_string (negsuc n) h k = stoll-minus n (to_string (suc n)) (to_string-Printed (suc n)) k
