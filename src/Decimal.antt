-- ===== src/Decimal.antt =====
-- The number conversions of the C++ standard library that the sources call: `std::to_string`,
-- `std::stoull`, `std::stoll`, and `std::isspace` in the C locale. A conversion that throws is
-- `none`.
pub mod RoundTrip
use hao_short_link.Prelude.{
  Bool, Bytes, Option, [], bytes_eq, false, if◌then◌else◌, is_digit, leb, nat_eq, none, some, suc,
  true, zero, ℕ, ◌%◌, ◌&&◌, ◌*◌, ◌+◌, ◌-◌, ◌/◌, ◌==◌, ◌>>=◌, ◌^◌, ◌||◌, ◌∷◌,
}
use hao_short_link.Prelude.Int.{int_eq, leb_ℤ, ltb_ℤ, negsuc, pos, sub_ℕ, ℤ}
use hao_short_link.Prelude.Map.{pair_eq}

-- The digits of `n` in front of `out`. A round divides `n` by ten, so that a fuel of `n` rounds is
-- enough (`RoundTrip.emit_step`).
unfoldable pub emit : ℕ → ℕ → Bytes → Bytes
emit zero n out = (b'0' + n % 10) ∷ out
emit (suc fuel) n out =
    let digit = b'0' + n % 10 in
    let more = emit fuel (n / 10) (digit ∷ out) in if n / 10 == 0 then digit ∷ out else more

unfoldable pub to_string : ℕ → Bytes
unfolding emit
to_string n = emit n n []

unfoldable pub int_to_string : ℤ → Bytes
unfolding to_string
int_to_string (pos n) = to_string n
int_to_string (negsuc n) = b'-' ∷ to_string (suc n)

abbrev pub is_space : ℕ → Bool
is_space c = (c == 32) || (leb 9 c && leb c 13)

unfoldable pub skip_space : Bytes → Bytes
skip_space [] = []
skip_space (c ∷ s) = if is_space c then skip_space s else c ∷ s

-- The value of the digits in front, behind the value `n`; what follows them is ignored.
unfoldable pub scan_digits : ℕ → Bytes → ℕ
scan_digits n [] = n
scan_digits n (c ∷ s) = elim (is_digit c) [ true ↦ scan_digits (n * 10 + (c - b'0')) s | false ↦ n ]

-- The magnitude in front of a text; no digit there throws `invalid_argument`.
unfoldable pub magnitude : Bytes → Option ℕ
unfolding scan_digits
magnitude [] = none
magnitude (c ∷ s) = if is_digit c then some (scan_digits 0 (c ∷ s)) else none

abbrev pub max_u64 : ℕ
max_u64 = 2 ^ 64 - 1

abbrev pub max_i64 : ℕ
max_i64 = 2 ^ 63 - 1

abbrev pub at_most : ℕ → ℕ → Option ℕ
at_most limit n = if leb n limit then some n else none

-- A sign is allowed in front of an unsigned number too; a negative one wraps.
unsigned_of : Bytes → Option ℕ
unsigned_of [] = none
unsigned_of (c ∷ s) =
    if c == b'-'
    then (do n ← magnitude s; m ← at_most max_u64 n; some ((2 ^ 64 - m) % 2 ^ 64))
    else if c == b'+'
    then (do n ← magnitude s; at_most max_u64 n)
    else (do n ← magnitude (c ∷ s); at_most max_u64 n)

unfoldable pub stoull : Bytes → Option ℕ
unfolding skip_space unsigned_of
stoull s = unsigned_of (skip_space s)

signed_of : Bytes → Option ℤ
signed_of [] = none
signed_of (c ∷ s) =
    if c == b'-'
    then (do n ← magnitude s; m ← at_most (max_i64 + 1) n; some (sub_ℕ 0 m))
    else if c == b'+'
    then (do n ← magnitude s; m ← at_most max_i64 n; some (pos m))
    else (do n ← magnitude (c ∷ s); m ← at_most max_i64 n; some (pos m))

unfoldable pub stoll : Bytes → Option ℤ
unfolding skip_space signed_of
stoll s = signed_of (skip_space s)

abbrev pub in_int : ℤ → Bool
in_int n = ltb_ℤ n (pos (2 ^ 31)) && leb_ℤ (negsuc (2 ^ 31 - 1)) n

unfoldable pub stoi : Bytes → Option ℤ
stoi s = do n ← stoll s; if in_int n then some n else none
