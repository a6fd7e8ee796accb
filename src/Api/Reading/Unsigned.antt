-- ===== src/Api/Reading/Unsigned.antt =====
-- `parseUnsigned` of src/ShortLinkHttpApi.cpp, against the value of a decimal number.
-- The number that digits behind `n` are, without a bound.
use hao_short_link.Prelude.{
  Bool-cases, Bytes, Option, [], all_of, arith, bytes_eq, if◌then◌else◌, inl, inr, is_digit,
  is_empty, ltb, nat_eq, none, not, refl, some, ℕ, ◌&&◌, ◌*◌, ◌+◌, ◌-◌, ◌/◌, ◌<◌, ◌^◌, ◌∷◌, ◌≡◌,
  ◌≤◌,
}
use hao_short_link.Prelude.Int.{int_eq}
use hao_short_link.Prelude.Map.{pair_eq}
use hao_short_link.Api.Reading.{parse_unsigned, parse_unsigned_from}

abbrev pub decimal : ℕ → Bytes → ℕ
decimal n [] = n
decimal n (c ∷ s) = decimal (n * 10 + (c - b'0')) s

decimal-ge : (n : ℕ) (s : Bytes) → n ≤ decimal n s
decimal-ge n [] = omega arith
decimal-ge n (c ∷ s) = omega (arith, decimal-ge (n * 10 + (c - b'0')) s)

-- The test in front of a step is exact.
overflow_test : (n d : ℕ) → d ≤ 9 → ltb ((2 ^ 64 - 1 - d) / 10) n ≡ not (ltb (n * 10 + d) (2 ^ 64))
overflow_test n d h = ground arith

abbrev pub reference : ℕ → Bytes → Option ℕ
reference n s = if all_of is_digit s && ltb (decimal n s) (2 ^ 64) then some (decimal n s) else none

too_big : (n : ℕ) (s : Bytes) → 2 ^ 64 ≤ n → none ≡ reference n s
too_big n s h = ground (arith, decimal-ge n s)

parse_unsigned_from-reference :
    (n : ℕ) (s : Bytes) → n < 2 ^ 64 → parse_unsigned_from n s ≡ reference n s
unfolding parse_unsigned_from
parse_unsigned_from-reference n [] h = ground arith
parse_unsigned_from-reference n (c ∷ s) h =
    let next = n * 10 + (c - b'0') in
    elim (Bool-cases (is_digit c)) [
      | inr bad ↦ rw bad refl
      | inl good ↦ elim (Bool-cases (ltb next (2 ^ 64))) [
        | inl fine ↦
            rw (good, overflow_test n (c - b'0') (ground arith), fine)
              (parse_unsigned_from-reference next s (ground arith))
        | inr over ↦
            rw (good, overflow_test n (c - b'0') (ground arith), over)
              (too_big next s (ground arith))
      ]
    ]

-- The parser reads exactly the texts of digits, at least one, whose number is below 2 ^ 64, and
-- reads that number.
pub parse_unsigned-reference :
    (s : Bytes) → parse_unsigned s ≡ (if is_empty s then none else reference 0 s)
unfolding parse_unsigned
parse_unsigned-reference s = elim (Bool-cases (is_empty s)) [
  | inl empty ↦ rw empty refl
  | inr full ↦ rw full (parse_unsigned_from-reference 0 s (omega arith))
]
