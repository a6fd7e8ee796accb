-- ===== src/ShortLink/Base62/RoundTrip.antt =====
-- What the codes of `encodeBase62` are: base-62 numerals of at least six digits.
use hao_short_link.Prelude.{
  All, All-append, All-replicate, All-reverse, Bool, Bool-cases, Bytes, [], ap, append-nil,
  append_assoc, arith, bytes_eq, false, if◌then◌else◌, inl, inr, is_digit, leb, length,
  length-append, length-replicate, length-reverse, ltb, max, nat_beq_iff, nat_eq, refl, replicate,
  reverse, reverse-cons, suc, sym, tests, true, zero, ℕ, ◌%◌, ◌&&◌, ◌*◌, ◌++◌, ◌+◌, ◌-◌, ◌/◌, ◌<◌,
  ◌==◌, ◌^◌, ◌||◌, ◌∙◌, ◌∷◌, ◌≡◌, ◌≤◌,
}
use hao_short_link.Prelude.Int.{int_eq}
use hao_short_link.ShortLink.Base62.{
  base62_chars, char_at, encode_base62, min_code_length, pad, push_digits,
}
use hao_short_link.ShortLink.Record.{status_eq}
use native.Mathlib.Nat.{pow-suc, le_refl}

-- The value of a digit of the alphabet.
abbrev pub digit_value : ℕ → ℕ
digit_value c = if leb c b'9' then c - b'0' else if leb c b'Z' then c - b'A' + 10 else c - b'a' + 36

-- The number that a code spells, most significant digit first.
pub decode_from : ℕ → Bytes → ℕ
decode_from n [] = n
decode_from n (c ∷ s) = decode_from (n * 62 + digit_value c) s

pub decode_base62 : Bytes → ℕ
decode_base62 s = decode_from 0 s

-- The number that digits spell, least significant first.
value_le : Bytes → ℕ
value_le [] = 0
value_le (c ∷ s) = digit_value c + 62 * value_le s

-- A test of each number below a bound.
holds_below : (ℕ → Bool) → ℕ → Bool
holds_below test zero = true
holds_below test (suc bound) = if test bound then holds_below test bound else false

holds_below-lt :
    (test : ℕ → Bool) (bound d : ℕ) → d < bound → holds_below test bound ≡ true → test d ≡ true
unfolding holds_below
holds_below-lt test zero d below h = absurd (omega arith)
holds_below-lt test (suc bound) d below h = ground (arith, holds_below-lt test bound d)

abbrev pub alphanumeric : ℕ → Bool
alphanumeric c = is_digit c || ((leb b'A' c && leb c b'Z') || (leb b'a' c && leb c b'z'))

&&-eq-true : (b c : Bool) → (b && c) ≡ true → (b ≡ true) × (c ≡ true)
&&-eq-true b c h = ground arith

char_table :
    holds_below
      (λ d. (digit_value (char_at base62_chars d) == d) && alphanumeric (char_at base62_chars d))
      62
    ≡ true
unfolding holds_below char_at
char_table = refl

char_lem :
    (d : ℕ)
    → d < 62
    → (digit_value (char_at base62_chars d) ≡ d) × (alphanumeric (char_at base62_chars d) ≡ true)
char_lem d h =
    let (exact, letter) = &&-eq-true _ _ (holds_below-lt _ 62 d h char_table) in
    ((nat_beq_iff _ d).0 exact, letter)

decode_from-append :
    (n : ℕ) (s t : Bytes) → decode_from n (s ++ t) ≡ decode_from (decode_from n s) t
unfolding decode_from
decode_from-append n [] t = refl
decode_from-append n (c ∷ s) t = decode_from-append (n * 62 + digit_value c) s t

decode-reverse : (s : Bytes) → decode_from 0 (reverse s) ≡ value_le s
unfolding value_le decode_from
decode-reverse [] = refl
decode-reverse (c ∷ s) =
    rw (reverse-cons c s, decode_from-append 0 (reverse s) (c ∷ []))
      (omega (arith, decode-reverse s))

-- The digits of a number, least significant first: the loop without its accumulator.
digits : ℕ → ℕ → Bytes
digits zero n = []
digits (suc fuel) n =
    let rest = char_at base62_chars (n % 62) ∷ digits fuel (n / 62) in if ltb 0 n then rest else []

push_digits-digits : (fuel n : ℕ) (s : Bytes) → push_digits fuel n s ≡ s ++ digits fuel n
unfolding push_digits digits
push_digits-digits zero n s = sym (append-nil s)
push_digits-digits (suc fuel) n s = ground (
  arith,
  push_digits-digits fuel (n / 62) (s ++ char_at base62_chars (n % 62) ∷ []),
  append-nil s,
  append_assoc s (char_at base62_chars (n % 62) ∷ []) (digits fuel (n / 62)),
)

value_le-digits : (fuel n : ℕ) → n ≤ fuel → value_le (digits fuel n) ≡ n
unfolding value_le digits
value_le-digits zero n h = omega arith
value_le-digits (suc fuel) n h = ground (arith, value_le-digits fuel (n / 62), char_lem (n % 62))

value_le-zeros : (s : Bytes) (k : ℕ) → value_le (s ++ replicate k b'0') ≡ value_le s
unfolding value_le
value_le-zeros [] zero = refl
value_le-zeros [] (suc k) = omega (arith, value_le-zeros [] k)
value_le-zeros (c ∷ s) k = omega (arith, value_le-zeros s k)

abbrev zeros : ℕ → Bytes
zeros k = replicate k b'0'

one_more :
    (s : Bytes)
    → ltb (length s) min_code_length ≡ true
    → zeros (min_code_length - length s) ≡ b'0' ∷ zeros (min_code_length - (length s + 1))
one_more s short =
    let e : min_code_length - length s ≡ suc (min_code_length - (length s + 1)) = omega tests in
    ap zeros e

enough :
    (s : Bytes) → ltb (length s) min_code_length ≡ false → zeros (min_code_length - length s) ≡ []
enough s long = let e : min_code_length - length s ≡ 0 = ground arith in ap zeros e

pad_lem :
    (fuel : ℕ) (s : Bytes)
    → min_code_length ≤ fuel + length s
    → pad fuel s ≡ s ++ replicate (min_code_length - length s) b'0'
unfolding pad
pad_lem zero s h = rw (sub_zero, append-nil s)
  where
    sub_zero : min_code_length - length s ≡ 0
    sub_zero = omega arith
pad_lem (suc fuel) s h = elim (Bool-cases (ltb (length s) min_code_length)) [
  | inl short ↦
      rw (short, one_more s short, pad_lem fuel (s ++ b'0' ∷ []) (omega (arith, grows)))
        (rw grows (append_assoc s (b'0' ∷ []) (replicate (min_code_length - (length s + 1)) b'0')))
  | inr long ↦ rw (long, enough s long, append-nil s)
]
  where
    grows : length (s ++ b'0' ∷ []) ≡ length s + 1
    grows = length-append s (b'0' ∷ [])

suc_beq_zero : (n : ℕ) → (suc n == 0) ≡ false
suc_beq_zero n = ground arith

-- For every number, 0 too: the digits of the number, padded, the most significant in front.
encode_base62-eq :
    (n : ℕ)
    → encode_base62 n
      ≡ reverse (digits n n ++ replicate (min_code_length - length (digits n n)) b'0')
unfolding encode_base62
encode_base62-eq zero = unfold digits in refl
encode_base62-eq (suc n) = rw (suc_beq_zero n) (
    ap reverse (
      ap (pad min_code_length) (push_digits-digits (suc n) (suc n) [])
      ∙ pad_lem min_code_length (digits (suc n) (suc n)) (omega arith)))

-- Every code is read back as the number that it was made from.
pub decode_base62-encode_base62 : (n : ℕ) → decode_base62 (encode_base62 n) ≡ n
unfolding decode_base62
decode_base62-encode_base62 n =
    rw (encode_base62-eq n, decode-reverse, value_le-zeros) (value_le-digits n n (le_refl n))

-- Two numbers never get one code.
pub encode_base62-injective : (m n : ℕ) → encode_base62 m ≡ encode_base62 n → m ≡ n
encode_base62-injective m n e =
    sym (decode_base62-encode_base62 m) ∙ (ap decode_base62 e ∙ decode_base62-encode_base62 n)

length-digits : (fuel n k : ℕ) → n < 62 ^ k → length (digits fuel n) ≤ k
unfolding digits
length-digits zero n k h = omega arith
length-digits (suc fuel) n zero h = ground arith
length-digits (suc fuel) n (suc k) h = ground (arith, pow-suc 62 k, length-digits fuel (n / 62) k)

-- A code has at least six characters, and no more than the number needs.
pub length-encode_base62 :
    (n k : ℕ)
    → n < 62 ^ k
    → (min_code_length ≤ length (encode_base62 n))
      × (length (encode_base62 n) ≤ max min_code_length k)
length-encode_base62 n k h = rw (encode_base62-eq n) (
    omega (
      arith,
      length-reverse (digits n n ++ replicate (min_code_length - length (digits n n)) b'0'),
      length-append (digits n n) (replicate (min_code_length - length (digits n n)) b'0'),
      length-replicate {A = ℕ} (min_code_length - length (digits n n)) b'0',
      length-digits n n k h,
    ))

abbrev pub IsAlphanumeric : ℕ → Type 0
IsAlphanumeric c = alphanumeric c ≡ true

digits-IsAlphanumeric : (fuel n : ℕ) → All IsAlphanumeric (digits fuel n)
unfolding digits
digits-IsAlphanumeric zero n = tt
digits-IsAlphanumeric (suc fuel) n =
    ground (arith, digits-IsAlphanumeric fuel (n / 62), char_lem (n % 62))

-- A code holds ASCII letters and digits only.
pub encode_base62-IsAlphanumeric : (n : ℕ) → All IsAlphanumeric (encode_base62 n)
encode_base62-IsAlphanumeric n = rw (encode_base62-eq n) (
    All-reverse IsAlphanumeric _ (
      All-append IsAlphanumeric (digits n n) _ (digits-IsAlphanumeric n n)
        (All-replicate IsAlphanumeric _ b'0' refl)))
