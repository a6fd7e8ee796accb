-- ===== src/Prelude/Texts.antt =====
-- Texts as lists of bytes, with the equality test of `std::string`.
use Prim.Native.Nat.{ℕ}
use Prim.Native.Char.{code as char_code}
use Prim.Native.String.{String}
use mathlib.Core.Path.{◌≡◌, refl}
use mathlib.Core.Logic.{◌↔◌, ◌≢◌}
use mathlib.Core.Bool.{Bool, true, false, ◌&&◌}
use mathlib.Core.List.{List, [], ◌∷◌}
use native.Mathlib.Omega.{arith}
use hao_short_link.Prelude.Tests.{Eq, nat_beq, leb}
use hao_short_link.Prelude.Lists.{All}

abbrev pub Bytes : Type 0
Bytes = List ℕ

-- The bytes of an ASCII literal.
abbrev pub codes : String → Bytes
codes String.[] = []
codes (String.◌∷◌ c s) = char_code c ∷ codes s

unfoldable pub bytes_beq : Bytes → Bytes → Bool
bytes_beq [] [] = true
bytes_beq [] (d ∷ t) = false
bytes_beq (c ∷ s) [] = false
bytes_beq (c ∷ s) (d ∷ t) = nat_beq c d && bytes_beq s t

pub bytes_beq_iff : (s t : Bytes) → (bytes_beq s t ≡ true) ↔ (s ≡ t)
unfolding bytes_beq
bytes_beq_iff [] [] = (λ _. refl, λ _. refl)
bytes_beq_iff [] (d ∷ t) = (λ h. cc, λ h. cc)
bytes_beq_iff (c ∷ s) [] = (λ h. cc, λ h. cc)
bytes_beq_iff (c ∷ s) (d ∷ t) = ground (arith, bytes_beq_iff s t)

instance abbrev pub bytes_eq : Eq Bytes
bytes_eq = record { equal = bytes_beq; equal_iff = bytes_beq_iff }

abbrev pub is_digit : ℕ → Bool
is_digit c = leb b'0' c && leb c b'9'

abbrev pub is_empty : Bytes → Bool
is_empty [] = true
is_empty (c ∷ s) = false

-- `prefix` at the front of a text.
abbrev pub starts_with : Bytes → Bytes → Bool
starts_with s [] = true
starts_with [] (d ∷ t) = false
starts_with (c ∷ s) (d ∷ t) = nat_beq c d && starts_with s t

abbrev pub Lacks : ℕ → Bytes → Type 0
Lacks b = All (λ c. c ≢ b)
