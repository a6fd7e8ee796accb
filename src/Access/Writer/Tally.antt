-- ===== src/Access/Writer/Tally.antt =====
-- Sums over a table, and an entry that was just inserted.
use hao_short_link.Prelude.{
  Bytes, Eq, List, Option, [], arith, beq_self, bytes_eq, false, is_some, nat_eq, none, refl, some,
  ℕ, ◌+◌, ◌∷◌, ◌≡◌,
}
use hao_short_link.Prelude.Int.{int_eq}
use hao_short_link.Prelude.Map.{insert, lookup, lookup-insert, pair_eq}
use hao_short_link.ShortLink.Record.{status_eq}

unfoldable pub tally {ℓ κ} : {K : Type ℓ} {V : Type κ} → (V → ℕ) → List (K × V) → ℕ
tally f [] = 0
tally f ((k, v) ∷ rows) = f v + tally f rows

abbrev pub held {κ} : {V : Type κ} → (V → ℕ) → Option V → ℕ
held f none = 0
held f (some v) = f v

pub tally-insert {ℓ κ} :
    {K : Type ℓ} {V : Type κ} ⦃e : Eq K⦄ (f : V → ℕ) (k : K) (v : V) (rows : List (K × V))
    → tally f (insert k v rows) + held f (lookup k rows) ≡ tally f rows + f v
unfolding tally insert lookup
tally-insert f k v [] = omega arith
tally-insert ⦃e⦄ f k v ((j, w) ∷ rows) = ground (arith, tally-insert f k v rows)

pub is_some-none {ℓ} : {A : Type ℓ} (o : Option A) → is_some o ≡ false → o ≡ none
is_some-none none h = refl
is_some-none (some a) h = ground arith

pub found_inserted {κ} :
    {V : Type κ} (k : Bytes) (v : V) (rows : List (Bytes × V)) → lookup k (insert k v rows) ≡ some v
found_inserted k v rows = ground (arith, lookup-insert k k v rows, beq_self k)
