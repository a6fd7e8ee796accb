-- ===== src/ShortLink/MySql/Rows.antt =====
-- Searches in the rows of the table, and what changes leave of them.
-- Every id is below the counter.
use hao_short_link.Prelude.{
  All, Bool, Bool-cases, Bytes, List, Option, Option-cases, [], ap, arith, bytes_eq, false, inl,
  inr, nat_eq, none, refl, some, true, ℕ, ◌<◌, ◌==◌, ◌∷◌, ◌≡◌,
}
use hao_short_link.Prelude.Int.{int_eq, ℤ}
use hao_short_link.Prelude.Map.{pair_eq}
use hao_short_link.ShortLink.MySql.{Faults, MySqlState, fail, find_by_code, read_found, read_record}
use hao_short_link.ShortLink.MySql.Table.{Database, Row, find_row, has_code, set_rows}
use hao_short_link.ShortLink.Record.{LookupResult, ShortLinkRecord, returned}

abbrev pub IsNumbered : Database → Type 0
IsNumbered db = All (λ (row : Row). row.id < db.auto_increment) db.rows

abbrev pub link_of : Option Row → Option ShortLinkRecord
link_of none = none
link_of (some row) = read_record row

-- The links that the rows stand for.
abbrev pub links : MySqlState → Bytes → Option ShortLinkRecord
links t code = link_of (find_row (has_code code) t.database.rows)

pub find_by_code-answers :
    (faults_of : ℕ → Faults) (code : Bytes) (now : ℤ) (t : MySqlState) (res : LookupResult)
    → (find_by_code faults_of code now t).1 ≡ returned res
    → res.found ≡ links t code
unfolding find_by_code read_found fail
find_by_code-answers faults_of code now t res e =
    elim (Option-cases (find_row (has_code code) t.database.rows)) [
      | inl absent ↦ rw absent (ground arith)
      | inr (row, here) ↦ elim (Option-cases (read_record row)) [
        | inl unknown ↦ rw (here, unknown) (ground arith)
        | inr (r, known) ↦ rw (here, known) (ground arith)
      ]
    ]

-- Reading changes no row.
pub find_by_code-rows :
    (faults_of : ℕ → Faults) (code : Bytes) (now : ℤ) (t : MySqlState)
    → (find_by_code faults_of code now t).0.database ≡ t.database
unfolding find_by_code read_found fail
find_by_code-rows faults_of code now t = ground arith

pub set_rows-none :
    (p : Row → Bool) (f : Row → Row) (rows : List Row)
    → find_row p rows ≡ none
    → set_rows p f rows ≡ rows
unfolding set_rows find_row
set_rows-none p f [] h = refl
set_rows-none p f (row ∷ rest) h = elim (Bool-cases (p row)) [
  | inl hit ↦ ground arith
  | inr miss ↦ rw (miss) (ap (◌∷◌ row) (set_rows-none p f rest (ground arith)))
]

pub find_row-numbered :
    (n : ℕ) (rows : List Row)
    → All (λ (row : Row). row.id < n) rows
    → find_row (λ row. row.id == n) rows ≡ none
unfolding find_row
find_row-numbered n [] h = refl
find_row-numbered n (row ∷ rest) h = ground (arith, find_row-numbered n rest h.1)

-- A change that a search does not see.
pub find_row-set_rows :
    (q p : Row → Bool) (f : Row → Row) (rows : List Row)
    → ((row : Row) → p row ≡ true → q row ≡ false)
    → ((row : Row) → q (f row) ≡ q row)
    → find_row q (set_rows p f rows) ≡ find_row q rows
unfolding find_row set_rows
find_row-set_rows q p f [] apart same = refl
find_row-set_rows q p f (row ∷ rest) apart same =
    ground (arith, apart row, same row, find_row-set_rows q p f rest apart same)

-- A change leaves the rows that it is for to be found.
pub find_row-kept :
    (p : Row → Bool) (f : Row → Row) (rows : List Row)
    → ((row : Row) → p (f row) ≡ p row)
    → find_row p (set_rows p f rows) ≡ none
    → find_row p rows ≡ none
unfolding find_row set_rows
find_row-kept p f [] same h = refl
find_row-kept p f (row ∷ rest) same h = ground (arith, same row, find_row-kept p f rest same)
