-- ===== src/ShortLink/MySql/Insertion.antt =====
-- A creation up to its COMMIT.
-- A creation that reaches its COMMIT has put its row in front of the others, under a code that was
-- free, and has read that row.
use hao_short_link.Prelude.{
  Bytes, List, Option, Option-cases, ap, arith, beq_self, bytes_eq, false, if◌then◌else◌, inl, inr,
  is_some, nat_eq, none, refl, some, suc, sym, ℕ, ◌==◌, ◌∙◌, ◌∷◌, ◌≡◌, ◌≤◌,
}
use hao_short_link.Prelude.Int.{int_eq, ℤ}
use hao_short_link.Prelude.Map.{pair_eq}
use hao_short_link.ShortLink.Base62.{encode_base62}
use hao_short_link.ShortLink.Memory.{choose_code}
use hao_short_link.ShortLink.MySql.{
  Faults, insert_and_read, made, read_created, read_record, refused, set_own_code,
}
use hao_short_link.ShortLink.MySql.Rows.{IsNumbered, find_row-numbered, set_rows-none}
use hao_short_link.ShortLink.MySql.Table.{
  Database, Row, find_row, has_code, insert_row, is_taken, new_row, other_error, set_code, set_rows,
}
use hao_short_link.ShortLink.Record.{ShortLinkRecord}

pub record Inserted (before : Database) (row : Row) (code : Bytes) (r : ShortLinkRecord)
    (after : Database) : Type 0 where
  pub in_front : after.rows ≡ row ∷ before.rows
  pub counted : after.auto_increment ≡ suc before.auto_increment
  pub free : find_row (has_code code) before.rows ≡ none
  pub read : read_record row ≡ some r

is_some-none {ℓ} : {A : Type ℓ} (o : Option A) → is_some o ≡ false → o ≡ none
is_some-none o e = ground arith

made_same :
    (faults : Faults) (a b : ShortLinkRecord)
    → (if faults.at_read then refused other_error else made a) ≡ made b
    → a ≡ b
made_same faults a b e = ground arith

-- The row of a creation under its code.
abbrev pub row_of : Database → Bytes → Option ℤ → ℕ → ℤ → Bytes → Row
row_of db url expires_at owner_id now code =
    new_row db.auto_increment owner_id (some code) url expires_at now

module _ (url : Bytes) (expires_at : Option ℤ) (owner_id : ℕ) (now : ℤ) (faults : Faults)
    (db : Database) where
  insert_row-added :
      (code : Option Bytes)
      → (insert_row owner_id code url expires_at now db).1 ≡ none
      → ((insert_row owner_id code url expires_at now db).0 ≡ record db {
        rows = new_row db.auto_increment owner_id code url expires_at now ∷ db.rows;
        auto_increment = suc db.auto_increment;
      })
        × (is_taken code db.rows ≡ false)
  unfolding insert_row
  insert_row-added code e = ground arith

  -- The steps of a creation that reaches its COMMIT.
  insert_and_read-made :
      (custom : Option Bytes) (r : ShortLinkRecord)
      → (insert_and_read url expires_at owner_id custom now faults db).1 ≡ made r
      → let inserted = insert_row owner_id custom url expires_at now db in
        let coded = set_own_code custom faults db.auto_increment inserted.0 in
        (inserted.1 ≡ none)
        × (coded.1 ≡ none)
        × (read_created faults db.auto_increment coded.0 ≡ made r)
        × ((insert_and_read url expires_at owner_id custom now faults db).0 ≡ coded.0)
  unfolding insert_and_read
  insert_and_read-made custom r e = ground arith

  front_found :
      (row : Row) (rows : List Row)
      → row.id ≡ db.auto_increment
      → find_row (λ other. other.id == db.auto_increment) (row ∷ rows) ≡ some row
  unfolding find_row
  front_found row rows same = ground arith

  read_created-made :
      (row : Row) (rows : List Row) (r : ShortLinkRecord) (after : Database)
      → after.rows ≡ row ∷ rows
      → row.id ≡ db.auto_increment
      → read_created faults db.auto_increment after ≡ made r
      → read_record row ≡ some r
  unfolding read_created
  read_created-made row rows r after top same e =
      let here = rw (sym top) at (front_found row rows same) in
      elim (Option-cases (read_record row)) [
        | inl unknown ↦ let no_row = rw (read_created, here, unknown) at e in cc
        | inr (r', known) ↦
            known ∙ ap some (made_same faults r' r (rw (read_created, here, known) at e))
      ]

  insert_custom-made :
      (code : Bytes) (r : ShortLinkRecord)
      → (insert_and_read url expires_at owner_id (some code) now faults db).1 ≡ made r
      → Inserted db
          (row_of db url expires_at owner_id now code)
          code
          r
          (insert_and_read url expires_at owner_id (some code) now faults db).0
  unfolding set_own_code is_taken
  insert_custom-made code r e =
      let (added, coded, done, out) = insert_and_read-made (some code) r e in
      let (row_put, free) = insert_row-added (some code) added in
      let top = ap (λ (x : Database). x.rows) row_put in
      rw out (record {
        in_front = top;
        counted = ap (λ (x : Database). x.auto_increment) row_put;
        free = is_some-none _ free;
        read =
            read_created-made (row_of db url expires_at owner_id now code) db.rows r _ top refl
              done;
      })

  front_coded :
      (code : Bytes)
      → IsNumbered db
      → set_rows
          (λ row. row.id == db.auto_increment)
          (λ row. record row { code = some code })
          (new_row db.auto_increment owner_id none url expires_at now ∷ db.rows)
        ≡ row_of db url expires_at owner_id now code ∷ db.rows
  unfolding set_rows
  front_coded code v =
      let others =
        set_rows-none (λ row. row.id == db.auto_increment) (λ row. record row { code = some code })
          db.rows (find_row-numbered db.auto_increment db.rows v) in
      rw (beq_self db.auto_increment, others) refl

  front_blank :
      (code : Bytes)
      → find_row
          (has_code code)
          (new_row db.auto_increment owner_id none url expires_at now ∷ db.rows)
        ≡ find_row (has_code code) db.rows
  unfolding find_row has_code
  front_blank code = refl

  -- The code of its own for a row that was put in front without one.
  set_own_code-done :
      (after : Database)
      → IsNumbered db
      → after.rows ≡ new_row db.auto_increment owner_id none url expires_at now ∷ db.rows
      → (set_own_code none faults db.auto_increment after).1 ≡ none
      → let code = encode_base62 db.auto_increment in
        let out = (set_own_code none faults db.auto_increment after).0 in
        (out.rows ≡ row_of db url expires_at owner_id now code ∷ db.rows)
        × (out.auto_increment ≡ after.auto_increment)
        × (find_row (has_code code) db.rows ≡ none)
  unfolding set_own_code set_code is_taken
  set_own_code-done after v top e =
      let code = encode_base62 db.auto_increment in
      let coded = rw (sym top) at (front_coded code v) in
      let blank = rw (sym top) at (front_blank code) in ground (arith, coded, blank)

  insert_free-made :
      (r : ShortLinkRecord)
      → IsNumbered db
      → (insert_and_read url expires_at owner_id none now faults db).1 ≡ made r
      → let code = encode_base62 db.auto_increment in
        Inserted db
          (row_of db url expires_at owner_id now code)
          code
          r
          (insert_and_read url expires_at owner_id none now faults db).0
  unfolding set_own_code
  insert_free-made r v e =
      let (added, coded, done, out) = insert_and_read-made none r e in
      let (row_put, free) = insert_row-added none added in
      let top = ap (λ (x : Database). x.rows) row_put in
      let (rows, kept, unused) =
        set_own_code-done (insert_row owner_id none url expires_at now db).0 v top coded in
      rw out (record {
        in_front = rows;
        counted = kept ∙ ap (λ (x : Database). x.auto_increment) row_put;
        free = unused;
        read =
            read_created-made
              (row_of db url expires_at owner_id now (encode_base62 db.auto_increment)) db.rows r _
              rows refl done;
      })

  pub insert-made :
      (custom : Option Bytes) (r : ShortLinkRecord)
      → IsNumbered db
      → (insert_and_read url expires_at owner_id custom now faults db).1 ≡ made r
      → let code = choose_code custom db.auto_increment in
        Inserted db
          (row_of db url expires_at owner_id now code)
          code
          r
          (insert_and_read url expires_at owner_id custom now faults db).0
  unfolding choose_code
  insert-made none r v e = insert_free-made r v e
  insert-made (some code) r v e = insert_custom-made code r e

  pub insert_and_read-counter :
      (custom : Option Bytes)
      → db.auto_increment
        ≤ (insert_and_read url expires_at owner_id custom now faults db).0.auto_increment
  unfolding insert_and_read insert_row set_own_code set_code
  insert_and_read-counter none = ground arith
  insert_and_read-counter (some code) = ground arith
