-- ===== src/ShortLink/MySql/Contract.antt =====
-- `MySqlShortLinkRepository` as a `ShortLinkRepository`, whichever statements throw.
-- A row in front under a code that was free hides no other link.
use hao_short_link.Prelude.{
  All-map, Bool-cases, Bytes, List, Option, ap, arith, bytes_beq, bytes_beq_iff, bytes_eq,
  if◌then◌else◌, inl, inr, nat_eq, refl, some, some_same, sym, ℕ, ◌<◌, ◌==◌, ◌∙◌, ◌∷◌, ◌≡◌,
}
use hao_short_link.Prelude.Int.{int_eq, ℤ}
use hao_short_link.Prelude.Map.{pair_eq}
use hao_short_link.ShortLink.Memory.{choose_code, differs, new_record}
use hao_short_link.ShortLink.MySql.{Faults, MySqlState, create_row, mysql_repository, read_record}
use hao_short_link.ShortLink.MySql.Creation.{
  create_row-Effect, create_row-returns, new_link, nothing,
}
use hao_short_link.ShortLink.MySql.Insertion.{Inserted, row_of}
use hao_short_link.ShortLink.MySql.Rows.{
  IsNumbered, find_by_code-answers, find_by_code-rows, link_of, links,
}
use hao_short_link.ShortLink.MySql.Table.{Database, Row, find_row, has_code, new_row}
use hao_short_link.ShortLink.MySql.Updates.{update_lifecycle-frame, update_lifecycle-refused}
use hao_short_link.ShortLink.Record.{ShortLinkRecord, parse_status, returned}
use hao_short_link.ShortLink.Repository.{IsRepository}
use mathlib.Core.Option.{none-ne-some}

find-front :
    (row : Row) (rows : List Row) (code other : Bytes)
    → row.code ≡ some code
    → find_row (has_code other) (row ∷ rows)
      ≡ (if code == other then some row else find_row (has_code other) rows)
unfolding find_row has_code
find-front row rows code other e = rw e refl

link-Inserted :
    (before after : Database) (row : Row) (code other : Bytes) (r : ShortLinkRecord)
    → row.code ≡ some code
    → Inserted before row code r after
    → link_of (find_row (has_code other) after.rows)
      ≡ (if code == other then some r else link_of (find_row (has_code other) before.rows))
link-Inserted before after row code other r named ins = elim (Bool-cases (code == other)) [
  | inl same ↦ rw (ins.in_front, find-front row before.rows code other named, same) ins.read
  | inr differs ↦ rw (ins.in_front, find-front row before.rows code other named, differs) refl
]

create_row-frame :
    (faults_of : ℕ → Faults) (url : Bytes) (expires_at : Option ℤ) (owner_id : ℕ)
    (custom : Option Bytes) (now : ℤ) (t : MySqlState) (other : Bytes) (r : ShortLinkRecord)
    → IsNumbered t.database
    → links t other ≡ some r
    → links (create_row faults_of url expires_at owner_id custom now t).0 other ≡ some r
create_row-frame faults_of url expires_at owner_id custom now t other r v e =
    elim (create_row-Effect faults_of url expires_at owner_id now t custom v) [
      | nothing same grows ↦ rw same e
      | new_link r' ins ↦
          let code = choose_code custom t.database.auto_increment in
          elim (Bool-cases (code == other)) [
            | inl same ↦
                let known =
                  sym (ap link_of (rw ((bytes_beq_iff code other).0 same) at ins.free)) ∙ e in
                absurd (none-ne-some r known)
            | inr differs ↦
                link-Inserted t.database _ (row_of t.database url expires_at owner_id now code) code
                  other r' refl ins
                ∙ rw differs e
          ]
    ]

-- Whichever statements throw, the MySQL repository keeps the repository's contract, where the ids of
-- its rows are below the counter.
pub mysql-IsRepository :
    (faults_of : ℕ → Faults)
    → IsRepository (mysql_repository faults_of) (λ t. IsNumbered t.database) links
mysql-IsRepository faults_of = record {
  find_answers = λ code now t res v e. find_by_code-answers faults_of code now t res e;
  find_keeps = λ code now t other v.
      ap (λ (db : Database). link_of (find_row (has_code other) db.rows))
        (find_by_code-rows faults_of code now t);
  create_frame = create_row-frame faults_of;
  update_frame =
      λ code update now t other v ne. update_lifecycle-frame faults_of code update now t other ne;
  update_refused =
      λ code update now t other v e. update_lifecycle-refused faults_of code update now t other e;
}

record_of_row :
    (id owner_id : ℕ) (code url : Bytes) (expires_at : Option ℤ) (now : ℤ)
    → read_record (new_row id owner_id (some code) url expires_at now)
      ≡ some (new_record id owner_id code url expires_at now)
unfolding read_record parse_status bytes_beq
record_of_row id owner_id code url expires_at now = refl

Inserted-IsNumbered :
    (before after : Database) (row : Row) (code : Bytes) (r : ShortLinkRecord)
    → IsNumbered before
    → row.id ≡ before.auto_increment
    → Inserted before row code r after
    → IsNumbered after
Inserted-IsNumbered before after row code r v same ins = rw ins.in_front (
  omega (arith, same, ins.counted),
  All-map (λ (x : Row). x.id < before.auto_increment) (λ (x : Row). x.id < after.auto_increment)
      (λ x h. omega (arith, ins.counted)) before.rows v,
)

-- A link that the MySQL repository says it has created has the next id, the owner, the target and the
-- end that were asked for, and the code that was asked for or else that of its id; it is found under
-- that code, every other code has the link of before, and the ids stay below the counter.
pub create_row-stores :
    (faults_of : ℕ → Faults) (url : Bytes) (expires_at : Option ℤ) (owner_id : ℕ)
    (custom : Option Bytes) (now : ℤ) (t : MySqlState) (r : ShortLinkRecord)
    → IsNumbered t.database
    → (create_row faults_of url expires_at owner_id custom now t).1 ≡ returned (some r)
    → let id = t.database.auto_increment in
      let code = choose_code custom id in
      let after = (create_row faults_of url expires_at owner_id custom now t).0 in
      (r ≡ new_record id owner_id code url expires_at now)
      × ((other : Bytes) → links after other ≡ (if code == other then some r else links t other))
      × IsNumbered after.database
create_row-stores faults_of url expires_at owner_id custom now t r v e =
    let ins = create_row-returns faults_of url expires_at owner_id now t custom r v e in
    let code = choose_code custom t.database.auto_increment in
    let row = row_of t.database url expires_at owner_id now code in
    (
      some_same _ _
          (sym ins.read ∙ record_of_row t.database.auto_increment owner_id code url expires_at now),
      λ other. link-Inserted t.database _ row code other r refl ins,
      Inserted-IsNumbered t.database _ row code r v refl ins,
    )
