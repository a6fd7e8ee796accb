-- ===== src/ShortLink/MySql/Updates.antt =====
-- A change of a link's state or end, whichever of its statements throw.
use hao_short_link.Prelude.{
  Bool, Bool-cases, Bytes, Option, Option-cases, ap, arith, bytes_beq_iff, bytes_eq, false,
  if◌then◌else◌, inl, inr, nat_eq, none, refl, some, true, ℕ, ◌≡◌, ◌≢◌,
}
use hao_short_link.Prelude.Int.{int_eq, ℤ}
use hao_short_link.Prelude.Map.{pair_eq}
use hao_short_link.ShortLink.Memory.Invariant.{view}
use hao_short_link.ShortLink.Metrics.{BackendOperation}
use hao_short_link.ShortLink.MySql.{
  Faults, MySqlState, change_of, fail, owner_or_any, read_found, run_update, update_lifecycle,
}
use hao_short_link.ShortLink.MySql.Rows.{
  find_row-kept, find_row-set_rows, link_of, links, set_rows-none,
}
use hao_short_link.ShortLink.MySql.Table.{
  Change, Database, Row, change_row, find_row, has_code, is_owned, set_rows, update_rows,
}
use hao_short_link.ShortLink.Record.{LifecycleUpdate, returned}

is_owned-apart :
    (code other : Bytes) (owner_id : ℕ) (row : Row)
    → code ≢ other
    → is_owned code owner_id row ≡ true
    → has_code other row ≡ false
unfolding is_owned has_code
is_owned-apart code other owner_id row ne e = elim (Option-cases row.code) [
  | inl blank ↦ rw blank refl
  | inr (c, named) ↦ ground (arith, bytes_beq_iff c code, bytes_beq_iff c other)
]

is_owned-change_row :
    (code : Bytes) (owner_id : ℕ) (change : Change) (now : ℤ) (row : Row)
    → is_owned code owner_id (change_row change now row) ≡ is_owned code owner_id row
unfolding is_owned change_row has_code
is_owned-change_row code owner_id change now row = refl

has_code-change_row :
    (code : Bytes) (change : Change) (now : ℤ) (row : Row)
    → has_code code (change_row change now row) ≡ has_code code row
unfolding change_row has_code
has_code-change_row code change now row = refl

-- An UPDATE touches the rows with its code only.
run_update-rows :
    (change : Option Change) (code other : Bytes) (owner_id : ℕ) (now : ℤ) (faults : Faults)
    (db : Database)
    → code ≢ other
    → find_row (has_code other) (run_update change code owner_id now faults db).0.rows
      ≡ find_row (has_code other) db.rows
unfolding run_update update_rows
run_update-rows none code other owner_id now faults db ne = refl
run_update-rows (some change) code other owner_id now faults db ne = ground (
  arith,
  find_row-set_rows (has_code other) (is_owned code owner_id) (change_row change now) db.rows
      (λ row e. is_owned-apart code other owner_id row ne e) (has_code-change_row other change now),
)

-- An UPDATE after which no row is found has changed none.
run_update-none :
    (change : Option Change) (code : Bytes) (owner_id : ℕ) (now : ℤ) (faults : Faults)
    (db : Database)
    → find_row (is_owned code owner_id) (run_update change code owner_id now faults db).0.rows
      ≡ none
    → (run_update change code owner_id now faults db).0.rows ≡ db.rows
unfolding run_update update_rows
run_update-none none code owner_id now faults db e = refl
run_update-none (some change) code owner_id now faults db e = elim (Bool-cases faults.at_update) [
  | inr fine ↦ rw fine (unseen (rw (run_update, fine, update_rows) at e))
  | inl lost ↦ elim (Bool-cases faults.update_applied) [
    | inl applied ↦ rw (lost, applied) (unseen (rw (run_update, lost, applied, update_rows) at e))
    | inr undone ↦ rw (lost, undone) refl
  ]
]
  where
    unseen :
        find_row
            (is_owned code owner_id)
            (set_rows (is_owned code owner_id) (change_row change now) db.rows)
          ≡ none
        → set_rows (is_owned code owner_id) (change_row change now) db.rows ≡ db.rows
    unseen h = set_rows-none _ _ db.rows (
        find_row-kept _ (change_row change now) db.rows
          (is_owned-change_row code owner_id change now) h)

read_found-rows :
    (faults_of : ℕ → Faults) (operation : BackendOperation) (found : Option Row) (t : MySqlState)
    → (read_found faults_of operation found t).0.database ≡ t.database
unfolding read_found fail
read_found-rows faults_of operation none t = refl
read_found-rows faults_of operation (some row) t = ground arith

read_found-none :
    (faults_of : ℕ → Faults) (operation : BackendOperation) (found : Option Row) (t : MySqlState)
    → (read_found faults_of operation found t).1 ≡ returned none
    → found ≡ none
unfolding read_found fail
read_found-none faults_of operation none t e = refl
read_found-none faults_of operation (some row) t e = ground arith

same_view {ℓ} :
    {A : Type ℓ} (b : Bool) (before after : Database) (view : Database → A)
    → view after ≡ view before
    → view (if b then before else after) ≡ view before
same_view true before after view e = refl
same_view false before after view e = e

module _ (faults_of : ℕ → Faults) (code : Bytes) (update : LifecycleUpdate) (now : ℤ)
    (t : MySqlState) where
  abbrev updated : Database × Bool
  updated =
      run_update (change_of update) code (owner_or_any update.owner_id) now (faults_of t.calls)
        t.database

  abbrev found_after : Option Row
  found_after = find_row (is_owned code (owner_or_any update.owner_id)) updated.0.rows

  update_lifecycle-database :
      (update_lifecycle faults_of code update now t).0.database
      ≡ (if (faults_of t.calls).at_connection then t.database else updated.0)
  unfolding update_lifecycle fail
  update_lifecycle-database = ground (
    arith,
    read_found-rows faults_of BackendOperation.update found_after
        (record t { database = updated.0 }),
  )

  update_lifecycle-none :
      (update_lifecycle faults_of code update now t).1 ≡ returned none → found_after ≡ none
  unfolding update_lifecycle fail
  update_lifecycle-none e = ground (
    arith,
    read_found-none faults_of BackendOperation.update found_after
        (record t { database = updated.0 }),
  )

  pub update_lifecycle-frame :
      (other : Bytes)
      → code ≢ other
      → links (update_lifecycle faults_of code update now t).0 other ≡ links t other
  update_lifecycle-frame other ne =
      let same =
        run_update-rows (change_of update) code other (owner_or_any update.owner_id) now
          (faults_of t.calls) t.database ne in
      rw update_lifecycle-database (
        same_view (faults_of t.calls).at_connection t.database updated.0
          (λ db. link_of (find_row (has_code other) db.rows)) (ap link_of same))

  pub update_lifecycle-refused :
      (other : Bytes)
      → (update_lifecycle faults_of code update now t).1 ≡ returned none
      → links (update_lifecycle faults_of code update now t).0 other ≡ links t other
  update_lifecycle-refused other e =
      let same =
        run_update-none (change_of update) code (owner_or_any update.owner_id) now
          (faults_of t.calls) t.database (update_lifecycle-none e) in
      rw update_lifecycle-database (
        same_view (faults_of t.calls).at_connection t.database updated.0
          (λ db. link_of (find_row (has_code other) db.rows))
          (ap (λ rows. link_of (find_row (has_code other) rows)) same))
