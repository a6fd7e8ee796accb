-- ===== src/ShortLink/MySql/Creation.antt =====
-- A creation, whichever of its statements throw.
-- What a creation leaves: the rows of before, or these behind the new one.
use hao_short_link.Prelude.{
  Bool, Bool-cases, Bytes, Option, ap, arith, bytes_eq, false, if◌then◌else◌, inl, inr, nat_eq,
  refl, some, sym, ℕ, ◌∙◌, ◌≡◌, ◌≢◌, ◌≤◌,
}
use hao_short_link.Prelude.Int.{int_eq, ℤ}
use hao_short_link.Prelude.Map.{pair_eq}
use hao_short_link.ShortLink.Memory.{choose_code}
use hao_short_link.ShortLink.MySql.{
  Attempt, Faults, MySqlState, create_row, fail, give_up, insert_and_read, made, refused,
  rolled_back, settle_create,
}
use hao_short_link.ShortLink.MySql.Insertion.{
  Inserted, insert-made, insert_and_read-counter, row_of,
}
use hao_short_link.ShortLink.MySql.Rows.{IsNumbered}
use hao_short_link.ShortLink.MySql.Table.{Database, Row, SqlError, other_error}
use hao_short_link.ShortLink.Record.{ShortLinkRecord, returned}

pub data Effect (before : Database) (row : Row) (code : Bytes) (after : Database) : Type 0 where
  nothing :
      after.rows ≡ before.rows
      → before.auto_increment ≤ after.auto_increment
      → Effect before row code after
  new_link : (r : ShortLinkRecord) → Inserted before row code r after → Effect before row code after

module _ (faults_of : ℕ → Faults) (url : Bytes) (expires_at : Option ℤ) (owner_id : ℕ) (now : ℤ)
    (t : MySqlState) where
  settle_create-Effect :
      (custom : Option Bytes) (x : Database × Attempt) (row : Row) (code : Bytes)
      → t.database.auto_increment ≤ x.0.auto_increment
      → ((r : ShortLinkRecord) → x.1 ≡ made r → Inserted t.database row code r x.0)
      → Effect t.database row code (settle_create custom (faults_of t.calls) x t).0.database
  unfolding settle_create give_up fail rolled_back
  settle_create-Effect custom (db, refused e) row code grows ready = nothing refl grows
  settle_create-Effect custom (db, made r) row code grows ready =
      elim (Bool-cases (faults_of t.calls).at_commit) [
        | inr fine ↦ rw fine (new_link r (ready r refl))
        | inl lost ↦ elim (Bool-cases (faults_of t.calls).commit_applied) [
          | inl applied ↦ rw (lost, applied) (new_link r (ready r refl))
          | inr undone ↦ rw (lost, undone) (nothing refl grows)
        ]
      ]

  create_row-connected :
      (custom : Option Bytes)
      → (faults_of t.calls).at_connection ≡ false
      → create_row faults_of url expires_at owner_id custom now t
        ≡ settle_create custom
            (faults_of t.calls)
            (insert_and_read url expires_at owner_id custom now (faults_of t.calls) t.database)
            t
  unfolding create_row
  create_row-connected custom fine =
      ap
        (λ (b : Bool).
          if b
          then give_up custom other_error t.database t
          else settle_create custom (faults_of t.calls)
              (insert_and_read url expires_at owner_id custom now (faults_of t.calls) t.database) t)
        fine

  pub create_row-Effect :
      (custom : Option Bytes)
      → IsNumbered t.database
      → let code = choose_code custom t.database.auto_increment in
        Effect t.database
          (row_of t.database url expires_at owner_id now code)
          code
          (create_row faults_of url expires_at owner_id custom now t).0.database
  unfolding create_row give_up fail insert_and_read settle_create
  create_row-Effect custom v = elim (Bool-cases (faults_of t.calls).at_connection) [
    | inl lost ↦ rw lost (nothing refl (omega arith))
    | inr fine ↦ rw (create_row-connected custom fine) (
        settle_create-Effect custom
          (insert_and_read url expires_at owner_id custom now (faults_of t.calls) t.database)
          (row_of t.database url expires_at owner_id now
            (choose_code custom t.database.auto_increment))
          (choose_code custom t.database.auto_increment)
          (insert_and_read-counter url expires_at owner_id now (faults_of t.calls) t.database
            custom)
          (λ r e.
            insert-made url expires_at owner_id now (faults_of t.calls) t.database custom r v e))
  ]

  give_up-throws :
      (custom : Option Bytes) (why : SqlError) (db : Database) (r : ShortLinkRecord)
      → (give_up custom why db t).1 ≢ returned (some r)
  unfolding give_up fail
  give_up-throws custom why db r e = ground arith

  settle_create-returns :
      (custom : Option Bytes) (x : Database × Attempt) (r : ShortLinkRecord)
      → (settle_create custom (faults_of t.calls) x t).1 ≡ returned (some r)
      → (x.1 ≡ made r) × ((settle_create custom (faults_of t.calls) x t).0.database ≡ x.0)
  unfolding settle_create
  settle_create-returns custom (db, refused why) r e =
      absurd (give_up-throws custom why (rolled_back t.database db) r e)
  settle_create-returns custom (db, made r') r e = elim (Bool-cases (faults_of t.calls).at_commit) [
    | inr fine ↦ ground arith
    | inl lost ↦ absurd (give_up-throws custom other_error _ r (rw lost at e))
  ]

  pub create_row-returns :
      (custom : Option Bytes) (r : ShortLinkRecord)
      → IsNumbered t.database
      → (create_row faults_of url expires_at owner_id custom now t).1 ≡ returned (some r)
      → let code = choose_code custom t.database.auto_increment in
        Inserted t.database
          (row_of t.database url expires_at owner_id now code)
          code
          r
          (create_row faults_of url expires_at owner_id custom now t).0.database
  unfolding create_row
  create_row-returns custom r v e = elim (Bool-cases (faults_of t.calls).at_connection) [
    | inl lost ↦
        absurd (give_up-throws custom other_error t.database r (rw (create_row, lost) at e))
    | inr fine ↦
        let (ready, same) =
          settle_create-returns custom
            (insert_and_read url expires_at owner_id custom now (faults_of t.calls) t.database) r
            (sym (ap (λ x. x.1) (create_row-connected custom fine)) ∙ e) in
        rw (create_row-connected custom fine, same)
          (insert-made url expires_at owner_id now (faults_of t.calls) t.database custom r v ready)
  ]
