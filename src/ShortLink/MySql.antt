-- ===== src/ShortLink/MySql.antt =====
-- apps/shortlink_server: src/MySqlShortLinkRepository.cpp and its header, over the table
-- `short_links` of sql/001 to sql/005. The server is the rows of the table, the users that a row may
-- name, and the counter of the ids; which statements of a call throw is an argument. A time in a
-- column is its seconds since 1970, as the statements convert it.
pub mod Table
pub mod Rows
pub mod Insertion
pub mod Creation
pub mod Updates
pub mod Contract
pub mod Tests
use hao_short_link.Prelude.{
  Bool, Bytes, List, Option, bytes_eq, false, if◌then◌else◌, is_some, nat_eq, none, not, some, suc,
  true, ℕ, ◌&&◌, ◌==◌, ◌>>=◌, ◌||◌,
}
use hao_short_link.Prelude.Int.{int_eq, ℤ}
use hao_short_link.Prelude.Map.{pair_eq}
use hao_short_link.ShortLink.Base62.{encode_base62}
use hao_short_link.ShortLink.Metrics.{
  Backend, BackendOperation, ShortLinkMetrics, record_backend_error,
}
use Table.{
  Change, Database, Row, SqlError, duplicate_entry, find_row, has_code, insert_row, is_owned,
  or_null, other_error, read_all, select_page, set_code, update_rows,
}
use hao_short_link.ShortLink.Record.{
  LifecycleUpdate, ListQuery, LookupResult, LookupSource, Outcome, ShortLinkRecord, backend_failure,
  parse_status, returned, short_code_conflict, status_eq, status_to_string,
}
use hao_short_link.ShortLink.Repository.{ShortLinkRepository}
use mathlib.Core.Option

-- The statements of one call that throw. A COMMIT or an UPDATE that throws may have been carried
-- out.
pub record Faults : Type 0 where
  pub at_connection : Bool
  pub at_start : Bool
  pub at_insert : Bool
  pub at_last_id : Bool
  pub at_code : Bool
  pub at_read : Bool
  pub at_update : Bool
  pub update_applied : Bool
  pub at_commit : Bool
  pub commit_applied : Bool

-- The server, the metrics, and how many calls were made; `faults` says what each call meets.
pub record MySqlState : Type 0 where
  pub database : Database
  pub metrics : Option ShortLinkMetrics
  pub calls : ℕ

unfoldable pub read_record : Row → Option ShortLinkRecord
read_record row = do
  status ← parse_status row.status
  some (record {
    id = row.id;
    owner_id = row.owner_id;
    code = or_null row.code;
    original_url = row.original_url;
    status = status;
    expires_at = row.expires_at;
    created_at = row.created_at;
    updated_at = row.updated_at;
  })

unfoldable pub count_error : BackendOperation → Option ShortLinkMetrics → Option ShortLinkMetrics
count_error operation = Option.map (record_backend_error Backend.mysql operation)

-- `catch (...)`: the error is counted and thrown again.
unfoldable pub fail {ℓ} :
    {A : Type ℓ} → BackendOperation → Database → MySqlState → MySqlState × Outcome A
fail operation db t = (
  record { database = db; metrics = count_error operation t.metrics; calls = suc t.calls },
  backend_failure,
)

abbrev pub answer {ℓ} : {A : Type ℓ} → A → Database → MySqlState → MySqlState × Outcome A
answer a db t = (record { database = db; metrics = t.metrics; calls = suc t.calls }, returned a)

-- What the body of the `try` block of `create` comes to: an error, or the record at its end.
pub data Attempt : Type 0 where
  refused : SqlError → Attempt
  made : ShortLinkRecord → Attempt

unfoldable pub set_own_code : Option Bytes → Faults → ℕ → Database → Database × Option SqlError
set_own_code (some custom_code) faults id db = (db, none)
set_own_code none faults id db =
    if faults.at_code then (db, some other_error) else set_code id (encode_base62 id) db

unfoldable pub read_created : Faults → ℕ → Database → Attempt
read_created faults id db = elim (find_row (λ row. row.id == id) db.rows) [
  | none ↦ refused other_error
  | some row ↦ elim (read_record row) [
    | none ↦ refused other_error
    | some r ↦ if faults.at_read then refused other_error else made r
  ]
]

-- The statements between START TRANSACTION and COMMIT.
unfoldable pub insert_and_read :
    Bytes → Option ℤ → ℕ → Option Bytes → ℤ → Faults → Database → Database × Attempt
insert_and_read url expires_at owner_id custom_code now faults db =
    let (db₁, failed) = insert_row owner_id custom_code url expires_at now db in
    let (db₂, failed₂) = set_own_code custom_code faults db.auto_increment db₁ in
    if faults.at_start || faults.at_insert then (db, refused other_error) else elim failed [
      | some e ↦ (db₁, refused e)
      | none ↦ if faults.at_last_id then (db₁, refused other_error) else elim failed₂ [
        | some e ↦ (db₂, refused e)
        | none ↦ (db₂, read_created faults db.auto_increment db₂)
      ]
    ]

-- ROLLBACK gives the rows back, and keeps the counter.
unfoldable pub rolled_back : Database → Database → Database
rolled_back before after = record before { auto_increment = after.auto_increment }

unfoldable pub is_conflict : Option Bytes → SqlError → Bool
is_conflict none e = false
is_conflict (some custom_code) duplicate_entry = true
is_conflict (some custom_code) other_error = false

unfoldable pub give_up :
    Option Bytes → SqlError → Database → MySqlState → MySqlState × Outcome (Option ShortLinkRecord)
give_up custom_code e db t =
    let (t₁, out) = fail BackendOperation.create db t in
    (t₁, if is_conflict custom_code e then short_code_conflict else out)

unfoldable pub settle_create :
    Option Bytes
    → Faults
    → Database × Attempt
    → MySqlState
    → MySqlState × Outcome (Option ShortLinkRecord)
settle_create custom_code faults (db, refused e) t =
    give_up custom_code e (rolled_back t.database db) t
settle_create custom_code faults (db, made r) t =
    if faults.at_commit
    then give_up custom_code other_error
        (if faults.commit_applied then db else rolled_back t.database db) t
    else answer (some r) db t

unfoldable pub owner_or_any : Option ℕ → ℕ
owner_or_any none = 0
owner_or_any (some owner_id) = owner_id

-- The statement that a change asks for, none if it asks for nothing.
unfoldable pub change_of : LifecycleUpdate → Option Change
change_of update =
    if is_some update.status || update.expires_at_provided
    then some (record {
      status = Option.map status_to_string update.status;
      expires_at = if update.expires_at_provided then some update.expires_at else none;
    })
    else none

unfoldable pub run_update : Option Change → Bytes → ℕ → ℤ → Faults → Database → Database × Bool
run_update none code owner_id now faults db = (db, true)
run_update (some change) code owner_id now faults db =
    let changed = update_rows change code owner_id now db in
    if faults.at_update
    then (if faults.update_applied then changed else db, false)
    else (changed, true)

module _ (faults_of : ℕ → Faults) where
  unfoldable pub create_row :
      Bytes
      → Option ℤ
      → ℕ
      → Option Bytes
      → ℤ
      → MySqlState
      → MySqlState × Outcome (Option ShortLinkRecord)
  create_row url expires_at owner_id custom_code now t =
      let faults = faults_of t.calls in
      if faults.at_connection
      then give_up custom_code other_error t.database t
      else settle_create custom_code faults
          (insert_and_read url expires_at owner_id custom_code now faults t.database) t

  -- The record of the row that a SELECT finds.
  unfoldable pub read_found :
      BackendOperation → Option Row → MySqlState → MySqlState × Outcome (Option ShortLinkRecord)
  read_found operation none t = answer none t.database t
  read_found operation (some row) t = elim (read_record row) [
    | none ↦ fail operation t.database t
    | some r ↦ answer (some r) t.database t
  ]

  abbrev from_mysql : Outcome (Option ShortLinkRecord) → Outcome LookupResult
  from_mysql (returned found) = returned (record { found = found; source = LookupSource.mysql })
  from_mysql short_code_conflict = short_code_conflict
  from_mysql backend_failure = backend_failure

  abbrev select_throws : MySqlState → Bool
  select_throws t = (faults_of t.calls).at_connection || (faults_of t.calls).at_read

  unfoldable pub find_by_code : Bytes → ℤ → MySqlState → MySqlState × Outcome LookupResult
  find_by_code code now t =
      let (t₁, out) =
        read_found BackendOperation.find (find_row (has_code code) t.database.rows) t in
      if select_throws t then fail BackendOperation.find t.database t else (t₁, from_mysql out)

  unfoldable pub find_by_code_for_owner :
      Bytes → ℕ → MySqlState → MySqlState × Outcome (Option ShortLinkRecord)
  find_by_code_for_owner code owner_id t =
      if select_throws t
      then fail BackendOperation.find t.database t
      else read_found BackendOperation.find
          (find_row (λ row. has_code code row && row.owner_id == owner_id) t.database.rows) t

  unfoldable pub list : ListQuery → MySqlState → MySqlState × Outcome (List ShortLinkRecord)
  list query t = elim (read_all read_record (select_page query t.database.rows)) [
    | none ↦ fail BackendOperation.list t.database t
    | some records ↦
        if select_throws t
        then fail BackendOperation.list t.database t
        else answer records t.database t
  ]

  -- The UPDATE and the SELECT behind it are two transactions.
  unfoldable pub update_lifecycle :
      Bytes → LifecycleUpdate → ℤ → MySqlState → MySqlState × Outcome (Option ShortLinkRecord)
  update_lifecycle code update now t =
      let faults = faults_of t.calls in
      let owner_id = owner_or_any update.owner_id in
      let (db, done) = run_update (change_of update) code owner_id now faults t.database in
      if faults.at_connection
      then fail BackendOperation.update t.database t
      else if not done || faults.at_read
      then fail BackendOperation.update db t
      else read_found BackendOperation.update (find_row (is_owned code owner_id) db.rows)
          (record t { database = db })

  abbrev pub mysql_repository : ShortLinkRepository MySqlState
  mysql_repository = record {
    create_link = create_row;
    find_link = find_by_code;
    find_link_for_owner = find_by_code_for_owner;
    list_links = list;
    update_link = update_lifecycle;
    default_lookup_source = LookupSource.mysql;
  }
