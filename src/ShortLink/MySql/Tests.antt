-- ===== src/ShortLink/MySql/Tests.antt =====
-- A table with one row, and a server on which only the second call's COMMIT throws.
use hao_short_link.Prelude.{
  Bytes, [], arith, bytes_beq, bytes_eq, codes, false, if◌then◌else◌, nat_eq, none, refl, some,
  true, ℕ, ◌==◌, ◌∷◌, ◌≡◌,
}
use hao_short_link.Prelude.Int.{int_eq, pos}
use hao_short_link.Prelude.Map.{pair_eq}
use hao_short_link.ShortLink.Base62.{char_at, encode_base62, pad, push_digits}
use hao_short_link.ShortLink.Memory.{choose_code, new_record}
use hao_short_link.ShortLink.MySql.{
  Faults, MySqlState, count_error, create_row, fail, give_up, insert_and_read, is_conflict,
  mysql_repository, read_created, read_record, rolled_back, set_own_code, settle_create,
}
use hao_short_link.ShortLink.MySql.Contract.{create_row-stores, mysql-IsRepository}
use hao_short_link.ShortLink.MySql.Rows.{IsNumbered, links}
use hao_short_link.ShortLink.MySql.Table.{
  find_row, fits, has_code, insert_row, is_taken, new_row, set_code, set_rows,
}
use hao_short_link.ShortLink.Record.{ShortLinkRecord, parse_status, returned}
use hao_short_link.ShortLink.Repository.{IsRepository}

abbrev fine : Faults
fine = record {
  at_connection = false;
  at_start = false;
  at_insert = false;
  at_last_id = false;
  at_code = false;
  at_read = false;
  at_update = false;
  update_applied = false;
  at_commit = false;
  commit_applied = false;
}

abbrev faults_of : ℕ → Faults
faults_of n = if n == 1 then record fine { at_commit = true } else fine

abbrev url : Bytes
url = codes "https://a.example/"

abbrev start : MySqlState
start = record {
  database = record {
    rows = new_row 3 1 (some (codes "docs")) url none (pos 5) ∷ [];
    users = 1 ∷ [];
    auto_increment = 4;
  };
  metrics = none;
  calls = 0;
}

abbrev link : ShortLinkRecord
link = new_record 4 1 (codes "000004") url (some (pos 90)) (pos 20)

creates_link :
    (create_row faults_of url (some (pos 90)) 1 none (pos 20) start).1 ≡ returned (some link)
unfolding create_row settle_create insert_and_read insert_row fits is_taken find_row has_code
    bytes_beq set_own_code set_code set_rows encode_base62 push_digits pad char_at read_created
    read_record parse_status give_up fail count_error is_conflict rolled_back
creates_link = refl

create_row-stores_example :
    let after = (create_row faults_of url (some (pos 90)) 1 none (pos 20) start).0 in
    (link ≡ new_record 4 1 (choose_code none 4) url (some (pos 90)) (pos 20))
    × ((other : Bytes)
        → links after other
          ≡ (if choose_code none 4 == other then some link else links start other))
    × IsNumbered after.database
create_row-stores_example =
    create_row-stores faults_of url (some (pos 90)) 1 none (pos 20) start link (omega arith)
      creates_link

-- The COMMIT of the second call throws, and the row is gone; its id is used up.
loses_link :
    let after =
      (create_row faults_of url none 1 none (pos 20) (record start { calls = 1 })).0.database in
    (after.rows ≡ start.database.rows) × (after.auto_increment ≡ 5)
unfolding create_row settle_create insert_and_read insert_row fits is_taken find_row has_code
    bytes_beq set_own_code set_code set_rows encode_base62 push_digits pad char_at read_created
    read_record parse_status give_up fail count_error is_conflict rolled_back
loses_link = (refl, refl)

mysql-IsRepository_example :
    IsRepository (mysql_repository faults_of) (λ t. IsNumbered t.database) links
mysql-IsRepository_example = mysql-IsRepository faults_of
