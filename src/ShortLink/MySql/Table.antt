-- ===== src/ShortLink/MySql/Table.antt =====
-- The table `short_links` of apps/shortlink_server/sql, and the statements of
-- src/MySqlShortLinkRepository.cpp on it.
use hao_short_link.Prelude.{
  Bool, Bytes, Eq, List, Option, [], bytes_eq, codes, false, filter, if◌then◌else◌, is_some, leb,
  length, ltb, nat_eq, none, not, some, suc, take, true, ℕ, ◌&&◌, ◌==◌, ◌>>=◌, ◌^◌, ◌||◌, ◌∷◌,
}
use hao_short_link.Prelude.Int.{int_eq, ℤ}
use hao_short_link.Prelude.Map.{pair_eq}
use hao_short_link.ShortLink.Record.{ListQuery, status_eq, status_to_string}
use mathlib.Core.Option

pub record Row : Type 0 where
  pub id : ℕ
  pub owner_id : ℕ
  pub code : Option Bytes
  pub original_url : Bytes
  pub status : Bytes
  pub expires_at : Option ℤ
  pub created_at : ℤ
  pub updated_at : ℤ

pub record Database : Type 0 where
  pub rows : List Row
  pub users : List ℕ
  pub auto_increment : ℕ

-- An error, by whether its message names a duplicate entry.
pub data SqlError : Type 0 where
  duplicate_entry other_error : SqlError

abbrev pub or_null : Option Bytes → Bytes
or_null none = []
or_null (some s) = s

unfoldable pub has_code : Bytes → Row → Bool
has_code code row = elim row.code [ none ↦ false | some c ↦ c == code ]

-- SELECT ... LIMIT 1.
unfoldable pub find_row : (Row → Bool) → List Row → Option Row
find_row p [] = none
find_row p (row ∷ rest) = if p row then some row else find_row p rest

unfoldable pub set_rows : (Row → Bool) → (Row → Row) → List Row → List Row
set_rows p f [] = []
set_rows p f (row ∷ rest) = (if p row then f row else row) ∷ set_rows p f rest

abbrev is_user : List ℕ → ℕ → Bool
is_user [] owner_id = false
is_user (user ∷ rest) owner_id = user == owner_id || is_user rest owner_id

-- The widths of the columns, and the foreign key.
unfoldable pub fits : ℕ → Option Bytes → Bytes → Database → Bool
fits owner_id code url db =
    is_user db.users owner_id
    && leb (length (or_null code)) 32
    && leb (length url) 65535
    && ltb db.auto_increment (2 ^ 64)

unfoldable pub is_taken : Option Bytes → List Row → Bool
is_taken none rows = false
is_taken (some code) rows = is_some (find_row (has_code code) rows)

abbrev pub new_row : ℕ → ℕ → Option Bytes → Bytes → Option ℤ → ℤ → Row
new_row id owner_id code url expires_at now = record {
  id = id;
  owner_id = owner_id;
  code = code;
  original_url = url;
  status = codes "active";
  expires_at = expires_at;
  created_at = now;
  updated_at = now;
}

-- INSERT. The id is used up by a row that is refused, too.
unfoldable pub insert_row :
    ℕ → Option Bytes → Bytes → Option ℤ → ℤ → Database → Database × Option SqlError
insert_row owner_id code url expires_at now db =
    let row = new_row db.auto_increment owner_id code url expires_at now in
    if not (fits owner_id code url db)
    then (db, some other_error)
    else if is_taken code db.rows
    then (record db { auto_increment = suc db.auto_increment }, some duplicate_entry)
    else (record db { rows = row ∷ db.rows; auto_increment = suc db.auto_increment }, none)

-- UPDATE ... SET code = ? WHERE id = ?, right behind the INSERT.
unfoldable pub set_code : ℕ → Bytes → Database → Database × Option SqlError
set_code id code db = if is_taken (some code) db.rows then (db, some duplicate_entry) else (
  record db {
    rows = set_rows (λ row. row.id == id) (λ row. record row { code = some code }) db.rows;
  },
  none,
)

-- WHERE code = ? AND (? = 0 OR owner_id = ?)
unfoldable pub is_owned : Bytes → ℕ → Row → Bool
is_owned code owner_id row = has_code code row && (owner_id == 0 || row.owner_id == owner_id)

-- The columns that an UPDATE sets.
pub record Change : Type 0 where
  pub status : Option Bytes
  pub expires_at : Option (Option ℤ)

abbrev or_old {ℓ} : {A : Type ℓ} → Option A → A → A
or_old none old = old
or_old (some new) old = new

abbrev same_time : Option ℤ → Option ℤ → Bool
same_time none none = true
same_time none (some b) = false
same_time (some a) none = false
same_time (some a) (some b) = a == b

-- ON UPDATE CURRENT_TIMESTAMP: only a column that gets another value moves the time.
unfoldable pub change_row : Change → ℤ → Row → Row
change_row change now row =
    let status = or_old change.status row.status in
    let expires_at = or_old change.expires_at row.expires_at in
    record row {
      status = status;
      expires_at = expires_at;
      updated_at =
          if status == row.status && same_time expires_at row.expires_at
          then row.updated_at
          else now;
    }

unfoldable pub update_rows : Change → Bytes → ℕ → ℤ → Database → Database
update_rows change code owner_id now db = record db {
  rows = set_rows (is_owned code owner_id) (change_row change now) db.rows;
}

abbrev no_other {ℓ} : {A : Type ℓ} ⦃e : Eq A⦄ → Option A → A → Bool
no_other none a = true
no_other (some wanted) a = a == wanted

-- The four WHERE clauses of `list`.
unfoldable pub is_listed : ListQuery → Row → Bool
is_listed query row =
    no_other query.owner_id row.owner_id
    && ltb query.cursor row.id
    && no_other (Option.map status_to_string query.status) row.status

abbrev insert_by_id : Row → List Row → List Row
insert_by_id row [] = row ∷ []
insert_by_id row (other ∷ rest) =
    if ltb row.id other.id then row ∷ other ∷ rest else other ∷ insert_by_id row rest

-- ORDER BY id ASC
abbrev order_by_id : List Row → List Row
order_by_id [] = []
order_by_id (row ∷ rest) = insert_by_id row (order_by_id rest)

unfoldable pub select_page : ListQuery → List Row → List Row
select_page query rows = take query.limit (order_by_id (filter (is_listed query) rows))

unfoldable pub read_all {ℓ κ} :
    {A : Type ℓ} {B : Type κ} → (A → Option B) → List A → Option (List B)
read_all read [] = some []
read_all read (x ∷ rest) = do y ← read x; ys ← read_all read rest; some (y ∷ ys)
