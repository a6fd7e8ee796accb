-- ===== src/ShortLink/Record.antt =====
-- apps/shortlink_server: the types of include/shortlink/ShortLinkRepository.h, and the names of
-- the states in src/ShortLinkRepository.cpp. An int64 time is in ℤ, an unsigned number in ℕ.
use hao_short_link.Prelude.{
  Bool, Bytes, Eq, Option, arith, bytes_beq_iff, bytes_eq, codes, false, if◌then◌else◌, nat_eq,
  none, some, true, ℕ, ◌==◌, ◌↔◌, ◌≡◌,
}
use hao_short_link.Prelude.Int.{int_eq, ℤ}

pub data Status : Type 0 where
  active disabled : Status

pub data LookupSource : Type 0 where
  memory mysql redis : LookupSource

pub record ShortLinkRecord : Type 0 where
  pub id : ℕ
  pub owner_id : ℕ
  pub code : Bytes
  pub original_url : Bytes
  pub status : Status
  pub expires_at : Option ℤ
  pub created_at : ℤ
  pub updated_at : ℤ

pub record LookupResult : Type 0 where
  pub found : Option ShortLinkRecord
  pub source : LookupSource

pub record ListQuery : Type 0 where
  pub cursor : ℕ
  pub limit : ℕ
  pub owner_id : Option ℕ
  pub status : Option Status

pub record LifecycleUpdate : Type 0 where
  pub status : Option Status
  pub expires_at_provided : Bool
  pub expires_at : Option ℤ
  pub owner_id : Option ℕ

abbrev pub status_beq : Status → Status → Bool
status_beq Status.active Status.active = true
status_beq Status.active Status.disabled = false
status_beq Status.disabled Status.active = false
status_beq Status.disabled Status.disabled = true

pub status_beq_iff : (s t : Status) → (status_beq s t ≡ true) ↔ (s ≡ t)
status_beq_iff s t = ground arith

instance abbrev pub status_eq : Eq Status
status_eq = record { equal = status_beq; equal_iff = status_beq_iff }

unfoldable pub status_to_string : Status → Bytes
status_to_string Status.active = codes "active"
status_to_string Status.disabled = codes "disabled"

unfoldable pub parse_status : Bytes → Option Status
parse_status value =
    if value == codes "active"
    then some Status.active
    else if value == codes "disabled"
    then some Status.disabled
    else none

-- The printed names are read back, and no other text is read.
pub parse_status-status_to_string :
    (value : Bytes) (s : Status) → (parse_status value ≡ some s) ↔ (value ≡ status_to_string s)
unfolding parse_status status_to_string
parse_status-status_to_string value Status.active =
    ground (arith, bytes_beq_iff value (codes "active"), bytes_beq_iff value (codes "disabled"))
parse_status-status_to_string value Status.disabled =
    ground (arith, bytes_beq_iff value (codes "active"), bytes_beq_iff value (codes "disabled"))

-- What a repository call that may throw comes back with: a value, the exception
-- `ShortCodeConflict`, or any other exception.
pub data Outcome {ℓ} (A : Type ℓ) : Type ℓ where
  returned : A → Outcome A
  short_code_conflict : Outcome A
  backend_failure : Outcome A

pub returned-injective {ℓ} : {A : Type ℓ} (a b : A) → returned a ≡ returned b → a ≡ b
returned-injective a b e = cc
