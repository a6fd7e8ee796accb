-- ===== src/ShortLink/Repository.antt =====
-- apps/shortlink_server: the abstract class `ShortLinkRepository` of
-- include/shortlink/ShortLinkRepository.h, as a record of operations on a state, and the contract
-- that its clients rely on. `now` is the clock's answer during the call.
use hao_short_link.Prelude.{Bytes, List, Option, bytes_eq, nat_eq, none, some, ℕ, ◌≡◌, ◌≢◌}
use hao_short_link.Prelude.Int.{int_eq, ℤ}
use hao_short_link.ShortLink.Record.{
  LifecycleUpdate, ListQuery, LookupResult, LookupSource, Outcome, ShortLinkRecord, returned,
  status_eq,
}

pub record ShortLinkRepository (T : Type 0) : Type 0 where
  pub create_link :
      Bytes → Option ℤ → ℕ → Option Bytes → ℤ → T → T × Outcome (Option ShortLinkRecord)
  pub find_link : Bytes → ℤ → T → T × Outcome LookupResult
  pub find_link_for_owner : Bytes → ℕ → T → T × Outcome (Option ShortLinkRecord)
  pub list_links : ListQuery → T → T × Outcome (List ShortLinkRecord)
  pub update_link : Bytes → LifecycleUpdate → ℤ → T → T × Outcome (Option ShortLinkRecord)
  pub default_lookup_source : LookupSource

-- The contract, over the links seen as a function from codes to records. `Valid` is an invariant of
-- the state.
pub record IsRepository {T : Type 0} (repository : ShortLinkRepository T) (Valid : T → Type 0)
    (links : T → Bytes → Option ShortLinkRecord) : Type 0 where
  pub find_answers :
      (code : Bytes) (now : ℤ) (t : T) (res : LookupResult)
      → Valid t
      → (repository.find_link code now t).1 ≡ returned res
      → res.found ≡ links t code
  pub find_keeps :
      (code : Bytes) (now : ℤ) (t : T) (other : Bytes)
      → Valid t
      → links (repository.find_link code now t).0 other ≡ links t other
  pub create_frame :
      (url : Bytes) (expires_at : Option ℤ) (owner_id : ℕ) (custom : Option Bytes) (now : ℤ) (t : T)
      (other : Bytes) (r : ShortLinkRecord)
      → Valid t
      → links t other ≡ some r
      → links (repository.create_link url expires_at owner_id custom now t).0 other ≡ some r
  pub update_frame :
      (code : Bytes) (update : LifecycleUpdate) (now : ℤ) (t : T) (other : Bytes)
      → Valid t
      → code ≢ other
      → links (repository.update_link code update now t).0 other ≡ links t other
  pub update_refused :
      (code : Bytes) (update : LifecycleUpdate) (now : ℤ) (t : T) (other : Bytes)
      → Valid t
      → (repository.update_link code update now t).1 ≡ returned none
      → links (repository.update_link code update now t).0 other ≡ links t other
