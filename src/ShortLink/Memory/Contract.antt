-- ===== src/ShortLink/Memory/Contract.antt =====
-- `MemoryShortLinkRepository` as a `ShortLinkRepository`. Its methods throw nothing but the
-- conflict.
use hao_short_link.Prelude.{
  Bytes, Option, ap, arith, bytes_beq_iff, bytes_eq, nat_eq, none, refl, some, sym, ℕ, ◌≡◌, ◌≢◌,
}
use hao_short_link.Prelude.Int.{int_eq, ℤ}
use hao_short_link.ShortLink.Memory.{
  MemoryRepository, choose_code, create, find_by_code, find_by_code_for_owner, list,
  update_lifecycle,
}
use hao_short_link.ShortLink.Memory.Invariant.{view, view-create, view-update_lifecycle}
use hao_short_link.ShortLink.Record.{
  LifecycleUpdate, LookupResult, LookupSource, ShortLinkRecord, returned, returned-injective,
  status_eq,
}
use hao_short_link.ShortLink.Repository.{IsRepository, ShortLinkRepository}

abbrev pub memory_repository : ShortLinkRepository MemoryRepository
memory_repository = record {
  create_link = λ url expires_at owner_id custom now t. create t url expires_at owner_id custom now;
  find_link = λ code now t. (t, returned (find_by_code t code));
  find_link_for_owner = λ code owner_id t. (t, returned (find_by_code_for_owner t code owner_id));
  list_links = λ query t. (t, returned (list t query));
  update_link = λ code change now t.
      let after = update_lifecycle t code change now in (after.0, returned after.1);
  default_lookup_source = LookupSource.memory;
}

create-frame :
    (t : MemoryRepository) (url : Bytes) (expires_at : Option ℤ) (owner_id : ℕ)
    (custom : Option Bytes) (now : ℤ) (other : Bytes) (r : ShortLinkRecord)
    → view t other ≡ some r
    → view (create t url expires_at owner_id custom now).0 other ≡ some r
create-frame t url expires_at owner_id custom now other r e = ground (
  arith,
  view-create t url expires_at owner_id custom now other,
  bytes_beq_iff (choose_code custom t.next_id) other,
)

update-frame :
    (t : MemoryRepository) (code : Bytes) (change : LifecycleUpdate) (now : ℤ) (other : Bytes)
    → code ≢ other
    → view (update_lifecycle t code change now).0 other ≡ view t other
update-frame t code change now other ne =
    ground (arith, view-update_lifecycle t code change now other, bytes_beq_iff code other)

update-refused :
    (t : MemoryRepository) (code : Bytes) (change : LifecycleUpdate) (now : ℤ) (other : Bytes)
    → (update_lifecycle t code change now).1 ≡ none
    → view (update_lifecycle t code change now).0 other ≡ view t other
unfolding update_lifecycle
update-refused t code change now other e = ground (arith)

-- The memory repository keeps the repository's contract.
pub memory-IsRepository : IsRepository memory_repository (λ t. Unit {0}) view
unfolding find_by_code
memory-IsRepository = record {
  find_answers =
      λ code now t res v e. ap (λ (x : LookupResult). x.found) (sym (returned-injective _ _ e));
  find_keeps = λ code now t other v. refl;
  create_frame = λ url expires_at owner_id custom now t other r v e.
      create-frame t url expires_at owner_id custom now other r e;
  update_frame = λ code change now t other v ne. update-frame t code change now other ne;
  update_refused = λ code change now t other v e.
      update-refused t code change now other (returned-injective _ _ e);
}
