-- ===== src/ShortLink/Memory/Tests.antt =====
-- The memory repository at concrete inputs: two links of owner 1 and one of owner 2.
use hao_short_link.Prelude.{
  All, Bytes, [], arith, bytes_beq, bytes_eq, codes, false, inl, inr, length, map, nat_eq, none,
  refl, some, ◌%◌, ◌++◌, ◌+◌, ◌<◌, ◌^◌, ◌∷◌, ◌≡◌, ◌⊎◌,
}
use hao_short_link.Prelude.Int.{int_eq, pos}
use hao_short_link.Prelude.Map.{insert, lookup, pair_eq}
use hao_short_link.ShortLink.Base62.{char_at, encode_base62, pad, push_digits}
use hao_short_link.ShortLink.Memory.{
  MemoryRepository, choose_code, create, initial_repository, insert_by_id, list, new_record, skips,
  sort_by_id, update_lifecycle,
}
use hao_short_link.ShortLink.Memory.Invariant.{
  IsValid, create-IsValid, update_lifecycle-IsValid, view, view-create, view-update_lifecycle,
}
use hao_short_link.ShortLink.Memory.Paging.{Elem, Fits-list, last_id, list-pages}
use hao_short_link.ShortLink.Record.{LifecycleUpdate, ListQuery, ShortLinkRecord, Status}

abbrev url : Bytes
url = codes "https://a.example/"

two_links : MemoryRepository
unfolding create choose_code encode_base62 push_digits pad char_at insert lookup bytes_beq
two_links =
    (create (create initial_repository url none 1 none (pos 10)).0 url (some (pos 50)) 1
      (some (codes "docs")) (pos 20)).0

abbrev all_links : ListQuery
all_links = record { cursor = 0; limit = 1; owner_id = some 1; status = none }

-- Two pages of one record are one page of two, and the stored codes are those expected.
stored :
    map (λ r. r.code) (list two_links (record all_links { limit = 5 }))
    ≡ codes "000001" ∷ codes "docs" ∷ []
unfolding two_links list sort_by_id insert_by_id skips
stored = refl

two_links-IsValid : IsValid two_links
unfolding two_links
two_links-IsValid = record {
  keyed = (refl, (refl, tt));
  fresh = omega arith;
  distinct = omega arith;
}

create-IsValid_example : IsValid (create two_links url none 2 (some (codes "docs")) (pos 30)).0
unfolding two_links
create-IsValid_example =
    create-IsValid two_links url none 2 (some (codes "docs")) (pos 30) two_links-IsValid
      (omega arith)

abbrev disable : LifecycleUpdate
disable = record {
  status = some Status.disabled;
  expires_at_provided = false;
  expires_at = none;
  owner_id = some 1;
}

update_lifecycle-IsValid_example :
    IsValid (update_lifecycle two_links (codes "docs") disable (pos 30)).0
update_lifecycle-IsValid_example =
    update_lifecycle-IsValid two_links (codes "docs") disable (pos 30) two_links-IsValid

view-create_example :
    (create two_links url none 2 (some (codes "docs")) (pos 30)).0.next_id
    ≡ (two_links.next_id + 1) % 2 ^ 64
view-create_example =
    (view-create two_links url none 2 (some (codes "docs")) (pos 30) (codes "000001")).2

view-update_lifecycle_example :
    view (update_lifecycle two_links (codes "docs") disable (pos 30)).0 (codes "000001")
    ≡ view two_links (codes "000001")
unfolding bytes_beq
view-update_lifecycle_example =
    (view-update_lifecycle two_links (codes "docs") disable (pos 30) (codes "000001")).1

list-pages_example :
    list two_links all_links
      ++ list two_links
          (record all_links { cursor = last_id 0 (list two_links all_links); limit = 4 })
    ≡ list two_links (record all_links { limit = 5 })
list-pages_example = list-pages two_links all_links 4 two_links-IsValid

abbrev second_link : ShortLinkRecord
second_link = new_record 2 1 (codes "docs") url (some (pos 50)) (pos 20)

Fits-list_example :
    let page = list two_links (record all_links { limit = 1 }) in
    Elem second_link page ⊎ ((length page ≡ 1) × All (λ r. r.id < 2) page)
unfolding two_links
Fits-list_example =
    Fits-list two_links (record all_links { limit = 1 }) second_link two_links-IsValid
      (inr (inl refl)) (omega arith, refl, refl)
