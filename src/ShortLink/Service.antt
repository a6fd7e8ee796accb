-- ===== src/ShortLink/Service.antt =====
-- apps/shortlink_server: `ShortLinkService` of src/ShortLinkService.cpp, over any repository. The
-- state is the repository's and the metrics, which may be absent; `now` is the clock's answer, and
-- `resolve` reads the clock a second time after the lookup.
pub mod Redirects
pub mod Creation
mod Tests
use hao_short_link.Prelude.{
  Bool, Bytes, List, Option, [], all_of, bytes_eq, codes, false, if◌then◌else◌, leb, length, ltb,
  nat_eq, none, not, some, starts_with, ℕ, ◌&&◌, ◌++◌, ◌==◌, ◌||◌, ◌∷◌,
}
use hao_short_link.Prelude.Int.{int_eq, leb_ℤ, ℤ}
use hao_short_link.ShortLink.Metrics.{RedirectSource, ShortLinkMetrics, record_redirect}
use hao_short_link.ShortLink.Record.{
  LifecycleUpdate, ListQuery, LookupResult, LookupSource, Outcome, ShortLinkRecord, Status,
  backend_failure, returned, short_code_conflict, status_eq,
}
use hao_short_link.ShortLink.Repository.{ShortLinkRepository}
use mathlib.Core.Option
use hao_short_link.ShortLink.Metrics.{RedirectResult as RedirectLabel}

unfoldable pub is_valid_url : Bytes → Bool
is_valid_url url = starts_with url (codes "http://") || starts_with url (codes "https://")

abbrev pub is_code_char : ℕ → Bool
is_code_char ch =
    (leb b'a' ch && leb ch b'z')
    || (leb b'A' ch && leb ch b'Z')
    || (leb b'0' ch && leb ch b'9')
    || (ch == b'_')
    || (ch == b'-')

abbrev pub reserved : List Bytes
reserved =
    codes "api" ∷ codes "app" ∷ codes "health" ∷ codes "internal" ∷ codes "metrics" ∷ codes "s" ∷ []

unfoldable pub is_valid_custom_code : Bytes → Bool
is_valid_custom_code code =
    if ltb (length code) 4 || ltb 32 (length code)
    then false
    else if not (all_of is_code_char code)
    then false
    else all_of (λ value. not (code == value)) reserved

-- `expiresAt && *expiresAt <= now`
abbrev pub has_ended : Option ℤ → ℤ → Bool
has_ended none now = false
has_ended (some expires_at) now = leb_ℤ expires_at now

unfoldable pub is_expired : ShortLinkRecord → ℤ → Bool
is_expired r now = has_ended r.expires_at now

abbrev pub is_bad_code : Option Bytes → Bool
is_bad_code none = false
is_bad_code (some code) = not (is_valid_custom_code code)

-- The condition under which `createShortLink` goes on.
unfoldable pub is_acceptable : Bytes → Option ℤ → ℕ → Option Bytes → ℤ → Bool
is_acceptable url expires_at owner_id custom_code now = not (
    not (is_valid_url url)
    || (owner_id == 0)
    || has_ended expires_at now
    || is_bad_code custom_code)

pub data RedirectStatus : Type 0 where
  success not_found disabled expired : RedirectStatus

pub record RedirectResult : Type 0 where
  pub status : RedirectStatus
  pub original_url : Option Bytes

pub record CreatedLink : Type 0 where
  pub link : ShortLinkRecord
  pub short_url : Bytes

unfoldable pub metric_source : LookupSource → RedirectSource
metric_source LookupSource.mysql = RedirectSource.mysql
metric_source LookupSource.redis = RedirectSource.redis
metric_source LookupSource.memory = RedirectSource.memory

-- What `resolve` does with a lookup that did not throw: its answer, and the label it records.
unfoldable pub judge : Option ShortLinkRecord → ℤ → RedirectResult × RedirectLabel
judge none now =
    (record { status = RedirectStatus.not_found; original_url = none }, RedirectLabel.not_found)
judge (some r) now =
    if r.status == Status.disabled
    then (record { status = RedirectStatus.disabled; original_url = none }, RedirectLabel.disabled)
    else if is_expired r now
    then (record { status = RedirectStatus.expired; original_url = none }, RedirectLabel.expired)
    else (
      record { status = RedirectStatus.success; original_url = some r.original_url },
      RedirectLabel.success,
    )

module _ {T : Type 0} (repository : ShortLinkRepository T) where
  -- The link of a repository's answer, with its path.
  unfoldable pub present : Outcome (Option ShortLinkRecord) → Outcome (Option CreatedLink)
  present (returned none) = returned none
  present (returned (some r)) =
      returned (some (record { link = r; short_url = codes "/s/" ++ r.code }))
  present short_code_conflict = short_code_conflict
  present backend_failure = backend_failure

  -- `now` is the clock at the check, `now'` within the repository.
  unfoldable pub create_short_link :
      Bytes → Option ℤ → ℕ → Option Bytes → ℤ → ℤ → T → T × Outcome (Option CreatedLink)
  create_short_link url expires_at owner_id custom_code now now' t =
      let (t', out) = repository.create_link url expires_at owner_id custom_code now' t in
      if is_acceptable url expires_at owner_id custom_code now
      then (t', present out)
      else (t, returned none)

  -- `recordRedirect`, if there are metrics.
  unfoldable pub record_label :
      RedirectLabel → LookupSource → Option ShortLinkMetrics → Option ShortLinkMetrics
  record_label label source m = Option.map (record_redirect label (metric_source source)) m

  unfoldable pub finish :
      Outcome LookupResult
      → ℤ
      → Option ShortLinkMetrics
      → Option ShortLinkMetrics × Outcome RedirectResult
  finish (returned found) now m =
      let (answer, label) = judge found.found now in
      (record_label label found.source m, returned answer)
  finish short_code_conflict now m =
      (record_label RedirectLabel.error repository.default_lookup_source m, short_code_conflict)
  finish backend_failure now m =
      (record_label RedirectLabel.error repository.default_lookup_source m, backend_failure)

  -- `now` is the clock within the lookup, `now'` after it.
  unfoldable pub resolve :
      Bytes
      → ℤ
      → ℤ
      → T
      → Option ShortLinkMetrics
      → T × Option ShortLinkMetrics × Outcome RedirectResult
  resolve code now now' t m =
      let (t', out) = repository.find_link code now t in
      let (m', answer) = finish out now' m in (t', m', answer)

  unfoldable pub get_link : Bytes → ℤ → T → T × Outcome (Option ShortLinkRecord)
  get_link code now t =
      let (t', out) = repository.find_link code now t in
      (
        t',
        elim out as (λ _. Outcome (Option ShortLinkRecord)) [
          | returned found ↦ returned found.found
          | short_code_conflict ↦ short_code_conflict
          | backend_failure ↦ backend_failure
        ],
      )

  unfoldable pub get_for_owner : Bytes → ℕ → T → T × Outcome (Option ShortLinkRecord)
  get_for_owner code owner_id t = repository.find_link_for_owner code owner_id t

  unfoldable pub list_owned : ListQuery → T → T × Outcome (List ShortLinkRecord)
  list_owned query t = repository.list_links query t

  unfoldable pub update_link_lifecycle :
      Bytes → LifecycleUpdate → ℤ → T → T × Outcome (Option ShortLinkRecord)
  update_link_lifecycle code update now t = repository.update_link code update now t
