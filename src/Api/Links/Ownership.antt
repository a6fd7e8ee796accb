-- ===== src/Api/Links/Ownership.antt =====
-- The updates that src/ShortLinkHttpApi.cpp makes for a user.
use hao_short_link.Prelude.{
  Bool-cases, Bytes, List, Option, Option-cases, [], ap, arith, bytes_beq_iff, bytes_eq, codes,
  if◌then◌else◌, inl, inr, is_some, length, ltb, nat_eq, none, refl, some, ℕ, ◌&&◌, ◌==◌, ◌>>=◌,
  ◌||◌, ◌∙◌, ◌∷◌, ◌≡◌, ◌≢◌, ◌⊎◌,
}
use hao_short_link.Prelude.Int.{int_eq, ℤ}
use hao_short_link.Prelude.Map.{pair_eq}
use hao_short_link.Api.Json.{JsonValues}
use hao_short_link.Api.Links.{answer_update}
use hao_short_link.Api.Reading.{
  Reading, accepted, no_change, read_change, read_end_field, read_field, read_status_field,
  read_update, rejected,
}
use hao_short_link.Http.Response.{HttpResponse}
use hao_short_link.ShortLink.Memory.{MemoryRepository, find_by_code_for_owner, update_lifecycle}
use hao_short_link.ShortLink.Memory.Contract.{memory_repository}
use hao_short_link.ShortLink.Memory.Invariant.{view, view-update_lifecycle}
use hao_short_link.ShortLink.Record.{LifecycleUpdate, ShortLinkRecord, parse_status, status_eq}
use hao_short_link.ShortLink.Service.{update_link_lifecycle}
use hao_short_link.ShortLink.Timestamp.{parse_utc_timestamp}
use hao_short_link.ShortLink.Memory.Invariant.{target as reached}

not_owned :
    (t : MemoryRepository) (code : Bytes) (owner_id : ℕ) (link : ShortLinkRecord)
    → view t code ≡ some link
    → link.owner_id ≢ owner_id
    → find_by_code_for_owner t code owner_id ≡ none
unfolding find_by_code_for_owner
not_owned t code owner_id link here other = ground arith

-- Only a link of the owner that an update names, under the code of the update, is changed.
update-owned :
    (t : MemoryRepository) (code : Bytes) (update : LifecycleUpdate) (now : ℤ) (other : Bytes)
    (owner_id : ℕ) (link : ShortLinkRecord)
    → update.owner_id ≡ some owner_id
    → view t other ≡ some link
    → (view (update_lifecycle t code update now).0 other ≡ some link)
      ⊎ ((owner_id ≡ link.owner_id) × (code ≡ other))
update-owned t code update now other owner_id link by here =
    let (_, after) = view-update_lifecycle t code update now other in
    elim (Bool-cases (code == other)) [
      | inr apart ↦ inl (after ∙ ground arith)
      | inl same ↦ elim (Bool-cases (link.owner_id == owner_id)) [
        | inl own ↦ inr (ground arith, ground (arith, bytes_beq_iff code other))
        | inr foreign ↦ inl (
            after
            ∙ ap
                (λ (goal : Option ShortLinkRecord).
                  if (code == other) && is_some goal
                  then (update_lifecycle t code update now).1
                  else view t other)
                (ap (reached t code) by
                  ∙ not_owned t code owner_id link
                      (ap (view t) (ground (arith, bytes_beq_iff code other)) ∙ here)
                      (ground arith))
            ∙ ground arith)
      ]
    ]

pub Reading-cases {ℓ} :
    {A : Type ℓ} (reading : Reading A)
    → ((e m : Bytes) × (reading ≡ rejected e m)) ⊎ ((a : A) × (reading ≡ accepted a))
Reading-cases (rejected e m) = inl (e, m, refl)
Reading-cases (accepted a) = inr (a, refl)

module _ {J : Type 0} (json : JsonValues J) (before_1970 : ℕ → Bytes) where
  read_end_field-owner :
      (value : J) (update changed : LifecycleUpdate)
      → read_end_field json value update ≡ accepted changed
      → changed.owner_id ≡ update.owner_id
  unfolding read_end_field
  read_end_field-owner value update changed e = elim (Bool-cases (json.is_null value)) [
    | inl empty ↦ ground arith
    | inr full ↦ elim (Option-cases (json.as_text value >>= parse_utc_timestamp)) [
      | inl bad ↦ ground arith
      | inr (time, good) ↦ ground arith
    ]
  ]

  read_status_field-owner :
      (value : J) (update changed : LifecycleUpdate)
      → read_status_field json value update ≡ some (accepted changed)
      → changed.owner_id ≡ update.owner_id
  unfolding read_status_field
  read_status_field-owner value update changed e = elim (Option-cases (json.as_text value)) [
    | inl bad ↦ ground arith
    | inr (text, good) ↦ elim (Option-cases (parse_status text)) [
      | inl bad ↦ ground arith
      | inr (status, fine) ↦ ground arith
    ]
  ]

  read_field-owner :
      (key : Bytes) (value : J) (update changed : LifecycleUpdate)
      → read_field json key value update ≡ accepted changed
      → changed.owner_id ≡ update.owner_id
  unfolding read_field
  read_field-owner key value update changed e = elim (Bool-cases (key == codes "status")) [
    | inl first ↦ elim (Option-cases (read_status_field json value update)) [
      | inl bad ↦ ground arith
      | inr (reading, found) ↦
          read_status_field-owner value update changed (found ∙ ap some (ground arith))
    ]
    | inr other ↦ elim (Bool-cases (key == codes "expires_at")) [
      | inl second ↦ read_end_field-owner value update changed (ground arith)
      | inr unknown ↦ ground arith
    ]
  ]

  read_update-owner :
      (members : List (Bytes × J)) (update changed : LifecycleUpdate)
      → read_update json members update ≡ accepted changed
      → changed.owner_id ≡ update.owner_id
  unfolding read_update
  read_update-owner [] update changed e = ground arith
  read_update-owner ((key, value) ∷ rest) update changed e =
      elim (Reading-cases (read_field json key value update)) [
        | inl (code, m, bad) ↦ ground arith
        | inr (next, good) ↦
            read_update-owner rest next changed (ground arith)
            ∙ read_field-owner key value update next good
      ]

  pub read_change-owner :
      (owner_id : ℕ) (object : Reading (List (Bytes × J))) (changed : LifecycleUpdate)
      → read_change json owner_id object ≡ accepted changed
      → changed.owner_id ≡ some owner_id
  unfolding read_change
  read_change-owner owner_id (rejected code m) changed e = ground arith
  read_change-owner owner_id (accepted members) changed e =
      elim (Bool-cases ((length members == 0) || ltb 2 (length members))) [
        | inl wrong ↦ ground arith
        | inr right ↦ read_update-owner members (no_change owner_id) changed (ground arith)
      ]

  -- An update for a user leaves every link of another owner, and every link of another code.
  pub answer_update-protects :
      (code other : Bytes) (owner_id : ℕ) (reading : Reading LifecycleUpdate) (now : ℤ)
      (r : HttpResponse) (t : MemoryRepository) (link : ShortLinkRecord)
      → ((changed : LifecycleUpdate)
          → reading ≡ accepted changed
          → changed.owner_id ≡ some owner_id)
      → view t other ≡ some link
      → (view (answer_update memory_repository json before_1970 code reading now r t).0 other
          ≡ some link)
        ⊎ ((owner_id ≡ link.owner_id) × (code ≡ other))
  unfolding answer_update update_link_lifecycle
  answer_update-protects code other owner_id (rejected e m) now r t link h here = inl here
  answer_update-protects code other owner_id (accepted update) now r t link h here =
      update-owned t code update now other owner_id link (h update refl) here
