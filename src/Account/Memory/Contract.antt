-- ===== src/Account/Memory/Contract.antt =====
-- `MemoryAuthRepository` as an `AuthRepository`.
-- A user stands under its id.
use hao_short_link.Prelude.{
  Bool-cases, Bytes, Eq, List, Option, Option-cases, arith, bytes_beq_iff, bytes_eq, false,
  if◌then◌else◌, inl, inr, is_some, nat_eq, none, refl, some, sym, true, ℕ, ◌==◌, ◌≡◌,
}
use hao_short_link.Prelude.Int.{int_eq, leb_ℤ, ℤ}
use hao_short_link.Prelude.Map.{insert, lookup, lookup-insert, pair_eq}
use hao_short_link.Account.Memory.{
  MemoryAuthRepository, StoredUser, create_session, create_user, find_credentials,
  find_user_by_session, live_user, memory_auth, new_user, revoke_session, user_at,
}
use hao_short_link.Account.Repository.{Credentials, IsAuthRepository, User, is_active, only_active}
use hao_short_link.ShortLink.Record.{status_eq}

pub record IsKeyed (t : MemoryAuthRepository) : Type 0 where
  pub keyed : (id : ℕ) (stored : StoredUser) → lookup id t.users ≡ some stored → stored.user.id ≡ id

abbrev pub user_of : ℕ → MemoryAuthRepository → Option User
user_of id t = user_at id t.users

credentials-user :
    (name : Bytes) (t : MemoryAuthRepository) (c : Credentials)
    → IsKeyed t
    → find_credentials name t ≡ some c
    → user_of c.user.id t ≡ some c.user
unfolding find_credentials
credentials-user name t c v e = elim (Option-cases (lookup name t.user_ids_by_name)) [
  | inl unknown ↦ ground arith
  | inr (id, known) ↦ elim (Option-cases (lookup id t.users)) [
    | inl gone ↦ ground arith
    | inr (stored, here) ↦ ground (arith, v.keyed id stored here)
  ]
]

lookup-inserted {ℓ κ} :
    {K : Type ℓ} {V : Type κ} ⦃e : Eq K⦄ (key : K) (value : V) (entries : List (K × V))
    → lookup key (insert key value entries) ≡ some value
lookup-inserted ⦃e⦄ key value entries =
    ground (arith, lookup-insert key key value entries, e.equal_iff key key)

create_user-new :
    (username name hash : Bytes) (now : ℤ) (t : MemoryAuthRepository) (user : User)
    → is_some (lookup name t.user_ids_by_name) ≡ false
    → (create_user username name hash now t).1.user ≡ some user
    → new_user t.next_user_id username now ≡ user
unfolding create_user
create_user-new username name hash now t user free e = ground arith

create_user-creates :
    (username name hash : Bytes) (now : ℤ) (t : MemoryAuthRepository) (user : User)
    → (create_user username name hash now t).1.user ≡ some user
    → let after = (create_user username name hash now t).0 in
      (user_of user.id after ≡ some user)
      × (is_active user.status ≡ true)
      × (find_credentials name after ≡ some (record { user = user; password_hash = hash }))
unfolding create_user find_credentials is_active
create_user-creates username name hash now t user e =
    elim (Bool-cases (is_some (lookup name t.user_ids_by_name))) [
      | inl taken ↦ ground arith
      | inr free ↦
          let new = create_user-new username name hash now t user free e in
          rw
            (
              sym new,
              free,
              lookup-inserted name t.next_user_id t.user_ids_by_name,
              lookup-inserted t.next_user_id
                  (record {
                    user = new_user t.next_user_id username now;
                    normalized_username = name;
                    password_hash = hash;
                  })
                  t.users,
            )
            (refl, refl, refl)
    ]

pub create_user-keeps :
    (username name hash : Bytes) (now : ℤ) (t : MemoryAuthRepository)
    → IsKeyed t
    → IsKeyed (create_user username name hash now t).0
unfolding create_user
create_user-keeps username name hash now t v = record {
  keyed = λ id stored here. ground (
    arith,
    v.keyed id stored,
    lookup-insert t.next_user_id id
        (record {
          user = new_user t.next_user_id username now;
          normalized_username = name;
          password_hash = hash;
        })
        t.users,
  );
}

create_session-finds :
    (id : ℕ) (hash other : Bytes) (expires_at now : ℤ) (t : MemoryAuthRepository)
    → find_user_by_session other now (create_session id hash expires_at t) ≡ (
        if hash == other
        then (if leb_ℤ expires_at now then none else only_active (user_of id t))
        else find_user_by_session other now t)
unfolding find_user_by_session create_session live_user
create_session-finds id hash other expires_at now t = ground (
  arith,
  lookup-insert hash other (record { user_id = id; expires_at = expires_at; revoked_at = none })
      t.sessions,
)

revoke_session-finds :
    (hash other : Bytes) (revoked_at now : ℤ) (t : MemoryAuthRepository)
    → find_user_by_session other now (revoke_session hash revoked_at t)
      ≡ (if hash == other then none else find_user_by_session other now t)
unfolding find_user_by_session revoke_session live_user
revoke_session-finds hash other revoked_at now t = elim (Option-cases (lookup hash t.sessions)) [
  | inl absent ↦ ground (arith, bytes_beq_iff hash other)
  | inr (session, here) ↦
      ground (
        arith,
        lookup-insert hash other (record session { revoked_at = some revoked_at }) t.sessions,
      )
]

-- The memory repository keeps the contract of the accounts.
pub memory_auth-IsAuthRepository : IsAuthRepository memory_auth IsKeyed user_of
unfolding find_credentials create_session revoke_session
memory_auth-IsAuthRepository = record {
  credentials_of = credentials-user;
  creates = create_user-creates;
  stays_valid = create_user-keeps;
  starts_valid = λ id hash expires_at t v. record { keyed = v.keyed };
  revokes_valid = λ hash revoked_at t v. record { keyed = v.keyed };
  starts = create_session-finds;
  starts_no_user = λ name id hash expires_at t. refl;
  revokes = revoke_session-finds;
}
