-- ===== src/Account/Memory.antt =====
-- apps/shortlink_server: src/MemoryAuthRepository.cpp and its header. The methods hold one mutex from
-- end to end, so that each is one step.
pub mod Contract
use hao_short_link.Prelude.{
  Bytes, List, Option, bytes_eq, if◌then◌else◌, is_some, nat_eq, none, some, ℕ, ◌%◌, ◌+◌, ◌>>=◌,
  ◌^◌, ◌||◌,
}
use hao_short_link.Prelude.Int.{int_eq, leb_ℤ, ℤ}
use hao_short_link.Prelude.Map.{insert, lookup, pair_eq}
use hao_short_link.Account.Repository.{
  AuthRepository, CreateUserResult, CreateUserStatus, Credentials, User, UserStatus, only_active,
}
use hao_short_link.ShortLink.Record.{status_eq}

pub record StoredUser : Type 0 where
  pub user : User
  pub normalized_username : Bytes
  pub password_hash : Bytes

pub record StoredSession : Type 0 where
  pub user_id : ℕ
  pub expires_at : ℤ
  pub revoked_at : Option ℤ

pub record MemoryAuthRepository : Type 0 where
  pub next_user_id : ℕ
  pub users : List (ℕ × StoredUser)
  pub user_ids_by_name : List (Bytes × ℕ)
  pub sessions : List (Bytes × StoredSession)

abbrev pub new_user : ℕ → Bytes → ℤ → User
new_user id username now = record {
  id = id;
  username = username;
  status = UserStatus.active;
  created_at = now;
  updated_at = now;
}

-- `nextUserId_++` wraps at 2 ^ 64.
unfoldable pub create_user :
    Bytes → Bytes → Bytes → ℤ → MemoryAuthRepository → MemoryAuthRepository × CreateUserResult
create_user username name hash now t =
    let user = new_user t.next_user_id username now in
    let stored : StoredUser = record {
      user = user;
      normalized_username = name;
      password_hash = hash;
    } in
    if is_some (lookup name t.user_ids_by_name)
    then (t, record { status = CreateUserStatus.conflict; user = none })
    else (
      record t {
        next_user_id = (t.next_user_id + 1) % 2 ^ 64;
        users = insert t.next_user_id stored t.users;
        user_ids_by_name = insert name t.next_user_id t.user_ids_by_name;
      },
      record { status = CreateUserStatus.created; user = some user },
    )

abbrev pub credentials : StoredUser → Credentials
credentials stored = record { user = stored.user; password_hash = stored.password_hash }

unfoldable pub find_credentials : Bytes → MemoryAuthRepository → Option Credentials
find_credentials name t = do
  id ← lookup name t.user_ids_by_name
  stored ← lookup id t.users
  some (credentials stored)

unfoldable pub create_session : ℕ → Bytes → ℤ → MemoryAuthRepository → MemoryAuthRepository
create_session id hash expires_at t =
    let session : StoredSession = record {
      user_id = id;
      expires_at = expires_at;
      revoked_at = none;
    } in
    record t { sessions = insert hash session t.sessions }

abbrev pub user_at : ℕ → List (ℕ × StoredUser) → Option User
user_at id users = do stored ← lookup id users; some stored.user

-- The user of a session that is neither revoked nor expired.
unfoldable pub live_user : List (ℕ × StoredUser) → ℤ → Option StoredSession → Option User
live_user users now none = none
live_user users now (some session) =
    if is_some session.revoked_at || leb_ℤ session.expires_at now
    then none
    else only_active (user_at session.user_id users)

unfoldable pub find_user_by_session : Bytes → ℤ → MemoryAuthRepository → Option User
find_user_by_session hash now t = live_user t.users now (lookup hash t.sessions)

abbrev pub revoked :
    Bytes → ℤ → Option StoredSession → List (Bytes × StoredSession) → List (Bytes × StoredSession)
revoked hash revoked_at none sessions = sessions
revoked hash revoked_at (some session) sessions =
    insert hash (record session { revoked_at = some revoked_at }) sessions

unfoldable pub revoke_session : Bytes → ℤ → MemoryAuthRepository → MemoryAuthRepository
revoke_session hash revoked_at t = record t {
  sessions = revoked hash revoked_at (lookup hash t.sessions) t.sessions;
}

abbrev pub memory_auth : AuthRepository MemoryAuthRepository
memory_auth = record {
  create_user = create_user;
  find_credentials = find_credentials;
  create_session = create_session;
  find_user_by_session = find_user_by_session;
  revoke_session = revoke_session;
}
