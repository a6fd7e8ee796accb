-- ===== src/Account/Repository.antt =====
-- apps/shortlink_server/include/shortlink/AuthRepository.h: the data and the operations that the
-- service of accounts works on, and what they owe it. The clock of `create_user` is an argument.
use hao_short_link.Prelude.{
  Bool, Bytes, Option, bytes_eq, false, if◌then◌else◌, nat_eq, none, some, true, ℕ, ◌==◌, ◌≡◌,
}
use hao_short_link.Prelude.Int.{int_eq, leb_ℤ, ℤ}
use hao_short_link.Prelude.Map.{pair_eq}
use hao_short_link.ShortLink.Record.{status_eq}

pub data UserStatus : Type 0 where
  active disabled : UserStatus

unfoldable pub is_active : UserStatus → Bool
is_active UserStatus.active = true
is_active UserStatus.disabled = false

pub record User : Type 0 where
  pub id : ℕ
  pub username : Bytes
  pub status : UserStatus
  pub created_at : ℤ
  pub updated_at : ℤ

pub record Credentials : Type 0 where
  pub user : User
  pub password_hash : Bytes

pub data CreateUserStatus : Type 0 where
  created conflict : CreateUserStatus

pub record CreateUserResult : Type 0 where
  pub status : CreateUserStatus
  pub user : Option User

-- Of an account only an active user is shown.
unfoldable pub only_active : Option User → Option User
only_active none = none
only_active (some user) = if is_active user.status then some user else none

pub record AuthRepository (T : Type 0) : Type 0 where
  pub create_user : Bytes → Bytes → Bytes → ℤ → T → T × CreateUserResult
  pub find_credentials : Bytes → T → Option Credentials
  pub create_session : ℕ → Bytes → ℤ → T → T
  pub find_user_by_session : Bytes → ℤ → T → Option User
  pub revoke_session : Bytes → ℤ → T → T

-- What a repository owes its clients, with its users by their ids.
pub record IsAuthRepository {T : Type 0} (repository : AuthRepository T) (Valid : T → Type 0)
    (user_of : ℕ → T → Option User) : Type 0 where
  pub credentials_of :
      (name : Bytes) (t : T) (c : Credentials)
      → Valid t
      → repository.find_credentials name t ≡ some c
      → user_of c.user.id t ≡ some c.user
  pub creates :
      (username name hash : Bytes) (now : ℤ) (t : T) (user : User)
      → (repository.create_user username name hash now t).1.user ≡ some user
      → let after = (repository.create_user username name hash now t).0 in
        (user_of user.id after ≡ some user)
        × (is_active user.status ≡ true)
        × (repository.find_credentials name after
            ≡ some (record { user = user; password_hash = hash }))
  pub stays_valid :
      (username name hash : Bytes) (now : ℤ) (t : T)
      → Valid t
      → Valid (repository.create_user username name hash now t).0
  pub starts_valid :
      (id : ℕ) (hash : Bytes) (expires_at : ℤ) (t : T)
      → Valid t
      → Valid (repository.create_session id hash expires_at t)
  pub revokes_valid :
      (hash : Bytes) (revoked_at : ℤ) (t : T)
      → Valid t
      → Valid (repository.revoke_session hash revoked_at t)
  pub starts :
      (id : ℕ) (hash other : Bytes) (expires_at now : ℤ) (t : T)
      → repository.find_user_by_session other now (repository.create_session id hash expires_at t)
        ≡ (if hash == other
            then (if leb_ℤ expires_at now then none else only_active (user_of id t))
            else repository.find_user_by_session other now t)
  pub starts_no_user :
      (name : Bytes) (id : ℕ) (hash : Bytes) (expires_at : ℤ) (t : T)
      → repository.find_credentials name (repository.create_session id hash expires_at t)
        ≡ repository.find_credentials name t
  pub revokes :
      (hash other : Bytes) (revoked_at now : ℤ) (t : T)
      → repository.find_user_by_session other now (repository.revoke_session hash revoked_at t)
        ≡ (if hash == other then none else repository.find_user_by_session other now t)
