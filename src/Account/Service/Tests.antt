-- ===== src/Account/Service/Tests.antt =====
-- A user who registers, logs in and out, over the memory repository. The digest is the text itself,
-- and a password is its own hash.
use hao_short_link.Prelude.{
  Bytes, [], arith, bytes_beq, bytes_eq, codes, if◌then◌else◌, inl, inr, length, nat_eq, none, refl,
  some, true, ◌==◌, ◌≡◌,
}
use hao_short_link.Prelude.Int.{int_eq, leb_ℤ, pos, ◌+ℤ◌}
use hao_short_link.Prelude.Map.{insert, lookup, pair_eq}
use hao_short_link.Account.Memory.{
  MemoryAuthRepository, create_user, find_credentials, memory_auth, new_user,
}
use hao_short_link.Account.Memory.Contract.{
  IsKeyed, create_user-keeps, memory_auth-IsAuthRepository,
}
use hao_short_link.Account.Repository.{Credentials, is_active}
use hao_short_link.Account.Service.{
  AuthenticatedSession, Digests, answer, answered, authenticate, create_session, generate_token,
  is_valid_password, is_valid_username, login, logout, normalize_username, register_user,
  stored_hash, to_hex, token_hash,
}
use hao_short_link.Account.Service.Registration.{SameButCase, register_user-authenticate}
use hao_short_link.Account.Service.Sessions.{login-authenticate, logout-authenticate}
use hao_short_link.ShortLink.Record.{status_eq}
use mathlib.Core.Option.{none-ne-some}

abbrev pub ann_digests : Digests
ann_digests = record {
  sha256 = λ token. some token;
  verify = λ word hash. bytes_beq word hash;
  dummy_password_hash = codes "!";
}

abbrev empty : MemoryAuthRepository
empty = record { next_user_id = 1; users = []; user_ids_by_name = []; sessions = [] }

empty-IsKeyed : IsKeyed empty
unfolding lookup
empty-IsKeyed = record { keyed = λ id stored here. absurd (none-ne-some stored here) }

abbrev pub ann_password : Bytes
ann_password = codes "correct horse"

abbrev pub ann_drawn : Bytes
ann_drawn = codes "0123456789abcdef0123456789abcdef"

unfoldable pub one_user : MemoryAuthRepository
unfolding create_user insert
one_user = (create_user (codes "Ann") (codes "ann") ann_password (pos 5) empty).0

abbrev session : AuthenticatedSession
session = record {
  user = new_user 1 (codes "Ann") (pos 5);
  token = to_hex ann_drawn;
  expires_at = pos 110;
}

pub one_user-IsKeyed : IsKeyed one_user
unfolding one_user
one_user-IsKeyed =
    create_user-keeps (codes "Ann") (codes "ann") ann_password (pos 5) empty empty-IsKeyed

logs_in :
    (login memory_auth ann_digests
      (pos 100)
      (codes "ANN")
      ann_password
      (some ann_drawn)
      (pos 10)
      one_user).1
    ≡ answer (some session)
unfolding one_user login find_credentials lookup bytes_beq normalize_username is_active stored_hash
    answered create_session generate_token token_hash to_hex ◌+ℤ◌
logs_in = refl

registers :
    (register_user memory_auth ann_digests
      (pos 100)
      (codes "Ann")
      ann_password
      (some ann_password)
      (some ann_drawn)
      (pos 5)
      (pos 10)
      empty).1
    ≡ answer (some session)
unfolding register_user is_valid_username is_valid_password create_user lookup answered
    create_session generate_token token_hash to_hex ◌+ℤ◌
registers = refl

same_name : SameButCase (codes "ANN") (codes "Ann")
same_name = (
  inl refl,
  (
    inr (inl (omega arith, omega arith, omega arith)),
    (inr (inl (omega arith, omega arith, omega arith)), tt),
  ),
)

token_size : length (to_hex ann_drawn) ≡ 64
unfolding to_hex
token_size = refl

login-authenticate_example :
    (c : Credentials) × (find_credentials (normalize_username (codes "ANN")) one_user ≡ some c)
    × (ann_digests.verify ann_password c.password_hash ≡ true)
    × (is_active c.user.status ≡ true)
    × (session.expires_at ≡ pos 10 +ℤ pos 100)
    × (authenticate memory_auth ann_digests
          (pos 100)
          session.token
          (pos 60)
          (login memory_auth ann_digests
            (pos 100)
            (codes "ANN")
            ann_password
            (some ann_drawn)
            (pos 10)
            one_user).0
        ≡ (if leb_ℤ session.expires_at (pos 60) then none else some c.user))
login-authenticate_example =
    login-authenticate memory_auth ann_digests (pos 100) memory_auth-IsAuthRepository (codes "ANN")
      ann_password ann_drawn (pos 10) (pos 60) one_user session refl one_user-IsKeyed logs_in

register_user-authenticate_example :
    let after =
      (register_user memory_auth ann_digests
        (pos 100)
        (codes "Ann")
        ann_password
        (some ann_password)
        (some ann_drawn)
        (pos 5)
        (pos 10)
        empty).0 in
    (find_credentials (normalize_username (codes "ANN")) after
      ≡ some (record { user = session.user; password_hash = ann_password }))
    × (is_active session.user.status ≡ true)
    × (session.expires_at ≡ pos 10 +ℤ pos 100)
    × (authenticate memory_auth ann_digests (pos 100) session.token (pos 110) after
        ≡ (if leb_ℤ session.expires_at (pos 110) then none else some session.user))
register_user-authenticate_example =
    register_user-authenticate memory_auth ann_digests (pos 100) memory_auth-IsAuthRepository
      (codes "Ann") ann_password ann_password ann_drawn (codes "ANN") (pos 5) (pos 10) (pos 110)
      empty session refl same_name registers

logout-authenticate_example :
    authenticate memory_auth ann_digests
      (pos 100)
      session.token
      (pos 20)
      (logout memory_auth ann_digests (pos 100) session.token (pos 15) one_user)
    ≡ (if token_hash ann_digests session.token == token_hash ann_digests session.token
        then none
        else authenticate memory_auth ann_digests (pos 100) session.token (pos 20) one_user)
logout-authenticate_example =
    logout-authenticate memory_auth ann_digests (pos 100) memory_auth-IsAuthRepository session.token
      session.token (pos 15) (pos 20) one_user token_size
