-- ===== src/Service/AuthService.antt =====
-- internal/service/auth_service.go. Signing and reading tokens is left to parameters.
pub mod Lockout
pub mod Unlock
use weave_server.Prelude.{
  ℕ, ◌+◌, String, true, false, not, Option, none, some, str_eq, if◌then◌else◌,
}
use weave_server.Prelude.Int.{ℤ, pos, ◌*ℤ◌, leb_ℤ}
use weave_server.Prelude.Word.{wrap}
use weave_server.Model.{Uuid, User, UserSession, CreateUserInput, Wallet, WalletType}
use weave_server.Db.{
  M, pure, fail, gets, ignore, on_option, ◌>>=◌, ◌>>◌, or_fail, fail_if, duplicate_phone,
  hash_failed, token_failed, user_not_found, pin_locked, invalid_pin, invalid_refresh_token,
  invalid_token_scope, invalid_token_subject,
}
use weave_server.Repository.UserRepo
use weave_server.Repository.WalletRepo
use weave_server.Provider.{Env}
use weave_server.Service.TransferService.{in_tx}

-- What a token says, once its signature and its times are found to be right.
pub record Claims : Type 0 where
  pub scope : String
  pub subject : String

-- The configuration, and the tokens: by user and time of signing, none is an error. `read_token` is
-- `jwt.ParseWithClaims`, which takes a token of either kind.
pub record Auth : Type 0 where
  pub max_pin_attempts : ℤ
  pub pin_lockout_mins : ℤ
  pub access_ttl : ℕ
  pub sign_access : Uuid → ℕ → Option String
  pub sign_refresh : Uuid → ℕ → Option String
  pub read_token : ℕ → String → Option Claims

-- `getIP`
abbrev pub get_ip : String
get_ip = ""

-- `generateSession`
unfoldable pub generate_session : Auth → Uuid → M UserSession
generate_session auth user_id = do
  now ← gets (λ w. w.now)
  access ← or_fail (auth.sign_access user_id now) token_failed
  refresh ← or_fail (auth.sign_refresh user_id now) token_failed
  pure (record {
    user_id = user_id;
    access_token = access;
    refresh_token = refresh;
    expires_at = now + auth.access_ttl;
  })

abbrev pub empty_wallet : Uuid → Wallet
empty_wallet user_id = record {
  id = 0;
  user_id = user_id;
  wallet_type = WalletType.user;
  balance = pos 0;
  ledger_balance = pos 0;
  currency = "NGN";
  created_at = 0;
  updated_at = 0;
}

-- `Register` between BEGIN and the deferred calls.
unfoldable pub open_account : Auth → (phone full_name pin_hash : String) → M UserSession
open_account auth phone full_name pin_hash = do
  user ← UserRepo.create (record { phone = phone; full_name = full_name; pin = pin_hash })
  WalletRepo.create (empty_wallet user.id)
  generate_session auth user.id

-- `Register`: the transaction is begun and ended by the same code as in `InitiateTransfer`.
unfoldable pub register : Env → Auth → (phone full_name pin : String) → M UserSession
register env auth phone full_name pin = do
  existing ← UserRepo.get_by_phone phone
  on_option existing
      (do
        pin_hash ← or_fail (env.hash_pin pin) hash_failed
        in_tx env (open_account auth phone full_name pin_hash))
      (λ _. fail duplicate_phone)

-- `time.Duration(PINLockoutMins) * time.Minute`, in nanoseconds
abbrev pub lockout_time : Auth → ℤ
lockout_time auth = wrap (auth.pin_lockout_mins *ℤ pos 60000000000)

-- The lockout and the check of a PIN, the same in `Login` and `VerifyPIN`.
unfoldable pub check_pin : Env → Auth → User → String → M (Unit {0})
check_pin env auth user pin = do
  failed ← UserRepo.recent_failed_pin_attempts user.id (lockout_time auth)
  fail_if (leb_ℤ auth.max_pin_attempts (pos failed)) pin_locked
  ip_failed ← UserRepo.recent_failed_pin_attempts_by_ip get_ip (lockout_time auth)
  fail_if (leb_ℤ (wrap (auth.max_pin_attempts *ℤ pos 3)) (pos ip_failed)) pin_locked
  if env.pin_matches user.pin_hash pin
      then ignore (UserRepo.record_pin_attempt user.id true get_ip)
      else do ignore (UserRepo.record_pin_attempt user.id false get_ip); fail invalid_pin

-- `Login`
unfoldable pub login : Env → Auth → (phone pin : String) → M UserSession
login env auth phone pin = do
  found ← UserRepo.get_by_phone phone
  user ← or_fail found user_not_found
  check_pin env auth user pin
  generate_session auth user.id

-- `VerifyPIN`
unfoldable pub verify_pin : Env → Auth → Uuid → String → M (Unit {0})
verify_pin env auth user_id pin = do
  found ← UserRepo.get_by_id user_id
  user ← or_fail found user_not_found
  check_pin env auth user pin

-- `RefreshToken`
unfoldable pub refresh_token : Env → Auth → String → M UserSession
refresh_token env auth token = do
  now ← gets (λ w. w.now)
  claims ← or_fail (auth.read_token now token) invalid_refresh_token
  fail_if (not (str_eq claims.scope "refresh")) invalid_token_scope
  user_id ← or_fail (env.uuid_parse claims.subject) invalid_token_subject
  generate_session auth user_id

-- `ChangePIN`
unfoldable pub change_pin : Env → Uuid → (old_pin new_pin : String) → M (Unit {0})
change_pin env user_id old_pin new_pin = do
  found ← UserRepo.get_by_id user_id
  user ← or_fail found user_not_found
  fail_if (not (env.pin_matches user.pin_hash old_pin)) invalid_pin
  pin_hash ← or_fail (env.hash_pin new_pin) hash_failed
  UserRepo.update_pin user_id pin_hash
