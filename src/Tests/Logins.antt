-- ===== src/Tests/Logins.antt =====
-- The theorems on registration and logins, at the example's user.
use weave_server.Prelude.{◌+◌, ◌≡◌, false, refl, none, some, arith}
use weave_server.Prelude.Int.{pos, ◌*ℤ◌}
use weave_server.Prelude.Word.{wrap}
use weave_server.Db.{World, ok, err, invalid_pin}
use weave_server.Provider.{Env}
use weave_server.Repository.UserRepo.{whole_minutes}
use weave_server.Service.AuthService.{Auth, login}
use weave_server.Service.AuthService.Lockout.{with_failure, failures, login_wrong}
use weave_server.Service.AuthService.Unlock.{login_unlocked, with_success, waited}
use weave_server.Tests.{env, world, user}

abbrev pub auth : Auth
auth = record {
  max_pin_attempts = pos 2;
  pin_lockout_mins = pos 15;
  access_ttl = 900;
  sign_access = λ id now. some "access";
  sign_refresh = λ id now. some "refresh";
  read_token = λ now token. none;
}

abbrev pub twice_failed : World
twice_failed = with_failure 1 (with_failure 1 world)

login_unlocked_example : login env auth "+2348000000000" "1234" (waited 900 twice_failed) ≡ (
  ok (record {
    user_id = 1;
    access_token = "access";
    refresh_token = "refresh";
    expires_at = twice_failed.now + 900 + 900;
  }),
  with_success 1 (waited 900 twice_failed),
)
unfolding ◌*ℤ◌ wrap
login_unlocked_example =
    login_unlocked env auth "+2348000000000" "1234" "access" "refresh" user 15 900 twice_failed
      (refl, refl) refl (omega arith, (omega arith, tt)) refl (omega arith) refl refl refl refl refl

-- Every PIN is wrong.
abbrev wrong : Env
wrong = record env { pin_matches = λ hash pin. false }

login_wrong_example :
    (login wrong auth "+2348000000000" "9999" world ≡ (err invalid_pin, with_failure 1 world))
    × (failures auth 1 (with_failure 1 world) ≡ failures auth 1 world + 1)
unfolding ◌*ℤ◌ wrap whole_minutes
login_wrong_example =
    login_wrong wrong auth "+2348000000000" "9999" user world (refl, refl) refl refl refl
      (omega arith) refl
