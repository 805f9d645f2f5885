-- ===== src/Startup/Configured.antt =====
-- What the variables of the environment come to in the services of a process that has started.
use weave_server.Prelude.{
  ◌≡◌, sym, ◌∙◌, ap, subst, ℕ, String, true, Option, none, some, ◌==◌, not, ◌&&◌, length, select,
  find, arith,
}
use weave_server.Prelude.Int.{ℤ, pos, negsuc, leb_ℤ, ◌*ℤ◌}
use weave_server.Prelude.Word.{wrap_id, IsInt64}
use weave_server.Model.{Uuid, User}
use weave_server.Db.{World, err, pin_locked}
use weave_server.Db.Fine.{Fine}
use weave_server.Provider.{Env}
use weave_server.Repository.UserRepo.{is_recent, whole_minutes}
use weave_server.Service.AuthService.{Auth, login, lockout_time}
use weave_server.Service.AuthService.Lockout.{user_of, login_locked}
use weave_server.Config.{Config, Environ, loaded, load, config_of}
use weave_server.Config.Verdict.{
  Setting, settings, unreadable, number, verdict, described, max_attempts, pin_lockout,
  load-verdict,
}
use weave_server.Startup.{Tokens, new_auth}

loaded-described :
    (e : Environ) (o : Option Setting) (cfg : Config)
    → verdict e o (described e) ≡ loaded cfg
    → described e ≡ cfg
loaded-described e none cfg h = cc
loaded-described e (some x) cfg h = cc

-- A configuration that was read is the one that the variables describe.
load-described : (e : Environ) (cfg : Config) → load e ≡ loaded cfg → described e ≡ cfg
load-described e cfg h =
    loaded-described e (find (unreadable e) settings) cfg (sym (load-verdict e) ∙ h)

new_auth_fields :
    (tokens : Tokens) (cfg : Config) (a : Auth)
    → new_auth tokens cfg ≡ some a
    → (a.max_pin_attempts ≡ cfg.auth.max_pin_attempts)
      × (a.pin_lockout_mins ≡ cfg.auth.pin_lockout_mins)
unfolding new_auth
new_auth_fields tokens cfg a h = ground arith

whole_minutes-minutes : (z : ℤ) → whole_minutes (z *ℤ pos 60000000000) ≡ z
unfolding whole_minutes ◌*ℤ◌
whole_minutes-minutes (pos n) = ground arith
whole_minutes-minutes (negsuc n) = ground arith

-- Minutes that fit in a time.Duration, which is an int64 of nanoseconds, are not changed by it.
lockout_time-whole :
    (auth : Auth)
    → IsInt64 (auth.pin_lockout_mins *ℤ pos 60000000000)
    → whole_minutes (lockout_time auth) ≡ auth.pin_lockout_mins
lockout_time-whole auth fits =
    rw (wrap_id (auth.pin_lockout_mins *ℤ pos 60000000000) fits)
      (whole_minutes-minutes auth.pin_lockout_mins)

-- The PINs of a user that have failed within some minutes.
abbrev pub failed_within : (mins : ℤ) → Uuid → World → ℕ
failed_within mins id w =
    length (
      select (λ x. x.user_id == id && not x.success && is_recent w.now mins x)
        w.tables.pin_attempts)

-- In a process that has read its configuration, on a connection that works: a user with as many
-- failed PINs as MAX_PIN_ATTEMPTS says (3, if it is not set) within the minutes that PIN_LOCKOUT_MINS
-- says (15, if it is not set) cannot log in, be the PIN right or wrong, and nothing is written; so
-- with a MAX_PIN_ATTEMPTS of 0 or less no registered user can. The minutes are such that they fit in
-- a time.Duration, an int64 of nanoseconds: less than 153,722,868 of them.
pub login_configured :
    (e : Environ) (cfg : Config) (tokens : Tokens) (a : Auth) (env : Env) (phone pin : String)
    (u : User) (w : World)
    → load e ≡ loaded cfg
    → new_auth tokens cfg ≡ some a
    → IsInt64 (number e pin_lockout *ℤ pos 60000000000)
    → Fine w
    → user_of phone w.tables ≡ some u
    → leb_ℤ (number e max_attempts) (pos (failed_within (number e pin_lockout) u.id w)) ≡ true
    → login env a phone pin w ≡ (err pin_locked, w)
unfolding config_of
login_configured e cfg tokens a env phone pin u w read made fits fine found many =
    let described_so = load-described e cfg read in
    let same_max : a.max_pin_attempts ≡ number e max_attempts =
      (new_auth_fields tokens cfg a made).0
      ∙ sym (ap (λ (c : Config). c.auth.max_pin_attempts) described_so) in
    let same_mins : a.pin_lockout_mins ≡ number e pin_lockout =
      (new_auth_fields tokens cfg a made).1
      ∙ sym (ap (λ (c : Config). c.auth.pin_lockout_mins) described_so) in
    let same_window : whole_minutes (lockout_time a) ≡ number e pin_lockout =
      lockout_time-whole a (subst (λ m. IsInt64 (m *ℤ pos 60000000000)) (sym same_mins) fits)
      ∙ same_mins in
    login_locked env a phone pin u w fine found (
      subst (λ n. leb_ℤ n (pos (failed_within (whole_minutes (lockout_time a)) u.id w)) ≡ true)
        (sym same_max)
        (subst (λ m. leb_ℤ (number e max_attempts) (pos (failed_within m u.id w)) ≡ true)
          (sym same_window) many))
