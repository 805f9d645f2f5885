-- ===== src/Service/AuthService/Lockout.antt =====
-- The lockout after failed PINs.
use weave_server.Prelude.{
  ◌≡◌, refl, ap, subst, ==_refl, ℕ, ◌+◌, String, Bool, true, false, not, ◌&&◌, Option, none, some,
  List, [], ◌∷◌, ◌++◌, find, any, ◌==◌, str_eq, arith, select, length, Bool-cases, inl, inr,
  if◌then◌else◌,
}
use weave_server.Prelude.Int.{ℤ, pos, leb_ℤ, ◌*ℤ◌, ◌+ℤ◌, ◌<ℤ◌}
use weave_server.Prelude.Word.{wrap}
use weave_server.Model.{Uuid, User, PinAttempt}
use weave_server.Db.{Tables, World, ok, err, ◌>>=◌, pin_locked, invalid_pin}
use weave_server.Db.Fine.{Fine, query-Fine, statement-Fine}
use weave_server.Provider.{Env}
use weave_server.Repository.UserRepo.{
  selected, is_recent, whole_minutes, insert_attempt, get_by_phone, get_by_id,
  recent_failed_pin_attempts, recent_failed_pin_attempts_by_ip, record_pin_attempt,
}
use weave_server.Service.AuthService.{Auth, check_pin, login, change_pin, get_ip, lockout_time}

-- The user that has the phone number, as the service reads it.
abbrev pub user_of : String → Tables → Option User
user_of phone t = selected (find (λ u. str_eq u.phone phone) t.users)

-- How many PINs of the user have failed within the lockout time.
abbrev pub failures : Auth → Uuid → World → ℕ
failures auth id w = length (
    select
      (λ a.
        a.user_id == id && not a.success && is_recent w.now (whole_minutes (lockout_time auth)) a)
      w.tables.pin_attempts)

check_pin_locked :
    (env : Env) (auth : Auth) (u : User) (pin : String) (w : World)
    → Fine w
    → leb_ℤ auth.max_pin_attempts (pos (failures auth u.id w)) ≡ true
    → check_pin env auth u pin w ≡ (err pin_locked, w)
unfolding check_pin recent_failed_pin_attempts ◌>>=◌
check_pin_locked env auth u pin w fine many =
    rw
      (query-Fine
        (λ t. length (
          select
            (λ a.
              a.user_id == u.id
              && not a.success
              && is_recent w.now (whole_minutes (lockout_time auth)) a)
            t.pin_attempts))
        w fine)
      (rw many refl)

-- On a connection that works, a user with as many failed PINs within the lockout time as the
-- configuration allows is refused, be the PIN right or wrong, and nothing is written.
pub login_locked :
    (env : Env) (auth : Auth) (phone pin : String) (u : User) (w : World)
    → Fine w
    → user_of phone w.tables ≡ some u
    → leb_ℤ auth.max_pin_attempts (pos (failures auth u.id w)) ≡ true
    → login env auth phone pin w ≡ (err pin_locked, w)
unfolding login get_by_phone ◌>>=◌
login_locked env auth phone pin u w fine found many =
    rw (query-Fine (user_of phone) w fine)
      (rw (found, check_pin_locked env auth u pin w fine many) refl)

-- The attempt that a wrong PIN leaves.
abbrev pub failed_attempt : Uuid → World → PinAttempt
failed_attempt id w = record {
  user_id = id;
  success = false;
  ip_address = get_ip;
  created_at = w.now;
}

abbrev pub with_failure : Uuid → World → World
with_failure id w = record w {
  tables = record w.tables { pin_attempts = w.tables.pin_attempts ++ failed_attempt id w ∷ [] };
}

length-select-append :
    (p : PinAttempt → Bool) (xs : List PinAttempt) (a : PinAttempt)
    → p a ≡ true
    → length (select p (xs ++ a ∷ [])) ≡ length (select p xs) + 1
length-select-append p [] a h = rw h refl
length-select-append p (x ∷ xs) a h = elim (Bool-cases (p x)) [
  | inl hit ↦ rw hit (omega (arith, length-select-append p xs a h))
  | inr miss ↦ rw miss (length-select-append p xs a h)
]

just_failed-is_recent :
    (now : ℕ) (within : ℤ) (a : PinAttempt)
    → pos 0 <ℤ within
    → a.created_at ≡ now
    → is_recent now within a ≡ true
unfolding ◌*ℤ◌ ◌+ℤ◌
just_failed-is_recent now within a h e = ground arith

abbrev id_of : Option User → Uuid
id_of none = 0
id_of (some u) = u.id

pub any_found :
    (p : User → Bool) (xs : List User) (u : User)
    → selected (find p xs) ≡ some u
    → any (λ y. y.id == u.id) xs ≡ true
any_found p [] u h = ground arith
any_found p (x ∷ xs) u h = elim (Bool-cases (p x)) [
  | inl hit ↦
      let same : x.id ≡ u.id =
        ap (λ (o : Option User). id_of o)
          (subst (λ b. selected (if b then some x else find p xs) ≡ some u) hit h) in
      ground arith
  | inr miss ↦
      let rest =
        any_found p xs u
          (subst (λ b. selected (if b then some x else find p xs) ≡ some u) miss h) in
      ground arith
]

-- The world after a wrong PIN.
record_failure :
    (id : Uuid) (w : World)
    → Fine w
    → any (λ y. y.id == id) w.tables.users ≡ true
    → record_pin_attempt id false get_ip w ≡ (ok tt, with_failure id w)
unfolding record_pin_attempt insert_attempt ◌>>=◌
record_failure id w fine known =
    rw (statement-Fine (insert_attempt (failed_attempt id w)) w fine) (rw known refl)

-- On a connection that works, where the configuration allows a PIN (three times its limit is
-- positive) and the lockout, as a time.Duration, is a minute or more: a wrong PIN of a user who is
-- not locked out is refused, and it is recorded, so that the user has one failure more within the
-- lockout time; nothing else changes.
pub login_wrong :
    (env : Env) (auth : Auth) (phone pin : String) (u : User) (w : World)
    → Fine w
    → user_of phone w.tables ≡ some u
    → leb_ℤ auth.max_pin_attempts (pos (failures auth u.id w)) ≡ false
    → leb_ℤ (wrap (auth.max_pin_attempts *ℤ pos 3)) (pos 0) ≡ false
    → pos 0 <ℤ whole_minutes (lockout_time auth)
    → env.pin_matches u.pin_hash pin ≡ false
    → (login env auth phone pin w ≡ (err invalid_pin, with_failure u.id w))
      × (failures auth u.id (with_failure u.id w) ≡ failures auth u.id w + 1)
unfolding login check_pin get_by_phone recent_failed_pin_attempts recent_failed_pin_attempts_by_ip
    ◌>>=◌
login_wrong env auth phone pin u w fine found few allowed lasting wrong = (
  rw (query-Fine (user_of phone) w fine) (
      rw found (
        rw
          (query-Fine
            (λ t. length (
              select
                (λ a.
                  a.user_id == u.id
                  && not a.success
                  && is_recent w.now (whole_minutes (lockout_time auth)) a)
                t.pin_attempts))
            w fine)
          (rw (few, allowed, wrong)
            (rw
              (record_failure u.id w fine
                (any_found (λ x. str_eq x.phone phone) w.tables.users u found))
              refl)))),
  length-select-append _ w.tables.pin_attempts (failed_attempt u.id w) (
      rw (==_refl u.id) (
        just_failed-is_recent w.now (whole_minutes (lockout_time auth)) (failed_attempt u.id w)
          lasting refl)),
)

-- On a connection that works, `ChangePIN` with a wrong old PIN is refused and leaves no trace:
-- however often it is tried, no failure is recorded and no lockout is asked for.
pub change_pin_wrong :
    (env : Env) (id : Uuid) (old_pin new_pin : String) (u : User) (w : World)
    → Fine w
    → selected (find (λ x. x.id == id) w.tables.users) ≡ some u
    → env.pin_matches u.pin_hash old_pin ≡ false
    → change_pin env id old_pin new_pin w ≡ (err invalid_pin, w)
unfolding change_pin get_by_id ◌>>=◌
change_pin_wrong env id old_pin new_pin u w fine found wrong =
    rw (query-Fine (λ t. selected (find (λ x. x.id == id) t.users)) w fine) (rw (found, wrong) refl)
