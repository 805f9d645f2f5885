-- ===== src/Service/AuthService/Unlock.antt =====
-- The end of a lockout: `Login` once the failed PINs are old enough.
use weave_server.Prelude.{
  ◌≡◌, refl, ◌==◌, ℕ, ◌+◌, ◌*◌, ◌≤◌, String, true, false, not, ◌&&◌, some, List, [], ◌∷◌, ◌++◌, All,
  any, str_eq, arith, select, length,
}
use weave_server.Prelude.Int.{ℤ, pos, pos_part, leb_ℤ, ◌*ℤ◌, ◌+ℤ◌}
use weave_server.Prelude.Word.{wrap}
use weave_server.Model.{Uuid, User, UserSession, PinAttempt}
use weave_server.Db.{World, ok, ◌>>=◌}
use weave_server.Db.Fine.{Fine, query-Fine, statement-Fine}
use weave_server.Provider.{Env}
use weave_server.Repository.UserRepo.{
  is_recent, whole_minutes, insert_attempt, get_by_phone, recent_failed_pin_attempts,
  recent_failed_pin_attempts_by_ip, record_pin_attempt,
}
use weave_server.Service.AuthService.{
  Auth, check_pin, login, generate_session, get_ip, lockout_time,
}
use weave_server.Service.AuthService.Lockout.{user_of, any_found}

-- Some seconds later, in which no request came.
abbrev pub waited : ℕ → World → World
waited dt w = record w { now = w.now + dt }

-- No attempt was made in the future.
abbrev pub Past : World → Type 0
Past w = All (λ a. PinAttempt.created_at a ≤ w.now) w.tables.pin_attempts

stale :
    (now dt m : ℕ) (within : ℤ) (a : PinAttempt)
    → a.created_at ≤ now
    → m * 60 ≤ dt
    → pos_part within ≤ m
    → is_recent (now + dt) within a ≡ false
unfolding ◌*ℤ◌ ◌+ℤ◌
stale now dt m within a made long short = ground arith

none_recent :
    (id : Uuid) (now dt m : ℕ) (within : ℤ) (xs : List PinAttempt)
    → All (λ a. PinAttempt.created_at a ≤ now) xs
    → m * 60 ≤ dt
    → pos_part within ≤ m
    → length (select (λ a. a.user_id == id && not a.success && is_recent (now + dt) within a) xs)
      ≡ 0
none_recent id now dt m within [] made long short = refl
none_recent id now dt m within (a ∷ xs) made long short =
    let rest = none_recent id now dt m within xs made.1 long short in
    let old = stale now dt m within a made.0 long short in rw old (ground (arith, rest))

-- Where the minutes do not fit in a time.Duration, the lockout is shorter.
lockout_time-shorter :
    (auth : Auth) (m : ℕ)
    → auth.pin_lockout_mins ≡ pos m
    → pos_part (whole_minutes (lockout_time auth)) ≤ m
unfolding whole_minutes wrap ◌*ℤ◌
lockout_time-shorter auth m mins = rw mins (ground arith)

-- The world after a right PIN.
abbrev pub with_success : Uuid → World → World
with_success id w = record w {
  tables = record w.tables {
    pin_attempts =
        w.tables.pin_attempts
        ++ record { user_id = id; success = true; ip_address = get_ip; created_at = w.now } ∷ [];
  };
}

record_success :
    (id : Uuid) (w : World)
    → Fine w
    → any (λ y. y.id == id) w.tables.users ≡ true
    → record_pin_attempt id true get_ip w ≡ (ok tt, with_success id w)
unfolding record_pin_attempt insert_attempt ◌>>=◌
record_success id w fine known =
    rw
      (statement-Fine
        (insert_attempt
          (record { user_id = id; success = true; ip_address = get_ip; created_at = w.now }))
        w fine)
      (rw known refl)

check_pin_right :
    (env : Env) (auth : Auth) (pin : String) (u : User) (m dt : ℕ) (w : World)
    → Fine w
    → any (λ y. y.id == u.id) w.tables.users ≡ true
    → Past w
    → auth.pin_lockout_mins ≡ pos m
    → m * 60 ≤ dt
    → leb_ℤ auth.max_pin_attempts (pos 0) ≡ false
    → leb_ℤ (wrap (auth.max_pin_attempts *ℤ pos 3)) (pos 0) ≡ false
    → env.pin_matches u.pin_hash pin ≡ true
    → check_pin env auth u pin (waited dt w) ≡ (ok tt, with_success u.id (waited dt w))
unfolding check_pin recent_failed_pin_attempts recent_failed_pin_attempts_by_ip ◌>>=◌
check_pin_right env auth pin u m dt w fine known past mins long some_pins more_pins right =
    rw
      (query-Fine
        (λ t. length (
          select
            (λ a.
              a.user_id == u.id
              && not a.success
              && is_recent (w.now + dt) (whole_minutes (lockout_time auth)) a)
            t.pin_attempts))
        (waited dt w) fine)
      (rw
        (
          none_recent u.id w.now dt m (whole_minutes (lockout_time auth)) w.tables.pin_attempts past
              long (lockout_time-shorter auth m mins),
          some_pins,
          more_pins,
          right,
        )
        (rw (record_success u.id (waited dt w) fine known) refl))

-- A lockout ends by itself. On a connection that works, where the configuration allows a PIN (its limit
-- and three times its limit are positive) and no attempt lies in the future: however many PINs have failed, after the
-- minutes of the lockout without a request, a registered user logs in with the right PIN, given that tokens can be signed,
-- and all that changes is that the attempt is recorded as a success.
pub login_unlocked :
    (env : Env) (auth : Auth) (phone pin access refresh : String) (u : User) (m dt : ℕ) (w : World)
    → Fine w
    → user_of phone w.tables ≡ some u
    → Past w
    → auth.pin_lockout_mins ≡ pos m
    → m * 60 ≤ dt
    → leb_ℤ auth.max_pin_attempts (pos 0) ≡ false
    → leb_ℤ (wrap (auth.max_pin_attempts *ℤ pos 3)) (pos 0) ≡ false
    → env.pin_matches u.pin_hash pin ≡ true
    → auth.sign_access u.id (w.now + dt) ≡ some access
    → auth.sign_refresh u.id (w.now + dt) ≡ some refresh
    → let session : UserSession = record {
      user_id = u.id;
      access_token = access;
      refresh_token = refresh;
      expires_at = w.now + dt + auth.access_ttl;
    } in
      login env auth phone pin (waited dt w) ≡ (ok session, with_success u.id (waited dt w))
unfolding login get_by_phone generate_session ◌>>=◌
login_unlocked env auth phone pin access refresh u m dt w fine found past mins long some_pins
      more_pins right signed renewed =
    rw (query-Fine (user_of phone) (waited dt w) fine) (
      rw
        (
          found,
          check_pin_right env auth pin u m dt w fine
              (any_found (λ x. str_eq x.phone phone) w.tables.users u found) past mins long
              some_pins more_pins right,
        )
        (rw (signed, renewed) refl))
