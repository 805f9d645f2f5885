-- ===== src/Repository/UserRepo.antt =====
-- internal/repository/user_repo.go. A window of time is a number of nanoseconds.
use weave_server.Prelude.{
  ℕ, ◌+◌, ◌/◌, String, Bool, false, not, ◌&&◌, Option, none, some, [], ◌∷◌, ◌++◌, find, any, ◌==◌,
  str_eq, if◌then◌else◌, select, length,
}
use weave_server.Prelude.Int.{ℤ, pos, negsuc, sub_ℕ, ◌+ℤ◌, ◌*ℤ◌, ltb_ℤ}
use weave_server.Model.{Uuid, User, CreateUserInput, KycLevel, PinAttempt}
use weave_server.Db.{Tables, M, pure, gets, ◌>>=◌, ◌>>◌, new_uuid, statement, query}
use weave_server.Db.Rows.{update_rows, unchecked}

unfoldable pub insert : User → Tables → Option (Unit {0} × Tables)
insert user t =
    if not (any (λ u. str_eq u.phone user.phone) t.users)
    then some (tt, record t { users = t.users ++ user ∷ [] })
    else none

abbrev pub new_row : CreateUserInput → Uuid → ℕ → User
new_row input id now = record {
  id = id;
  phone = input.phone;
  email = "";
  full_name = input.full_name;
  bvn_hash = "";
  nin_hash = "";
  kyc_level = KycLevel.basic;
  pin_hash = input.pin;
  biometric_enabled = false;
  biometric_public_key = "";
  created_at = now;
  updated_at = now;
}

-- The INSERT returns the row without the PIN's hash.
unfoldable pub create : CreateUserInput → M User
unfolding insert
create input = do
  id ← new_uuid
  now ← gets (λ w. w.now)
  statement (insert (new_row input id now))
  pure (let row = new_row input id now in record row { pin_hash = "" })

-- The SELECTs do not read the hashes of the BVN and the NIN.
abbrev pub selected : Option User → Option User
selected none = none
selected (some u) = some (record u { bvn_hash = ""; nin_hash = "" })

unfoldable pub get_by_id : Uuid → M (Option User)
get_by_id id = query (λ t. selected (find (λ u. u.id == id) t.users))

unfoldable pub get_by_phone : String → M (Option User)
get_by_phone phone = query (λ t. selected (find (λ u. str_eq u.phone phone) t.users))

unfoldable pub update_users : (User → Bool) → (User → User) → Tables → Option (Unit {0} × Tables)
update_users p f t = elim (update_rows p f unchecked t.users) [
  | none ↦ none
  | some us ↦ some (tt, record t { users = us })
]

unfoldable pub update_kyc : Uuid → KycLevel → String → String → M (Unit {0})
update_kyc id level bvn_hash nin_hash = do
  now ← gets (λ w. w.now)
  statement (
      update_users (λ u. u.id == id)
        (λ u. record u {
          kyc_level = level;
          bvn_hash = bvn_hash;
          nin_hash = nin_hash;
          updated_at = now;
        }))

unfoldable pub insert_attempt : PinAttempt → Tables → Option (Unit {0} × Tables)
insert_attempt a t =
    if any (λ u. u.id == a.user_id) t.users
    then some (tt, record t { pin_attempts = t.pin_attempts ++ a ∷ [] })
    else none

-- An address of "" is stored as NULL.
unfoldable pub record_pin_attempt : Uuid → Bool → String → M (Unit {0})
unfolding insert_attempt
record_pin_attempt user_id success ip = do
  now ← gets (λ w. w.now)
  statement (
      insert_attempt
        (record { user_id = user_id; success = success; ip_address = ip; created_at = now }))

-- `int(within.Minutes())`, of nanoseconds: rounded toward zero. The rounding of the float64 is left out.
unfoldable pub whole_minutes : ℤ → ℤ
whole_minutes (pos n) = pos (n / 60000000000)
whole_minutes (negsuc n) = sub_ℕ 0 ((n + 1) / 60000000000)

-- created_at > NOW() - within, of minutes
abbrev pub is_recent : ℕ → ℤ → PinAttempt → Bool
is_recent now within a = ltb_ℤ (pos now) (pos a.created_at +ℤ within *ℤ pos 60)

unfoldable pub recent_failed_pin_attempts : Uuid → ℤ → M ℕ
recent_failed_pin_attempts user_id within = do
  now ← gets (λ w. w.now)
  query (λ t. length (
      select (λ a. a.user_id == user_id && not a.success && is_recent now (whole_minutes within) a)
        t.pin_attempts))

unfoldable pub recent_failed_pin_attempts_by_ip : String → ℤ → M ℕ
recent_failed_pin_attempts_by_ip ip within = if str_eq ip "" then pure 0 else do
  now ← gets (λ w. w.now)
  query (λ t. length (
      select
        (λ a. str_eq a.ip_address ip && not a.success && is_recent now (whole_minutes within) a)
        t.pin_attempts))

unfoldable pub update_pin : Uuid → String → M (Unit {0})
update_pin id pin_hash = do
  now ← gets (λ w. w.now)
  statement
      (update_users (λ u. u.id == id) (λ u. record u { pin_hash = pin_hash; updated_at = now }))
