-- ===== src/Handler/Logins.antt =====
-- internal/handler/auth.go
use weave_server.Prelude.{String, Option}
use weave_server.Model.{Uuid}
use weave_server.Db.{Error, duplicate_phone, user_not_found, invalid_pin, pin_locked}
use weave_server.Http.{session, status}
use weave_server.Provider.{Env}
use weave_server.Service.AuthService
use weave_server.Service.AuthService.{Auth}
use weave_server.Handler.Response.{Action, respond_json, respond_error, handle, decode, on_user}

pub record RegisterRequest : Type 0 where
  pub phone : String
  pub full_name : String
  pub pin : String

pub record LoginRequest : Type 0 where
  pub phone : String
  pub pin : String

abbrev pub register_error : Error → Action
register_error duplicate_phone = respond_error 409 "phone_already_registered"
register_error _ = respond_error 500 "registration_failed"

-- `Register`
unfoldable pub register : Env → Auth → Option RegisterRequest → Action
register env auth body = decode body "invalid_request_body" (λ req.
    handle (AuthService.register env auth req.phone req.full_name req.pin) register_error
      (λ s. respond_json 201 (session s)))

abbrev pub login_error : Error → Action
login_error user_not_found = respond_error 401 "invalid_credentials"
login_error invalid_pin = respond_error 401 "invalid_credentials"
login_error pin_locked = respond_error 429 "pin_locked"
login_error _ = respond_error 500 "login_failed"

-- `Login`
unfoldable pub login : Env → Auth → Option LoginRequest → Action
login env auth body = decode body "invalid_request_body" (λ req.
    handle (AuthService.login env auth req.phone req.pin) login_error
      (λ s. respond_json 200 (session s)))

abbrev pub verify_error : Error → Action
verify_error invalid_pin = respond_error 401 "invalid_pin"
verify_error pin_locked = respond_error 429 "pin_locked"
verify_error _ = respond_error 500 "verification_failed"

-- `VerifyPIN`: the body is the PIN.
unfoldable pub verify_pin : Env → Auth → Option Uuid → Option String → Action
verify_pin env auth user body = on_user user (λ user_id. decode body "invalid_request_body" (λ pin.
    handle (AuthService.verify_pin env auth user_id pin) verify_error
      (λ _. respond_json 200 (status "verified"))))

-- `RefreshToken`: the body is the token.
unfoldable pub refresh_token : Env → Auth → Option String → Action
refresh_token env auth body = decode body "invalid_request_body" (λ token.
    handle (AuthService.refresh_token env auth token)
      (λ e. respond_error 401 "invalid_refresh_token") (λ s. respond_json 200 (session s)))
