-- ===== src/Handler/Banks/Links.antt =====
-- internal/handler/bank.go: `InitiateLink` and `CompleteLink`, which link a bank by way of Mono's page.
-- What Mono calls the customer is kept in Redis between the two.
pub mod Ref
use Prim.Native.String.{◌++◌ as append}
use weave_server.Prelude.{
  ℕ, String, Bool, not, Option, none, some, List, [], ◌∷◌, str_eq, if◌then◌else◌,
}
use weave_server.Model.{Uuid, User, BankAccount}
use weave_server.Db.{
  M, Result, ok, err, pure, attempt, ◌>>=◌, ◌>>◌, cache_get, cache_set, cache_del,
}
use weave_server.Http.{link, banks, panicked}
use weave_server.Provider.{Env, ConnectUrl, MonoAccount, call_provider, whole}
use weave_server.Repository.BankAccountRepo
use weave_server.Repository.UserRepo
use weave_server.Service.WalletService.{email_of}
use weave_server.Handler.Response.{
  Action, respond_json, respond_error, handle, decode, present, on_user, refuse_if,
}
use weave_server.Handler.Banks.{linked_account}

abbrev pub link_ref : Env → Uuid → ℕ → String
link_ref env user_id now = append (env.uuid_string user_id) (append "-" (env.unix_milli now))

abbrev pub ref_key : String → String
ref_key ref = append "mono:ref:" ref

-- Mono's page, and the customer, kept for 30 minutes.
unfoldable pub connect : Env → String → User → M ConnectUrl
connect env ref user = do
  result ← call_provider (λ n. env.generate_connect_url n ref user.full_name (email_of user))
  (if env.has_redis then cache_set (ref_key ref) result.customer 1800 else pure tt)
  pure result

unfoldable pub link_by_mono : Env → Uuid → User → Action
link_by_mono env user_id user w =
    let ref = link_ref env user_id w.now in
    handle (connect env ref user) (λ e. respond_error 500 "connect_failed")
      (λ result. respond_json 200 (link result.mono_url ref)) w

-- `InitiateLink`: the body is the provider.
unfoldable pub initiate_link : Env → Option Uuid → Option String → Action
initiate_link env user body = on_user user (λ user_id.
    decode body "invalid_request_body" (λ provider.
      handle (UserRepo.get_by_id user_id) (λ e. respond_error 404 "user_not_found")
        (λ found. present found (respond_error 404 "user_not_found") (λ u.
          refuse_if (not (str_eq provider "mono")) 400 "invalid_provider" (
            refuse_if (not env.has_mono) 503 "mono_not_configured" (link_by_mono env user_id u))))))

-- An account that cannot be saved is left out.
abbrev pub with_saved : Result BankAccount → List BankAccount → List BankAccount
with_saved (ok ba) saved = ba ∷ saved
with_saved (err e) saved = saved

unfoldable pub save_accounts : Uuid → String → List MonoAccount → M (List BankAccount)
save_accounts user_id customer [] = pure []
save_accounts user_id customer (acc ∷ accs) = do
  made ←
      attempt (BankAccountRepo.create (linked_account user_id customer "" (whole acc.balance) acc))
  saved ← save_accounts user_id customer accs
  pure (with_saved made saved)

abbrev pub answer_saved : List BankAccount → Action
answer_saved [] = respond_error 500 "save_failed"
answer_saved (ba ∷ saved) = respond_json 200 (banks (ba ∷ saved))

-- The accounts are saved, and the reference is used up.
unfoldable pub save_and_forget : Uuid → String → String → List MonoAccount → M (List BankAccount)
save_and_forget user_id ref customer accounts = do
  saved ← save_accounts user_id customer accounts
  cache_del (ref_key ref)
  pure saved

abbrev pub is_empty : List MonoAccount → Bool
is_empty [] = Bool.true
is_empty (acc ∷ accs) = Bool.false

-- `CompleteLink` from the customer on.
unfoldable pub save_links : Env → Uuid → (ref customer : String) → Action
save_links env user_id ref customer = refuse_if (str_eq customer "") 400 "invalid_session" (
    handle (call_provider (λ _. env.customer_accounts customer))
      (λ e. respond_error 502 "fetch_accounts_failed")
      (λ accounts. refuse_if (is_empty accounts) 404 "no_accounts_found" (
        handle (save_and_forget user_id ref customer accounts)
          (λ e. respond_error 500 "save_failed") (λ saved. answer_saved saved))))

-- `CompleteLink`: the body is the reference. The client of Redis is not tested for nil.
unfoldable pub complete_link : Env → Option Uuid → Option String → Action
complete_link env user body = on_user user (λ user_id. decode body "ref_required" (λ ref.
    refuse_if (str_eq ref "") 400 "ref_required" (
      refuse_if (not env.has_mono) 503 "mono_not_configured" (
        if env.has_redis
        then handle (cache_get (ref_key ref)) (λ e. respond_error 400 "ref_expired_or_invalid")
            (λ found.
              present found (respond_error 400 "ref_expired_or_invalid")
                (λ customer. save_links env user_id ref customer))
        else λ w. (panicked, w)))))
