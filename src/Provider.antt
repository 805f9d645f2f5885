-- ===== src/Provider.antt =====
-- What the services take from outside the repository: the answers of Paystack and Mono, the text
-- form of UUIDs, hashes and tokens. Each is a field that the theorems leave open.
pub mod Transport
pub mod Paystack
pub mod Mono
pub mod Clients
pub mod Llm
pub mod Answered
use Prim.Native.String.{slice}
use weave_server.Prelude.{
  ℕ, suc, ◌/◌, ◌-◌, ◌==◌, String, Bool, Option, none, some, ◌+◌, List, ◌∷◌, if◌then◌else◌,
}
use weave_server.Prelude.Int.{ℤ, pos, negsuc}
use weave_server.Model.{Uuid, Amount, Transaction}
use weave_server.Db.{M, direct_debit_failed, ok, err, payout, direct_debit, provider_failed}

-- internal/provider/mono/client.go
pub record PaymentInitiateRequest : Type 0 where
  pub amount : Amount
  pub description : String
  pub reference : String
  pub customer_name : String
  pub customer_email : String

pub record PaymentInitiated : Type 0 where
  pub id : String
  pub mono_url : String

-- internal/provider/paystack/client.go
pub record PayoutRequest : Type 0 where
  pub amount : Amount
  pub recipient : String
  pub reference : String

-- A float64, in millionths.
abbrev pub Decimal : Type 0
Decimal = ℤ

-- `int64(x)`: the fraction is cut off.
unfoldable pub whole : Decimal → ℤ
whole (pos n) = pos (n / 1000000)
whole (negsuc n) = let q = suc n / 1000000 in if q == 0 then pos 0 else negsuc (q - 1)

pub record CreateCustomerRequest : Type 0 where
  pub email : String
  pub phone : String
  pub first_name : String
  pub last_name : String

-- The dedicated virtual account that Paystack assigns.
pub record AssignedAccount : Type 0 where
  pub account_number : String
  pub account_name : String
  pub bank_name : String

pub record ConnectUrl : Type 0 where
  pub mono_url : String
  pub customer : String

-- An account as Mono lists it, or describes it by itself.
pub record MonoAccount : Type 0 where
  pub account_number : String
  pub account_name : String
  pub bank_code : String
  pub bank_name : String
  pub balance : Decimal

pub record Env : Type 0 where
  -- is the client there, or nil?
  pub has_mono : Bool
  pub has_paystack : Bool
  pub has_pool : Bool
  pub has_audit : Bool
  -- the answer to the n-th call of a provider: none is an error
  pub payment_initiate : ℕ → PaymentInitiateRequest → Option PaymentInitiated
  pub mono_balance : String → Option Decimal
  pub create_recipient : ℕ → (account bank name : String) → Option String
  pub initiate_transfer : ℕ → PayoutRequest → Option String
  -- the hash of a text in hexadecimal digits
  pub sha256_hex : String → String
  -- the text of a UUID, and its reading
  pub uuid_string : Uuid → String
  pub uuid_parse : String → Option Uuid
  -- `bcrypt.CompareHashAndPassword` and `GenerateFromPassword`
  pub pin_matches : (hash pin : String) → Bool
  pub hash_pin : String → Option String
  pub has_redis : Bool
  pub paystack_bank : String
  -- is the signature that of the body?
  pub mono_verify : (signature body : String) → Bool
  pub paystack_verify : (signature body : String) → Bool
  -- the customer's code
  pub create_customer : ℕ → CreateCustomerRequest → Option String
  pub assign_dva : ℕ → (customer bank : String) → Option AssignedAccount
  pub generate_connect_url : ℕ → (ref name email : String) → Option ConnectUrl
  pub customer_accounts : String → Option (List MonoAccount)
  pub exchange_code : String → Option String
  pub sync_account : String → Option MonoAccount
  -- `strings.Fields`, `strconv.Atoi`, and `time.Parse` for RFC 3339
  pub fields_of : String → List String
  pub atoi : String → Option ℤ
  pub parse_time : String → Option ℕ
  -- how PostgreSQL orders two transactions of the same time, under a LIMIT and an OFFSET
  pub ties : (limit offset : ℤ) → Transaction → Transaction → Bool
  -- the text of a time in milliseconds
  pub unix_milli : ℕ → String

-- `uuid.New().String()[:8]`
unfoldable pub short_id : Env → Uuid → String
short_id env id = slice (env.uuid_string id) 0 8

-- `monoClient.PaymentInitiate`
unfoldable pub call_mono : Env → PaymentInitiateRequest → M PaymentInitiated
call_mono env req w = elim (env.payment_initiate w.called req) [
  | none ↦ (err direct_debit_failed, record w { called = w.called + 1 })
  | some paid ↦ (
    ok paid,
    record w { called = w.called + 1; effects = direct_debit req.reference req.amount ∷ w.effects },
  )
]

-- `paystack.CreateTransferRecipient`: the recipient's code.
unfoldable pub call_create_recipient : Env → (account bank name : String) → M String
call_create_recipient env account bank name w =
    elim (env.create_recipient w.called account bank name) [
      | none ↦ (err provider_failed, record w { called = w.called + 1 })
      | some recipient ↦ (ok recipient, record w { called = w.called + 1 })
    ]

-- `paystack.InitiateTransfer`: Paystack's reference.
unfoldable pub call_transfer : Env → PayoutRequest → M String
call_transfer env req w = elim (env.initiate_transfer w.called req) [
  | none ↦ (err provider_failed, record w { called = w.called + 1 })
  | some provider_ref ↦ (
    ok provider_ref,
    record w { called = w.called + 1; effects = payout req.reference req.amount ∷ w.effects },
  )
]

-- A request whose failure the caller looks at.
abbrev pub try_provider : {A : Type 0} → (ℕ → Option A) → M (Option A)
try_provider answer w = (ok (answer w.called), record w { called = w.called + 1 })

-- A call that answers or fails, by how many calls came before.
unfoldable pub call_provider : {A : Type 0} → (ℕ → Option A) → M A
call_provider answer w = elim (answer w.called) [
  | none ↦ (err provider_failed, record w { called = w.called + 1 })
  | some a ↦ (ok a, record w { called = w.called + 1 })
]
