-- ===== src/Model/Wallets.antt =====
-- internal/model/wallet.go: `Amount` is an int64 number of kobo, and its methods wrap around.
use weave_server.Prelude.{ℕ, ◌≡◌, refl, Bool, String}
use weave_server.Prelude.Int.{ℤ, pos, ◌+ℤ◌, ◌-ℤ◌, ◌*ℤ◌, ltb_ℤ, leb_ℤ, eqb_ℤ}
use weave_server.Prelude.Word.{wrap, wrap_id, IsInt64}

abbrev pub Amount : Type 0
Amount = ℤ

abbrev pub Uuid : Type 0
Uuid = ℕ

unfoldable pub new_amount : ℤ → Amount
new_amount ngn = wrap (ngn *ℤ pos 100)

abbrev pub is_zero : Amount → Bool
is_zero a = eqb_ℤ a (pos 0)

abbrev pub is_negative : Amount → Bool
is_negative a = ltb_ℤ a (pos 0)

unfoldable pub add : Amount → Amount → Amount
add a b = wrap (a +ℤ b)

unfoldable pub sub : Amount → Amount → Amount
sub a b = wrap (a -ℤ b)

-- A sum of amounts wraps around.
pub add-wrap : (a b : Amount) → add a b ≡ wrap (a +ℤ b)
unfolding add
add-wrap a b = refl

pub add_exact : (a b : Amount) → IsInt64 (a +ℤ b) → add a b ≡ a +ℤ b
unfolding add
add_exact a b h = wrap_id (a +ℤ b) h

pub sub_exact : (a b : Amount) → IsInt64 (a -ℤ b) → sub a b ≡ a -ℤ b
unfolding sub
sub_exact a b h = wrap_id (a -ℤ b) h

unfoldable pub mul : Amount → ℤ → Amount
mul a n = wrap (a *ℤ n)

abbrev pub can_cover : Amount → Amount → Bool
can_cover a b = leb_ℤ b a

pub data WalletType : Type 0 where
  user settlement fee : WalletType

pub record Wallet : Type 0 where
  pub id : Uuid
  pub user_id : Uuid
  pub wallet_type : WalletType
  pub balance : Amount
  -- the balance less the holds
  pub ledger_balance : Amount
  pub currency : String
  pub created_at : ℕ
  pub updated_at : ℕ

pub record WalletAccount : Type 0 where
  pub id : Uuid
  pub user_id : Uuid
  pub provider : String
  pub provider_ref : String
  pub account_number : String
  pub account_name : String
  pub bank_name : String
  pub bank_code : String
  pub is_active : Bool
  pub is_default : Bool
  pub created_at : ℕ
  pub updated_at : ℕ

pub record WalletTransaction : Type 0 where
  pub id : Uuid
  pub wallet_id : Uuid
  pub txn_type : String
  pub amount : Amount
  pub reference : String
  pub description : String
  pub status : String
  pub created_at : ℕ

pub record WalletDeposit : Type 0 where
  pub id : Uuid
  pub wallet_account_id : Uuid
  pub user_id : Uuid
  pub amount : Amount
  pub fee : Amount
  pub provider : String
  pub provider_ref : String
  pub sender_account : String
  pub sender_bank : String
  pub status : String
  pub reconciled : Bool
  pub created_at : ℕ
