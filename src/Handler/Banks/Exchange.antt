-- ===== src/Handler/Banks/Exchange.antt =====
-- What ExchangeCode saves of Mono's replies.
use weave_server.Prelude.{
  ap, ℕ, Option, ◌≡◌, refl, ◌+◌, ◌++◌, String, true, false, none, some, [], ◌∷◌, find, any, ◌==◌,
  ◌&&◌, str_eq,
}
use weave_server.Model.{Uuid, BankAccount, new_amount}
use weave_server.Db.{World, ok, new_uuid, ◌>>=◌}
use weave_server.Db.Fine.{Fine, statement-Fine}
use weave_server.Http.{Outcome, answered, respond, bank}
use weave_server.Provider.{Env, whole, call_provider}
use weave_server.Provider.Transport.{Reply, got, value_of}
use weave_server.Provider.Mono
use weave_server.Provider.Clients.{Clients, over, synced_account}
use weave_server.Repository.BankAccountRepo.{create, upsert, insert_or_refresh}
use weave_server.Handler.Banks.{exchange_code, linked_account}

-- The row for an account as it is read, and the answer and the world with that row.
abbrev pub row_of : World → Uuid → String → Mono.Envelope Mono.AccountData → BankAccount
row_of w user_id account_id e =
    record (linked_account user_id account_id e.content.bank_code
      (new_amount (whole e.content.balance)) (synced_account e)) {
        id = w.drawn;
        created_at = w.now;
        updated_at = w.now;
      }

abbrev pub saved_as : BankAccount → World → Outcome × World
saved_as ba w = (
  answered (respond 200 (bank ba)),
  record w {
    called = w.called + 1 + 1;
    drawn = w.drawn + 1;
    tables = record w.tables { bank_accounts = w.tables.bank_accounts ++ ba ∷ [] };
  },
)

call_provider-some :
    {A : Type 0} (answer : ℕ → Option A) (w : World) {a : A}
    → answer w.called ≡ some a
    → call_provider answer w ≡ (ok a, record w { called = w.called + 1 })
unfolding call_provider
call_provider-some answer w h = rw (call_provider, h) refl

synced :
    (c : Clients) (id : String) (reply : Reply) (e : Mono.Envelope Mono.AccountData)
    → c.look (Mono.sync_request c.mono id) ≡ some reply
    → c.mono_json.account reply.body ≡ some e
    → value_of synced_account (Mono.sync_account c.mono_json c.look c.mono id)
      ≡ some (synced_account e)
unfolding Mono.sync_account Mono.decoded value_of
synced c id reply e sent read = rw (sent, read) refl

create_new :
    (ba : BankAccount) (w : World)
    → Fine w
    → any (λ u. u.id == ba.user_id) w.tables.users ≡ true
    → find
        (λ r. r.user_id == ba.user_id && str_eq r.account_number ba.account_number)
        w.tables.bank_accounts
      ≡ none
    → create ba w ≡ (
      ok (record ba { id = w.drawn; created_at = w.now; updated_at = w.now }),
      record w {
        drawn = w.drawn + 1;
        tables = record w.tables {
          bank_accounts =
              w.tables.bank_accounts
              ++ record ba { id = w.drawn; created_at = w.now; updated_at = w.now } ∷ [];
        };
      },
    )
unfolding create new_uuid upsert insert_or_refresh ◌>>=◌
create_new ba w fine user new = simp (
  statement-Fine (upsert (record ba { id = w.drawn; created_at = w.now; updated_at = w.now }))
      (record w { drawn = w.drawn + 1 }) fine,
  user,
  new,
)

-- On a connection that works, with Mono configured, for a user who is there and a code that Mono
-- exchanges: whatever the status code of Mono's reply to SyncAccount, the account as its body is read
-- is saved as active and verified, if the user has none with that number yet, and the answer is 200.
pub exchange_code_believes :
    (c : Clients) (env : Env) (user_id : Uuid) (code : String)
    (ex : Mono.Envelope Mono.ExchangeData) (reply : Reply) (e : Mono.Envelope Mono.AccountData)
    (w : World)
    → Fine w
    → env.has_mono ≡ true
    → str_eq code "" ≡ false
    → Mono.exchange_code c.mono_json c.look c.mono code ≡ got ex
    → c.look (Mono.sync_request c.mono ex.content.id) ≡ some reply
    → c.mono_json.account reply.body ≡ some e
    → any (λ u. u.id == user_id) w.tables.users ≡ true
    → find
        (λ r. r.user_id == user_id && str_eq r.account_number e.content.account_number)
        w.tables.bank_accounts
      ≡ none
    → exchange_code (over c env) (some user_id) (some code) w
      ≡ saved_as (row_of w user_id ex.content.id e) w
unfolding exchange_code over value_of
exchange_code_believes c env user_id code ex reply e w fine mono there exchanged sent read user
      new =
    let row =
      linked_account user_id ex.content.id e.content.bank_code
        (new_amount (whole e.content.balance)) (synced_account e) in
    simp (
      mono,
      there,
      call_provider-some (λ _. (over c env).exchange_code code) w
          (ap (value_of (λ x. x.content.id)) exchanged),
      call_provider-some (λ _. (over c env).sync_account ex.content.id)
          (record w { called = w.called + 1 }) (synced c ex.content.id reply e sent read),
      create_new row (record w { called = w.called + 1 + 1 }) fine user new,
    )
