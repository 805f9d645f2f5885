-- ===== src/Tests/Links.antt =====
-- The theorems on the links of bank accounts, at the example's user.
use weave_server.Prelude.{◌≡◌, refl, some, none, [], find, ◌==◌, arith}
use weave_server.Http.{answered, respond, link, status}
use weave_server.Provider.{ConnectUrl}
use weave_server.Handler.Banks.Links.{initiate_link, complete_link, save_links, link_ref}
use weave_server.Db.Redis.{after}
use weave_server.Handler.Banks.Links.Ref.{linked, link_round_trip}
use weave_server.Handler.Banks.{unlink_bank}
use weave_server.Handler.Banks.Owner.{unlink_bank_any}
use weave_server.Db.{World}
use weave_server.Tests.{env, world, tables, user}

abbrev page : ConnectUrl
page = record { mono_url = "https://link"; customer = "cust" }

link_round_trip_example :
    (initiate_link env (some 1) (some "mono") world ≡ (
      answered (respond 200 (link "https://link" (link_ref env 1 100000))),
      linked env 1 page world,
    ))
    × (complete_link env
          (some 2)
          (some (link_ref env 1 100000))
          (after 60 (linked env 1 page world))
        ≡ save_links env 2 (link_ref env 1 100000) "cust" (after 60 (linked env 1 page world)))
link_round_trip_example =
    link_round_trip env 1 2 user page 60 world (refl, refl) refl refl refl refl refl (omega arith)

-- No request refers to the bank, which is the first user's.
abbrev unused : World
unused = record world { tables = record tables { bank_fund_requests = [] } }

unlink_bank_any_example :
    ((unlink_bank env (some 2) "20" unused).0 ≡ answered (respond 200 (status "deleted")))
    × (find (λ a. a.id == 20) (unlink_bank env (some 2) "20" unused).1.tables.bank_accounts ≡ none)
unlink_bank_any_example = unlink_bank_any env 2 20 "20" unused (refl, refl) refl refl
