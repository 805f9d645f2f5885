-- ===== src/Handler/Banks/Links/Ref.antt =====
-- The reference between `InitiateLink` and `CompleteLink`.
use weave_server.Provider.Answered.{call_provider_answered}
use weave_server.Db.Redis.{after, cache_set-get, cache_del-get}
use weave_server.Prelude.{
  ◌==◌, ◌≡◌, refl, String, ℕ, ◌+◌, ◌<◌, true, false, some, List, [], ◌∷◌, find, str_eq,
}
use weave_server.Model.{Uuid, User, BankAccount}
use weave_server.Db.{World, ok, cache_set, cache_del, ◌>>=◌}
use weave_server.Db.Fine.{Fine, query-Fine}
use weave_server.Http.{answered, respond, error, link}
use weave_server.Provider.{Env, ConnectUrl, MonoAccount, whole}
use weave_server.Repository.UserRepo.{get_by_id, selected}
use weave_server.Service.WalletService.{email_of}
use weave_server.Handler.Banks.Links.{
  connect, link_by_mono, initiate_link, complete_link, save_links, link_ref, ref_key,
  save_and_forget, save_accounts, with_saved,
}
use weave_server.Repository.BankAccountRepo
use weave_server.Handler.Banks.{linked_account}

-- The world once the reference has been made.
abbrev pub linked : Env → Uuid → ConnectUrl → World → World
linked env user_id url w =
    (cache_set (ref_key (link_ref env user_id w.now)) url.customer 1800
      (record w { called = w.called + 1 })).1

connect_lem :
    (env : Env) (ref : String) (u : User) (url : ConnectUrl) (w : World)
    → env.has_redis ≡ true
    → env.generate_connect_url w.called ref u.full_name (email_of u) ≡ some url
    → connect env ref u w
      ≡ (ok url, (cache_set (ref_key ref) url.customer 1800 (record w { called = w.called + 1 })).1)
unfolding connect cache_set ◌>>=◌
connect_lem env ref u url w redis page = simp (
  call_provider_answered (λ n. env.generate_connect_url n ref u.full_name (email_of u)) w url page,
  redis,
)

-- On a connection that works, with Redis and Mono configured, where Mono gives the user a page: InitiateLink answers
-- with the page and a reference; and within 30 minutes of it CompleteLink with that reference, by whatever user,
-- goes on with the customer that Mono named.
pub link_round_trip :
    (env : Env) (user_id other : Uuid) (u : User) (url : ConnectUrl) (time : ℕ) (w : World)
    → Fine w
    → env.has_mono ≡ true
    → env.has_redis ≡ true
    → selected (find (λ x. x.id == user_id) w.tables.users) ≡ some u
    → env.generate_connect_url w.called (link_ref env user_id w.now) u.full_name (email_of u)
      ≡ some url
    → str_eq (link_ref env user_id w.now) "" ≡ false
    → time < 1800
    → (initiate_link env (some user_id) (some "mono") w ≡ (
      answered (respond 200 (link url.mono_url (link_ref env user_id w.now))),
      linked env user_id url w,
    ))
      × (complete_link env
            (some other)
            (some (link_ref env user_id w.now))
            (after time (linked env user_id url w))
          ≡ save_links env other
              (link_ref env user_id w.now)
              url.customer
              (after time (linked env user_id url w)))
unfolding initiate_link complete_link link_by_mono get_by_id
link_round_trip env user_id other u url time w fine mono redis found page there soon = (
  simp (
    query-Fine (λ t. selected (find (λ x. x.id == user_id) t.users)) w fine,
    found,
    mono,
    connect_lem env (link_ref env user_id w.now) u url w redis page,
  ),
  simp (
    there,
    mono,
    redis,
    cache_set-get (ref_key (link_ref env user_id w.now)) url.customer 1800 time
        (record w { called = w.called + 1 }) soon,
  ),
)

-- However many accounts cannot be saved, the loop ends well.
save_accounts_ok :
    (user_id : Uuid) (customer : String) (accs : List MonoAccount) (w : World)
    → (saved : List BankAccount) × (w' : World) × (save_accounts user_id customer accs w
        ≡ (ok saved, w'))
unfolding save_accounts ◌>>=◌
save_accounts_ok user_id customer [] w = ([], w, refl)
save_accounts_ok user_id customer (acc ∷ accs) w =
    let (made, v) =
      BankAccountRepo.create (linked_account user_id customer "" (whole acc.balance) acc) w in
    let (saved, w', e) = save_accounts_ok user_id customer accs v in
    (with_saved made saved, w', rw e refl)

save_and_forget_lem :
    (user_id : Uuid) (ref customer : String) (accs : List MonoAccount) (w : World)
    → (saved : List BankAccount) × (v : World) × (save_and_forget user_id ref customer accs w
        ≡ (ok saved, (cache_del (ref_key ref) v).1))
unfolding save_and_forget cache_del ◌>>=◌
save_and_forget_lem user_id ref customer accs w =
    let (saved, v, e) = save_accounts_ok user_id customer accs w in (saved, v, rw e refl)

-- A reference is good for once: after CompleteLink has saved the accounts of its customer, however
-- many of them could be saved, the same reference is refused, to whatever user, and nothing changes.
pub link_once :
    (env : Env) (user_id other : Uuid) (ref customer : String) (accounts : List MonoAccount)
    (w : World)
    → env.has_mono ≡ true
    → env.has_redis ≡ true
    → str_eq ref "" ≡ false
    → let w' = (save_and_forget user_id ref customer accounts w).1 in
      complete_link env (some other) (some ref) w'
      ≡ (answered (respond 400 (error "ref_expired_or_invalid")), w')
unfolding complete_link
link_once env user_id other ref customer accounts w mono redis there =
    let (saved, v, e) = save_and_forget_lem user_id ref customer accounts w in
    rw (e, there, mono, redis, cache_del-get (ref_key ref) v) refl
