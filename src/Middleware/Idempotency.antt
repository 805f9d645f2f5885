-- ===== src/Middleware/Idempotency.antt =====
-- internal/middleware/idempotency.go over a store of answers, and the two stores: in memory, which keeps
-- a response for ever, and pkg/idempotency/store.go in Redis, which keeps it for 24 hours.
pub mod Expiry
use Prim.Native.String.{◌++◌ as append, len}
use weave_server.Prelude.{
  String, Bool, true, false, ◌&&◌, Option, none, some, List, [], ◌∷◌, str_eq, ltb, leb,
  if◌then◌else◌,
}
use weave_server.Db.{Result, ok, err, cache_get, cache_set}
use weave_server.Http.{
  Method, get, head, options, post, put, patch, delete, Response, plain_error, respond, Outcome,
  answered, panicked, crashed, Site, Handler,
}

abbrev pub Answers : Type 0
Answers = List (String × Response)

-- namespace+":"+key
abbrev pub store_key : (namespace key : String) → String
store_key namespace key = append namespace (append ":" key)

-- `InMemoryIDKeyStore.Get`
unfoldable pub kept : String → Answers → Option Response
kept key [] = none
kept key ((k, resp) ∷ rest) = if str_eq k key then some resp else kept key rest

-- `InMemoryIDKeyStore.Set`
unfoldable pub keep : String → Response → Answers → Answers
keep key resp answers = (key, resp) ∷ answers

-- `IDKeyStore`: an error of `Get` counts as an answer that is not there, one of `Set` is logged.
pub record Store : Type 0 where
  pub get : String → Site → Option Response
  pub set : String → Response → Site → Site

-- `InMemoryIDKeyStore`
abbrev pub memory_store : Store
memory_store = record {
  get = λ key s. kept key s.answers;
  set = λ key resp s. record s { answers = keep key resp s.answers };
}

-- `json.Marshal` and `json.Unmarshal` on a status and a body; none is a text that cannot be read.
pub record ResponseCodec : Type 0 where
  pub encode : Response → String
  pub decode : String → Option Response

-- `makeKey`
abbrev pub make_key : String → String
make_key key = append "idempotency:" key

abbrev pub read_response : ResponseCodec → Option String → Option Response
read_response codec none = none
read_response codec (some text) = codec.decode text

abbrev found_text : Result (Option String) → Option String
found_text (ok o) = o
found_text (err e) = none

-- `Store.Get`
unfoldable pub redis_get : ResponseCodec → String → Site → Option Response
redis_get codec key s = read_response codec (found_text (cache_get (make_key key) s.world).0)

-- `Store.Set`
unfoldable pub redis_set : ResponseCodec → String → Response → Site → Site
redis_set codec key resp s = record s {
  world = (cache_set (make_key key) (codec.encode resp) 86400 s.world).1;
}

-- `redisIDKeyStore`
abbrev pub redis_store : ResponseCodec → Store
redis_store codec = record { get = redis_get codec; set = redis_set codec }

abbrev pub is_safe : Method → Bool
is_safe get = true
is_safe head = true
is_safe options = true
is_safe post = false
is_safe put = false
is_safe patch = false
is_safe delete = false

-- A response with a status of success is kept.
unfoldable pub remember_answer : Store → String → Outcome × Site → Outcome × Site
remember_answer store key (answered resp, s) =
    if leb 200 resp.code && ltb resp.code 300
    then (answered resp, store.set key resp s)
    else (answered resp, s)
remember_answer store key (panicked, s) = (panicked, s)
remember_answer store key (crashed, s) = (crashed, s)

abbrev pub replay_answer : Response → Outcome
replay_answer resp = answered (record resp { replayed = true })

-- A request with a key: it is answered from the store, if its key is there.
unfoldable pub once : Store → String → Option Response → Handler → Handler
once store key (some resp) next r s = (replay_answer resp, s)
once store key none next r s = remember_answer store key (next r s)

-- `Idempotency`
unfoldable pub idempotency : Store → Handler → Handler
idempotency store next r s =
    let key = store_key r.path r.idempotency_header in
    if is_safe r.method
    then next r s
    else if str_eq r.idempotency_header ""
    then next r s
    else if ltb 255 (len r.idempotency_header)
    then (answered (respond 400 (plain_error "idempotency_key_too_long")), s)
    else once store key (store.get key s) next (record r { idempotency_key = r.idempotency_header })
        s
