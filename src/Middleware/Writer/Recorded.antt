-- ===== src/Middleware/Writer/Recorded.antt =====
-- What is kept of an answer against what has gone out.
use Prim.Native.String.{◌++◌ as append}
use text.Mathlib.TextLemmas.{nil-append}
use weave_server.Prelude.{
  ◌≡◌, refl, sym, ◌∙◌, ap, ℕ, String, ◌&&◌, Option, none, some, List, [], ◌∷◌, leb, ltb, Bool-cases,
  inl, inr,
}
use weave_server.Middleware.Writer.{
  Headers, Writer, set, write_header, write_body, Op, set_op, status_op, write_op, run, Recorder,
  note, notes, first_time, replay_ops,
}

-- No status is written.
abbrev Silent : List Op → Type 0
Silent [] = Unit {0}
Silent (set_op name value ∷ ops) = Silent ops
Silent (status_op code ∷ ops) = ⊥
Silent (write_op text ∷ ops) = Silent ops

-- At most one status is written, and before any part of the body, as all handlers do.
abbrev pub Orderly : List Op → Type 0
Orderly [] = Unit {0}
Orderly (set_op name value ∷ ops) = Orderly ops
Orderly (status_op code ∷ ops) = Silent ops
Orderly (write_op text ∷ ops) = Silent ops

-- The status that the client gets: net/http sends 200 at the end, if none was written.
abbrev code_in : Option (ℕ × Headers) → ℕ
code_in none = 200
code_in (some sent) = sent.0

abbrev pub final_code : Writer → ℕ
final_code w = code_in w.sent

-- The headers that the client gets.
abbrev pub headers_in : Headers → Option (ℕ × Headers) → Headers
headers_in hs none = hs
headers_in hs (some sent) = sent.1

abbrev pub final_headers : Writer → Headers
final_headers w = headers_in w.headers w.sent

run_body :
    (ops : List Op) (w : Writer) (r : Recorder)
    → w.body ≡ r.body
    → (run ops w).body ≡ (notes ops r).body
run_body [] w r h = h
run_body (set_op name value ∷ ops) w r h = run_body ops (set name value w) r h
run_body (status_op code ∷ ops) w r h =
    run_body ops (write_header code w) (note (status_op code) r) h
run_body (write_op text ∷ ops) w r h =
    run_body ops (write_body text w) (note (write_op text) r) (ap (λ b. append b text) h)

-- What is sent stays sent.
pub run_sent :
    (ops : List Op) (w : Writer) {x : ℕ × Headers} → w.sent ≡ some x → (run ops w).sent ≡ some x
run_sent [] w h = h
run_sent (set_op name value ∷ ops) w h = run_sent ops (set name value w) h
run_sent (status_op code ∷ ops) w h = run_sent ops (write_header code w) (rw h refl)
run_sent (write_op text ∷ ops) w h = run_sent ops (write_body text w) (rw h refl)

notes-Silent : (ops : List Op) (r : Recorder) → Silent ops → (notes ops r).status ≡ r.status
notes-Silent [] r h = refl
notes-Silent (set_op name value ∷ ops) r h = notes-Silent ops r h
notes-Silent (status_op code ∷ ops) r h = absurd h
notes-Silent (write_op text ∷ ops) r h = notes-Silent ops (note (write_op text) r) h

run_code :
    (ops : List Op) (w : Writer) (r : Recorder)
    → Orderly ops
    → w.sent ≡ none
    → r.status ≡ 200
    → final_code (run ops w) ≡ (notes ops r).status
run_code [] w r h unsent ok = rw (unsent, ok) refl
run_code (set_op name value ∷ ops) w r h unsent ok = run_code ops (set name value w) r h unsent ok
run_code (status_op code ∷ ops) w r h unsent ok =
    ap code_in (run_sent ops (write_header code w) {x = (code, w.headers)} (rw unsent refl))
    ∙ sym (notes-Silent ops (note (status_op code) r) h)
run_code (write_op text ∷ ops) w r h unsent ok =
    ap code_in (run_sent ops (write_body text w) {x = (200, w.headers)} (rw unsent refl))
    ∙ sym (notes-Silent ops (note (write_op text) r) h ∙ ok)

-- A writer to which nothing has been sent.
abbrev pub IsNew : Writer → Type 0
IsNew w = (w.sent ≡ none) × (w.body ≡ "")

abbrev fresh : Recorder
fresh = record { status = 200; body = "" }

-- The header with the key does not touch what has gone out.
first_time_sent :
    (key : String) (ops : List Op) (w : Writer)
    → ((first_time key ops w).1.sent ≡ (run ops w).sent)
      × ((first_time key ops w).1.body ≡ (run ops w).body)
unfolding first_time
first_time_sent key ops w =
    elim (Bool-cases (leb 200 (notes ops fresh).status && ltb (notes ops fresh).status 300)) [
      | inl good ↦ rw good (refl, refl)
      | inr bad ↦ rw bad (refl, refl)
    ]

first_time_kept :
    (key : String) (ops : List Op) (w : Writer) (kept : Recorder)
    → (first_time key ops w).0 ≡ some kept
    → notes ops fresh ≡ kept
unfolding first_time
first_time_kept key ops w kept h =
    elim (Bool-cases (leb 200 (notes ops fresh).status && ltb (notes ops fresh).status 300)) [
      | inl good ↦ let same : some (notes ops fresh) ≡ some kept = rw good at h in cc
      | inr bad ↦ let none_kept : none ≡ some kept = rw bad at h in cc
    ]

replay_ops_lem :
    (kept : Recorder) (w : Writer)
    → IsNew w
    → (final_code (run (replay_ops kept) w) ≡ kept.status)
      × ((run (replay_ops kept) w).body ≡ kept.body)
      × (final_headers (run (replay_ops kept) w) ≡ ("Idempotency-Replayed", "true") ∷ w.headers)
unfolding replay_ops
replay_ops_lem kept w new = rw (new.0, new.1) (refl, nil-append kept.body, refl)

-- A handler that writes at most one status, before its body, answers a request with a new key: the
-- status and the body that are kept, if any are, are those that the client gets, and where it has
-- written something, no header that is set after it goes out, the one with the key included. From then on
-- the client is answered with the same status and body, and of the headers of the first answer only those
-- that were set before `Idempotency`: the handler's Content-Type is gone.
pub replay_ops-first_time :
    (key : String) (ops : List Op) (w w' : Writer) (kept : Recorder) (x : ℕ × Headers)
    → Orderly ops
    → IsNew w
    → IsNew w'
    → (first_time key ops w).0 ≡ some kept
    → (run ops w).sent ≡ some x
    → ((first_time key ops w).1.sent ≡ some x)
      × (kept.status ≡ x.0)
      × (kept.body ≡ (first_time key ops w).1.body)
      × (final_code (run (replay_ops kept) w') ≡ kept.status)
      × ((run (replay_ops kept) w').body ≡ kept.body)
      × (final_headers (run (replay_ops kept) w') ≡ ("Idempotency-Replayed", "true") ∷ w'.headers)
replay_ops-first_time key ops w w' kept x orderly new new' keeps sent =
    let seen = first_time_kept key ops w kept keeps in
    let out = first_time_sent key ops w in
    let again = replay_ops_lem kept w' new' in
    (
      out.0 ∙ sent,
      sym (ap Recorder.status seen)
          ∙ sym (run_code ops w fresh orderly new.0 refl)
          ∙ ap code_in sent,
      sym (ap Recorder.body seen) ∙ sym (run_body ops w fresh new.1) ∙ sym out.1,
      again.0,
      again.1,
      again.2,
    )
