-- ===== src/Db/Migrate/Load/Sorted.antt =====
-- What `loadMigrations` returns: versions that ascend, each with the text of its last file.
use weave_server.Prelude.{
  ◌≡◌, refl, ◌∙◌, ap, ℕ, ◌<◌, ◌==◌, ltb, not, ◌||◌, String, Bool-cases, Option, none, some, List,
  [], ◌∷◌, All, find, inl, inr, arith, if◌then◌else◌, ==_refl,
}
use weave_server.Db.Migrate.{Migration}
use weave_server.Db.Migrate.Load.{
  Entry, ends_with, put, put_read, collect, ordered, sorted, load_migrations,
}

abbrev pub at_version : ℕ → List Migration → Option Migration
at_version v = find (λ m. Migration.version m == v)

abbrev pub Distinct : List Migration → Type 0
Distinct [] = Unit {0}
Distinct (m ∷ ms) = (at_version m.version ms ≡ none) × Distinct ms

-- Each version is less than all that follow.
abbrev pub Ascending : List Migration → Type 0
Ascending [] = Unit {0}
Ascending (m ∷ ms) = All (λ x. m.version < Migration.version x) ms × Ascending ms

at_version-put :
    (v w : ℕ) (up : String) (ms : List Migration)
    → at_version v (put w up ms)
      ≡ (if w == v then some (record { version = w; up = up }) else at_version v ms)
unfolding put
at_version-put v w up [] = refl
at_version-put v w up (m ∷ ms) = ground (arith, at_version-put v w up ms)

put-Distinct : (w : ℕ) (up : String) (ms : List Migration) → Distinct ms → Distinct (put w up ms)
unfolding put
put-Distinct w up [] h = (refl, tt)
put-Distinct w up (m ∷ ms) h =
    ground (arith, put-Distinct w up ms h.1, at_version-put m.version w up ms)

put_read-Distinct :
    (v : Option ℕ) (up : String) (ms : List Migration) → Distinct ms → Distinct (put_read v up ms)
put_read-Distinct none up ms h = h
put_read-Distinct (some v) up ms h = put-Distinct v up ms h

collect-Distinct :
    (version_of : String → Option ℕ) (es : List Entry) (seen : List Migration)
    → Distinct seen
    → Distinct (collect version_of es seen)
unfolding collect
collect-Distinct version_of [] seen h = h
collect-Distinct version_of (e ∷ es) seen h =
    elim (Bool-cases (e.is_dir || not (ends_with e.name ".up.sql"))) [
      | inl other ↦ rw other (collect-Distinct version_of es seen h)
      | inr file ↦ rw file (
          collect-Distinct version_of es (put_read (version_of e.name) e.text seen)
            (put_read-Distinct (version_of e.name) e.text seen h))
    ]

at_version-ordered :
    (v : ℕ) (m : Migration) (xs : List Migration)
    → at_version m.version xs ≡ none
    → at_version v (ordered m xs) ≡ at_version v (m ∷ xs)
unfolding ordered
at_version-ordered v m [] new = refl
at_version-ordered v m (x ∷ xs) new = ground (arith, at_version-ordered v m xs)

at_version-sorted :
    (v : ℕ) (ms : List Migration) → Distinct ms → at_version v (sorted ms) ≡ at_version v ms
unfolding sorted
at_version-sorted v [] h = refl
at_version-sorted v (m ∷ ms) h =
    at_version-ordered v m (sorted ms) (at_version-sorted m.version ms h.1 ∙ h.0)
    ∙ ap (λ o. if m.version == v then some m else o) (at_version-sorted v ms h.1)

All-ordered :
    (k : ℕ) (m : Migration) (xs : List Migration)
    → k < m.version
    → All (λ x. k < Migration.version x) xs
    → All (λ x. k < Migration.version x) (ordered m xs)
unfolding ordered
All-ordered k m [] less h = (less, tt)
All-ordered k m (x ∷ xs) less h = elim (Bool-cases (ltb m.version x.version)) [
  | inl before ↦ rw before (less, h)
  | inr after ↦ rw after (h.0, All-ordered k m xs less h.1)
]

All-le :
    (j k : ℕ) (xs : List Migration)
    → j < k
    → All (λ x. k < Migration.version x) xs
    → All (λ x. j < Migration.version x) xs
All-le j k [] less h = tt
All-le j k (x ∷ xs) less h = (omega (arith, h.0), All-le j k xs less h.1)

ordered-Ascending :
    (m : Migration) (xs : List Migration)
    → at_version m.version xs ≡ none
    → Ascending xs
    → Ascending (ordered m xs)
unfolding ordered
ordered-Ascending m [] new h = (tt, tt)
ordered-Ascending m (x ∷ xs) new h = elim (Bool-cases (ltb m.version x.version)) [
  | inl before ↦ rw before ((ground arith, All-le m.version x.version xs (ground arith) h.0), h)
  | inr after ↦
      rw after
        (All-ordered x.version m xs (ground arith) h.0, ordered-Ascending m xs (ground arith) h.1)
]

sorted-Ascending : (ms : List Migration) → Distinct ms → Ascending (sorted ms)
unfolding sorted
sorted-Ascending [] h = tt
sorted-Ascending (m ∷ ms) h =
    ordered-Ascending m (sorted ms) (at_version-sorted m.version ms h.1 ∙ h.0)
      (sorted-Ascending ms h.1)

-- The text of the last file with a version, on top of what was seen before.
abbrev last_read : ℕ → Option ℕ → String → Option String → Option String
last_read v none up old = old
last_read v (some w) up old = if w == v then some up else old

abbrev pub last_text : (String → Option ℕ) → ℕ → List Entry → Option String → Option String
last_text version_of v [] old = old
last_text version_of v (e ∷ es) old = last_text version_of v es (
    if e.is_dir || not (ends_with e.name ".up.sql")
    then old
    else last_read v (version_of e.name) e.text old)

abbrev pub text_of : Option Migration → Option String
text_of none = none
text_of (some m) = some m.up

text-put_read :
    (v : ℕ) (w : Option ℕ) (up : String) (ms : List Migration)
    → text_of (at_version v (put_read w up ms)) ≡ last_read v w up (text_of (at_version v ms))
text-put_read v none up ms = refl
text-put_read v (some w) up ms = ground (arith, at_version-put v w up ms)

collect_texts :
    (version_of : String → Option ℕ) (v : ℕ) (es : List Entry) (seen : List Migration)
    → text_of (at_version v (collect version_of es seen))
      ≡ last_text version_of v es (text_of (at_version v seen))
unfolding collect
collect_texts version_of v [] seen = refl
collect_texts version_of v (e ∷ es) seen =
    elim (Bool-cases (e.is_dir || not (ends_with e.name ".up.sql"))) [
      | inl other ↦ rw other (collect_texts version_of v es seen)
      | inr file ↦ rw file (
          collect_texts version_of v es (put_read (version_of e.name) e.text seen)
          ∙ ap (last_text version_of v es) (text-put_read v (version_of e.name) e.text seen))
    ]

-- `loadMigrations` returns each version that some file ending in .up.sql names, once, in ascending
-- order, with the text of the last of its files in the order of the folder; and nothing else.
pub load_migrations_lem :
    (version_of : String → Option ℕ) (entries : List Entry)
    → Ascending (load_migrations version_of entries)
      × ((v : ℕ)
          → text_of (at_version v (load_migrations version_of entries))
            ≡ last_text version_of v entries none)
unfolding load_migrations
load_migrations_lem version_of entries =
    let distinct = collect-Distinct version_of entries [] tt in
    (
      sorted-Ascending _ distinct,
      λ v. ap text_of (at_version-sorted v _ distinct) ∙ collect_texts version_of v entries [],
    )

abbrev or_blank : Option String → String
or_blank none = ""
or_blank (some s) = s

-- The text that a list has for a version.
abbrev pub text_in : List Migration → ℕ → String
text_in ms v = or_blank (text_of (at_version v ms))

below_others :
    (x : Migration) (xs ys : List Migration)
    → All (λ m. at_version (Migration.version m) xs ≡ some m) ys
    → All (λ m. x.version < Migration.version m) ys
    → All (λ m. at_version (Migration.version m) (x ∷ xs) ≡ some m) ys
below_others x xs [] found less = tt
below_others x xs (m ∷ ms) found less =
    (ground (arith, found.0), below_others x xs ms found.1 less.1)

Ascending-at_version :
    (ms : List Migration)
    → Ascending ms
    → All (λ m. at_version (Migration.version m) ms ≡ some m) ms
Ascending-at_version [] h = tt
Ascending-at_version (x ∷ xs) h =
    (rw (==_refl x.version) refl, below_others x xs xs (Ascending-at_version xs h.1) h.0)

own_texts :
    (all ms : List Migration)
    → All (λ m. at_version (Migration.version m) all ≡ some m) ms
    → All (λ m. Migration.up m ≡ text_in all (Migration.version m)) ms
own_texts all [] h = tt
own_texts all (m ∷ ms) h = (rw h.0 refl, own_texts all ms h.1)

-- The list has one text for a version.
pub load_migrations_texts :
    (version_of : String → Option ℕ) (entries : List Entry)
    → let ms = load_migrations version_of entries in
      All (λ m. Migration.up m ≡ text_in ms (Migration.version m)) ms
load_migrations_texts version_of entries =
    own_texts _ _ (Ascending-at_version _ (load_migrations_lem version_of entries).0)
