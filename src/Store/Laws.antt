-- ===== src/Store/Laws.antt =====
-- Inversion of a transaction that succeeds, step by step.
use first_brief.Prelude.Tables.{lookup}
use first_brief.Prelude.{Bool, true, false, some, find, ◌≡◌, refl, arith, Option, ℕ}
use first_brief.Errors.{Error, Result, ok, err}
use first_brief.Messaging.Model.{Message, MessageVersion, MessageRow}
use first_brief.Store.{
  Db, Tx, ◌>>=◌, ◌>>◌, current_version, is_version, guard, refuse, or_raise, get_message,
}

module _ {A B : Type 0} where
  pub bind-ok :
      (m : Tx A) (f : A → Tx B) (db : Db) {x : B × Db}
      → (m >>= f) db ≡ ok x
      → (a : A) × (db' : Db) × (m db ≡ ok (a, db')) × (f a db' ≡ ok x)
  bind-ok m f db {x} done = go (m db) refl done
    where
      go :
          (r : Result (A × Db))
          → m db ≡ r
          → elim r [ ok (a, db') ↦ f a db' | err e ↦ err e ] ≡ ok x
          → (a : A) × (db' : Db) × (m db ≡ ok (a, db')) × (f a db' ≡ ok x)
      go (ok (a, db')) e h = (a, db', e, h)
      go (err e') e h = cc

  pub then-ok :
      (m : Tx A) (k : Tx B) (db : Db) {x : B × Db}
      → (m >> k) db ≡ ok x
      → (a : A) × (db' : Db) × (m db ≡ ok (a, db')) × (k db' ≡ ok x)
  then-ok m k db done = bind-ok m (λ _. k) db done

module _ {B : Type 0} where
  pub bind-current_version :
      (message : Message) (f : MessageVersion → Tx B) (db : Db) {x : B × Db}
      → (current_version message >>= f) db ≡ ok x
      → (v : MessageVersion) × (find
            (is_version message.pk message.current_version_number)
            db.versions
          ≡ some v)
        × (f v db ≡ ok x)
  unfolding current_version
  bind-current_version message f db done = ground arith

  pub refuse-ok :
      (b : Bool) (e : Error) (k : Tx B) (db : Db) {x : B × Db}
      → (refuse b e >> k) db ≡ ok x
      → (b ≡ false) × (k db ≡ ok x)
  refuse-ok b e k db done = ground arith

  pub guard-ok :
      (b : Bool) (e : Error) (k : Tx B) (db : Db) {x : B × Db}
      → (guard b e >> k) db ≡ ok x
      → (b ≡ true) × (k db ≡ ok x)
  guard-ok b e k db done = ground arith

pub refuse_same :
    (b : Bool) (e : Error) {db db' : Db} {u : Unit {0}} → refuse b e db ≡ ok (u, db') → db' ≡ db
refuse_same b e done = ground arith

pub or_raise-ok :
    {A : Type 0} (e : Error) (o : Option A) {db db' : Db} {a : A}
    → or_raise e o db ≡ ok (a, db')
    → (db' ≡ db) × (o ≡ some a)
or_raise-ok e o done = ground arith

pub current_same :
    (message : Message) (db : Db) {db' : Db} {v : MessageVersion}
    → current_version message db ≡ ok (v, db')
    → db' ≡ db
unfolding current_version
current_same message db done = ground arith

pub get_same :
    (pk : ℕ) (db : Db) {db' : Db} {m : Message} → get_message pk db ≡ ok (m, db') → db' ≡ db
unfolding get_message
get_same pk db done = ground arith

pub current-ok :
    (pk : ℕ) (message : Message) (db : Db) (v : MessageVersion) {db' : Db}
    → message.pk ≡ pk
    → current_version message db ≡ ok (v, db')
    → find (is_version pk message.current_version_number) db.versions ≡ some v
unfolding current_version
current-ok pk message db v same done = rw (← same) (ground arith)

pub refuse-passed :
    (b : Bool) (e : Error) (db : Db) {db' : Db} {u : Unit {0}}
    → refuse b e db ≡ ok (u, db')
    → b ≡ false
refuse-passed b e db done = ground arith

-- A transaction whose first step succeeds goes on from there.
module _ {A B : Type 0} where
  pub bind-run :
      (m : Tx A) (f : A → Tx B) (db : Db) {a : A} {d : Db} → m db ≡ ok (a, d) → (m >>= f) db ≡ f a d
  bind-run m f db h = ground arith

pub get-found :
    (pk : ℕ) (db : Db) {r : MessageRow}
    → lookup pk db.messages ≡ some r
    → get_message pk db ≡ ok (record { pk = pk; row = r }, db)
unfolding get_message
get-found pk db h = ground arith

-- A run returns a result and a database, and they are as stated.
abbrev pub Finishes : {A : Type 0} → Result (A × Db) → (A → Db → Type 0) → Type 0
Finishes {A} r holds = (a : A) × (d : Db) × (r ≡ ok (a, d)) × holds a d
