-- ===== src/Db/Tx.antt =====
-- Statements of one transaction, and the transaction: BeginTx, the deferred Rollback, Commit.
use offbeat.Prelude.{arith, ◌≡◌, Bool, true, false, Result, if◌then◌else◌, ok, err}
use offbeat.Db.Schema.{Db}

-- `no_rows` is sql.ErrNoRows, `precondition` and `conflict` are ErrAcquisitionPrecondition and
-- ErrAcquisitionConflict, `constraint` is SQLite's refusal of a row, and `driver` any other error.
pub data DbError : Type 0 where
  no_rows precondition conflict constraint driver : DbError

abbrev pub Reply {ℓ} : Type ℓ → Type ℓ
Reply A = Result DbError A

-- What a statement leaves: its value and the database, or the error that ends the transaction.
abbrev pub Tx : Type 0 → Type 0
Tx A = Db → Reply (A × Db)

infixl 5 ◌>>=◌ ◌>>◌
abbrev pub continue : {A B : Type 0} → Reply (A × Db) → (A → Tx B) → Reply (B × Db)
continue (ok (a, s)) f = f a s
continue (err e) f = err e

abbrev pub ◌>>=◌ : {A B : Type 0} → Tx A → (A → Tx B) → Tx B
◌>>=◌ m f s = continue (m s) f

abbrev pub ◌>>◌ : {A B : Type 0} → Tx A → Tx B → Tx B
m >> k = m >>= λ _. k

abbrev pub pure : {A : Type 0} → A → Tx A
pure a s = ok (a, s)

abbrev pub raise : {A : Type 0} → DbError → Tx A
raise e s = err e

abbrev pub gets : {A : Type 0} → (Db → A) → Tx A
gets f s = ok (f s, s)

abbrev pub modify : (Db → Db) → Tx (Unit {0})
modify f s = ok (tt, f s)

-- `if test { return e }`
abbrev pub raise_if : Bool → DbError → Tx (Unit {0})
raise_if true e s = err e
raise_if false e s = ok (tt, s)

-- Whether the driver opens the transaction, whether it commits it, and whether it answers what a
-- statement outside a transaction asks next (RowsAffected, or a query). All are the driver's.
pub record Driver : Type 0 where
  pub begins : Bool
  pub commits : Bool
  pub answers : Bool

abbrev settle : {A : Type 0} → Bool → Db → Reply (A × Db) → Reply A × Db
settle commits s (err e) = (err e, s)
settle true s (ok (a, s')) = (ok a, s')
settle false s (ok (a, s')) = (err driver, s)

-- `tx, err := d.BeginTx(…)`, the deferred Rollback, the statements and `tx.Commit()`.
unfoldable pub transact : {A : Type 0} → Driver → Tx A → Db → Reply A × Db
transact d m s = elim d.begins [ false ↦ (err driver, s) | true ↦ settle d.commits s (m s) ]

-- What follows a statement that commits by itself: an error from here on leaves what it did.
unfoldable pub ask : {A B : Type 0} → Driver → (A → Db → Reply B) → Reply A × Db → Reply B × Db
ask d f (ok a, s) = (if d.answers then f a s else err driver, s)
ask d f (err e, s) = (err e, s)

-- A driver that opens, commits and answers.
abbrev pub healthy : Driver
healthy = record { begins = true; commits = true; answers = true }

pub transact-healthy :
    {A : Type 0} (m : Tx A) (s s' : Db) (a : A)
    → m s ≡ ok (a, s')
    → transact healthy m s ≡ (ok a, s')
unfolding transact
transact-healthy m s s' a h = rw h

pub transact-done :
    {A : Type 0} (d : Driver) (m : Tx A) (s s' : Db) (a : A)
    → transact d m s ≡ (ok a, s')
    → m s ≡ ok (a, s')
unfolding transact
transact-done d m s s' a h = ground arith
