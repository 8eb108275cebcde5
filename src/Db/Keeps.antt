-- ===== src/Db/Keeps.antt =====
-- Statements that keep the database well-formed, with a rule for each way to build one.
use offbeat.Prelude.{Bool, true, false, ok, err}
use offbeat.Db.Schema.{Db}
use offbeat.Db.Tx.{DbError, Reply, Tx, continue, ◌>>=◌, pure, raise, raise_if, gets}
use offbeat.Db.Invariant.{IsWellFormed, IsKept}

pub record Keeps {A : Type 0} (m : Tx A) : Type 0 where
  pub at : (s : Db) → IsWellFormed s → IsKept (m s)

pub IsKept-continue :
    {A B : Type 0} (r : Reply (A × Db)) (f : A → Tx B)
    → IsKept r
    → ((a : A) → Keeps (f a))
    → IsKept (continue r f)
IsKept-continue (ok (a, s)) f h k = (k a).at s h
IsKept-continue (err e) f h k = tt

module _ {A : Type 0} where
  pub Keeps-pure : (a : A) → Keeps (pure a)
  Keeps-pure a = record { at = λ s w. w }

  pub Keeps-raise : (e : DbError) → Keeps (raise {A = A} e)
  Keeps-raise e = record { at = λ s w. tt }

  pub Keeps-gets : (f : Db → A) → Keeps (gets f)
  Keeps-gets f = record { at = λ s w. w }

  -- A statement that answers or fails, and leaves the database.
  pub Keeps-read : (m : Tx A) → ((s : Db) → IsWellFormed s → IsKept (m s)) → Keeps m
  Keeps-read m h = record { at = h }

pub Keeps-raise_if : (b : Bool) (e : DbError) → Keeps (raise_if b e)
Keeps-raise_if true e = record { at = λ s w. tt }
Keeps-raise_if false e = record { at = λ s w. w }

pub Keeps-bind :
    {A B : Type 0} (m : Tx A) (f : A → Tx B) → Keeps m → ((a : A) → Keeps (f a)) → Keeps (m >>= f)
Keeps-bind m f km kf = record { at = λ s w. IsKept-continue (m s) f (km.at s w) kf }
