-- ===== src/Sql/Database.antt =====
-- The package `database/sql` as the program calls it: a database `D`, and a transaction `T` on it.
-- Contexts carry no data. A transaction is one step: the statements of another do not come between
-- its own.
use kubebox.Common.{List, Text, codes, ℤ, Option, none, some, Bool, true, false}
use kubebox.Governance.{Time, GovError, other}

-- An argument of a statement.
pub data Value : Type 0 where
  text_value : Text → Value
  int_value : ℤ → Value
  time_value : Time → Value

-- The answer of a driver, with the text of its error.
pub data Answer {ℓ} (A : Type ℓ) : Type ℓ where
  done : A → Answer A
  failing : Text → Answer A

-- The one row of a query, scanned.
pub data Scanned {ℓ} (A : Type ℓ) : Type ℓ where
  row : A → Scanned A
  no_rows : Scanned A
  scan_failing : Text → Scanned A

-- The result of an `Exec` is the answer of its `RowsAffected`. `query_int` and `query_text` are
-- `QueryRow` followed by `Scan` into a number or a string.
pub record Database (D T : Type 0) : Type 0 where
  pub begin : D → Answer T
  pub exec : T → Text → List Value → T × Answer (Answer ℤ)
  pub query_int : T → Text → List Value → T × Scanned ℤ
  pub query_text : T → Text → List Value → T × Scanned Text
  pub commit : D → T → D × Option Text
  pub rollback : D → T → D
  pub exec_db : D → Text → List Value → D × Option Text

pub data Result {ℓ} (A : Type ℓ) : Type ℓ where
  ok : A → Result A
  err : GovError → Result A

-- The statements of one transaction.
abbrev pub Body : Type 0 → Type 0 → Type 0
Body T A = T → T × Result A

unfoldable pub continue : {T A B : Type 0} → T × Result A → (A → Body T B) → T × Result B
continue (t, ok a) f = f a t
continue (t, err e) f = (t, err e)

infixl 5 ◌>>=◌ ◌>>◌
abbrev pub ◌>>=◌ : {T A B : Type 0} → Body T A → (A → Body T B) → Body T B
◌>>=◌ m f t = continue (m t) f

abbrev pub ◌>>◌ : {T B : Type 0} → Body T (Unit {0}) → Body T B → Body T B
◌>>◌ m k t = continue (m t) (λ _. k)

abbrev pub pure : {T A : Type 0} → A → Body T A
pure a t = (t, ok a)

abbrev pub fail : {T A : Type 0} → GovError → Body T A
fail e t = (t, err e)

-- `if !ok { return rollback(e) }`
unfoldable pub guard : {T : Type 0} → Bool → GovError → Body T (Unit {0})
guard true e t = (t, ok tt)
guard false e t = (t, err e)

unfoldable pub of_answer : {A : Type 0} → Answer A → Result A
of_answer (done a) = ok a
of_answer (failing e) = err (other e)

-- The text of `sql.ErrNoRows`.
abbrev pub no_rows_text : Text
no_rows_text = codes "sql: no rows in result set"

unfoldable pub of_scanned : {A : Type 0} → Scanned A → Result A
of_scanned (row a) = ok a
of_scanned no_rows = err (other no_rows_text)
of_scanned (scan_failing e) = err (other e)

-- The error of a driver call that returns nothing else.
unfoldable pub of_driver : {D : Type 0} → D × Option Text → D × Option GovError
of_driver (d, none) = (d, none)
of_driver (d, some e) = (d, some (other e))

module _ {D T : Type 0} (api : Database D T) where
  abbrev pub exec : Text → List Value → Body T (Answer ℤ)
  exec q args t = let (t', a) = api.exec t q args in (t', of_answer a)

  abbrev pub rows_affected : Answer ℤ → Body T ℤ
  rows_affected a t = (t, of_answer a)

  abbrev pub query_int : Text → List Value → Body T ℤ
  query_int q args t = let (t', a) = api.query_int t q args in (t', of_scanned a)

  unfoldable pub end_transaction : D → T × Result (Unit {0}) → D × Option GovError
  end_transaction d (t, err e) = (api.rollback d t, some e)
  end_transaction d (t, ok _) = of_driver (api.commit d t)

  unfoldable pub after_begin : D → Body T (Unit {0}) → Answer T → D × Option GovError
  unfolding end_transaction
  after_begin d body (failing e) = (d, some (other e))
  after_begin d body (done t) = end_transaction d (body t)

  -- A transaction around a body: an error of the body rolls it back, and its end commits it.
  unfoldable pub transact : D → Body T (Unit {0}) → D × Option GovError
  unfolding after_begin
  transact d body = after_begin d body (api.begin d)
