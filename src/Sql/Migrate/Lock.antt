-- ===== src/Sql/Migrate/Lock.antt =====
-- The lock around the migration of internal/persistence/migrate.go.
use kubebox.Common.{
  [], ◌∷◌, List, Text, Option, none, some, Bool, true, false, ◌≡◌, refl, sym, subst, ◌∙◌,
}
use kubebox.Sql.Store.{Dialect, SqlStore}
use kubebox.Sql.Migrate.{
  MigrationApi, MigrateError, schema_statements, after_statement, run_statements,
  acquire_migration_lock, unlock, after_lock, after_conn, migrate_locked,
}

module _ {D : Type 0} (api : MigrationApi D) where
  -- What is relied on: which databases hold the migration's lock after each call, and what of them is
  -- kept by each, by a statement only while the lock is held.
  pub record IsLock (held : D → Bool) (Q : D → Type 0) : Type 0 where
    pub opened : (d : D) → held (api.open_conn d).0 ≡ held d
    pub acquired :
        (s : Dialect) (d : D)
        → (acquire_migration_lock api s d).1 ≡ none
        → held (acquire_migration_lock api s d).0 ≡ true
    pub refused :
        (s : Dialect) (d : D) (e : MigrateError)
        → (acquire_migration_lock api s d).1 ≡ some e
        → held (acquire_migration_lock api s d).0 ≡ held d
    pub executed : (d : D) (q : Text) → held (api.exec d q).0 ≡ held d
    pub released : (s : Dialect) (d : D) → held (unlock api s d) ≡ false
    pub closed : (d : D) → held (api.close_conn d) ≡ held d
    pub opened_keeps : (d : D) → Q d → Q (api.open_conn d).0
    pub acquired_keeps : (s : Dialect) (d : D) → Q d → Q (acquire_migration_lock api s d).0
    pub executed_keeps : (d : D) (q : Text) → held d ≡ true → Q d → Q (api.exec d q).0
    pub released_keeps : (s : Dialect) (d : D) → Q d → Q (unlock api s d)
    pub closed_keeps : (d : D) → Q d → Q (api.close_conn d)

  module _ (held : D → Bool) (Q : D → Type 0) (lock : IsLock held Q) where
    -- The statements keep the lock, and what is kept while it is held.
    statement_keeps :
        (x : D × Option Text) (rest : D → D × Option MigrateError)
        → held x.0 ≡ true
        → Q x.0
        → ((d : D) → held d ≡ true → Q d → (held (rest d).0 ≡ true) × Q (rest d).0)
        → (held (after_statement x rest).0 ≡ true) × Q (after_statement x rest).0
    unfolding after_statement
    statement_keeps (d, some e) rest h q r = (h, q)
    statement_keeps (d, none) rest h q r = r d h q

    statements_keep :
        (qs : List Text) (d : D)
        → held d ≡ true
        → Q d
        → (held (run_statements api.exec qs d).0 ≡ true) × Q (run_statements api.exec qs d).0
    unfolding run_statements
    statements_keep [] d h q = (h, q)
    statements_keep (s ∷ qs) d h q =
        statement_keeps (api.exec d s) _ (lock.executed d s ∙ h) (lock.executed_keeps d s h q)
          (statements_keep qs)

    abbrev Safe : D → Type 0
    Safe d = (held d ≡ false) × Q d

    after_lock-Safe :
        (s : Dialect) (d : D) (x : D × Option MigrateError)
        → x ≡ acquire_migration_lock api s d
        → held d ≡ false
        → Q d
        → Safe (after_lock api s x).0
    unfolding after_lock
    after_lock-Safe s d (c, some e) same h q =
        let refused : held c ≡ held d =
          subst (λ (y : D × Option MigrateError). y.1 ≡ some e → held y.0 ≡ held d) (sym same)
            (lock.refused s d e) refl in
        let kept : Q c =
          subst (λ (y : D × Option MigrateError). Q y.0) (sym same) (lock.acquired_keeps s d q) in
        (lock.closed c ∙ refused ∙ h, lock.closed_keeps c kept)
    after_lock-Safe s d (c, none) same h q =
        let acquired : held c ≡ true =
          subst (λ (y : D × Option MigrateError). y.1 ≡ none → held y.0 ≡ true) (sym same)
            (lock.acquired s d) refl in
        let kept : Q c =
          subst (λ (y : D × Option MigrateError). Q y.0) (sym same) (lock.acquired_keeps s d q) in
        let (still, q') = statements_keep (schema_statements s) c acquired kept in
        (lock.closed _ ∙ lock.released s _, lock.closed_keeps _ (lock.released_keeps s _ q'))

    after_conn-Safe :
        (s : Dialect) (x : D × Option Text) → held x.0 ≡ false → Q x.0 → Safe (after_conn api s x).0
    unfolding after_conn
    after_conn-Safe s (d, some e) h q = (h, q)
    after_conn-Safe s (d, none) h q = after_lock-Safe s d _ refl h q

    -- A migration that starts without the lock ends without it, whether it fails to connect, to get
    -- the lock or in a statement, or succeeds; and whatever is kept by statements under the lock is
    -- kept by the migration: it runs none without the lock.
    pub migrate_locked-Safe :
        (s : SqlStore D) → held s.db ≡ false → Q s.db → Safe (migrate_locked api s).0
    unfolding migrate_locked
    migrate_locked-Safe s h q =
        after_conn-Safe s.dialect (api.open_conn s.db) (lock.opened s.db ∙ h)
          (lock.opened_keeps s.db q)
