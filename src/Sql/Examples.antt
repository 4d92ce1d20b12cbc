-- ===== src/Sql/Examples.antt =====
-- A small SQL database, and runs of the store on it.
use kubebox.Common.{
  ℕ, zero, suc, [], ◌∷◌, List, Text, codes, text_eq, split, decimal, ◌==◌, ℤ, pos, Option, none,
  some, Bool, true, false, ◌||◌, ◌&&◌, ◌≡◌, refl, inr, arith,
}
use kubebox.Sql.Database.{
  Value, text_value, int_value, time_value, Answer, done, failing, Scanned, row, no_rows, Database,
}
use kubebox.Sql.Store.{
  Dialect, postgres, mysql, SqlStore, bind, bind_parts, take_slot_text, give_slot_text, set_quota,
  reserve_allocation, release_allocation, insert_idempotency_pending,
}
use kubebox.Sql.Tables.{
  Tables, OwnerQuota, QuotaAllocation, count_rows, first_row, of_owner, has_room, in_use,
  is_allocation, to_release, ensure_row, insert_key, write_limit, take_slot, give_slot,
  add_allocation, mark_released, IsSql,
}
use kubebox.Sql.Atomic.{IsAtomic}
use kubebox.Sql.Refusals.{SetRefused, ReserveRefused, ReleaseRefused}
use kubebox.Sql.Refinement.{
  Sets, Reserves, Released, set_quota-IsAtomic, reserve_allocation-IsAtomic,
  release_allocation-IsAtomic,
}
use kubebox.Sql.Claims.{second_claim_lost}
use kubebox.Sql.Ledger.{
  IsLedger, Reach, begin, next, sets_quota, reserves, releases, Reach-IsLedger,
}
use kubebox.Sql.Rows.{taken}
use kubebox.Sql.Migrate.{
  MigrationApi, MigrateError, lock_value, acquire_migration_lock, unlock, of_get_lock, of_advisory,
  migrate_locked,
}
use kubebox.Sql.Migrate.Lock.{IsLock, migrate_locked-Safe}
use kubebox.Sql.Bind.{number, bind-number}
use kubebox.Sql.Database.{of_driver}

-- Whether a statement compares with `<`.
abbrev has_less : Text → Bool
has_less [] = false
has_less (c ∷ q) = c == b'<' || has_less q

abbrev slot : Bool → Text → Text → Tables → Tables × Answer (Answer ℤ)
slot true a b m = (take_slot a b m, done (done (pos (count_rows (has_room a b) m.quotas))))
slot false a b m = (give_slot a b m, done (done (pos (count_rows (in_use a b) m.quotas))))

abbrev insert : ℕ → Tables → Tables → Tables × Answer (Answer ℤ)
insert zero m n = (n, done (done (pos 1)))
insert (suc k) m n = (m, failing (codes "duplicate key"))

abbrev exec_values : Tables → Text → List Value → Tables × Answer (Answer ℤ)
exec_values m q (text_value a ∷ text_value b ∷ []) = slot (has_less q) a b m
exec_values m q (text_value a ∷ text_value b ∷ int_value (pos limit) ∷ []) =
    (ensure_row a b limit m, done (done (pos 1)))
exec_values m q (int_value (pos limit) ∷ text_value a ∷ text_value b ∷ []) =
    (write_limit a b limit m, done (done (pos 1)))
exec_values m q
      (text_value id ∷ text_value a ∷ text_value b ∷ text_value sandbox_id ∷ time_value now ∷ []) =
    insert (count_rows (λ (x : QuotaAllocation). text_eq x.allocation_id id) m.allocations) m
      (add_allocation id a b sandbox_id now m)
exec_values m q (time_value now ∷ text_value id ∷ text_value a ∷ text_value b ∷ []) =
    (mark_released id a b now m, done (done (pos (count_rows (to_release id a b) m.allocations))))
exec_values m q _ = (m, failing (codes "bad arguments"))

abbrev scan : {R A : Type 0} → (R → A) → Option R → Scanned A
scan f none = no_rows
scan f (some r) = row (f r)

abbrev count_values : Tables → List Value → Scanned ℤ
count_values m (text_value a ∷ text_value b ∷ []) =
    scan (λ (q : OwnerQuota). pos q.current_count) (first_row (of_owner a b) m.quotas)
count_values m _ = no_rows

abbrev status_values : Tables → List Value → Scanned Text
status_values m (text_value id ∷ text_value a ∷ text_value b ∷ []) =
    scan (λ (x : QuotaAllocation). x.status) (first_row (is_allocation id a b) m.allocations)
status_values m _ = no_rows

abbrev claim_values : Tables → List Value → Tables × Option Text
claim_values m
      (text_value a ∷ text_value k ∷ text_value b ∷ text_value hash ∷ time_value expires_at ∷ []) =
    (insert_key a k b hash expires_at m, none)
claim_values m _ = (m, some (codes "bad arguments"))

abbrev api : Database Tables Tables
api = record {
  begin = λ d. done d;
  exec = exec_values;
  query_int = λ m q args. (m, count_values m args);
  query_text = λ m q args. (m, status_values m args);
  commit = λ d m. (m, none);
  rollback = λ d m. d;
  exec_db = λ d q args. claim_values d args;
}

-- A row that was scanned is the first one.
scan-row :
    {R A : Type 0} (f : R → A) (o : Option R) (n : A)
    → scan f o ≡ row n
    → (r : R) × (o ≡ some r) × (n ≡ f r)
scan-row f none n h = cc
scan-row f (some r) n h = (r, refl, cc)

insert-done :
    (k : ℕ) (m n : Tables) (r : Answer ℤ)
    → (insert k m n).1 ≡ done r
    → ((insert k m n).0 ≡ n) × (k ≡ 0)
insert-done zero m n r h = (refl, refl)
insert-done (suc k) m n r h = cc

take_less : (s : Dialect) → has_less (bind s take_slot_text) ≡ true
unfolding bind bind_parts split decimal
take_less postgres = refl
take_less mysql = refl

give_less : (s : Dialect) → has_less (bind s give_slot_text) ≡ false
unfolding bind bind_parts split decimal
give_less postgres = refl
give_less mysql = refl

slot_taken :
    (less : Bool) (a b : Text) (m : Tables) (n : ℤ)
    → less ≡ true
    → (slot less a b m).1 ≡ done (done n)
    → ((slot less a b m).0 ≡ take_slot a b m) × (n ≡ pos (count_rows (has_room a b) m.quotas))
slot_taken true a b m n l h = (refl, cc)
slot_taken false a b m n l h = cc

slot_given :
    (less : Bool) (a b : Text) (m : Tables) (n : ℤ)
    → less ≡ false
    → (slot less a b m).1 ≡ done (done n)
    → ((slot less a b m).0 ≡ give_slot a b m) × (n ≡ pos (count_rows (in_use a b) m.quotas))
slot_given false a b m n l h = (refl, cc)
slot_given true a b m n l h = cc

is_sql : IsSql api (λ d. d) (λ t. t)
is_sql = record {
  begin_view = λ d t h. cc;
  rollback_view = λ d t. refl;
  commit_view = λ d t h. refl;
  commit_lost = λ d t. inr refl;
  ensures = λ s t a b limit r h. refl;
  selects_count = λ s t a b n h. (
    refl,
    scan-row (λ (q : OwnerQuota). pos q.current_count) (first_row (of_owner a b) t.quotas) n h,
  );
  writes_limit = λ s t a b limit r h. refl;
  takes_slot = λ s t a b n h. slot_taken (has_less (bind s take_slot_text)) a b t n (take_less s) h;
  inserts_allocation = λ s t id a b sandbox_id now r h.
      insert-done (count_rows (λ (x : QuotaAllocation). text_eq x.allocation_id id) t.allocations) t
        (add_allocation id a b sandbox_id now t) r h;
  releases = λ s t id a b now n h. (refl, cc);
  selects_status = λ s t id a b status h. (
    refl,
    scan-row (λ (x : QuotaAllocation). x.status) (first_row (is_allocation id a b) t.allocations)
        status h,
  );
  gives_slot = λ s t a b n h. slot_given (has_less (bind s give_slot_text)) a b t n (give_less s) h;
  claims = λ s d a k b hash expires_at h. refl;
  claim_lost = λ s d a k b hash expires_at. inr refl;
}

abbrev t_text : Text
t_text = codes "t"

abbrev w_text : Text
w_text = codes "w"

abbrev empty : Tables
empty = record { quotas = []; allocations = []; keys = [] }

abbrev store : SqlStore Tables
store = record { db = empty; dialect = postgres }

abbrev limited_store : SqlStore Tables
limited_store = (set_quota api store t_text w_text (pos 1)).0

abbrev held : SqlStore Tables
held = (reserve_allocation api limited_store t_text w_text (codes "a") (codes "s") (pos 0)).0

abbrev freed : SqlStore Tables
freed = (release_allocation api held t_text w_text (codes "a") (pos 1)).0

set_quota-IsAtomic_example :
    IsAtomic api
      (λ d. d)
      (Sets t_text w_text 1)
      (SetRefused t_text w_text 1)
      empty
      limited_store.db
      (set_quota api store t_text w_text (pos 1)).1
set_quota-IsAtomic_example = set_quota-IsAtomic api (λ d. d) (λ t. t) is_sql store t_text w_text 1

reserve_allocation-IsAtomic_example :
    IsAtomic api
      (λ d. d)
      (Reserves t_text w_text (codes "a") (codes "s") (pos 0))
      (ReserveRefused t_text w_text (codes "a") (codes "s"))
      limited_store.db
      held.db
      (reserve_allocation api limited_store t_text w_text (codes "a") (codes "s") (pos 0)).1
reserve_allocation-IsAtomic_example =
    reserve_allocation-IsAtomic api (λ d. d) (λ t. t) is_sql limited_store t_text w_text (codes "a")
      (codes "s") (pos 0)

release_allocation-IsAtomic_example :
    IsAtomic api
      (λ d. d)
      (Released t_text w_text (codes "a") (pos 1))
      (ReleaseRefused t_text w_text (codes "a"))
      held.db
      freed.db
      (release_allocation api held t_text w_text (codes "a") (pos 1)).1
release_allocation-IsAtomic_example =
    release_allocation-IsAtomic api (λ d. d) (λ t. t) is_sql held t_text w_text (codes "a") (pos 1)

empty-IsLedger : IsLedger empty
unfolding taken count_rows
empty-IsLedger = record {
  balance = λ t w. refl;
  within = tt;
  unique_owner = λ t w. omega arith;
  unique_id = λ id. omega arith;
}

history : Reach api store freed
history =
    next
      (next (next begin (sets_quota store t_text w_text (pos 1)))
        (reserves limited_store t_text w_text (codes "a") (codes "s") (pos 0)))
      (releases held t_text w_text (codes "a") (pos 1))

Reach-IsLedger_example : IsLedger freed.db
Reach-IsLedger_example =
    Reach-IsLedger api (λ d. d) (λ t. t) is_sql store freed empty-IsLedger history

bind_and :
    (bind postgres (codes "a = ? AND b = ?") ≡ number 1 (codes "a = ? AND b = ?"))
    × (bind mysql (codes "a = ? AND b = ?") ≡ codes "a = ? AND b = ?")
bind_and = bind-number (codes "a = ? AND b = ?")

bind_two : bind postgres (codes "a = ? AND b = ?") ≡ codes "a = $1 AND b = $2"
unfolding bind bind_parts split decimal
bind_two = refl

abbrev claimed : SqlStore Tables
claimed = (insert_idempotency_pending api store t_text w_text (codes "k") (codes "h") (pos 9)).0

first_claim :
    (insert_idempotency_pending api store t_text w_text (codes "k") (codes "h") (pos 9)).1 ≡ none
unfolding insert_idempotency_pending of_driver
first_claim = refl

second_claim_lost_example :
    (insert_idempotency_pending api claimed t_text w_text (codes "l") (codes "h") (pos 9)).0.db
    ≡ claimed.db
second_claim_lost_example =
    second_claim_lost api (λ d. d) (λ t. t) is_sql store t_text w_text (codes "k") (codes "l")
      (codes "h") (codes "h") (pos 9) (pos 9) first_claim

-- Whether the migration's lock is held, and whether each statement so far has found it held.
abbrev Locked : Type 0
Locked = Bool × Bool

abbrev migration : MigrationApi Locked
migration = record {
  exec_db = λ d q. ((d.0, d.1 && d.0), none);
  open_conn = λ d. (d, none);
  exec = λ d q. ((d.0, d.1 && d.0), none);
  advisory_lock = λ d k. ((true, d.1), none);
  advisory_unlock = λ d k. (false, d.1);
  get_lock = λ d. ((true, d.1), lock_value (some (pos 1)));
  release_lock = λ d. (false, d.1);
  close_conn = λ d. d;
}

is_lock : IsLock migration (λ (d : Locked). d.0) (λ (d : Locked). d.1 ≡ true)
unfolding acquire_migration_lock unlock of_get_lock of_advisory
is_lock = record {
  opened = λ d. refl;
  acquired = λ s d h. locks s d;
  refused = λ s d e h. never s d e h;
  executed = λ d q. refl;
  released = λ s d. unlocks s d;
  closed = λ d. refl;
  opened_keeps = λ d q. q;
  acquired_keeps = λ s d q. lock_keeps s d q;
  executed_keeps = λ d q h k. rw (h, k) refl;
  released_keeps = λ s d q. unlock_keeps s d q;
  closed_keeps = λ d q. q;
}
  where
    never :
        (s : Dialect) (d : Locked) (e : MigrateError)
        → (acquire_migration_lock migration s d).1 ≡ some e
        → (acquire_migration_lock migration s d).0.0 ≡ d.0
    never postgres d e h = cc
    never mysql d e h = cc

    locks : (s : Dialect) (d : Locked) → (acquire_migration_lock migration s d).0.0 ≡ true
    locks postgres d = refl
    locks mysql d = refl

    unlocks : (s : Dialect) (d : Locked) → (unlock migration s d).0 ≡ false
    unlocks postgres d = refl
    unlocks mysql d = refl

    lock_keeps :
        (s : Dialect) (d : Locked) → d.1 ≡ true → (acquire_migration_lock migration s d).0.1 ≡ true
    lock_keeps postgres d q = q
    lock_keeps mysql d q = q

    unlock_keeps : (s : Dialect) (d : Locked) → d.1 ≡ true → (unlock migration s d).1 ≡ true
    unlock_keeps postgres d q = q
    unlock_keeps mysql d q = q

abbrev unlocked_store : SqlStore Locked
unlocked_store = record { db = (false, true); dialect = mysql }

migrate_locked-Safe_example :
    let after = (migrate_locked migration unlocked_store).0 in (after.0 ≡ false) × (after.1 ≡ true)
migrate_locked-Safe_example =
    migrate_locked-Safe migration (λ (d : Locked). d.0) (λ (d : Locked). d.1 ≡ true) is_lock
      unlocked_store refl refl
