-- ===== src/Sql/Refinement.antt =====
-- The ledger that the store promises, as moves of the tables, and the store's methods as such
-- moves.
use kubebox.Common.{
  ℕ, ◌≤◌, [], ◌∷◌, Text, codes, text_eq, text_eq_iff, pos, some, Bool, true, false, Bool-cases, ◌≡◌,
  ◌≢◌, if◌then◌else◌, refl, sym, ◌∙◌, ap, ◌⊎◌, inl, inr, arith,
}
use kubebox.Governance.{Time, GovError, invalid_argument}
use kubebox.Sql.Database.{
  text_value, done, Scanned, row, no_rows, scan_failing, Database, ok, err, Body, transact,
}
use kubebox.Sql.Store.{
  with_db, Dialect, SqlStore, set_quota_body, set_quota, reserve_body, reserve_allocation,
  release_body, release_allocation, is_none, released_before, look_again, free_slot,
}
use kubebox.Sql.Tables.{
  Tables, OwnerQuota, QuotaAllocation, count_rows, first_row, of_owner, has_room, in_use,
  is_allocation, to_release, ensure_row, write_limit, take_slot, give_slot, add_allocation,
  mark_released, IsSql,
}
use kubebox.Sql.Rows.{update_rows_none}
use kubebox.Sql.Atomic.{
  answer_then-ok, scanned_then-ok, guard_then-ok, guard-ok, IsCause, IsAtomic, transact-IsAtomic,
}
use kubebox.Sql.Refusals.{
  SetRefused, ReserveRefused, ReleaseRefused, set_quota_body-IsCause, reserve_body-IsCause,
  release_body-IsCause,
}

abbrev pub has_id : Text → QuotaAllocation → Bool
has_id id x = text_eq x.allocation_id id

-- What each method does to the tables when it succeeds, and when it may.
pub record Sets (t w : Text) (limit : ℕ) (m n : Tables) : Type 0 where
  pub first : OwnerQuota
  pub found : first_row (of_owner t w) (ensure_row t w limit m).quotas ≡ some first
  pub covers : first.current_count ≤ limit
  pub effect : n ≡ write_limit t w limit (ensure_row t w limit m)

pub record Reserves (t w id sandbox_id : Text) (now : Time) (m n : Tables) : Type 0 where
  pub room : count_rows (has_room t w) m.quotas ≡ 1
  pub fresh : count_rows (has_id id) m.allocations ≡ 0
  pub effect : n ≡ add_allocation id t w sandbox_id now (take_slot t w m)

pub record Releases (t w id : Text) (now : Time) (m n : Tables) : Type 0 where
  pub held : count_rows (to_release id t w) m.allocations ≢ 0
  pub counted : count_rows (in_use t w) m.quotas ≡ 1
  pub effect : n ≡ give_slot t w (mark_released id t w now m)

-- A release that is repeated: the allocation is there, and has been released.
pub record Repeats (t w id : Text) (m n : Tables) : Type 0 where
  pub allocation : QuotaAllocation
  pub found : first_row (is_allocation id t w) m.allocations ≡ some allocation
  pub released : allocation.status ≡ codes "RELEASED"
  pub effect : n ≡ m

abbrev pub Released : Text → Text → Text → Time → Tables → Tables → Type 0
Released t w id now m n = Releases t w id now m n ⊎ Repeats t w id m n

unmarked :
    (id a b : Text) (now : Time) (m : Tables)
    → count_rows (to_release id a b) m.allocations ≡ 0
    → mark_released id a b now m ≡ m
unfolding mark_released
unmarked id a b now m h = rw (update_rows_none (to_release id a b) _ m.allocations h)

released_before-ok :
    {T : Type 0} (u : T) (status : Scanned Text) (t' : T)
    → released_before status u ≡ (t', ok tt)
    → (x : Text) × (status ≡ row x) × (text_eq x (codes "RELEASED") ≡ true) × (u ≡ t')
unfolding released_before
released_before-ok u (row x) t' h =
    let (released, same) = guard-ok u _ _ t' h in (x, refl, released, same)
released_before-ok u no_rows t' h = cc
released_before-ok u (scan_failing e) t' h = cc

module _ {D T : Type 0} (api : Database D T) (tables : D → Tables) (view : T → Tables)
    (sql : IsSql api tables view) where
  reserve_body-Reserves :
      (s : Dialect) (a b id sandbox_id : Text) (now : Time) (t t' : T)
      → reserve_body api s a b id sandbox_id now t ≡ (t', ok tt)
      → Reserves a b id sandbox_id now (view t) (view t')
  unfolding reserve_body take_slot
  reserve_body-Reserves s a b id sandbox_id now t t' h =
      let (r, e, h₁) = answer_then-ok _ _ _ t' h in
      let (n, e₁, h₂) = answer_then-ok _ _ _ t' h₁ in
      let (one, h₃) = guard_then-ok _ _ _ _ t' h₂ in
      let (r', e₂, h₄) = answer_then-ok _ _ _ t' h₃ in
      let took = sql.takes_slot s t a b n (e ∙ ap done e₁) in
      let added = sql.inserts_allocation s _ id a b sandbox_id now r' e₂ in
      record {
        room = ground (arith, took.1);
        fresh = rw took.0 at added.1;
        effect =
            ap view (sym (ap (λ o. o.0) h₄))
            ∙ added.0
            ∙ ap (add_allocation id a b sandbox_id now) took.0;
      }

  set_quota_body-Sets :
      (s : Dialect) (a b : Text) (limit : ℕ) (t t' : T)
      → set_quota_body api s a b (pos limit) t ≡ (t', ok tt)
      → Sets a b limit (view t) (view t')
  unfolding set_quota_body
  set_quota_body-Sets s a b limit t t' h =
      let (r, e, h₁) = answer_then-ok _ _ _ t' h in
      let (n, e₁, h₂) = scanned_then-ok _ _ _ t' h₁ in
      let (covers, h₃) = guard_then-ok _ _ _ _ t' h₂ in
      let (r', e₂, h₄) = answer_then-ok _ _ _ t' h₃ in
      let ensured = sql.ensures s t a b limit r e in
      let (same, (q, found, counted)) = sql.selects_count s _ a b n e₁ in
      let wrote = sql.writes_limit s _ a b limit r' e₂ in
      record {
        first = q;
        found = rw (← ensured) found;
        covers = ground (arith, covers, counted);
        effect =
            ap view (sym (ap (λ o. o.0) h₄)) ∙ wrote ∙ ap (write_limit a b limit) (same ∙ ensured);
      }

  look_again-Repeats :
      (s : Dialect) (a b id : Text) (u t t' : T)
      → view u ≡ view t
      → look_again api s (text_value id ∷ text_value a ∷ text_value b ∷ []) u ≡ (t', ok tt)
      → Repeats a b id (view t) (view t')
  look_again-Repeats s a b id u t t' same h =
      let (status, e, released, kept) = released_before-ok _ _ t' h in
      let (still, (x, found, named)) = sql.selects_status s u id a b status e in
      record {
        allocation = x;
        found = rw (← same) found;
        released = sym named ∙ (text_eq_iff status (codes "RELEASED")).0 released;
        effect = ap view (sym kept) ∙ still ∙ same;
      }

  give_slot-Releases :
      (s : Dialect) (a b id : Text) (now : Time) (u t t' : T)
      → view u ≡ mark_released id a b now (view t)
      → count_rows (to_release id a b) (view t).allocations ≢ 0
      → free_slot api s (text_value a ∷ text_value b ∷ []) u ≡ (t', ok tt)
      → Releases a b id now (view t) (view t')
  unfolding mark_released
  give_slot-Releases s a b id now u t t' marked some_held h =
      let (r, e, h₁) = answer_then-ok _ _ _ t' h in
      let (n, e₁, h₂) = answer_then-ok _ _ _ t' h₁ in
      let (one, same) = guard-ok _ _ _ t' h₂ in
      let gave = sql.gives_slot s u a b n (e ∙ ap done e₁) in
      record {
        held = some_held;
        counted = ground (arith, gave.1, one, marked);
        effect = ap view (sym same) ∙ gave.0 ∙ ap (give_slot a b) marked;
      }

  release_body-Released :
      (s : Dialect) (a b id : Text) (now : Time) (t t' : T)
      → release_body api s a b id now t ≡ (t', ok tt)
      → Released a b id now (view t) (view t')
  unfolding release_body
  release_body-Released s a b id now t t' h =
      let (r, e, h₁) = answer_then-ok _ _ _ t' h in
      let (n, e₁, h₂) = answer_then-ok _ _ _ t' h₁ in
      let marked = sql.releases s t id a b now n (e ∙ ap done e₁) in
      elim (Bool-cases (is_none n)) [
        | inl nothing ↦ inr (
            look_again-Repeats s a b id _ t t'
              (marked.0 ∙ unmarked id a b now (view t) (ground (arith, nothing, marked.1)))
              (rw nothing at h₂))
        | inr something ↦ inl (
            give_slot-Releases s a b id now _ t t' marked.0 (ground (arith, something, marked.1))
              (rw something at h₂))
      ]

  -- A method that checks its arguments before its transaction.
  checked-IsAtomic :
      (Q : Tables → Tables → Type 0) (R : Tables → GovError → Type 0) (bad : Bool) (s : SqlStore D)
      (body : Body T (Unit {0}))
      → (bad ≡ true → R (tables s.db) invalid_argument)
      → ((t t' : T) → body t ≡ (t', ok tt) → Q (view t) (view t'))
      → ((t t' : T) (x : GovError) → body t ≡ (t', err x) → IsCause api R (view t) x)
      → let out = if bad then (s, some invalid_argument) else with_db s (transact api s.db body) in
        IsAtomic api tables Q R s.db out.0.db out.1
  checked-IsAtomic Q R true s body refused q r = record {
    made = λ h. cc;
    failed =
        λ x h. let named : x ≡ invalid_argument = cc in inl (refl, rw named (inl (refused refl)));
  }
  checked-IsAtomic Q R false s body refused q r =
      transact-IsAtomic api tables view sql Q R s.db body q r

  -- A reservation that answers without an error has found one quota row of its owner with room and
  -- an allocation id that was not in use, and has raised that row's count by one and recorded the
  -- allocation as reserved, both at once. One that answers with an error has changed nothing, and
  -- then an argument is empty, or there is not one row with room, or the error is one that the
  -- database answers a call with; or it has made the whole change, and the error is what its commit
  -- answered.
  pub reserve_allocation-IsAtomic :
      (s : SqlStore D) (t w id sandbox_id : Text) (now : Time)
      → let out = reserve_allocation api s t w id sandbox_id now in
        IsAtomic api tables
          (Reserves t w id sandbox_id now)
          (ReserveRefused t w id sandbox_id)
          s.db
          out.0.db
          out.1
  unfolding reserve_allocation
  reserve_allocation-IsAtomic s t w id sandbox_id now =
      checked-IsAtomic (Reserves t w id sandbox_id now) (ReserveRefused t w id sandbox_id) _ s _
        ReserveRefused.unnamed (reserve_body-Reserves s.dialect t w id sandbox_id now)
        (reserve_body-IsCause api tables view sql s.dialect t w id sandbox_id now)

  -- A release that answers without an error has either released the reserved allocation and lowered
  -- the count of one quota row of its owner by one, both at once, or has found the allocation
  -- released before and changed nothing. One that answers with an error has changed nothing, and
  -- then an argument is empty, or the owner holds no such allocation, or has not one row with a
  -- count above zero, or the error is one that the database answers a call with; or it has made the
  -- whole change, and the error is what its commit answered.
  pub release_allocation-IsAtomic :
      (s : SqlStore D) (t w id : Text) (now : Time)
      → let out = release_allocation api s t w id now in
        IsAtomic api tables (Released t w id now) (ReleaseRefused t w id) s.db out.0.db out.1
  unfolding release_allocation
  release_allocation-IsAtomic s t w id now =
      checked-IsAtomic (Released t w id now) (ReleaseRefused t w id) _ s _ ReleaseRefused.unnamed
        (release_body-Released s.dialect t w id now)
        (release_body-IsCause api tables view sql s.dialect t w id now)

  -- A quota that is set without an error covers the count of its owner's row, which has been added
  -- with the count zero where there was none, and is that row's limit afterwards. One that is
  -- answered with an error has changed nothing, and then an argument is empty, or the count of that
  -- row is above the limit, or the error is one that the database answers a call with; or it has
  -- been set, and the error is what its commit answered. The limit is not negative.
  pub set_quota-IsAtomic :
      (s : SqlStore D) (t w : Text) (limit : ℕ)
      → let out = set_quota api s t w (pos limit) in
        IsAtomic api tables (Sets t w limit) (SetRefused t w limit) s.db out.0.db out.1
  unfolding set_quota
  set_quota-IsAtomic s t w limit =
      checked-IsAtomic (Sets t w limit) (SetRefused t w limit) _ s _
        (λ h. SetRefused.unnamed (ground (arith, h))) (set_quota_body-Sets s.dialect t w limit)
        (set_quota_body-IsCause api tables view sql s.dialect t w limit)
