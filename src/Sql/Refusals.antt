-- ===== src/Sql/Refusals.antt =====
-- Why the methods of `SQLStore` answer an error: a refusal of their own, with what the tables are
-- then, or an error of the database.
use kubebox.Common.{
  ℕ, ◌<◌, [], ◌∷◌, List, Text, is_empty, pos, some, true, Bool-cases, ◌≡◌, ◌≢◌, ◌||◌, refl, sym,
  ◌∙◌, ap, inl, inr, arith,
}
use kubebox.Governance.{
  Time, GovError, invalid_argument, quota_exceeded, quota_below_usage, quota_corrupt,
  allocation_not_found, allocation_state,
}
use kubebox.Sql.Database.{
  Value, text_value, done, Scanned, row, no_rows, scan_failing, no_rows_text, Database, err,
}
use kubebox.Sql.Store.{
  Dialect, set_quota_body, reserve_body, release_body, is_none, released_before, free_slot,
}
use kubebox.Sql.Tables.{
  Tables, OwnerQuota, count_rows, first_row, of_owner, has_room, in_use, to_release, ensure_row,
  mark_released, IsSql,
}
use kubebox.Sql.Atomic.{
  answer_then-err, scanned_then-err, guard_then-err, guard-err, exec_failed, rows_failed,
  int_missing, int_failed, text_failed, IsCause,
}

-- The refusals of each method, with what holds of its arguments or of the tables.
pub data SetRefused (t w : Text) (limit : ℕ) (m : Tables) : GovError → Type 0 where
  unnamed : (is_empty t || is_empty w) ≡ true → SetRefused t w limit m invalid_argument
  uncovered :
      (first : OwnerQuota)
      → first_row (of_owner t w) (ensure_row t w limit m).quotas ≡ some first
      → limit < first.current_count
      → SetRefused t w limit m quota_below_usage

pub data ReserveRefused (t w id sandbox_id : Text) (m : Tables) : GovError → Type 0 where
  unnamed :
      (is_empty t || is_empty w || is_empty id || is_empty sandbox_id) ≡ true
      → ReserveRefused t w id sandbox_id m invalid_argument
  full : count_rows (has_room t w) m.quotas ≢ 1 → ReserveRefused t w id sandbox_id m quota_exceeded

pub data ReleaseRefused (t w id : Text) (m : Tables) : GovError → Type 0 where
  unnamed :
      (is_empty t || is_empty w || is_empty id) ≡ true → ReleaseRefused t w id m invalid_argument
  missing :
      count_rows (to_release id t w) m.allocations ≡ 0
      → ReleaseRefused t w id m allocation_not_found
  not_reserved :
      count_rows (to_release id t w) m.allocations ≡ 0 → ReleaseRefused t w id m allocation_state
  uncounted : count_rows (in_use t w) m.quotas ≢ 1 → ReleaseRefused t w id m quota_corrupt

module _ {D T : Type 0} (api : Database D T) (tables : D → Tables) (view : T → Tables)
    (sql : IsSql api tables view) where
  pub reserve_body-IsCause :
      (s : Dialect) (a b id sandbox_id : Text) (now : Time) (t t' : T) (x : GovError)
      → reserve_body api s a b id sandbox_id now t ≡ (t', err x)
      → IsCause api (ReserveRefused a b id sandbox_id) (view t) x
  unfolding reserve_body
  reserve_body-IsCause s a b id sandbox_id now t t' x h = elim (answer_then-err _ _ _ t' x h) [
    | inl (e, failed, named) ↦ inr (e, named, exec_failed t _ _ e failed)
    | inr (r, got, h₁) ↦ elim (answer_then-err _ _ _ t' x h₁) [
      | inl (e, failed, named) ↦ inr (e, named, rows_failed t _ _ e (got ∙ ap done failed))
      | inr (n, e₁, h₂) ↦ elim (guard_then-err _ _ _ _ t' x h₂) [
        | inl (none_free, named) ↦
            let took = sql.takes_slot s t a b n (got ∙ ap done e₁) in
            rw named (inl (full (ground (arith, none_free, took.1))))
        | inr (one, h₃) ↦ elim (answer_then-err _ _ _ t' x h₃) [
          | inl (e, failed, named) ↦ inr (e, named, exec_failed _ _ _ e failed)
          | inr (r', e₂, h₄) ↦ cc
        ]
      ]
    ]
  ]

  pub set_quota_body-IsCause :
      (s : Dialect) (a b : Text) (limit : ℕ) (t t' : T) (x : GovError)
      → set_quota_body api s a b (pos limit) t ≡ (t', err x)
      → IsCause api (SetRefused a b limit) (view t) x
  unfolding set_quota_body
  set_quota_body-IsCause s a b limit t t' x h = elim (answer_then-err _ _ _ t' x h) [
    | inl (e, failed, named) ↦ inr (e, named, exec_failed t _ _ e failed)
    | inr (r, got, h₁) ↦ elim (scanned_then-err _ _ _ t' x h₁) [
      | inl (absent, named) ↦ inr (no_rows_text, named, int_missing _ _ _ absent)
      | inr (inl (e, failed, named)) ↦ inr (e, named, int_failed _ _ _ e failed)
      | inr (inr (n, e₁, h₂)) ↦ elim (guard_then-err _ _ _ _ t' x h₂) [
        | inl (below, named) ↦
            let ensured = sql.ensures s t a b limit r got in
            let (same, (q, found, counted)) = sql.selects_count s _ a b n e₁ in
            rw named (inl (uncovered q (rw (← ensured) found) (ground (arith, below, counted))))
        | inr (covers, h₃) ↦ elim (answer_then-err _ _ _ t' x h₃) [
          | inl (e, failed, named) ↦ inr (e, named, exec_failed _ _ _ e failed)
          | inr (r', e₂, h₄) ↦ cc
        ]
      ]
    ]
  ]

  released_before-IsCause :
      (a b id : Text) (m : Tables) (u v : T) (q : Text) (args : List Value) (status : Scanned Text)
      (t' : T) (x : GovError)
      → status ≡ (api.query_text u q args).1
      → count_rows (to_release id a b) m.allocations ≡ 0
      → released_before status v ≡ (t', err x)
      → IsCause api (ReleaseRefused a b id) m x
  unfolding released_before
  released_before-IsCause a b id m u v q args (row status) t' x s h r =
      rw ((guard-err _ _ _ t' x r).1) (inl (not_reserved h))
  released_before-IsCause a b id m u v q args no_rows t' x s h r =
      let named : x ≡ allocation_not_found = cc in rw named (inl (missing h))
  released_before-IsCause a b id m u v q args (scan_failing e) t' x s h r =
      inr (e, cc, text_failed u q args e (sym s))

  free_slot-IsCause :
      (s : Dialect) (a b id : Text) (now : Time) (u t t' : T) (x : GovError)
      → view u ≡ mark_released id a b now (view t)
      → free_slot api s (text_value a ∷ text_value b ∷ []) u ≡ (t', err x)
      → IsCause api (ReleaseRefused a b id) (view t) x
  unfolding mark_released
  free_slot-IsCause s a b id now u t t' x marked h = elim (answer_then-err _ _ _ t' x h) [
    | inl (e, failed, named) ↦ inr (e, named, exec_failed _ _ _ e failed)
    | inr (r, got, h₁) ↦ elim (answer_then-err _ _ _ t' x h₁) [
      | inl (e, failed, named) ↦ inr (e, named, rows_failed _ _ _ e (got ∙ ap done failed))
      | inr (n, e₁, h₂) ↦
          let (wrong, named) = guard-err _ _ _ t' x h₂ in
          let gave = sql.gives_slot s u a b n (got ∙ ap done e₁) in
          rw named (inl (uncounted (ground (arith, gave.1, wrong, marked))))
    ]
  ]

  pub release_body-IsCause :
      (s : Dialect) (a b id : Text) (now : Time) (t t' : T) (x : GovError)
      → release_body api s a b id now t ≡ (t', err x)
      → IsCause api (ReleaseRefused a b id) (view t) x
  unfolding release_body
  release_body-IsCause s a b id now t t' x h = elim (answer_then-err _ _ _ t' x h) [
    | inl (e, failed, named) ↦ inr (e, named, exec_failed t _ _ e failed)
    | inr (r, got, h₁) ↦ elim (answer_then-err _ _ _ t' x h₁) [
      | inl (e, failed, named) ↦ inr (e, named, rows_failed t _ _ e (got ∙ ap done failed))
      | inr (n, e₁, h₂) ↦
          let marked = sql.releases s t id a b now n (got ∙ ap done e₁) in
          elim (Bool-cases (is_none n)) [
            | inl nothing ↦
                released_before-IsCause a b id (view t) _ _ _ _ _ t' x refl
                  (ground (arith, nothing, marked.1)) (rw nothing at h₂)
            | inr something ↦ free_slot-IsCause s a b id now _ t t' x marked.0 (rw something at h₂)
          ]
    ]
  ]
