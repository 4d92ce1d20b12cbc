-- ===== src/Sql/Claims.antt =====
-- `InsertIdempotencyPending` of internal/persistence/sql.go: what a claim records.
use kubebox.Common.{
  ◌⊎◌, ◌+◌, [], ◌∷◌, ◌++◌, List, Text, codes, text_eq_refl, is_empty, Option, none, some, Bool,
  ◌||◌, Bool-cases, ◌≡◌, refl, sym, ◌∙◌, ap, inl, inr, arith,
}
use kubebox.Governance.{Time}
use kubebox.Sql.Database.{Database, of_driver}
use kubebox.Sql.Store.{SqlStore, insert_idempotency_pending}
use kubebox.Sql.Tables.{Tables, count_rows, is_key, insert_key, IsSql}

count_rows-append :
    {R : Type 0} (p : R → Bool) (xs ys : List R)
    → count_rows p (xs ++ ys) ≡ count_rows p xs + count_rows p ys
unfolding count_rows
count_rows-append p [] ys = omega arith
count_rows-append p (x ∷ xs) ys = omega (arith, count_rows-append p xs ys)

-- A key that has a record keeps it.
insert_key_taken :
    (t k w w' hash hash' : Text) (e e' : Time) (m : Tables)
    → insert_key t k w' hash' e' (insert_key t k w hash e m) ≡ insert_key t k w hash e m
unfolding insert_key count_rows
insert_key_taken t k w w' hash hash' e e' m = ground (
  arith,
  count_rows-append (is_key t k) m.keys (
      record {
        tenant_id = t;
        idem_key = k;
        owner_id = w;
        request_hash = hash;
        status = codes "PENDING";
        lease_version = 1;
        expires_at = e;
      }
      ∷ []),
  text_eq_refl t,
  text_eq_refl k,
)

module _ {D T : Type 0} (api : Database D T) (tables : D → Tables) (view : T → Tables)
    (sql : IsSql api tables view) where
  -- The change that a claim makes: the statement's columns are tenant, key, owner and hash, and the
  -- owner is sent in the place of the key.
  abbrev Claims : Text → Text → Text → Text → Time → Tables → Tables → Type 0
  Claims t w key hash expires_at m n = n ≡ insert_key t w key hash expires_at m

  of_driver-none : (o : D × Option Text) → (of_driver o).1 ≡ none → o.1 ≡ none
  unfolding of_driver
  of_driver-none (d, none) h = refl
  of_driver-none (d, some e) h = cc

  of_driver-fst : (o : D × Option Text) → (of_driver o).0 ≡ o.0
  unfolding of_driver
  of_driver-fst (d, none) = refl
  of_driver-fst (d, some e) = refl

  pub claim_made :
      (s : SqlStore D) (t w key hash : Text) (expires_at : Time)
      → let out = insert_idempotency_pending api s t w key hash expires_at in
        out.1 ≡ none → Claims t w key hash expires_at (tables s.db) (tables out.0.db)
  unfolding insert_idempotency_pending
  claim_made s t w key hash expires_at h =
      elim (Bool-cases (is_empty t || is_empty w || is_empty key || is_empty hash)) [
        | inl bad ↦ cc (rw bad at h)
        | inr good ↦
            rw (good, of_driver-fst)
              (sql.claims s.dialect s.db t w key hash expires_at (of_driver-none _ (rw good at h)))
      ]

  pub claim_whole :
      (s : SqlStore D) (t w key hash : Text) (expires_at : Time)
      → let out = insert_idempotency_pending api s t w key hash expires_at in
        (tables out.0.db ≡ tables s.db)
        ⊎ Claims t w key hash expires_at (tables s.db) (tables out.0.db)
  unfolding insert_idempotency_pending
  claim_whole s t w key hash expires_at =
      elim (Bool-cases (is_empty t || is_empty w || is_empty key || is_empty hash)) [
        | inl bad ↦ rw bad (inl refl)
        | inr good ↦
            rw (good, of_driver-fst) (sql.claim_lost s.dialect s.db t w key hash expires_at)
      ]

  -- After a claim that answers without an error, a claim of the same tenant and owner, under whatever
  -- key, request hash and time, changes nothing in the tables, whatever it answers.
  pub second_claim_lost :
      (s : SqlStore D) (t w key key' hash hash' : Text) (e e' : Time)
      → (insert_idempotency_pending api s t w key hash e).1 ≡ none
      → let first = (insert_idempotency_pending api s t w key hash e).0 in
        tables (insert_idempotency_pending api first t w key' hash' e').0.db ≡ tables first.db
  second_claim_lost s t w key key' hash hash' e e' h =
      let first = (insert_idempotency_pending api s t w key hash e).0 in
      let made = claim_made s t w key hash e h in
      elim (claim_whole first t w key' hash' e') [
        | inl same ↦ same
        | inr again ↦
            again
            ∙ ap (insert_key t w key' hash' e') made
            ∙ insert_key_taken t w key key' hash hash' e e' (tables s.db)
            ∙ sym made
      ]
