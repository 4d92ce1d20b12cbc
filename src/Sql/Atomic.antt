-- ===== src/Sql/Atomic.antt =====
-- Transactions are atomic: what a body does to the tables happens as a whole or not at all.
use kubebox.Common.{
  List, Text, Bool, true, false, Option, none, some, ◌≡◌, refl, sym, ◌∙◌, ap, subst, ◌⊎◌, inl, inr,
}
use kubebox.Governance.{GovError, other}
use kubebox.Sql.Database.{
  Value, no_rows_text, Answer, done, failing, Scanned, row, no_rows, scan_failing, Database, Result,
  ok, err, Body, continue, guard, of_answer, of_scanned, transact, after_begin, end_transaction,
  of_driver,
}
use kubebox.Sql.Tables.{Tables, IsSql}

-- A body that succeeds, taken apart at its first statement.
module _ {T : Type 0} where
  pub answer_then-ok :
      {A : Type 0} (u : T) (a : Answer A) (f : A → Body T (Unit {0})) (t' : T)
      → continue (u, of_answer a) f ≡ (t', ok tt)
      → (r : A) × (a ≡ done r) × (f r u ≡ (t', ok tt))
  unfolding continue of_answer
  answer_then-ok u (done r) f t' h = (r, refl, h)
  answer_then-ok u (failing e) f t' h = cc

  pub scanned_then-ok :
      {A : Type 0} (u : T) (a : Scanned A) (f : A → Body T (Unit {0})) (t' : T)
      → continue (u, of_scanned a) f ≡ (t', ok tt)
      → (r : A) × (a ≡ row r) × (f r u ≡ (t', ok tt))
  unfolding continue of_scanned
  scanned_then-ok u (row r) f t' h = (r, refl, h)
  scanned_then-ok u no_rows f t' h = cc
  scanned_then-ok u (scan_failing e) f t' h = cc

  pub guard-ok :
      (u : T) (b : Bool) (e : GovError) (t' : T) → guard b e u ≡ (t', ok tt) → (b ≡ true) × (u ≡ t')
  unfolding guard
  guard-ok u true e t' h = (refl, ap (λ o. o.0) h)
  guard-ok u false e t' h = cc

  pub guard_then-ok :
      (u : T) (b : Bool) (e : GovError) (f : Unit {0} → Body T (Unit {0})) (t' : T)
      → continue (guard b e u) f ≡ (t', ok tt)
      → (b ≡ true) × (f tt u ≡ (t', ok tt))
  unfolding continue guard
  guard_then-ok u true e f t' h = (refl, h)
  guard_then-ok u false e f t' h = cc

-- A body that fails, taken apart at its first statement.
module _ {T : Type 0} where
  pub answer_then-err :
      {A : Type 0} (u : T) (a : Answer A) (f : A → Body T (Unit {0})) (t' : T) (x : GovError)
      → continue (u, of_answer a) f ≡ (t', err x)
      → ((e : Text) × (a ≡ failing e) × (x ≡ other e))
        ⊎ ((r : A) × (a ≡ done r) × (f r u ≡ (t', err x)))
  unfolding continue of_answer
  answer_then-err u (done r) f t' x h = inr (r, refl, h)
  answer_then-err u (failing e) f t' x h = inl (e, refl, cc)

  pub scanned_then-err :
      {A : Type 0} (u : T) (a : Scanned A) (f : A → Body T (Unit {0})) (t' : T) (x : GovError)
      → continue (u, of_scanned a) f ≡ (t', err x)
      → ((a ≡ no_rows) × (x ≡ other no_rows_text))
        ⊎ (((e : Text) × (a ≡ scan_failing e) × (x ≡ other e))
            ⊎ ((r : A) × (a ≡ row r) × (f r u ≡ (t', err x))))
  unfolding continue of_scanned
  scanned_then-err u (row r) f t' x h = inr (inr (r, refl, h))
  scanned_then-err u no_rows f t' x h = inl (refl, cc)
  scanned_then-err u (scan_failing e) f t' x h = inr (inl (e, refl, cc))

  pub guard-err :
      (u : T) (b : Bool) (e : GovError) (t' : T) (x : GovError)
      → guard b e u ≡ (t', err x)
      → (b ≡ false) × (x ≡ e)
  unfolding guard
  guard-err u true e t' x h = cc
  guard-err u false e t' x h = (refl, cc)

  pub guard_then-err :
      (u : T) (b : Bool) (e : GovError) (f : Unit {0} → Body T (Unit {0})) (t' : T) (x : GovError)
      → continue (guard b e u) f ≡ (t', err x)
      → ((b ≡ false) × (x ≡ e)) ⊎ ((b ≡ true) × (f tt u ≡ (t', err x)))
  unfolding continue guard
  guard_then-err u true e f t' x h = inr (refl, h)
  guard_then-err u false e f t' x h = inl (refl, cc)

module _ {D T : Type 0} (api : Database D T) where
  -- A text that the database answers some call with as its error.
  pub data IsAnswered : Text → Type 0 where
    begin_failed : (d : D) (e : Text) → api.begin d ≡ failing e → IsAnswered e
    exec_failed :
        (t : T) (q : Text) (args : List Value) (e : Text)
        → (api.exec t q args).1 ≡ failing e
        → IsAnswered e
    rows_failed :
        (t : T) (q : Text) (args : List Value) (e : Text)
        → (api.exec t q args).1 ≡ done (failing e)
        → IsAnswered e
    int_missing :
        (t : T) (q : Text) (args : List Value)
        → (api.query_int t q args).1 ≡ no_rows
        → IsAnswered no_rows_text
    int_failed :
        (t : T) (q : Text) (args : List Value) (e : Text)
        → (api.query_int t q args).1 ≡ scan_failing e
        → IsAnswered e
    text_failed :
        (t : T) (q : Text) (args : List Value) (e : Text)
        → (api.query_text t q args).1 ≡ scan_failing e
        → IsAnswered e
    commit_failed : (d : D) (t : T) (e : Text) → (api.commit d t).1 ≡ some e → IsAnswered e

  -- An error that is a refusal of the method's own, in the tables as they are, or the database's.
  abbrev pub IsCause : (Tables → GovError → Type 0) → Tables → GovError → Type 0
  IsCause R m x = R m x ⊎ ((e : Text) × (x ≡ other e) × IsAnswered e)

  -- A change `Q` of the tables that is made as a whole or not at all. It has been made where there is
  -- no error. Where there is one, nothing has changed, and the error is a refusal `R` or one of the
  -- database; or the change has been made and the error is what its commit answered.
  pub record IsAtomic (tables : D → Tables) (Q : Tables → Tables → Type 0)
      (R : Tables → GovError → Type 0) (d d' : D) (error : Option GovError) : Type 0 where
    pub made : error ≡ none → Q (tables d) (tables d')
    pub failed :
        (x : GovError)
        → error ≡ some x
        → ((tables d' ≡ tables d) × IsCause R (tables d) x)
          ⊎ (Q (tables d) (tables d')
              × ((t : T) × (e : Text) × (api.commit d t ≡ (d', some e)) × (x ≡ other e)))

  pub IsAtomic-whole :
      (tables : D → Tables) (Q : Tables → Tables → Type 0) (R : Tables → GovError → Type 0)
      (d d' : D) (error : Option GovError)
      → IsAtomic tables Q R d d' error
      → (tables d' ≡ tables d) ⊎ Q (tables d) (tables d')
  IsAtomic-whole tables Q R d d' none a = inr (a.made refl)
  IsAtomic-whole tables Q R d d' (some x) a = elim (a.failed x refl) [
    | inl nothing ↦ inl nothing.0
    | inr lost ↦ inr lost.0
  ]

module _ {D T : Type 0} (api : Database D T) (tables : D → Tables) (view : T → Tables)
    (sql : IsSql api tables view) (Q : Tables → Tables → Type 0)
    (R : Tables → GovError → Type 0) where
  commit-IsAtomic :
      (d : D) (t : T) (out : D × Option Text)
      → out ≡ api.commit d t
      → Q (tables d) (view t)
      → IsAtomic api tables Q R d (of_driver out).0 (of_driver out).1
  unfolding of_driver
  commit-IsAtomic d t (u, none) e q =
      let kept : tables u ≡ view t =
        ap (λ (o : D × Option Text). tables o.0) e
        ∙ sql.commit_view d t (ap (λ (o : D × Option Text). o.1) (sym e)) in
      record { made = λ h. subst (Q (tables d)) (sym kept) q; failed = λ x h. cc }
  commit-IsAtomic d t (u, some y) e q =
      let same : tables u ≡ tables (api.commit d t).0 =
        ap (λ (o : D × Option Text). tables o.0) e in
      let answered : (api.commit d t).1 ≡ some y = ap (λ (o : D × Option Text). o.1) (sym e) in
      record {
        made = λ h. cc;
        failed = λ x h.
            let named : x ≡ other y = cc in
            elim (sql.commit_lost d t) [
              | inl before ↦ inl (same ∙ before, inr (y, named, commit_failed d t y answered))
              | inr after ↦ inr (subst (Q (tables d)) (sym (same ∙ after)) q, (t, y, sym e, named))
            ];
      }

  end-IsAtomic :
      (d : D) (out : T × Result (Unit {0}))
      → (out.1 ≡ ok tt → Q (tables d) (view out.0))
      → ((x : GovError) → out.1 ≡ err x → IsCause api R (tables d) x)
      → let after = end_transaction api d out in IsAtomic api tables Q R d after.0 after.1
  unfolding end_transaction
  end-IsAtomic d (t, ok tt) q r = commit-IsAtomic d t (api.commit d t) refl (q refl)
  end-IsAtomic d (t, err e) q r = record {
    made = λ h. cc;
    failed = λ x h. inl (sql.rollback_view d t, r x (ap err cc));
  }

  begun-IsAtomic :
      (d : D) (body : Body T (Unit {0})) (begun : Answer T)
      → begun ≡ api.begin d
      → ((t t' : T) → body t ≡ (t', ok tt) → Q (view t) (view t'))
      → ((t t' : T) (x : GovError) → body t ≡ (t', err x) → IsCause api R (view t) x)
      → let after = after_begin api d body begun in IsAtomic api tables Q R d after.0 after.1
  unfolding after_begin
  begun-IsAtomic d body (failing e) b q r = record {
    made = λ h. cc;
    failed = λ x h. inl (refl, inr (e, cc, begin_failed d e (sym b)));
  }
  begun-IsAtomic d body (done t) b q r =
      let at_start = sql.begin_view d t (sym b) in
      end-IsAtomic d (body t)
        (λ h.
          subst (λ m. Q m (view (body t).0)) at_start
            (q t (body t).0 (ap (λ o. ((body t).0, o)) h)))
        (λ x h.
          subst (λ m. IsCause api R m x) at_start (r t (body t).0 x (ap (λ o. ((body t).0, o)) h)))

  -- If a body that succeeds makes the change `Q` to what its transaction sees, and its errors have a
  -- cause, then its transaction is atomic.
  pub transact-IsAtomic :
      (d : D) (body : Body T (Unit {0}))
      → ((t t' : T) → body t ≡ (t', ok tt) → Q (view t) (view t'))
      → ((t t' : T) (x : GovError) → body t ≡ (t', err x) → IsCause api R (view t) x)
      → IsAtomic api tables Q R d (transact api d body).0 (transact api d body).1
  unfolding transact
  transact-IsAtomic d body q r = begun-IsAtomic d body (api.begin d) refl q r
