-- ===== src/Sql/Tables.antt =====
-- The tables of the schema, and what the statements of the store mean in them.
use kubebox.Common.{
  ℕ, ◌+◌, ◌-◌, [], ◌∷◌, ◌++◌, List, Text, codes, text_eq, bit, ltb, ◌==◌, ℤ, pos, Option, none,
  some, Bool, ◌&&◌, if◌then◌else◌, ◌≡◌, ◌⊎◌,
}
use kubebox.Governance.{Time}
use kubebox.Sql.Database.{text_value, int_value, time_value, Answer, done, row, Database}
use kubebox.Sql.Store.{
  Dialect, bind, ensure_text, select_count_text, update_limit_text, take_slot_text,
  insert_allocation_text, release_text, select_status_text, give_slot_text, claim_text,
}

pub record OwnerQuota : Type 0 where
  pub tenant_id : Text
  pub owner_id : Text
  pub concurrent_limit : ℕ
  pub current_count : ℕ

pub record QuotaAllocation : Type 0 where
  pub allocation_id : Text
  pub tenant_id : Text
  pub owner_id : Text
  pub sandbox_id : Text
  pub status : Text
  pub created_time : Time
  pub released_time : Option Time

pub record IdempotencyKey : Type 0 where
  pub tenant_id : Text
  pub idem_key : Text
  pub owner_id : Text
  pub request_hash : Text
  pub status : Text
  pub lease_version : ℕ
  pub expires_at : Time

pub record Tables : Type 0 where
  pub quotas : List OwnerQuota
  pub allocations : List QuotaAllocation
  pub keys : List IdempotencyKey

module _ {R : Type 0} where
  -- `WHERE p`: the number of rows, the first of them, and an update of all of them.
  unfoldable pub count_rows : (R → Bool) → List R → ℕ
  count_rows p [] = 0
  count_rows p (r ∷ rs) = bit (p r) + count_rows p rs

  unfoldable pub first_row : (R → Bool) → List R → Option R
  first_row p [] = none
  first_row p (r ∷ rs) = if p r then some r else first_row p rs

  unfoldable pub update_rows : (R → Bool) → (R → R) → List R → List R
  update_rows p f [] = []
  update_rows p f (r ∷ rs) = (if p r then f r else r) ∷ update_rows p f rs

abbrev pub of_owner : Text → Text → OwnerQuota → Bool
of_owner t w r = text_eq r.tenant_id t && text_eq r.owner_id w

abbrev pub has_room : Text → Text → OwnerQuota → Bool
has_room t w r = of_owner t w r && ltb r.current_count r.concurrent_limit

abbrev pub in_use : Text → Text → OwnerQuota → Bool
in_use t w r = of_owner t w r && ltb 0 r.current_count

abbrev pub is_reserved : QuotaAllocation → Bool
is_reserved r = text_eq r.status (codes "RESERVED")

abbrev pub is_allocation : Text → Text → Text → QuotaAllocation → Bool
is_allocation id t w r =
    text_eq r.allocation_id id && (text_eq r.tenant_id t && text_eq r.owner_id w)

abbrev pub to_release : Text → Text → Text → QuotaAllocation → Bool
to_release id t w r = is_allocation id t w r && is_reserved r

abbrev pub is_key : Text → Text → IdempotencyKey → Bool
is_key t k r = text_eq r.tenant_id t && text_eq r.idem_key k

-- The insertions that do nothing where the primary key is taken.
unfoldable pub ensure_row : Text → Text → ℕ → Tables → Tables
ensure_row t w limit m =
    if count_rows (of_owner t w) m.quotas == 0
    then record m {
      quotas =
          m.quotas
          ++ (record { tenant_id = t; owner_id = w; concurrent_limit = limit; current_count = 0 }
              ∷ []);
    }
    else m

unfoldable pub insert_key : Text → Text → Text → Text → Time → Tables → Tables
insert_key t k w hash expires_at m =
    if count_rows (is_key t k) m.keys == 0
    then record m {
      keys =
          m.keys
          ++ (record {
            tenant_id = t;
            idem_key = k;
            owner_id = w;
            request_hash = hash;
            status = codes "PENDING";
            lease_version = 1;
            expires_at = expires_at;
          }
              ∷ []);
    }
    else m

-- What the updates do to a row.
abbrev pub limited : ℕ → OwnerQuota → OwnerQuota
limited limit r = record r { concurrent_limit = limit }

abbrev pub raised : OwnerQuota → OwnerQuota
raised r = record r { current_count = r.current_count + 1 }

abbrev pub lowered : OwnerQuota → OwnerQuota
lowered r = record r { current_count = r.current_count - 1 }

abbrev pub marked : Time → QuotaAllocation → QuotaAllocation
marked now x = record x { status = codes "RELEASED"; released_time = some now }

unfoldable pub write_limit : Text → Text → ℕ → Tables → Tables
write_limit t w limit m = record m { quotas = update_rows (of_owner t w) (limited limit) m.quotas }

unfoldable pub take_slot : Text → Text → Tables → Tables
take_slot t w m = record m { quotas = update_rows (has_room t w) raised m.quotas }

unfoldable pub give_slot : Text → Text → Tables → Tables
give_slot t w m = record m { quotas = update_rows (in_use t w) lowered m.quotas }

unfoldable pub add_allocation : Text → Text → Text → Text → Time → Tables → Tables
add_allocation id t w sandbox_id now m = record m {
  allocations =
      m.allocations
      ++ (record {
        allocation_id = id;
        tenant_id = t;
        owner_id = w;
        sandbox_id = sandbox_id;
        status = codes "RESERVED";
        created_time = now;
        released_time = none;
      }
          ∷ []);
}

unfoldable pub mark_released : Text → Text → Text → Time → Tables → Tables
mark_released id t w now m = record m {
  allocations = update_rows (to_release id t w) (marked now) m.allocations;
}

-- What the store relies on: a transaction sees the tables as they are, writes them when it commits
-- and not when it is rolled back, and each statement that answers without an error does to the
-- tables, and answers, what SQL says of its text. A statement may fail at any time.
pub record IsSql {D T : Type 0} (api : Database D T) (tables : D → Tables) (view : T → Tables)
    : Type 0 where
  pub begin_view : (d : D) (t : T) → api.begin d ≡ done t → view t ≡ tables d
  pub rollback_view : (d : D) (t : T) → tables (api.rollback d t) ≡ tables d
  pub commit_view : (d : D) (t : T) → (api.commit d t).1 ≡ none → tables (api.commit d t).0 ≡ view t
  -- A commit whose answer is lost may have been made.
  pub commit_lost :
      (d : D) (t : T)
      → (tables (api.commit d t).0 ≡ tables d) ⊎ (tables (api.commit d t).0 ≡ view t)
  pub ensures :
      (s : Dialect) (t : T) (a b : Text) (limit : ℕ) (r : Answer ℤ)
      → let out =
          api.exec t
            (bind s (ensure_text s))
            (text_value a ∷ text_value b ∷ int_value (pos limit) ∷ []) in
        out.1 ≡ done r → view out.0 ≡ ensure_row a b limit (view t)
  pub selects_count :
      (s : Dialect) (t : T) (a b : Text) (n : ℤ)
      → let out = api.query_int t (bind s select_count_text) (text_value a ∷ text_value b ∷ []) in
        out.1 ≡ row n
        → (view out.0 ≡ view t)
          × ((q : OwnerQuota) × (first_row (of_owner a b) (view t).quotas ≡ some q)
              × (n ≡ pos q.current_count))
  pub writes_limit :
      (s : Dialect) (t : T) (a b : Text) (limit : ℕ) (r : Answer ℤ)
      → let out =
          api.exec t
            (bind s update_limit_text)
            (int_value (pos limit) ∷ text_value a ∷ text_value b ∷ []) in
        out.1 ≡ done r → view out.0 ≡ write_limit a b limit (view t)
  pub takes_slot :
      (s : Dialect) (t : T) (a b : Text) (n : ℤ)
      → let out = api.exec t (bind s take_slot_text) (text_value a ∷ text_value b ∷ []) in
        out.1 ≡ done (done n)
        → (view out.0 ≡ take_slot a b (view t))
          × (n ≡ pos (count_rows (has_room a b) (view t).quotas))
  -- The primary key of the table is the allocation id.
  pub inserts_allocation :
      (s : Dialect) (t : T) (id a b sandbox_id : Text) (now : Time) (r : Answer ℤ)
      → let out = api.exec t (bind s insert_allocation_text) (
          text_value id
          ∷ text_value a
          ∷ text_value b
          ∷ text_value sandbox_id
          ∷ time_value now
          ∷ []) in
        out.1 ≡ done r
        → (view out.0 ≡ add_allocation id a b sandbox_id now (view t))
          × (count_rows (λ (x : QuotaAllocation). text_eq x.allocation_id id) (view t).allocations
              ≡ 0)
  pub releases :
      (s : Dialect) (t : T) (id a b : Text) (now : Time) (n : ℤ)
      → let out =
          api.exec t
            (bind s release_text)
            (time_value now ∷ text_value id ∷ text_value a ∷ text_value b ∷ []) in
        out.1 ≡ done (done n)
        → (view out.0 ≡ mark_released id a b now (view t))
          × (n ≡ pos (count_rows (to_release id a b) (view t).allocations))
  pub selects_status :
      (s : Dialect) (t : T) (id a b : Text) (status : Text)
      → let out =
          api.query_text t
            (bind s select_status_text)
            (text_value id ∷ text_value a ∷ text_value b ∷ []) in
        out.1 ≡ row status
        → (view out.0 ≡ view t)
          × ((x : QuotaAllocation) × (first_row (is_allocation id a b) (view t).allocations
                ≡ some x)
              × (status ≡ x.status))
  pub gives_slot :
      (s : Dialect) (t : T) (a b : Text) (n : ℤ)
      → let out = api.exec t (bind s give_slot_text) (text_value a ∷ text_value b ∷ []) in
        out.1 ≡ done (done n)
        → (view out.0 ≡ give_slot a b (view t))
          × (n ≡ pos (count_rows (in_use a b) (view t).quotas))
  -- The columns of the key table in the order of its statement: tenant, key, owner, hash.
  pub claims :
      (s : Dialect) (d : D) (a k b hash : Text) (expires_at : Time)
      → let out = api.exec_db d (bind s (claim_text s)) (
          text_value a
          ∷ text_value k
          ∷ text_value b
          ∷ text_value hash
          ∷ time_value expires_at
          ∷ []) in
        out.1 ≡ none → tables out.0 ≡ insert_key a k b hash expires_at (tables d)
  -- A claim whose answer is lost may have been made.
  pub claim_lost :
      (s : Dialect) (d : D) (a k b hash : Text) (expires_at : Time)
      → let out = api.exec_db d (bind s (claim_text s)) (
          text_value a
          ∷ text_value k
          ∷ text_value b
          ∷ text_value hash
          ∷ time_value expires_at
          ∷ []) in
        (tables out.0 ≡ tables d) ⊎ (tables out.0 ≡ insert_key a k b hash expires_at (tables d))
