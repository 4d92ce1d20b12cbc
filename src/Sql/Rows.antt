-- ===== src/Sql/Rows.antt =====
-- Rows that are counted and summed across insertions and updates.
use kubebox.Common.{
  ℕ, ◌+◌, ◌≤◌, [], ◌∷◌, ◌++◌, List, Text, codes, text_eq, text_eq_iff, some, Bool, true, false,
  ◌&&◌, ◌≡◌, refl, if◌then◌else◌, arith, Bool-cases, inl, inr,
}
use kubebox.Governance.{Time}
use kubebox.Sql.Tables.{
  OwnerQuota, QuotaAllocation, count_rows, first_row, update_rows, limited, raised, lowered, marked,
  of_owner, has_room, in_use, is_reserved, to_release,
}

module _ {R : Type 0} where
  pub count_rows-append :
      (p : R → Bool) (xs ys : List R) → count_rows p (xs ++ ys) ≡ count_rows p xs + count_rows p ys
  unfolding count_rows
  count_rows-append p [] ys = omega arith
  count_rows-append p (x ∷ xs) ys = omega (arith, count_rows-append p xs ys)

  -- An update that leaves a test alone leaves its count alone.
  pub count_rows-update :
      (p q : R → Bool) (f : R → R)
      → ((r : R) → p (f r) ≡ p r)
      → (rs : List R) → count_rows p (update_rows q f rs) ≡ count_rows p rs
  unfolding count_rows update_rows
  count_rows-update p q f h [] = refl
  count_rows-update p q f h (r ∷ rs) = ground (arith, h r, count_rows-update p q f h rs)

  pub count_rows_mono :
      (p q : R → Bool)
      → ((r : R) → p r ≡ true → q r ≡ true)
      → (rs : List R) → count_rows p rs ≤ count_rows q rs
  unfolding count_rows
  count_rows_mono p q h [] = omega arith
  count_rows_mono p q h (r ∷ rs) = ground (arith, h r, count_rows_mono p q h rs)

pub update_rows_none :
    {R : Type 0} (p : R → Bool) (f : R → R) (rs : List R)
    → count_rows p rs ≡ 0
    → update_rows p f rs ≡ rs
unfolding update_rows count_rows
update_rows_none p f [] h = refl
update_rows_none p f (r ∷ rs) h = ground (arith, update_rows_none p f rs)

-- The slots that the rows of an owner count, and the allocations that it holds.
unfoldable pub taken : Text → Text → List OwnerQuota → ℕ
taken t w [] = 0
taken t w (q ∷ qs) = (if of_owner t w q then q.current_count else 0) + taken t w qs

abbrev pub holds : Text → Text → QuotaAllocation → Bool
holds t w x = text_eq x.tenant_id t && text_eq x.owner_id w && is_reserved x

abbrev pub same_owner : Text → Text → Text → Text → Bool
same_owner t w t' w' = text_eq t t' && text_eq w w'

pub taken-append :
    (t w : Text) (xs ys : List OwnerQuota) → taken t w (xs ++ ys) ≡ taken t w xs + taken t w ys
unfolding taken
taken-append t w [] ys = omega arith
taken-append t w (x ∷ xs) ys = omega (arith, taken-append t w xs ys)

pub taken-limit :
    (t w a b : Text) (limit : ℕ) (qs : List OwnerQuota)
    → taken t w (update_rows (of_owner a b) (limited limit) qs) ≡ taken t w qs
unfolding taken update_rows
taken-limit t w a b limit [] = refl
taken-limit t w a b limit (q ∷ qs) = ground (arith, taken-limit t w a b limit qs)

pub taken-take :
    (t w a b : Text) (qs : List OwnerQuota)
    → taken t w (update_rows (has_room a b) raised qs)
      ≡ taken t w qs + (if same_owner a b t w then count_rows (has_room a b) qs else 0)
unfolding taken update_rows count_rows
taken-take t w a b [] = ground arith
taken-take t w a b (q ∷ qs) = ground (
  arith,
  taken-take t w a b qs,
  text_eq_iff a t,
  text_eq_iff b w,
  text_eq_iff q.tenant_id a,
  text_eq_iff q.tenant_id t,
  text_eq_iff q.owner_id b,
  text_eq_iff q.owner_id w,
)

pub taken-give :
    (t w a b : Text) (qs : List OwnerQuota)
    → taken t w (update_rows (in_use a b) lowered qs)
        + (if same_owner a b t w then count_rows (in_use a b) qs else 0)
      ≡ taken t w qs
unfolding taken update_rows count_rows
taken-give t w a b [] = ground arith
taken-give t w a b (q ∷ qs) = ground (
  arith,
  taken-give t w a b qs,
  text_eq_iff a t,
  text_eq_iff b w,
  text_eq_iff q.tenant_id a,
  text_eq_iff q.tenant_id t,
  text_eq_iff q.owner_id b,
  text_eq_iff q.owner_id w,
)

released_differs : text_eq (codes "RELEASED") (codes "RESERVED") ≡ false
unfolding text_eq
released_differs = refl

pub holds-release :
    (t w a b id : Text) (now : Time) (xs : List QuotaAllocation)
    → count_rows (holds t w) (update_rows (to_release id a b) (marked now) xs)
        + (if same_owner a b t w then count_rows (to_release id a b) xs else 0)
      ≡ count_rows (holds t w) xs
unfolding update_rows count_rows
holds-release t w a b id now [] = ground arith
holds-release t w a b id now (x ∷ xs) = ground (
  arith,
  holds-release t w a b id now xs,
  released_differs,
  text_eq_iff a t,
  text_eq_iff b w,
  text_eq_iff x.tenant_id a,
  text_eq_iff x.tenant_id t,
  text_eq_iff x.owner_id b,
  text_eq_iff x.owner_id w,
)

-- Every row is within its limit.
abbrev pub AllWithin : List OwnerQuota → Type 0
AllWithin [] = Unit {0}
AllWithin (q ∷ qs) = (q.current_count ≤ q.concurrent_limit) × AllWithin qs

pub AllWithin-take :
    (a b : Text) (qs : List OwnerQuota)
    → AllWithin qs
    → AllWithin (update_rows (has_room a b) raised qs)
unfolding update_rows
AllWithin-take a b [] h = tt
AllWithin-take a b (q ∷ qs) h = (ground arith, AllWithin-take a b qs h.1)

pub AllWithin-give :
    (a b : Text) (qs : List OwnerQuota)
    → AllWithin qs
    → AllWithin (update_rows (in_use a b) lowered qs)
unfolding update_rows
AllWithin-give a b [] h = tt
AllWithin-give a b (q ∷ qs) h = (ground arith, AllWithin-give a b qs h.1)

pub AllWithin-append :
    (xs ys : List OwnerQuota) → AllWithin xs → AllWithin ys → AllWithin (xs ++ ys)
AllWithin-append [] ys h k = k
AllWithin-append (x ∷ xs) ys h k = (h.0, AllWithin-append xs ys h.1 k)

-- Where an owner has one row, a limit that covers its count may be written.
pub AllWithin-limit :
    (a b : Text) (limit : ℕ) (first : OwnerQuota) (qs : List OwnerQuota)
    → count_rows (of_owner a b) qs ≤ 1
    → first_row (of_owner a b) qs ≡ some first
    → first.current_count ≤ limit
    → AllWithin qs
    → AllWithin (update_rows (of_owner a b) (limited limit) qs)
unfolding update_rows count_rows first_row
AllWithin-limit a b limit first [] u f c h = tt
AllWithin-limit a b limit first (q ∷ qs) u f c h = elim (Bool-cases (of_owner a b q)) [
  | inl own ↦
      let none_left : count_rows (of_owner a b) qs ≡ 0 = ground (arith, own) in
      rw (own, update_rows_none (of_owner a b) (limited limit) qs none_left)
        (ground (arith, own), h.1)
  | inr other ↦
      rw other
        (h.0, AllWithin-limit a b limit first qs (ground (arith, other)) (rw other at f) c h.1)
]
