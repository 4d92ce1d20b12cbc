-- ===== src/Operator/Admission/Tiers.antt =====
-- The webhook and the controller agree on the isolation tiers.
use kubebox.Common.{
  Text, codes, text_eq, is_empty, none, ◌≡◌, refl, true, false, ◌||◌, Bool-cases, inl, inr, arith,
}
use kubebox.Operator.Admission.{
  gvisor, validate_runtime_class, validate_class_ref, runtime_class_from_class_ref,
}

gvisor_allowed : validate_runtime_class gvisor ≡ none
unfolding validate_runtime_class text_eq
gvisor_allowed = refl

listed :
    (c : Text)
    → (text_eq c (codes "runc") || text_eq c (codes "gvisor") || text_eq c (codes "kata")) ≡ true
    → validate_runtime_class c ≡ none
unfolding validate_runtime_class
listed c t = rw t refl

-- Whatever class a claim names, the controller runs it in a class that ValidateRuntimeClass allows.
pub runtime_class_allowed :
    (class_ref : Text) → validate_runtime_class (runtime_class_from_class_ref class_ref) ≡ none
unfolding runtime_class_from_class_ref
runtime_class_allowed class_ref = elim (Bool-cases (is_empty class_ref)) [
  | inl e ↦ rw e gvisor_allowed
  | inr e ↦
      elim (Bool-cases (
        text_eq class_ref (codes "runc")
        || text_eq class_ref (codes "gvisor")
        || text_eq class_ref (codes "kata"))) [
          | inl t ↦ rw (e, t) (listed class_ref t)
          | inr t ↦ rw (e, t) gvisor_allowed
        ]
]

-- A class that the webhook admits, if it names one at all, is the class that the controller runs: no
-- claim that is admitted is moved to another tier.
pub admitted_class_kept :
    (class_ref : Text)
    → validate_class_ref class_ref ≡ none
    → is_empty class_ref ≡ false
    → runtime_class_from_class_ref class_ref ≡ class_ref
unfolding validate_class_ref validate_runtime_class runtime_class_from_class_ref
admitted_class_kept class_ref v e = ground arith
