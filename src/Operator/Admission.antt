-- ===== src/Operator/Admission.antt =====
-- The isolation tiers: internal/operator/webhook.go, ValidateRuntimeClass of
-- internal/operator/reconciler.go and runtimeClassFromClassRef of internal/operator/controller.go.
pub mod Tiers
use kubebox.Common.{
  [], ◌∷◌, ◌++◌, Text, codes, text_eq, is_empty, Option, none, some, ◌||◌, if◌then◌else◌,
}

abbrev pub gvisor : Text
gvisor = codes "gvisor"

-- The error that is not nil: the class that is refused, and whether the webhook says where it stands.
pub data ClassError : Type 0 where
  not_allowed : Text → ClassError
  invalid_class_ref : ClassError → ClassError

unfoldable pub validate_runtime_class : Text → Option ClassError
validate_runtime_class runtime_class =
    if text_eq runtime_class (codes "runc")
      || text_eq runtime_class (codes "gvisor")
      || text_eq runtime_class (codes "kata")
    then none
    else some (not_allowed runtime_class)

wrap : Option ClassError → Option ClassError
wrap none = none
wrap (some e) = some (invalid_class_ref e)

unfoldable pub validate_class_ref : Text → Option ClassError
unfolding wrap
validate_class_ref class_ref =
    if is_empty class_ref then none else wrap (validate_runtime_class class_ref)

-- What the webhook says of a new claim and of a changed one, of which only the class is read.
abbrev pub validate_create : Text → Option ClassError
validate_create class_ref = validate_class_ref class_ref

abbrev pub validate_update : Text → Text → Option ClassError
validate_update old_ref new_ref = validate_class_ref new_ref

unfoldable pub runtime_class_from_class_ref : Text → Text
runtime_class_from_class_ref class_ref =
    if is_empty class_ref
    then gvisor
    else if text_eq class_ref (codes "runc")
        || text_eq class_ref (codes "gvisor")
        || text_eq class_ref (codes "kata")
    then class_ref
    else gvisor
