-- ===== src/Common/Maps.antt =====
-- Go maps with string keys, as association lists: at most the first entry of a key is read, an
-- assignment replaces it or adds an entry, and `delete` removes every entry of its key.
use Prim.Native.Nat.{ℕ, ◌+◌}
use mathlib.Core.Path.{◌≡◌, refl}
use mathlib.Core.Bool.{Bool, true, false}
use mathlib.Core.Option.{Option, none, some}
use mathlib.Core.List.{List, [], ◌∷◌}
use native.Mathlib.Omega.{arith}
use kubebox.Common.Tests.{if◌then◌else◌}
use kubebox.Common.Strings.{Text, text_eq, text_eq_iff, text_eq_refl}

abbrev pub Map {ℓ} : Type ℓ → Type ℓ
Map V = List (Text × V)

abbrev pub bit : Bool → ℕ
bit true = 1
bit false = 0

module _ {ℓ} {V : Type ℓ} where
  unfoldable pub lookup : Text → Map V → Option V
  lookup k [] = none
  lookup k ((j, v) ∷ m) = if text_eq j k then some v else lookup k m

  unfoldable pub insert : Text → V → Map V → Map V
  insert k v [] = (k, v) ∷ []
  insert k v ((j, w) ∷ m) = if text_eq j k then (k, v) ∷ m else (j, w) ∷ insert k v m

  unfoldable pub delete : Text → Map V → Map V
  delete k [] = []
  delete k ((j, w) ∷ m) = let rest = delete k m in if text_eq j k then rest else (j, w) ∷ rest

  pub lookup-insert :
      (k j : Text) (v : V) (m : Map V)
      → lookup j (insert k v m) ≡ (if text_eq k j then some v else lookup j m)
  unfolding lookup insert
  lookup-insert k j v [] = refl
  lookup-insert k j v ((i, w) ∷ m) =
      ground (arith, text_eq_iff k j, text_eq_iff i k, text_eq_iff i j, lookup-insert k j v m)

  pub lookup-insert_self : (k : Text) (v : V) (m : Map V) → lookup k (insert k v m) ≡ some v
  lookup-insert_self k v m = ground (arith, lookup-insert k k v m, text_eq_refl k)

  pub lookup-delete :
      (k j : Text) (m : Map V) → lookup j (delete k m) ≡ (if text_eq k j then none else lookup j m)
  unfolding lookup delete
  lookup-delete k j [] = ground arith
  lookup-delete k j ((i, w) ∷ m) =
      ground (arith, text_eq_iff k j, text_eq_iff i k, text_eq_iff i j, lookup-delete k j m)

  -- How many values of a map pass a test, and the share of one entry in that number.
  unfoldable pub count_where : (V → Bool) → Map V → ℕ
  count_where p [] = 0
  count_where p ((k, v) ∷ m) = bit (p v) + count_where p m

  abbrev pub bit_of : (V → Bool) → Option V → ℕ
  bit_of p none = 0
  bit_of p (some v) = bit (p v)

  pub count_where-insert :
      (p : V → Bool) (k : Text) (v : V) (m : Map V)
      → count_where p (insert k v m) + bit_of p (lookup k m) ≡ count_where p m + bit (p v)
  unfolding count_where insert lookup
  count_where-insert p k v [] = omega arith
  count_where-insert p k v ((j, w) ∷ m) = ground (arith, count_where-insert p k v m)
