-- ===== src/Common/Decimal.antt =====
-- `fmt.Sprintf` of an unsigned number: decimal digits, `%08d` padded with zeros to eight.
use Prim.Native.Nat.{ℕ, zero, suc, ◌+◌, ◌-◌, ◌*◌, ◌/◌, ◌%◌, ◌<◌}
use mathlib.Core.Path.{◌≡◌, refl, ap}
use mathlib.Core.List.{List, [], ◌∷◌}
use native.Mathlib.Omega.{arith}
use kubebox.Common.Tests.{ltb, if◌then◌else◌}
use kubebox.Common.Strings.{Text}

abbrev length {ℓ} : {A : Type ℓ} → List A → ℕ
length [] = 0
length (x ∷ xs) = suc (length xs)

-- The digits of `n` before those of `acc`; each round takes one digit, so `n + 1` rounds suffice.
digits : ℕ → ℕ → Text → Text
digits zero n acc = acc
digits (suc f) n acc =
    let rest = digits f (n / 10) ((48 + n % 10) ∷ acc) in if ltb n 10 then (48 + n) ∷ acc else rest

-- `fmt.Sprintf("%d", n)`
unfoldable pub decimal : ℕ → Text
unfolding digits
decimal n = digits (n + 1) n []

abbrev pub zeros : ℕ → Text → Text
zeros zero s = s
zeros (suc n) s = 48 ∷ zeros n s

unfoldable pub pad8 : ℕ → Text
unfolding digits
pad8 n = let s = digits (n + 1) n [] in zeros (8 - length s) s

-- The number that a row of digits stands for, most significant first, from `acc`.
pub value : ℕ → Text → ℕ
value acc [] = acc
value acc (d ∷ ds) = value (acc * 10 + (d - 48)) ds

value-zeros : (k : ℕ) (s : Text) → value 0 (zeros k s) ≡ value 0 s
unfolding value
value-zeros zero s = refl
value-zeros (suc k) s = value-zeros k s

value-digits : (f n : ℕ) (acc : Text) → n < f → value 0 (digits f n acc) ≡ value n acc
unfolding value digits
value-digits zero n acc h = elim h [ ]
value-digits (suc f) n acc h = ground (
  arith,
  value-digits f (n / 10) ((48 + n % 10) ∷ acc),
  ap (λ (t : ℕ). value t acc) (last_digit n),
)
  where
    last_digit : (k : ℕ) → k / 10 * 10 + (48 + k % 10 - 48) ≡ k
    last_digit k = omega arith

-- Reading the printed number back gives the number.
pub value-pad8 : (n : ℕ) → value 0 (pad8 n) ≡ n
unfolding pad8 value
value-pad8 n = ground (
  arith,
  value-zeros (8 - length (digits (n + 1) n [])) (digits (n + 1) n []),
  value-digits (n + 1) n [],
)

-- So two numbers that print alike are equal.
pub pad8_inj : (m n : ℕ) → pad8 m ≡ pad8 n → m ≡ n
pad8_inj m n h = omega (arith, ap (value 0) h, value-pad8 m, value-pad8 n)

pub value-decimal : (n : ℕ) → value 0 (decimal n) ≡ n
unfolding decimal value
value-decimal n = ground (arith, value-digits (n + 1) n [])

pad8_small : pad8 42 ≡ 48 ∷ 48 ∷ 48 ∷ 48 ∷ 48 ∷ 48 ∷ 52 ∷ 50 ∷ []
unfolding pad8
pad8_small = refl
