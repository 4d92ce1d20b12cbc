-- ===== src/Common/Bytes.antt =====
-- The functions of the package `strings` that the program calls on paths, headers and tokens.
use Prim.Native.Nat.{ℕ, zero, suc}
use mathlib.Core.Logic.{inl, inr}
use mathlib.Core.Path.{◌≡◌, refl}
use mathlib.Core.Bool.{Bool, true, false, ◌&&◌, ◌||◌}
use mathlib.Core.Option.{Option, none, some}
use mathlib.Core.List.{List, [], ◌∷◌, ◌++◌, reverse}
use native.Mathlib.Omega.{arith}
use kubebox.Common.Tests.{Bool-cases, ◌==◌, leb, if◌then◌else◌}
use kubebox.Common.Strings.{Text, text_eq, has_byte}

abbrev pub length {ℓ} : {A : Type ℓ} → List A → ℕ
length [] = 0
length (x ∷ xs) = suc (length xs)

abbrev pub drop {ℓ} : {A : Type ℓ} → ℕ → List A → List A
drop zero xs = xs
drop (suc n) [] = []
drop (suc n) (x ∷ xs) = drop n xs

abbrev pub take {ℓ} : {A : Type ℓ} → ℕ → List A → List A
take zero xs = []
take (suc n) [] = []
take (suc n) (x ∷ xs) = x ∷ take n xs

-- `strings.HasPrefix`
unfoldable pub starts_with : Text → Text → Bool
starts_with s [] = true
starts_with [] (p ∷ ps) = false
starts_with (c ∷ s) (p ∷ ps) = c == p && starts_with s ps

-- `strings.TrimPrefix`
unfoldable pub trim_prefix : Text → Text → Text
trim_prefix s p = if starts_with s p then drop (length p) s else s

pub starts_with-append : (p s : Text) → starts_with (p ++ s) p ≡ true
unfolding starts_with
starts_with-append [] s = refl
starts_with-append (c ∷ p) s = ground (arith, starts_with-append p s)

pub trim_prefix-append : (p s : Text) → trim_prefix (p ++ s) p ≡ s
unfolding trim_prefix
trim_prefix-append p s = rw (starts_with-append p s) (drop-append p)
  where
    drop-append : (q : Text) → drop (length q) (q ++ s) ≡ s
    drop-append [] = refl
    drop-append (c ∷ q) = drop-append q

abbrev pub push : ℕ → List Text → List Text
push c [] = (c ∷ []) ∷ []
push c (p ∷ ps) = (c ∷ p) ∷ ps

-- `strings.Split` at one byte.
unfoldable pub split : ℕ → Text → List Text
split b [] = [] ∷ []
split b (c ∷ s) = let rest = split b s in if c == b then [] ∷ rest else push c rest

-- `strings.SplitN(s, b, 2)`: what stands before the first `b`, and what stands after it.
unfoldable pub cut : ℕ → Text → Text × Option Text
cut b [] = ([], none)
cut b (c ∷ s) = let (l, r) = cut b s in if c == b then ([], some s) else (c ∷ l, r)

-- `strings.Join`
unfoldable pub join : Text → List Text → Text
join sep [] = []
join sep (s ∷ []) = s
join sep (s ∷ t ∷ ts) = s ++ (sep ++ join sep (t ∷ ts))

unfoldable pub contains_text : List Text → Text → Bool
contains_text [] wanted = false
contains_text (v ∷ vs) wanted = if text_eq v wanted then true else contains_text vs wanted

-- `strings.TrimLeft` and `strings.TrimRight` at one byte.
unfoldable pub trim_left : ℕ → Text → Text
trim_left b [] = []
trim_left b (c ∷ s) = let rest = trim_left b s in if c == b then rest else c ∷ s

unfoldable pub trim_right : ℕ → Text → Text
unfolding trim_left
trim_right b s = reverse (trim_left b (reverse s))

-- The white space of `strings.TrimSpace`: how many bytes its first character takes, 0 for none.
-- Outside ASCII these are U+0085, U+00A0, U+1680, U+2000 to U+200A, U+2028, U+2029, U+202F, U+205F
-- and U+3000.
is_space : ℕ → Bool
is_space c = leb 9 c && leb c 13 || c == 32

is_space3 : ℕ → ℕ → ℕ → Bool
is_space3 a b c =
    a == 0xe1 && b == 0x9a && c == 0x80
    || a == 0xe2 && b == 0x80 && (leb 0x80 c && leb c 0x8a || c == 0xa8 || c == 0xa9 || c == 0xaf)
    || a == 0xe2 && b == 0x81 && c == 0x9f
    || a == 0xe3 && b == 0x80 && c == 0x80

space_width : Text → ℕ
unfolding is_space is_space3
space_width [] = 0
space_width (a ∷ []) = if is_space a then 1 else 0
space_width (a ∷ b ∷ []) =
    if is_space a then 1 else if a == 0xc2 && (b == 0x85 || b == 0xa0) then 2 else 0
space_width (a ∷ b ∷ c ∷ s) =
    if is_space a
    then 1
    else if a == 0xc2 && (b == 0x85 || b == 0xa0)
    then 2
    else if is_space3 a b c
    then 3
    else 0

-- The same for the last character of a text that is given in reverse.
space_width_rev : Text → ℕ
unfolding is_space is_space3
space_width_rev [] = 0
space_width_rev (a ∷ []) = if is_space a then 1 else 0
space_width_rev (b ∷ a ∷ []) =
    if is_space b then 1 else if a == 0xc2 && (b == 0x85 || b == 0xa0) then 2 else 0
space_width_rev (c ∷ b ∷ a ∷ s) =
    if is_space c
    then 1
    else if b == 0xc2 && (c == 0x85 || c == 0xa0)
    then 2
    else if is_space3 a b c
    then 3
    else 0

-- A round takes one character off, so the length of the text is enough of them.
strip : (Text → ℕ) → ℕ → Text → Text
strip width zero s = s
strip width (suc f) s =
    let rest = strip width f (drop (width s) s) in if width s == 0 then s else rest

unfoldable pub trim_space : Text → Text
unfolding strip space_width space_width_rev
trim_space s =
    let front = strip space_width (length s) s in
    reverse (strip space_width_rev (length front) (reverse front))

trim_space_test : trim_space (32 ∷ 97 ∷ 32 ∷ 98 ∷ 0xc2 ∷ 0xa0 ∷ 10 ∷ []) ≡ 97 ∷ 32 ∷ 98 ∷ []
unfolding trim_space
trim_space_test = refl

pub split_no_sep : (b : ℕ) (x : Text) → has_byte b x ≡ false → split b x ≡ x ∷ []
unfolding split has_byte
split_no_sep b [] h = refl
split_no_sep b (c ∷ x) h = ground (arith, split_no_sep b x)

pub split_at_sep :
    (b : ℕ) (x y : Text) → has_byte b x ≡ false → split b (x ++ (b ∷ y)) ≡ x ∷ split b y
unfolding split has_byte
split_at_sep b [] y h = ground arith
split_at_sep b (c ∷ x) y h = ground (arith, split_at_sep b x y)

pub cut_at_sep : (b : ℕ) (x y : Text) → has_byte b x ≡ false → cut b (x ++ (b ∷ y)) ≡ (x, some y)
unfolding cut has_byte
cut_at_sep b [] y h = ground arith
cut_at_sep b (c ∷ x) y h = ground (arith, cut_at_sep b x y)

split_cons : (b : ℕ) (s : Text) → (p : Text) × (ps : List Text) × (split b s ≡ p ∷ ps)
unfolding split
split_cons b [] = ([], [], refl)
split_cons b (c ∷ s) =
    let (p, ps, e) = split_cons b s in
    elim (Bool-cases (c == b)) [
      | inl hit ↦ ([], split b s, rw hit)
      | inr miss ↦ (c ∷ p, ps, rw (miss, e))
    ]

push-append :
    (c : ℕ) (p : Text) (ps ts ss : List Text) → ss ≡ p ∷ ps → push c (ss ++ ts) ≡ push c ss ++ ts
push-append c p ps ts ss e = rw e

-- Splitting takes a separator apart wherever it stands.
pub split-append : (b : ℕ) (x y : Text) → split b (x ++ (b ∷ y)) ≡ split b x ++ split b y
unfolding split
split-append b [] y = ground arith
split-append b (c ∷ x) y =
    let (p, ps, e) = split_cons b x in
    elim (Bool-cases (c == b)) [
      | inl hit ↦ rw (hit, split-append b x y)
      | inr miss ↦ rw (miss, split-append b x y) (push-append c p ps (split b y) (split b x) e)
    ]
