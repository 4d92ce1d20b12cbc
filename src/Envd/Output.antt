-- ===== src/Envd/Output.antt =====
-- `limitedWriter` of internal/envd/executor.go: a buffer that takes no more than `max` bytes and
-- drops the rest without an error.
use mathlib.Core.List.{append-nil, append_assoc}
use kubebox.Common.{
  ℕ, zero, suc, ◌-◌, ◌≤◌, [], ◌∷◌, ◌++◌, List, Text, length, take, leb_ℤ, ltb_ℤ, ℤ, pos, pos_part,
  ◌-ℤ◌, if◌then◌else◌, ◌≡◌, refl, sym, ◌∙◌, ap, arith,
}

pub record LimitedWriter : Type 0 where
  pub buffer : Text
  pub max : ℤ

-- `Write`: the writer after it and the number of bytes that it reports, which is always the whole
-- length. `p[:room]` is taken where `0 < room < len(p)`.
unfoldable pub write : LimitedWriter → Text → LimitedWriter × ℕ
write l p =
    let room = l.max -ℤ pos (length l.buffer) in
    if leb_ℤ room (pos 0)
    then (l, length p)
    else if ltb_ℤ room (pos (length p))
    then (record l { buffer = l.buffer ++ take (pos_part room) p }, length p)
    else (record l { buffer = l.buffer ++ p }, length p)

pub write_all : LimitedWriter → List Text → LimitedWriter
write_all l [] = l
write_all l (p ∷ ps) = write_all (write l p).0 ps

pub concat : List Text → Text
concat [] = []
concat (p ∷ ps) = p ++ concat ps

take_all : (n : ℕ) (s : Text) → length s ≤ n → take n s ≡ s
take_all zero [] h = refl
take_all zero (c ∷ s) h = absurd (omega arith)
take_all (suc n) [] h = refl
take_all (suc n) (c ∷ s) h = ap (λ t. c ∷ t) (take_all n s (omega arith))

take_zero : (n : ℕ) (s : Text) → n ≡ 0 → take n s ≡ []
take_zero zero s h = refl
take_zero (suc n) s h = absurd (omega arith)

take-nil : (n : ℕ) → take {A = ℕ} n [] ≡ []
take-nil zero = refl
take-nil (suc n) = refl

take-append : (n : ℕ) (s t : Text) → take n (s ++ t) ≡ take n s ++ take (n - length s) t
take-append n [] t = rw (take-nil n) (ap (λ k. take k t) (omega arith))
take-append zero (c ∷ s) t = sym (take_zero (0 - suc (length s)) t (omega arith))
take-append (suc n) (c ∷ s) t =
    let same : suc n - suc (length s) ≡ n - length s = omega arith in
    rw (same, take-append n s t) refl

room-take : (n : ℕ) (s : Text) → n - length (take n s) ≡ n - length s
room-take zero s = omega arith
room-take (suc n) [] = refl
room-take (suc n) (c ∷ s) = omega (arith, room-take n s)

-- A write appends what there is room for.
write-buffer :
    (n : ℕ) (p : Text) (l : LimitedWriter)
    → l.max ≡ pos n
    → (write l p).0.buffer ≡ l.buffer ++ take (n - length l.buffer) p
unfolding write ◌-ℤ◌
write-buffer n p l m = ground (
  arith,
  m,
  take_zero (n - length l.buffer) p,
  take_all (n - length l.buffer) p,
  append-nil l.buffer,
)

max-write : (l : LimitedWriter) (p : Text) → (write l p).0.max ≡ l.max
unfolding write
max-write l p = ground arith

write_all-take :
    (n : ℕ) (s : Text) (ps : List Text) (l : LimitedWriter)
    → l.max ≡ pos n
    → l.buffer ≡ take n s
    → (write_all l ps).buffer ≡ take n (s ++ concat ps)
unfolding write_all concat
write_all-take n s [] l m b = rw (append-nil s) b
write_all-take n s (p ∷ ps) l m b =
    write_all-take n (s ++ p) ps (write l p).0 (max-write l p ∙ m) grown
    ∙ ap (take n) (append_assoc s p (concat ps))
  where
    grown : (write l p).0.buffer ≡ take n (s ++ p)
    grown = write-buffer n p l m ∙ rw (b, room-take n s) (sym (take-append n s p))

-- However the output of a command is cut into writes, a writer that starts empty ends with the first
-- `n` bytes of it, where `n` is the limit; a write reports its whole length.
pub write_all_lem :
    (n : ℕ) (ps : List Text)
    → ((write_all (record { buffer = []; max = pos n }) ps).buffer ≡ take n (concat ps))
      × ((l : LimitedWriter) (p : Text) → (write l p).1 ≡ length p)
unfolding write
write_all_lem n ps = (write_all-take n [] ps _ refl (sym (take-nil n)), λ l p. ground arith)
