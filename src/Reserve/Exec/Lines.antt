-- ===== src/Reserve/Exec/Lines.antt =====
-- persistent_reserve/persistent_reserve.c: nothing is read past a buffer, and the lines of an output
-- are all of it.
use corosync_qdisk.Prelude.{
  ℕ, ◌+◌, ◌-◌, ◌<◌, ◌≤◌, ◌≡◌, ◌≢◌, refl, ◌∙◌, ap, List, [], ◌∷◌, ◌++◌, Text, leb, ◌||◌, ◌==◌,
  length, length-append, All, arith, false, Bool-cases, inl, inr,
}
use mathlib.Core.List.{append_assoc}
use corosync_qdisk.Reserve.Exec.{lines_from, lines}

-- The lines one behind another.
abbrev pub concat : List Text → Text
concat [] = []
concat (l ∷ ls) = l ++ concat ls

concat-lines_from : (size room : ℕ) (acc t : Text) → concat (lines_from size room acc t) ≡ acc ++ t
unfolding lines_from
concat-lines_from size room [] [] = refl
concat-lines_from size room (a ∷ acc) [] = refl
concat-lines_from size room acc (c ∷ t) = elim (Bool-cases (c == 10 || leb room 1)) [
  | inl e ↦
      rw (e, lines_from)
        (ap (λ u. (acc ++ c ∷ []) ++ u) (concat-lines_from size (size - 1) [] t)
          ∙ append_assoc acc (c ∷ []) t)
  | inr e ↦
      rw (e, lines_from)
        (concat-lines_from size (room - 1) (acc ++ c ∷ []) t ∙ append_assoc acc (c ∷ []) t)
]

-- The lines that `fgets` reads with a buffer of `size` bytes are the whole output, in its order.
pub concat-lines : (size : ℕ) (t : Text) → concat (lines size t) ≡ t
unfolding lines
concat-lines size t = concat-lines_from size (size - 1) [] t

lines_from-bounded :
    (size room : ℕ) (acc t : Text)
    → 2 ≤ size
    → length acc + room < size
    → 1 ≤ room
    → All (λ l. length l < size) (lines_from size room acc t)
unfolding lines_from
lines_from-bounded size room [] [] h a r = tt
lines_from-bounded size room (a ∷ acc) [] h p r = (omega (arith, p), tt)
lines_from-bounded size room acc (c ∷ t) h p r = ground (
  arith,
  length-append acc (c ∷ []),
  lines_from-bounded size (size - 1) [] t h,
  lines_from-bounded size (room - 1) (acc ++ c ∷ []) t h,
)

-- Each line fits in the buffer with the zero that ends it.
pub lines-bounded : (size : ℕ) (t : Text) → 2 ≤ size → All (λ l. length l < size) (lines size t)
unfolding lines
lines-bounded size t h = lines_from-bounded size (size - 1) [] t h (omega arith) (omega arith)

-- A line that is whole: it ends with its only newline, and fits in the buffer.
abbrev pub IsWhole : ℕ → Text → Type 0
IsWhole room [] = ⊥
IsWhole room (c ∷ []) = (c ≡ 10) × (1 ≤ room)
IsWhole room (c ∷ d ∷ t) = (c ≢ 10) × ((2 ≤ room) × IsWhole (room - 1) (d ∷ t))

lines_from-line :
    (size room : ℕ) (acc line rest : Text)
    → IsWhole room line
    → lines_from size room acc (line ++ rest) ≡ (acc ++ line) ∷ lines_from size (size - 1) [] rest
unfolding lines_from
lines_from-line size room acc [] rest h = absurd h
lines_from-line size room acc (c ∷ []) rest h = ground (arith, h)
lines_from-line size room acc (c ∷ d ∷ t) rest (ne, (wide, h)) =
    let goes_on : (c == 10 || leb room 1) ≡ false = ground (arith, ne, wide) in
    rw (goes_on, lines_from)
      (lines_from-line size (room - 1) (acc ++ c ∷ []) (d ∷ t) rest h
        ∙ ap (λ l. l ∷ lines_from size (size - 1) [] rest) (append_assoc acc (c ∷ []) (d ∷ t)))

-- Lines that are whole are read back from their text.
pub lines-concat :
    (size : ℕ) (ls : List Text) → All (IsWhole (size - 1)) ls → lines size (concat ls) ≡ ls
unfolding lines lines_from
lines-concat size [] h = refl
lines-concat size (l ∷ ls) h =
    lines_from-line size (size - 1) [] l (concat ls) h.0
    ∙ ap (λ r. l ∷ r) (lines-concat size ls h.1)
