-- ===== src/Reserve/Scsi/Parse.antt =====
-- persistent_reserve/scsi_device.c: the output of sg_persist is read back as what it says.
use corosync_qdisk.Prelude.{
  ℕ, zero, suc, ◌+◌, ◌-◌, ◌*◌, ◌^◌, ◌<◌, ◌≤◌, ◌≡◌, refl, ◌∙◌, ◌⊎◌, ap, true, none, some, List, [],
  ◌∷◌, ◌++◌, map, Text, codes, length, length-append, arith, All,
}
use corosync_qdisk.Libc.{
  hex_fixed, hex_value, read_hex, eof, mismatch, matched, scan_digits, scan_signed, scan_hex,
  scan_literal, skip_spaces, has_text,
}
use corosync_qdisk.Libc.Keys.{read_hex-hex_fixed, length-hex_fixed}
use corosync_qdisk.Reserve.Scsi.{
  scan_any, scan_generation, scan_key_line, find_key_line, find_status, keys_of_lines,
}

-- The text goes on with something that is no hexadecimal digit.
abbrev pub EndsDigits : Text → Type 0
EndsDigits [] = Unit
EndsDigits (c ∷ t) = hex_value c ≡ none

pub read_hex-end : (m acc : ℕ) (t : Text) → EndsDigits t → read_hex m acc t ≡ acc
unfolding read_hex
read_hex-end zero acc t h = refl
read_hex-end (suc m) acc [] h = refl
read_hex-end (suc m) acc (c ∷ t) h = ground arith

-- `0x` and `w` digits, with a width that allows for them.
scan_digits-0x :
    (n w k : ℕ) (rest : Text)
    → 2 + w ≤ n
    → k < 16 ^ w
    → k < 2 ^ 64
    → EndsDigits rest
    → scan_digits n (48 ∷ 120 ∷ hex_fixed w k ++ rest) ≡ matched k
unfolding scan_digits
scan_digits-0x n w k rest wide h fits e =
    let m = n - 2 - w in
    let width : n - 2 ≡ w + m = omega (arith, wide) in
    let none_before : 0 * 16 ^ w + k ≡ k = omega arith in
    let value : read_hex (n - 2) 0 (hex_fixed w k ++ rest) ≡ k =
      ap (λ n. read_hex n 0 (hex_fixed w k ++ rest)) width
      ∙ read_hex-hex_fixed w k m 0 rest h
      ∙ read_hex-end m (0 * 16 ^ w + k) rest e
      ∙ none_before in
    ground (arith, value)

-- A key as sg_persist prints it, on `w` digits.
abbrev pub shown : ℕ → ℕ → Text
shown w k = codes "0x" ++ hex_fixed w k

length-shown : (w k : ℕ) (rest : Text) → length (hex_fixed w k ++ rest) ≡ w + length rest
length-shown w k rest =
    length-append (hex_fixed w k) rest ∙ ap (λ n. n + length rest) (length-hex_fixed w k)

pub scan_any-shown :
    (w k : ℕ) (rest : Text)
    → k < 16 ^ w
    → k < 2 ^ 64
    → EndsDigits rest
    → scan_any (shown w k ++ rest) ≡ matched k
unfolding scan_any scan_hex skip_spaces scan_signed
scan_any-shown w k rest h fits e =
    scan_digits-0x _ w k rest (omega (arith, length-shown w k rest)) h fits e

-- The white space at the head is skipped.
scan_any-indented :
    (w k : ℕ) (rest : Text)
    → k < 16 ^ w
    → k < 2 ^ 64
    → EndsDigits rest
    → scan_any (codes "    " ++ shown w k ++ rest) ≡ matched k
unfolding scan_any scan_hex skip_spaces scan_signed
scan_any-indented w k rest h fits e =
    scan_digits-0x _ w k rest (omega (arith, length-shown w k rest)) h fits e

-- `"    0x<key>"`, a line of `--in --read-keys`.
abbrev pub key_line : ℕ → ℕ → Text
key_line w k = codes "    " ++ shown w k ++ 10 ∷ []

-- `"    Key=0x<key>"`, a line of `--in --read-reservation`.
abbrev pub holder_line : ℕ → ℕ → Text
holder_line w k = codes "    Key=" ++ shown w k ++ 10 ∷ []

-- A key of 64 bits that has `w` digits.
abbrev pub Fits : ℕ → ℕ → Type 0
Fits w k = (k < 16 ^ w) × (k < 2 ^ 64)

pub newline_ends : EndsDigits (10 ∷ [])
unfolding hex_value
newline_ends = refl

-- The line begins with no hexadecimal number.
abbrev pub HasNoKey : Text → Type 0
HasNoKey l = (scan_any l ≡ eof) ⊎ (scan_any l ≡ mismatch)

keys_of_lines-heads :
    (heads ls : List Text) → All HasNoKey heads → keys_of_lines (heads ++ ls) ≡ keys_of_lines ls
unfolding keys_of_lines
keys_of_lines-heads [] ls h = refl
keys_of_lines-heads (l ∷ heads) ls h = ground (arith, keys_of_lines-heads heads ls h.1)

-- Keys, each with the number of digits that it is printed on.
abbrev pub Printed : Type 0
Printed = List (ℕ × ℕ)

abbrev pub key_lines : Printed → List Text
key_lines = map (λ p. key_line p.0 p.1)

abbrev pub keys : Printed → List ℕ
keys = map (λ p. p.1)

keys_of_lines-key_lines :
    (ps : Printed) → All (λ p. Fits p.0 p.1) ps → keys_of_lines (key_lines ps) ≡ keys ps
unfolding keys_of_lines
keys_of_lines-key_lines [] h = refl
keys_of_lines-key_lines ((w, k) ∷ ps) h = ground (
  arith,
  scan_any-indented w k (10 ∷ []) h.0.0 h.0.1 newline_ends,
  keys_of_lines-key_lines ps h.1,
)

-- The keys are read back in their order from the lines that sg_persist prints for them, and lines
-- before them that begin with no hexadecimal number add no key.
pub keys_of_lines-key_line :
    (heads : List Text) (ps : Printed)
    → All HasNoKey heads
    → All (λ p. Fits p.0 p.1) ps
    → keys_of_lines (heads ++ key_lines ps) ≡ keys ps
keys_of_lines-key_line heads ps none_read h =
    keys_of_lines-heads heads (key_lines ps) none_read ∙ keys_of_lines-key_lines ps h

scan_key_line-holder_line : (w k : ℕ) → Fits w k → scan_key_line (holder_line w k) ≡ some k
unfolding scan_key_line scan_literal skip_spaces
scan_key_line-holder_line w k h = ground (arith, scan_any-shown w k (10 ∷ []) h.0 h.1 newline_ends)

find_status-before :
    (before ls : List Text)
    → All (λ l. scan_generation l ≡ none) before
    → find_status (before ++ ls) ≡ find_status ls
unfolding find_status
find_status-before [] ls h = refl
find_status-before (l ∷ before) ls h = ground (arith, find_status-before before ls h.1)

find_key_line-between :
    (gen : ℕ) (between ls : List Text)
    → All (λ l. scan_key_line l ≡ none) between
    → find_key_line gen (between ++ ls) ≡ find_key_line gen ls
unfolding find_key_line
find_key_line-between gen [] ls h = refl
find_key_line-between gen (l ∷ between) ls h =
    ground (arith, find_key_line-between gen between ls h.1)

find_key_line-holder_line :
    (w k gen : ℕ) (behind : List Text)
    → Fits w k
    → find_key_line gen (holder_line w k ∷ behind)
      ≡ some (record { generation = gen; reserved = true; key = k })
unfolding find_key_line
find_key_line-holder_line w k gen behind fits = ground (arith, scan_key_line-holder_line w k fits)

find_status-follows :
    (status : Text) (gen : ℕ) (ls : List Text)
    → scan_generation status ≡ some gen
    → has_text (codes "Reservation follows") status ≡ true
    → find_status (status ∷ ls) ≡ find_key_line gen ls
unfolding find_status
find_status-follows status gen ls g f = ground arith

-- When sg_persist says in one line that a reservation follows, and in a later one by which key, the
-- reservation with its generation and its key is read, whatever other lines stand before, between and
-- behind them.
pub find_status-holder :
    (w k gen : ℕ) (before between behind : List Text) (status : Text)
    → Fits w k
    → All (λ l. scan_generation l ≡ none) before
    → scan_generation status ≡ some gen
    → has_text (codes "Reservation follows") status ≡ true
    → All (λ l. scan_key_line l ≡ none) between
    → find_status (before ++ (status ∷ (between ++ (holder_line w k ∷ behind))))
      ≡ some (record { generation = gen; reserved = true; key = k })
find_status-holder w k gen before between behind status fits b g f m =
    find_status-before before _ b
    ∙ find_status-follows status gen _ g f
    ∙ find_key_line-between gen between _ m
    ∙ find_key_line-holder_line w k gen behind fits
