-- ===== src/Libc.antt =====
-- The parts of the C library's formatted input and output that qdiskd and persistent_reserve use:
-- `"%016" PRIx64`, and the conversions `%x` of sscanf and fscanf over a text without its final zero.
pub mod Keys
pub mod Bounds
use corosync_qdisk.Prelude.{
  ℕ, zero, suc, ◌+◌, ◌-◌, ◌*◌, ◌/◌, ◌%◌, Bool, ◌&&◌, ◌||◌, Option, none, some, [], ◌∷◌, ◌++◌, Text,
  ltb, leb, ◌==◌, if◌then◌else◌, u32, u64,
}

-- One digit of `%x`.
unfoldable pub hex_digit : ℕ → ℕ
hex_digit d = if ltb d 10 then 48 + d else 87 + d

-- The last `w` hexadecimal digits of `n`.
unfoldable pub hex_fixed : ℕ → ℕ → Text
hex_fixed zero n = []
hex_fixed (suc w) n = hex_fixed w (n / 16) ++ hex_digit (n % 16) ∷ []

-- `"%016" PRIx64` of a uint64_t: always sixteen digits.
unfoldable pub print_key : ℕ → Text
print_key k = hex_fixed 16 k

-- The value of a hexadecimal digit, in either case.
unfoldable pub hex_value : ℕ → Option ℕ
hex_value c =
    if leb 48 c && leb c 57
    then some (c - 48)
    else if leb 97 c && leb c 102
    then some (c - 87)
    else if leb 65 c && leb c 70
    then some (c - 55)
    else none

-- `isspace` in the C locale.
abbrev pub is_space : ℕ → Bool
is_space c = c == 32 || leb 9 c && leb c 13

unfoldable pub skip_spaces : Text → Text
skip_spaces [] = []
skip_spaces (c ∷ t) = if is_space c then skip_spaces t else c ∷ t

-- At most `w` digits, added to what has been read.
unfoldable pub read_hex : ℕ → ℕ → Text → ℕ
read_hex zero acc t = acc
read_hex (suc w) acc [] = acc
read_hex (suc w) acc (c ∷ t) = elim (hex_value c) [
  | none ↦ acc
  | some d ↦ read_hex w (acc * 16 + d) t
]

-- What one conversion gives: end of input, a mismatch, or a value.
pub data Scan : Type 0 where
  eof mismatch : Scan
  matched : ℕ → Scan

-- A value that does not fit is the largest one.
abbrev pub saturate : ℕ → ℕ
saturate n = if ltb n 18446744073709551616 then n else 18446744073709551615

-- The digits behind an optional `0x`.
unfoldable pub scan_digits : ℕ → Text → Scan
scan_digits w [] = mismatch
scan_digits w (c ∷ []) = elim (hex_value c) [
  | none ↦ mismatch
  | some d ↦ if w == 0 then mismatch else matched d
]
scan_digits w (c ∷ x ∷ t) =
    if c == 48 && (x == 120 || x == 88) && leb 2 w
    then matched (saturate (read_hex (w - 2) 0 t))
    else elim (hex_value c) [
      | none ↦ mismatch
      | some d ↦ if w == 0 then mismatch else matched (saturate (read_hex w 0 (c ∷ x ∷ t)))
    ]

-- A negative number is taken modulo 2^64.
abbrev pub negate : Scan → Scan
negate eof = eof
negate mismatch = mismatch
negate (matched n) = matched (u64 (18446744073709551616 - n))

unfoldable pub scan_signed : ℕ → Text → Scan
scan_signed w [] = eof
scan_signed w (c ∷ t) =
    if c == 43
    then scan_digits (w - 1) t
    else if c == 45
    then negate (scan_digits (w - 1) t)
    else scan_digits w (c ∷ t)

-- `"%" SCNx64` behind white space, at most `w` characters.
unfoldable pub scan_hex : ℕ → Text → Scan
scan_hex w t = scan_signed w (skip_spaces t)

-- `"%016" SCNx64`: the field width is 16.
unfoldable pub scan_key : Text → Scan
scan_key t = scan_hex 16 t

-- The literal text of a format: `none` is a mismatch, and so is the end of the input.
unfoldable pub scan_literal : Text → Text → Option Text
scan_literal [] t = some t
scan_literal (f ∷ fs) [] = none
scan_literal (f ∷ fs) (c ∷ t) = if f == c then scan_literal fs t else none

-- `strstr(t, p) != NULL`
unfoldable pub has_text : Text → Text → Bool
unfolding scan_literal
has_text p [] = elim (scan_literal p []) [ none ↦ Bool.false | some _ ↦ Bool.true ]
has_text p (c ∷ t) =
    let rest = has_text p t in elim (scan_literal p (c ∷ t)) [ none ↦ rest | some _ ↦ Bool.true ]

-- The value of a decimal digit.
unfoldable pub dec_value : ℕ → Option ℕ
dec_value c = if leb 48 c && leb c 57 then some (c - 48) else none

-- All digits at the head, and what follows them.
unfoldable pub read_dec : ℕ → Text → ℕ × Text
unfolding dec_value
read_dec acc [] = (acc, [])
read_dec acc (c ∷ t) = elim (dec_value c) [
  | none ↦ (acc, c ∷ t)
  | some d ↦ read_dec (acc * 10 + d) t
]

-- Digits, at least one; a value is stored in 32 bits.
scan_decimal : Text → Option (ℕ × Text)
unfolding read_dec
scan_decimal [] = none
scan_decimal (c ∷ t) = elim (dec_value c) [
  | none ↦ none
  | some _ ↦ let (n, rest) = read_dec 0 (c ∷ t) in some (u32 n, rest)
]

-- A sign in front: a negative number is taken modulo 2^32.
scan_sign : Text → Option (ℕ × Text)
unfolding scan_decimal
scan_sign [] = none
scan_sign (c ∷ t) =
    if c == 43
    then scan_decimal t
    else if c == 45
    then elim (scan_decimal t) [ none ↦ none | some (n, rest) ↦ some (u32 (4294967296 - n), rest) ]
    else scan_decimal (c ∷ t)

-- `"%u"` behind white space, with the rest of the text.
unfoldable pub scan_unsigned : Text → Option (ℕ × Text)
unfolding scan_sign skip_spaces
scan_unsigned t = scan_sign (skip_spaces t)

-- `"%s"` matches: there is something but white space.
unfoldable pub scan_word : Text → Bool
unfolding skip_spaces
scan_word t = elim (skip_spaces t) [ [] ↦ Bool.false | _ ∷ _ ↦ Bool.true ]
