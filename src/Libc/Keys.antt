-- ===== src/Libc/Keys.antt =====
-- A key printed by `"%016" PRIx64` is read back by `"%016" SCNx64`.
use corosync_qdisk.Prelude.{
  ℕ, zero, suc, ◌+◌, ◌*◌, ◌/◌, ◌%◌, ◌^◌, ◌<◌, ◌≡◌, refl, ◌∙◌, sym, ap, some, [], ◌∷◌, ◌++◌, Text,
  arith, length, length-append,
}
use mathlib.Core.List.{append_assoc}
use native.Mathlib.Nat.{pow-suc}
use corosync_qdisk.Libc.{
  hex_digit, hex_fixed, print_key, hex_value, read_hex, matched, scan_key, scan_hex, scan_digits,
  skip_spaces, saturate, scan_signed,
}

hex_value-hex_digit : (d : ℕ) → d < 16 → hex_value (hex_digit d) ≡ some d
unfolding hex_value hex_digit
hex_value-hex_digit d h = ground arith

pub length-hex_fixed : (w n : ℕ) → length (hex_fixed w n) ≡ w
unfolding hex_fixed
length-hex_fixed zero n = refl
length-hex_fixed (suc w) n =
    length-append (hex_fixed w (n / 16)) (hex_digit (n % 16) ∷ [])
    ∙ omega (arith, length-hex_fixed w (n / 16))

read_hex-digit :
    (k acc d : ℕ) (t : Text)
    → d < 16
    → read_hex (suc k) acc (hex_digit d ∷ t) ≡ read_hex k (acc * 16 + d) t
unfolding read_hex
read_hex-digit k acc d t h = rw (hex_value-hex_digit d h, read_hex)

-- Digits that were printed are read with their value.
pub read_hex-hex_fixed :
    (w n k acc : ℕ) (t : Text)
    → n < 16 ^ w
    → read_hex (w + k) acc (hex_fixed w n ++ t) ≡ read_hex k (acc * 16 ^ w + n) t
unfolding hex_fixed
read_hex-hex_fixed zero n k acc t h =
    let here : 0 + k ≡ k = omega arith in
    let value : acc * 16 ^ 0 + n ≡ acc = omega arith in rw (here, value)
read_hex-hex_fixed (suc w) n k acc t h =
    let p : 16 ^ suc w ≡ 16 ^ w * 16 = pow-suc 16 w in
    let below : n / 16 < 16 ^ w = omega (arith, p) in
    let shift : suc w + k ≡ w + suc k = omega arith in
    let value : (acc * 16 ^ w + n / 16) * 16 + n % 16 ≡ acc * 16 ^ suc w + n = rw p (omega arith) in
    rw (append_assoc, shift)
      (read_hex-hex_fixed w (n / 16) (suc k) acc (hex_digit (n % 16) ∷ t) below
        ∙ read_hex-digit k (acc * 16 ^ w + n / 16) (n % 16) t (omega arith)
        ∙ ap (λ v. read_hex k v t) value)

scan_key-digits :
    (a b : ℕ) (t : Text)
    → a < 16
    → b < 16
    → scan_key (hex_digit a ∷ hex_digit b ∷ t)
      ≡ matched (saturate (read_hex 16 0 (hex_digit a ∷ hex_digit b ∷ t)))
unfolding scan_key scan_hex scan_signed scan_digits skip_spaces hex_digit hex_value
scan_key-digits a b t ha hb = ground arith

read_hex-none : (acc : ℕ) (t : Text) → read_hex 0 acc t ≡ acc
unfolding read_hex
read_hex-none acc t = refl

read_all : (k : ℕ) (rest : Text) → k < 2 ^ 64 → read_hex 16 0 (hex_fixed 16 k ++ rest) ≡ k
read_all k rest h =
    let power : 16 ^ 16 ≡ 2 ^ 64 = refl in
    let read : read_hex (16 + 0) 0 (hex_fixed 16 k ++ rest) ≡ read_hex 0 (0 * 16 ^ 16 + k) rest =
      read_hex-hex_fixed 16 k 0 0 rest (omega (arith, power)) in
    read ∙ read_hex-none (0 * 16 ^ 16 + k) rest ∙ omega arith

-- Two digits or more begin with two digits.
hex_fixed-heads :
    (w n : ℕ)
    → (a b : ℕ) × (t : Text) × (hex_fixed (suc (suc w)) n ≡ hex_digit a ∷ hex_digit b ∷ t)
      × (a < 16)
      × (b < 16)
unfolding hex_fixed
hex_fixed-heads zero n = (n / 16 % 16, n % 16, [], refl, omega arith, omega arith)
hex_fixed-heads (suc w) n =
    let (a, b, t, e, ha, hb) = hex_fixed-heads w (n / 16) in
    (a, b, t ++ hex_digit (n % 16) ∷ [], ap (λ u. u ++ hex_digit (n % 16) ∷ []) e, ha, hb)

-- For every uint64_t key, what `"%016" PRIx64` prints is read as that key by `"%016" SCNx64`,
-- whatever follows it.
pub scan_key-print_key :
    (k : ℕ) (rest : Text) → k < 2 ^ 64 → scan_key (print_key k ++ rest) ≡ matched k
unfolding print_key
scan_key-print_key k rest h =
    let (a, b, t, e, ha, hb) = hex_fixed-heads 14 k in
    let shape : hex_fixed 16 k ++ rest ≡ hex_digit a ∷ hex_digit b ∷ t ++ rest =
      ap (λ u. u ++ rest) e in
    let value : read_hex 16 0 (hex_fixed 16 k ++ rest) ≡ k = read_all k rest h in
    rw shape (
      scan_key-digits a b (t ++ rest) ha hb
      ∙ ap (λ u. matched (saturate (read_hex 16 0 u))) (sym shape)
      ∙ rw value (ground arith))
