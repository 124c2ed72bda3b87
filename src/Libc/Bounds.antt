-- ===== src/Libc/Bounds.antt =====
-- What the conversion of a key stores fits into a uint64_t.
use corosync_qdisk.Prelude.{ℕ, ◌-◌, ◌<◌, inl, inr, Option-cases, ◌≡◌, some, [], ◌∷◌, Text, arith}
use corosync_qdisk.Libc.{
  hex_value, Scan, eof, mismatch, matched, scan_digits, scan_signed, scan_hex, scan_key,
  skip_spaces,
}

abbrev pub Fits : Scan → Type 0
Fits eof = Unit
Fits mismatch = Unit
Fits (matched k) = k < 18446744073709551616

hex_value-bounded : (c d : ℕ) → hex_value c ≡ some d → d < 16
unfolding hex_value
hex_value-bounded c d h = ground (arith, h)

digits-Fits : (w : ℕ) (t : Text) → Fits (scan_digits w t)
unfolding scan_digits
digits-Fits w [] = tt
digits-Fits w (c ∷ []) = elim (Option-cases (hex_value c)) [
  | inl e ↦ rw (e, scan_digits, Fits) tt
  | inr (d, e) ↦
      rw (e, scan_digits, Fits) (let small = hex_value-bounded c d e in ground (arith, small))
]
digits-Fits w (c ∷ x ∷ t) = ground arith

signed-Fits : (w : ℕ) (t : Text) → Fits (scan_signed w t)
unfolding scan_signed
signed-Fits w [] = tt
signed-Fits w (c ∷ t) = ground (arith, digits-Fits (w - 1) t, digits-Fits w (c ∷ t))

pub scan_key-Fits : (t : Text) → Fits (scan_key t)
unfolding scan_key scan_hex
scan_key-Fits t = signed-Fits 16 (skip_spaces t)
