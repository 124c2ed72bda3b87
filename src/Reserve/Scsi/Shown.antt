-- ===== src/Reserve/Scsi/Shown.antt =====
-- persistent_reserve/scsi_device.c: the operations that read a disk, over the whole output of the
-- commands that they run.
use corosync_qdisk.Prelude.{
  ℕ, zero, suc, ◌+◌, ◌-◌, ◌/◌, ◌%◌, ◌<◌, ◌≤◌, ◌≡◌, ◌≢◌, refl, ◌∙◌, ap, pos, true, none, some, List,
  [], ◌∷◌, ◌++◌, Text, codes, length, length-append, arith, All, All-append,
}
use corosync_qdisk.Libc.{hex_digit, hex_fixed, has_text}
use corosync_qdisk.Libc.Keys.{length-hex_fixed}
use corosync_qdisk.Corosync.{Env, Output}
use corosync_qdisk.Reserve.{pr_err_ok}
use corosync_qdisk.Reserve.Exec.{lines}
use corosync_qdisk.Reserve.Exec.Lines.{concat, IsWhole, lines-concat}
use corosync_qdisk.Reserve.Scsi.{
  DevicePriv, scan_generation, scan_key_line, find_status, keys_of_lines, read_reservation_cmd,
  read_keys_cmd, read_reservation, device_is_reserved, device_get_reservation_owner_key,
  device_get_registered_keys,
}
use corosync_qdisk.Reserve.Scsi.Parse.{
  Fits, HasNoKey, key_line, holder_line, Printed, key_lines, keys, keys_of_lines-key_line,
  find_status-holder,
}

pub IsWhole-newline :
    (room : ℕ) (t : Text) → All (λ c. c ≢ 10) t → length t < room → IsWhole room (t ++ 10 ∷ [])
IsWhole-newline room [] h wide = (refl, omega (arith, wide))
IsWhole-newline room (c ∷ []) h wide = (h.0, (omega (arith, wide), (refl, omega (arith, wide))))
IsWhole-newline room (c ∷ d ∷ t) h wide =
    (h.0, (omega (arith, wide), IsWhole-newline (room - 1) (d ∷ t) h.1 (omega (arith, wide))))

digit_visible : (d : ℕ) → hex_digit d ≢ 10
unfolding hex_digit
digit_visible d e = ground (arith, e)

digits_visible : (w k : ℕ) → All (λ c. c ≢ 10) (hex_fixed w k)
unfolding hex_fixed
digits_visible zero k = tt
digits_visible (suc w) k =
    All-append (λ c. c ≢ 10) (hex_fixed w (k / 16)) (hex_digit (k % 16) ∷ [])
      (digits_visible w (k / 16)) (digit_visible (k % 16), tt)

-- A line with a key is whole in a buffer with room for its digits.
pub shown-IsWhole :
    (room w k : ℕ) (label : Text)
    → All (λ c. c ≢ 10) label
    → length label + w < room
    → IsWhole room ((label ++ hex_fixed w k) ++ 10 ∷ [])
shown-IsWhole room w k label h wide =
    IsWhole-newline room (label ++ hex_fixed w k)
      (All-append (λ c. c ≢ 10) label (hex_fixed w k) h (digits_visible w k))
      (omega (arith, wide, length-append label (hex_fixed w k), length-hex_fixed w k))

key_line-IsWhole : (room w k : ℕ) → w + 7 ≤ room → IsWhole room (key_line w k)
key_line-IsWhole room w k wide =
    shown-IsWhole room w k (codes "    0x") (ground arith) (omega (arith, wide))

holder_line-IsWhole : (room w k : ℕ) → w + 11 ≤ room → IsWhole room (holder_line w k)
holder_line-IsWhole room w k wide =
    shown-IsWhole room w k (codes "    Key=0x") (ground arith) (omega (arith, wide))

-- An output of `--in --read-reservation` that names the holder `k`, between other lines.
pub record ShowsHolder (text : Text) (k : ℕ) : Type 0 where
  pub digits : ℕ
  pub generation : ℕ
  pub before : List Text
  pub status : Text
  pub between : List Text
  pub behind : List Text
  pub is_text : text ≡ concat (before ++ (status ∷ (between ++ (holder_line digits k ∷ behind))))
  pub fits : Fits digits k
  pub is_short : digits ≤ 16
  pub before_whole : All (IsWhole 8192) before
  pub status_whole : IsWhole 8192 status
  pub between_whole : All (IsWhole 8192) between
  pub behind_whole : All (IsWhole 8192) behind
  pub before_silent : All (λ l. scan_generation l ≡ none) before
  pub is_generation : scan_generation status ≡ some generation
  pub follows : has_text (codes "Reservation follows") status ≡ true
  pub between_silent : All (λ l. scan_key_line l ≡ none) between

-- An output of `--in --read-keys` that lists the keys `ks`.
pub record ShowsKeys (text : Text) (ks : List ℕ) : Type 0 where
  pub heads : List Text
  pub printed : Printed
  pub is_text : text ≡ concat (heads ++ key_lines printed)
  pub are_keys : keys printed ≡ ks
  pub fits : All (λ p. Fits p.0 p.1 × (p.0 ≤ 16)) printed
  pub heads_whole : All (IsWhole 8191) heads
  pub heads_silent : All HasNoKey heads

key_lines-IsWhole :
    (ps : Printed) → All (λ p. Fits p.0 p.1 × (p.0 ≤ 16)) ps → All (IsWhole 8191) (key_lines ps)
key_lines-IsWhole [] h = tt
key_lines-IsWhole ((w, k) ∷ ps) h =
    (key_line-IsWhole 8191 w k (omega (arith, h.0.1)), key_lines-IsWhole ps h.1)

printed-Fits : (ps : Printed) → All (λ p. Fits p.0 p.1 × (p.0 ≤ 16)) ps → All (λ p. Fits p.0 p.1) ps
printed-Fits [] h = tt
printed-Fits (p ∷ ps) h = (h.0.0, printed-Fits ps h.1)

find_status-ShowsHolder :
    (text : Text) (k : ℕ) (s : ShowsHolder text k)
    → find_status (lines 8193 text)
      ≡ some (record { generation = s.generation; reserved = true; key = k })
find_status-ShowsHolder text k s =
    let holder = holder_line-IsWhole 8192 s.digits k (omega (arith, s.is_short)) in
    let tail =
      All-append (IsWhole 8192) s.between (holder_line s.digits k ∷ s.behind) s.between_whole
        (holder, s.behind_whole) in
    let all =
      All-append (IsWhole 8192) s.before
        (s.status ∷ (s.between ++ (holder_line s.digits k ∷ s.behind))) s.before_whole
        (s.status_whole, tail) in
    ap (λ t. find_status (lines 8193 t)) s.is_text
    ∙ ap find_status (lines-concat 8193 _ all)
    ∙ find_status-holder s.digits k s.generation s.before s.between s.behind s.status s.fits
        s.before_silent s.is_generation s.follows s.between_silent

keys_of_lines-ShowsKeys :
    (text : Text) (ks : List ℕ) → ShowsKeys text ks → keys_of_lines (lines 8192 text) ≡ ks
keys_of_lines-ShowsKeys text ks s =
    ap (λ t. keys_of_lines (lines 8192 t)) s.is_text
    ∙ ap keys_of_lines (
        lines-concat 8192 _ (
          All-append (IsWhole 8191) s.heads (key_lines s.printed) s.heads_whole
            (key_lines-IsWhole s.printed s.fits)))
    ∙ keys_of_lines-key_line s.heads s.printed s.heads_silent (printed-Fits s.printed s.fits)
    ∙ s.are_keys

module _ {W : Type 0} (env : Env W) (d : DevicePriv) where
  -- When the command that reads the reservation succeeds and its output names a holder, the disk is
  -- reported as reserved, and by that holder.
  pub read_reservation-ShowsHolder :
      (k : ℕ) (o : Output) (w : W)
      → (env.popen (read_reservation_cmd d) w).0 ≡ some o
      → o.status ≡ pos 0
      → ShowsHolder o.text k
      → ((device_is_reserved env d w).0 ≡ pos 1)
        × ((device_get_reservation_owner_key env d w).0 ≡ (pr_err_ok, k))
  unfolding read_reservation device_is_reserved device_get_reservation_owner_key
  read_reservation-ShowsHolder k o w ran ok shows =
      ground (arith, ran, ok, find_status-ShowsHolder o.text k shows)

  -- When the command that reads the keys succeeds and its output lists keys, these are the registered
  -- keys, in their order.
  pub registered_keys-ShowsKeys :
      (ks : List ℕ) (o : Output) (w : W)
      → (env.popen (read_keys_cmd d) w).0 ≡ some o
      → o.status ≡ pos 0
      → ShowsKeys o.text ks
      → (device_get_registered_keys env d w).0 ≡ (pr_err_ok, ks)
  unfolding device_get_registered_keys
  registered_keys-ShowsKeys ks o w ran ok shows =
      ground (arith, ran, ok, keys_of_lines-ShowsKeys o.text ks shows)
