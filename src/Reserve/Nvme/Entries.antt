-- ===== src/Reserve/Nvme/Entries.antt =====
-- persistent_reserve/nvme_device.c: the controllers of a report are read back from the lines that the
-- nvme command prints for them.
use corosync_qdisk.Prelude.{
  ℕ, zero, suc, ◌+◌, ◌-◌, ◌*◌, ◌/◌, ◌%◌, ◌^◌, ◌<◌, ◌≤◌, ◌≡◌, ◌⊎◌, refl, ◌∙◌, ap, true, false, none,
  List, [], ◌∷◌, ◌++◌, map, Text, codes, length, length-append, arith, All, All-append,
}
use corosync_qdisk.Libc.{
  hex_digit, hex_fixed, hex_value, read_hex, saturate, matched, scan_digits, scan_signed, scan_hex,
  skip_spaces, has_text, scan_literal, print_key,
}
use corosync_qdisk.Libc.Keys.{read_hex-hex_fixed, length-hex_fixed}
use corosync_qdisk.Reserve.Scsi.Parse.{EndsDigits, read_hex-end}
use corosync_qdisk.Reserve.Nvme.{
  RespRepController, split_colon, strtoumax_16, controller_line, read_controller, read_controllers,
  zeroed,
}

-- The code of a digit as `%x` prints it.
abbrev IsDigit : ℕ → Type 0
IsDigit c = ((48 ≤ c) × (c ≤ 57)) ⊎ ((97 ≤ c) × (c ≤ 102))

hex_digit-IsDigit : (d : ℕ) → d < 16 → IsDigit (hex_digit d)
unfolding hex_digit
hex_digit-IsDigit d h = ground (arith, h)

hex_fixed-IsDigit : (w k : ℕ) → All IsDigit (hex_fixed w k)
unfolding hex_fixed
hex_fixed-IsDigit zero k = tt
hex_fixed-IsDigit (suc w) k =
    All-append IsDigit (hex_fixed w (k / 16)) (hex_digit (k % 16) ∷ [])
      (hex_fixed-IsDigit w (k / 16)) (hex_digit-IsDigit (k % 16) (omega arith), tt)

scan_hex-digits :
    (n : ℕ) (t : Text)
    → 0 < n
    → 0 < length t
    → All IsDigit t
    → scan_hex n (32 ∷ t ++ 10 ∷ []) ≡ matched (saturate (read_hex n 0 (t ++ 10 ∷ [])))
unfolding scan_hex scan_signed scan_digits skip_spaces hex_value
scan_hex-digits n [] p q h = ground (arith, q)
scan_hex-digits n (c ∷ []) p q h = ground (arith, p, h)
scan_hex-digits n (c ∷ x ∷ t) p q h = ground (arith, p, h)

has_text-digits : (t : Text) → All IsDigit t → has_text (codes "regctl") (t ++ 10 ∷ []) ≡ false
unfolding has_text scan_literal
has_text-digits [] h = refl
has_text-digits (c ∷ t) h = ground (arith, h.0, has_text-digits t h.1)

-- A number, and the digits that it is printed on besides the first.
abbrev pub Number : Type 0
Number = ℕ × ℕ

abbrev pub digits_of : Number → Text
digits_of (w, k) = hex_fixed (suc w) k

abbrev pub Fits : Number → Type 0
Fits (w, k) = (k < 16 ^ suc w) × (k < 2 ^ 64)

newline_ends : EndsDigits (10 ∷ [])
unfolding hex_value
newline_ends = refl

strtoumax_16-digits_of : (p : Number) → Fits p → strtoumax_16 (32 ∷ digits_of p ++ 10 ∷ []) ≡ p.1
unfolding strtoumax_16
strtoumax_16-digits_of (w, k) (fits, small) =
    let n = length (32 ∷ hex_fixed (suc w) k ++ 10 ∷ []) in
    let size = length-append (hex_fixed (suc w) k) (10 ∷ []) in
    let digits = length-hex_fixed (suc w) k in
    let m = n - suc w in
    let width : n ≡ suc w + m = omega (arith, size, digits) in
    let none_before : 0 * 16 ^ suc w + k ≡ k = omega arith in
    let value : read_hex n 0 (hex_fixed (suc w) k ++ 10 ∷ []) ≡ k =
      ap (λ n. read_hex n 0 (hex_fixed (suc w) k ++ 10 ∷ [])) width
      ∙ read_hex-hex_fixed (suc w) k m 0 (10 ∷ []) fits
      ∙ read_hex-end m (0 * 16 ^ suc w + k) (10 ∷ []) newline_ends
      ∙ none_before in
    let scanned =
      scan_hex-digits n (hex_fixed (suc w) k) (omega (arith, size, digits)) (omega (arith, digits))
        (hex_fixed-IsDigit (suc w) k) in
    ground (arith, scanned, value, small)

-- A controller as the command prints it.
pub record Entry : Type 0 where
  pub cntlid : Number
  pub rcsts : Number
  pub rkey : Number
  pub hostid : Number

abbrev pub entry_lines : Entry → List Text → List Text
entry_lines e rest =
    (codes "  cntlid     : " ++ digits_of e.cntlid ++ 10 ∷ [])
    ∷ (codes "  rcsts      : " ++ digits_of e.rcsts ++ 10 ∷ [])
    ∷ (codes "  rkey       : " ++ digits_of e.rkey ++ 10 ∷ [])
    ∷ (codes "  hostid     : " ++ digits_of e.hostid ++ 10 ∷ [])
    ∷ rest

-- The line before each further controller, with that controller, and the lines behind them.
abbrev pub more_lines : List (Text × Entry) → List Text → List Text
more_lines [] behind = behind
more_lines ((head, e) ∷ es) behind = head ∷ entry_lines e (more_lines es behind)

abbrev pub EntryFits : Entry → Type 0
EntryFits e = Fits e.cntlid × (Fits e.rcsts × Fits e.rkey)

-- What is read of it; of a host id of more than 64 bits only the largest value is left.
abbrev pub controller_of : Entry → RespRepController
controller_of e = record {
  hostid = strtoumax_16 (32 ∷ digits_of e.hostid ++ 10 ∷ []);
  ikey = e.rkey.1;
  key = print_key e.rkey.1;
  rcsts = e.rcsts.1 % 256;
  id = e.cntlid.1 % 65536;
}

-- A line about the controller, which does not begin the next one.
read_controller-line :
    (l : Text) (c d : RespRepController) (ls : List Text)
    → has_text (codes "regctl") l ≡ false
    → controller_line l c ≡ d
    → read_controller c (l ∷ ls) ≡ read_controller d ls
unfolding read_controller
read_controller-line l c d ls h e = ground (arith, h, e)

digits_silent : (p : Number) → has_text (codes "regctl") (digits_of p ++ 10 ∷ []) ≡ false
digits_silent (w, k) = has_text-digits (hex_fixed (suc w) k) (hex_fixed-IsDigit (suc w) k)

read_controller-cntlid :
    (p : Number) (c : RespRepController) (ls : List Text)
    → read_controller c ((codes "  cntlid     : " ++ digits_of p ++ 10 ∷ []) ∷ ls)
      ≡ read_controller (record c { id = strtoumax_16 (32 ∷ digits_of p ++ 10 ∷ []) % 65536 }) ls
unfolding controller_line split_colon has_text scan_literal
read_controller-cntlid p c ls = read_controller-line _ c _ ls (digits_silent p) refl

read_controller-rcsts :
    (p : Number) (c : RespRepController) (ls : List Text)
    → read_controller c ((codes "  rcsts      : " ++ digits_of p ++ 10 ∷ []) ∷ ls)
      ≡ read_controller (record c { rcsts = strtoumax_16 (32 ∷ digits_of p ++ 10 ∷ []) % 256 }) ls
unfolding controller_line split_colon has_text scan_literal
read_controller-rcsts p c ls = read_controller-line _ c _ ls (digits_silent p) refl

read_controller-rkey :
    (p : Number) (c : RespRepController) (ls : List Text)
    → read_controller c ((codes "  rkey       : " ++ digits_of p ++ 10 ∷ []) ∷ ls)
      ≡ read_controller
          (record c {
            ikey = strtoumax_16 (32 ∷ digits_of p ++ 10 ∷ []);
            key = print_key (strtoumax_16 (32 ∷ digits_of p ++ 10 ∷ []));
          })
          ls
unfolding controller_line split_colon has_text scan_literal
read_controller-rkey p c ls = read_controller-line _ c _ ls (digits_silent p) refl

read_controller-hostid :
    (p : Number) (c : RespRepController) (ls : List Text)
    → read_controller c ((codes "  hostid     : " ++ digits_of p ++ 10 ∷ []) ∷ ls)
      ≡ read_controller (record c { hostid = strtoumax_16 (32 ∷ digits_of p ++ 10 ∷ []) }) ls
unfolding controller_line split_colon has_text scan_literal
read_controller-hostid p c ls = read_controller-line _ c _ ls (digits_silent p) refl

read_controller-entry :
    (e : Entry) (rest : List Text)
    → EntryFits e
    → read_controller zeroed (entry_lines e rest) ≡ read_controller (controller_of e) rest
read_controller-entry e rest (a, (b, c)) =
    read_controller-cntlid e.cntlid zeroed _
    ∙ read_controller-rcsts e.rcsts _ _
    ∙ read_controller-rkey e.rkey _ _
    ∙ read_controller-hostid e.hostid _ rest
    ∙ rw
        (
          strtoumax_16-digits_of e.cntlid a,
          strtoumax_16-digits_of e.rcsts b,
          strtoumax_16-digits_of e.rkey c,
        )
        refl

-- A line in which no controller and no field begins.
abbrev pub IsSilent : Text → Type 0
IsSilent l = (split_colon l ≡ none) × (has_text (codes "regctl") l ≡ false)

read_controller-IsSilent :
    (c : RespRepController) (ls : List Text) → All IsSilent ls → read_controller c ls ≡ (c, [])
unfolding read_controller controller_line
read_controller-IsSilent c [] h = refl
read_controller-IsSilent c (l ∷ ls) h =
    ground (arith, h.0.0, h.0.1, read_controller-IsSilent c ls h.1)

read_controller-head :
    (c : RespRepController) (head : Text) (ls : List Text)
    → has_text (codes "regctl") head ≡ true
    → read_controller c (head ∷ ls) ≡ (c, ls)
unfolding read_controller
read_controller-head c head ls h = ground (arith, h)

abbrev pub MoreFit : List (Text × Entry) → Type 0
MoreFit = All (λ (head, e). (has_text (codes "regctl") head ≡ true) × EntryFits e)

-- The controllers are read as they are printed, in their order.
pub read_controllers-entries :
    (e : Entry) (es : List (Text × Entry)) (behind : List Text)
    → EntryFits e
    → MoreFit es
    → All IsSilent behind
    → read_controllers (suc (length es)) (entry_lines e (more_lines es behind))
      ≡ map controller_of (e ∷ map (λ p. p.1) es)
unfolding read_controllers
read_controllers-entries e [] behind h k b =
    rw (read_controller-entry e behind h, read_controller-IsSilent (controller_of e) behind b) refl
read_controllers-entries e ((head, f) ∷ es) behind h k b =
    rw
      (
        read_controller-entry e (head ∷ entry_lines f (more_lines es behind)) h,
        read_controller-head (controller_of e) head (entry_lines f (more_lines es behind)) k.0.0,
      )
      (ap (λ cs. controller_of e ∷ cs) (read_controllers-entries f es behind k.0.1 k.1 b))
