-- ===== src/Reserve/Nvme/Shown.antt =====
-- persistent_reserve/nvme_device.c: the operations that read a disk, over the whole output of the
-- command of the report.
use corosync_qdisk.Prelude.{
  ℤ, ℕ, sym, suc, ◌-◌, ◌%◌, ◌<◌, ◌≤◌, ◌≡◌, ◌≢◌, ◌⊎◌, refl, ◌∙◌, ap, pos, true, false, none, some,
  List, [], ◌∷◌, ◌++◌, map, Text, codes, length, arith, All, Bool-cases, inl, inr, Option-cases,
  ◌==◌,
}
use corosync_qdisk.Libc.{has_text, scan_literal}
use corosync_qdisk.Corosync.{Env, Output}
use corosync_qdisk.Reserve.{pr_err_ok, pr_err_device_not_reserved}
use corosync_qdisk.Reserve.Exec.{lines, cmd_result_length}
use corosync_qdisk.Reserve.Exec.Lines.{concat, IsWhole, lines-concat}
use corosync_qdisk.Reserve.Nvme.{
  resv_report_cmd, DevicePriv, ResvReport, empty_report, split_colon, strtoumax_10, header_line,
  read_header, parse_report, any_reserved, owner_of, controller_key, get_reservation_report,
  device_is_reserved, device_get_reservation_owner_key, device_get_registered_keys,
}
use corosync_qdisk.Reserve.Nvme.Plain.{header_line-goes_on}
use corosync_qdisk.Reserve.Nvme.Entries.{
  Entry, entry_lines, more_lines, controller_of, EntryFits, MoreFit, IsSilent,
  read_controllers-entries,
}

-- The code of a decimal digit.
abbrev pub IsDecimal : ℕ → Type 0
IsDecimal c = (48 ≤ c) × (c ≤ 57)

abbrev pub count_line : Text → Text
count_line value = codes "regctl    : " ++ value ++ 10 ∷ []

has_text-decimal :
    (c : ℕ) (pattern value : Text)
    → 57 < c
    → All IsDecimal value
    → has_text (c ∷ pattern) (value ++ 10 ∷ []) ≡ false
unfolding has_text scan_literal
has_text-decimal c pattern [] h k = ground (arith, h)
has_text-decimal c pattern (d ∷ value) h k =
    ground (arith, h, k.0, has_text-decimal c pattern value h k.1)

header_line-count :
    (value : Text) (r : ResvReport)
    → All IsDecimal value
    → header_line (count_line value) r
      ≡ some (record r { num_controllers = strtoumax_10 (32 ∷ value ++ 10 ∷ []) % 65536 })
unfolding header_line split_colon has_text scan_literal
header_line-count value r h =
    rw
      (
        has_text-decimal 114 (codes "egctlext") value (omega arith) h,
        has_text-decimal 103 (codes "en") value (omega arith) h,
        has_text-decimal 114 (codes "type") value (omega arith) h,
      )
      refl

-- A line of the header that says nothing of controllers.
abbrev pub IsOther : Text → Type 0
IsOther l = has_text (codes "regctl") l ≡ false

has_text-prefix :
    (t : Text) → scan_literal (codes "regctl") t ≡ none → scan_literal (codes "regctlext") t ≡ none
unfolding scan_literal
has_text-prefix [] h = refl
has_text-prefix (a ∷ t) h = ground (arith, h)

-- A text without "regctl" is one without "regctlext".
IsOther-plain : (t : Text) → IsOther t → has_text (codes "regctlext") t ≡ false
unfolding has_text
IsOther-plain [] h = ground (arith, has_text-prefix [], h)
IsOther-plain (c ∷ t) h = ground (arith, has_text-prefix (c ∷ t), IsOther-plain t, h)

header_line-kept :
    (l : Text) (r q : ResvReport)
    → IsOther l
    → header_line l r ≡ some q
    → q.num_controllers ≡ r.num_controllers
unfolding header_line
header_line-kept l r q h e = ground (arith, h, e)

read_header-IsOther :
    (ls rest : List Text) (r : ResvReport)
    → All IsOther ls
    → (q : ResvReport) × ((read_header r (ls ++ rest) ≡ read_header q rest)
        × (q.num_controllers ≡ r.num_controllers))
unfolding read_header
read_header-IsOther [] rest r h = (r, (refl, refl))
read_header-IsOther (l ∷ ls) rest r h = elim (Option-cases (header_line l r)) [
  | inl e ↦ absurd (header_line-goes_on l r (IsOther-plain l h.0) e)
  | inr (q, e) ↦
      let (p, (read, kept)) = read_header-IsOther ls rest q h.1 in
      (p, (rw (e, read_header) read, kept ∙ header_line-kept l r q h.0 e))
]

-- The line before the first controller.
abbrev pub IsHead : Text → Type 0
IsHead l = (split_colon l ≢ none) × (has_text (codes "regctlext") l ≡ true)

header_line-IsHead : (l : Text) (r : ResvReport) → IsHead l → header_line l r ≡ none
unfolding header_line
header_line-IsHead l r (a, b) = ground (arith, a, b)

abbrev pub report_lines :
    List Text → Text → List Text → Text → Entry → List (Text × Entry) → List Text → List Text
report_lines before value after head first more behind =
    before ++ (count_line value ∷ (after ++ (head ∷ entry_lines first (more_lines more behind))))

-- An output of `nvme resv-report` that lists the controllers `es`.
pub record ShowsControllers (text : Text) (es : List Entry) : Type 0 where
  pub before : List Text
  pub value : Text
  pub after : List Text
  pub head : Text
  pub first : Entry
  pub more : List (Text × Entry)
  pub behind : List Text
  pub is_text : text ≡ concat (report_lines before value after head first more behind)
  pub whole :
      All (IsWhole (cmd_result_length - 1)) (report_lines before value after head first more behind)
  pub are_entries : es ≡ first ∷ map (λ p. p.1) more
  pub digits : All IsDecimal value
  pub is_count : strtoumax_10 (32 ∷ value ++ 10 ∷ []) ≡ length es
  pub few : length es < 65536
  pub before_other : All IsOther before
  pub after_other : All IsOther after
  pub is_head : IsHead head
  pub first_fits : EntryFits first
  pub more_fit : MoreFit more
  pub behind_silent : All IsSilent behind

length-map : {A B : Type 0} → (f : A → B) → (xs : List A) → length (map f xs) ≡ length xs
length-map f [] = refl
length-map f (x ∷ xs) = ap suc (length-map f xs)

read_header-count :
    (text : Text) (es : List Entry) (s : ShowsControllers text es)
    → (q : ResvReport) × ((read_header empty_report
            (report_lines s.before s.value s.after s.head s.first s.more s.behind)
          ≡ (q, entry_lines s.first (more_lines s.more s.behind)))
        × (q.num_controllers ≡ suc (length s.more)))
unfolding read_header
read_header-count text es s =
    let inner = entry_lines s.first (more_lines s.more s.behind) in
    let (q, (e, same)) =
      read_header-IsOther s.before (count_line s.value ∷ (s.after ++ (s.head ∷ inner))) empty_report
        s.before_other in
    let counted : ResvReport = record q {
      num_controllers = strtoumax_10 (32 ∷ s.value ++ 10 ∷ []) % 65536;
    } in
    let (p, (f, kept)) = read_header-IsOther s.after (s.head ∷ inner) counted s.after_other in
    let size : length es ≡ suc (length s.more) =
      ap length s.are_entries ∙ ap suc (length-map (λ p. p.1) s.more) in
    let number : strtoumax_10 (32 ∷ s.value ++ 10 ∷ []) % 65536 ≡ suc (length s.more) =
      omega (arith, s.is_count, s.few, size) in
    let ends : read_header p (s.head ∷ inner) ≡ (p, inner) =
      rw (header_line-IsHead s.head p s.is_head, read_header) refl in
    let counts : read_header q (count_line s.value ∷ (s.after ++ (s.head ∷ inner))) ≡ (p, inner) =
      rw (header_line-count s.value q s.digits, read_header) (f ∙ ends) in
    (p, (e ∙ counts, kept ∙ number))

-- The controllers of the report are those that are printed.
parse_report-ShowsControllers :
    (text : Text) (es : List Entry)
    → ShowsControllers text es
    → (parse_report (lines cmd_result_length text)).controllers ≡ map controller_of es
unfolding parse_report
parse_report-ShowsControllers text es s =
    let all = report_lines s.before s.value s.after s.head s.first s.more s.behind in
    let (q, (e, number)) = read_header-count text es s in
    let read : (parse_report all).controllers
        ≡ map controller_of (s.first ∷ map (λ p. p.1) s.more) =
      rw (e, number)
        (read_controllers-entries s.first s.more s.behind s.first_fits s.more_fit
          s.behind_silent) in
    ap (λ t. (parse_report (lines cmd_result_length t)).controllers) s.is_text
    ∙ ap (λ ls. (parse_report ls).controllers) (lines-concat cmd_result_length all s.whole)
    ∙ read
    ∙ ap (map controller_of) (sym s.are_entries)

map-key : (es : List Entry) → map controller_key (map controller_of es) ≡ map (λ e. e.rkey.1) es
map-key [] = refl
map-key (e ∷ es) = ap (λ ks. e.rkey.1 ∷ ks) (map-key es)

-- The controller holds the reservation.
abbrev pub Holds : Entry → Type 0
Holds e = e.rcsts.1 % 256 ≢ 0

abbrev pub SomeHolds : List Entry → Type 0
SomeHolds [] = ⊥
SomeHolds (e ∷ es) = Holds e ⊎ SomeHolds es

any_reserved-SomeHolds :
    (es : List Entry) → SomeHolds es → any_reserved (map controller_of es) ≡ true
unfolding any_reserved
any_reserved-SomeHolds [] h = absurd h
any_reserved-SomeHolds (e ∷ es) h = ground (arith, h, any_reserved-SomeHolds es)

owner_of-SomeHolds :
    (k : ℕ) (found : ℤ × ℕ) (es : List Entry)
    → All (λ e. Holds e → e.rkey.1 ≡ k) es
    → (found ≡ (pr_err_ok, k)) ⊎ SomeHolds es
    → owner_of found (map controller_of es) ≡ (pr_err_ok, k)
unfolding owner_of
owner_of-SomeHolds k found [] all h = ground (arith, h)
owner_of-SomeHolds k found (e ∷ es) all h = elim (Bool-cases (e.rcsts.1 % 256 == 0)) [
  | inl q ↦ rw (q, owner_of) (owner_of-SomeHolds k found es all.1 ground (arith, h, q))
  | inr q ↦
      rw (q, owner_of)
        (owner_of-SomeHolds k (pr_err_ok, e.rkey.1) es all.1 (inl ground (arith, all.0, q)))
]

module _ {W : Type 0} (env : Env W) (d : DevicePriv) where
  -- When the command of the report succeeds and its output lists controllers, the registered keys are
  -- their keys, in their order; and if some of them hold the reservation, all with the key `k`, the
  -- disk is reserved, and by the holder `k`.
  pub report-ShowsControllers :
      (es : List Entry) (k : ℕ) (o : Output) (w : W)
      → (env.popen (resv_report_cmd d) w).0 ≡ some o
      → o.status ≡ pos 0
      → ShowsControllers o.text es
      → SomeHolds es
      → All (λ e. Holds e → e.rkey.1 ≡ k) es
      → ((device_get_registered_keys env d w).0 ≡ (pr_err_ok, map (λ e. e.rkey.1) es))
        × (((device_is_reserved env d w).0 ≡ pos 1)
            × ((device_get_reservation_owner_key env d w).0 ≡ (pr_err_ok, k)))
  unfolding get_reservation_report device_is_reserved device_get_reservation_owner_key
      device_get_registered_keys
  report-ShowsControllers es k o w ran ok shows some_holds all_k =
      let read = parse_report-ShowsControllers o.text es shows in
      ground (
        arith,
        ran,
        ok,
        read,
        map-key es,
        any_reserved-SomeHolds es some_holds,
        owner_of-SomeHolds k (pr_err_device_not_reserved, 0) es all_k (inr some_holds),
      )
