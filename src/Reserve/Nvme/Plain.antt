-- ===== src/Reserve/Nvme/Plain.antt =====
-- persistent_reserve/nvme_device.c: a report whose controllers do not stand under lines with regctlext.
use corosync_qdisk.Prelude.{
  ℤ, ℕ, zero, suc, ◌≡◌, ◌≢◌, pos, inl, inr, Option-cases, refl, ◌∙◌, ap, false, none, some, List,
  [], ◌∷◌, Text, codes, arith, All,
}
use corosync_qdisk.Libc.{has_text}
use corosync_qdisk.Corosync.{Env, Output}
use corosync_qdisk.Reserve.{pr_err_device_not_reserved}
use corosync_qdisk.Reserve.Exec.{lines, cmd_result_length}
use corosync_qdisk.Reserve.Nvme.{
  resv_report_cmd, empty_report, ResvReport, header_line, read_header, read_controller,
  read_controllers, parse_report, any_reserved, get_reservation_report, device_is_reserved,
  device_get_reservation_owner_key, DevicePriv, RespRepController, owner_of,
}

-- No line ends the header.
abbrev pub IsPlain : List Text → Type 0
IsPlain = All (λ l. has_text (codes "regctlext") l ≡ false)

pub header_line-goes_on :
    (l : Text) (r : ResvReport) → has_text (codes "regctlext") l ≡ false → header_line l r ≢ none
unfolding header_line
header_line-goes_on l r h e = ground (arith, h, e)

read_header-IsPlain : (ls : List Text) (r : ResvReport) → IsPlain ls → (read_header r ls).1 ≡ []
unfolding read_header
read_header-IsPlain [] r h = refl
read_header-IsPlain (l ∷ ls) r h = elim (Option-cases (header_line l r)) [
  | inl e ↦ absurd (header_line-goes_on l r h.0 e)
  | inr (r', e) ↦ rw (e, read_header) (read_header-IsPlain ls r' h.1)
]

-- Controllers for which no line is left.
any_reserved-zeroed : (n : ℕ) → any_reserved (read_controllers n []) ≡ false
unfolding any_reserved read_controllers read_controller
any_reserved-zeroed zero = refl
any_reserved-zeroed (suc n) = any_reserved-zeroed n

pub owner_of-unreserved :
    (found : ℤ × ℕ) (cs : List RespRepController)
    → any_reserved cs ≡ false
    → owner_of found cs ≡ found
unfolding any_reserved owner_of
owner_of-unreserved found [] h = refl
owner_of-unreserved found (c ∷ cs) h = ground (arith, h, owner_of-unreserved found cs)

-- A report in which no line says regctlext is read as one of a disk that nobody has reserved, whatever
-- its controllers are.
pub parse_report-IsPlain :
    (ls : List Text) → IsPlain ls → any_reserved (parse_report ls).controllers ≡ false
unfolding parse_report
parse_report-IsPlain ls h =
    let r = read_header empty_report ls in
    ap (λ rest. any_reserved (read_controllers r.0.num_controllers rest))
      (read_header-IsPlain ls empty_report h)
    ∙ any_reserved-zeroed r.0.num_controllers

module _ {W : Type 0} (env : Env W) (d : DevicePriv) where
  -- When the command of the report succeeds and no line of its output says regctlext, the disk is taken
  -- as free: `device_is_reserved` answers 0, and there is no holder.
  pub is_reserved-IsPlain :
      (o : Output) (w : W)
      → (env.popen (resv_report_cmd d) w).0 ≡ some o
      → o.status ≡ pos 0
      → IsPlain (lines cmd_result_length o.text)
      → ((device_is_reserved env d w).0 ≡ pos 0)
        × ((device_get_reservation_owner_key env d w).0 ≡ (pr_err_device_not_reserved, 0))
  unfolding get_reservation_report device_is_reserved device_get_reservation_owner_key
  is_reserved-IsPlain o w ran ok plain =
      let report = parse_report (lines cmd_result_length o.text) in
      let free = parse_report-IsPlain (lines cmd_result_length o.text) plain in
      ground (
        arith,
        ran,
        ok,
        free,
        owner_of-unreserved (pr_err_device_not_reserved, 0) report.controllers free,
      )
