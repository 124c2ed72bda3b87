-- ===== src/Reserve/Nvme/Report.antt =====
-- persistent_reserve/nvme_device.c: what a reservation report tells the daemon.
use corosync_qdisk.Prelude.{
  length, zero, refl, ap, Text, ℕ, suc, ◌≡◌, true, false, pos, some, List, [], ◌∷◌, codes, ◌++◌,
  arith, is_zero, is_negative, if◌then◌else◌,
}
use corosync_qdisk.Corosync.{Env, Output}
use corosync_qdisk.Reserve.{pr_err_device_not_reserved, pr_err_ok}
use corosync_qdisk.Reserve.Nvme.{
  read_controllers, read_controller, zeroed, parse_report, DevicePriv, RespRepController,
  any_reserved, owner_of, get_reservation_report, device_is_reserved,
  device_get_reservation_owner_key,
}

owner_of-found :
    (k : ℕ) (cs : List RespRepController) → is_zero (owner_of (pr_err_ok, k) cs).0 ≡ true
unfolding owner_of
owner_of-found k [] = ground arith
owner_of-found k (c ∷ cs) = ground (arith, owner_of-found k cs, owner_of-found c.ikey cs)

owner_of-any_reserved :
    (cs : List RespRepController)
    → is_zero (owner_of (pr_err_device_not_reserved, 0) cs).0 ≡ any_reserved cs
unfolding owner_of any_reserved
owner_of-any_reserved [] = ground arith
owner_of-any_reserved (c ∷ cs) = ground (arith, owner_of-any_reserved cs, owner_of-found c.ikey cs)

length-read_controllers : (n : ℕ) (ls : List Text) → length (read_controllers n ls) ≡ n
unfolding read_controllers
length-read_controllers zero ls = refl
length-read_controllers (suc n) ls =
    ap (λ k. suc k) (length-read_controllers n (read_controller zeroed ls).1)

-- Whatever the command writes, the report has as many controllers as its header says.
pub length-parse_report :
    (ls : List Text) → length (parse_report ls).controllers ≡ (parse_report ls).num_controllers
unfolding parse_report
length-parse_report ls = length-read_controllers _ _

module _ {W : Type 0} (env : Env W) (d : DevicePriv) where
  -- When the report can be read, the two questions that the daemon asks agree: in the same world,
  -- `device_is_reserved` answers 1 if `device_get_reservation_owner_key` finds a holder, and 0 if it
  -- finds none.
  pub is_reserved-owner :
      (w : W)
      → is_zero (get_reservation_report env d w).0.0 ≡ true
      → (device_is_reserved env d w).0
        ≡ (if is_zero (device_get_reservation_owner_key env d w).0.0 then pos 1 else pos 0)
  unfolding device_is_reserved device_get_reservation_owner_key
  is_reserved-owner w ok =
      ground (arith, owner_of-any_reserved (get_reservation_report env d w).0.1.controllers)

  -- When the command of the report ends with a positive status, `device_is_reserved` answers a
  -- number that is neither negative nor zero, which `algorithm_run` takes for a reserved disk, and
  -- `device_get_reservation_owner_key` answers an error.
  pub is_reserved-failed :
      (w : W) (o : Output) (n : ℕ)
      → (env.popen (codes "nvme resv-report " ++ d.device_name) w).0 ≡ some o
      → o.status ≡ pos (suc n)
      → (is_negative (device_is_reserved env d w).0 ≡ false)
        × ((is_zero (device_is_reserved env d w).0 ≡ false)
            × (is_zero (device_get_reservation_owner_key env d w).0.0 ≡ false))
  unfolding device_is_reserved device_get_reservation_owner_key get_reservation_report
  is_reserved-failed w o n ran e = ground arith
