-- ===== src/Examples/Votes.antt =====
-- The theorems on the keys that the nodes share through votequorum, each at one concrete input.
use corosync_qdisk.Prelude.{zero, ℕ, suc, ◌≡◌, refl, none, [], codes, arith}
use corosync_qdisk.Corosync.{cs_ok, cs_err_try_again, Request, Reply, Env}
use corosync_qdisk.Vquorum.{print_extra_info, send_extra_info}
use corosync_qdisk.Vquorum.Retry.{answered, refused, send_extra_info-enough}
use corosync_qdisk.Examples.Lab.{answer, half_vq, free_disk}

-- The world counts how often votequorum is still busy.
busy : (r : Request) → ℕ → Reply r × ℕ
busy (Request.votequorum_set_qdevice_extra_info _ _ _) (suc n) = (cs_err_try_again, n)
busy (Request.votequorum_get_qdevice_extra_info _ _) (suc n) = ((cs_err_try_again, []), n)
busy (Request.votequorum_get_qdevice_extra_info _ _) zero = ((cs_ok, codes "Qdsk 1"), 0)
busy r n = (answer r free_disk, n)

busy_env : Env ℕ
busy_env = record {
  call = busy;
  popen = λ cmd n. (none, n);
  attempts = 3;
  qdevice_nodeid = 99;
  qdevice_default_timeout = 10000;
}

send_extra_info-enough_example :
    send_extra_info busy_env 3 1 22 (print_extra_info 1) (half_vq 0, 2) ≡ (cs_ok, (half_vq 0, 0))
unfolding busy busy_env
send_extra_info-enough_example =
    send_extra_info-enough busy_env 1 22 (print_extra_info 1) (half_vq 0) 3
      (refused refl refl (refused refl refl (answered refl refl))) (omega arith)
