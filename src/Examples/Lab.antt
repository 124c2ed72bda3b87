-- ===== src/Examples/Lab.antt =====
-- A small world for tests: a clock that stands, a disk with its holder and its registered keys, the
-- votes that have been sent, the latest one first, and services that answer with nothing new.
use corosync_qdisk.Prelude.{
  ℕ, ◌*◌, ◌/◌, ◌%◌, ℤ, pos, Bool, true, false, Option, none, some, List, [], ◌∷◌, ◌++◌, codes, ◌==◌,
  if◌then◌else◌, arith,
}
use corosync_qdisk.Corosync.{cs_ok, Request, Reply, Env, St, votes_in}
use corosync_qdisk.Reserve.{
  Device, pr_err_ok, pr_err_reservation_failed, pr_err_device_not_reserved,
}
use corosync_qdisk.Cmap.{Cmap, qdisk_cmap_get_node_count}
use corosync_qdisk.Vquorum.{Vquorum, find_key, dispatch, notify_all}
use corosync_qdisk.Vquorum.Service.{
  vquorum_get_quorate, vquorum_get_expected_votes, vquorum_get_total_votes, vquorum_get_node_list,
  vquorum_get_node_key_list, collect_keys, vquorum_get_node_key, vquorum_qdevice_poll,
  vquorum_qdevice_unregister,
}
use corosync_qdisk.Algorithm.{
  algorithm_run, run_reserved, run_keys, run_switch, run_finish, switch, algorithm_stop, first_look,
  holder_visible, key_registered,
}
use corosync_qdisk.Log.{Log}
use corosync_qdisk.Daemon.{start, Last, Algorithm, gettime_ms}
use corosync_qdisk.Cluster.{Disk}

pub record Lab : Type 0 where
  pub now : ℕ
  pub holder : Option ℕ
  pub keys : List ℕ
  pub sent : List ℕ

abbrev pub answer : (r : Request) → Lab → Reply r
answer Request.clock_gettime w = (w.now / 1000, w.now % 1000 * 1000000)
answer (Request.sleep _) w = tt
answer Request.votequorum_model_initialize w = (cs_ok, 1)
answer (Request.votequorum_finalize _) w = cs_ok
answer (Request.votequorum_getinfo _ _ info) w = (cs_ok, info)
answer (Request.votequorum_trackstart _) w = cs_ok
answer (Request.votequorum_dispatch _) w = (cs_ok, [])
answer (Request.votequorum_set_qdevice_extra_info _ _ _) w = cs_ok
answer (Request.votequorum_get_qdevice_extra_info _ _) w = (cs_ok, [])
answer (Request.votequorum_qdevice_poll _ _ _) w = cs_ok
answer (Request.votequorum_qdevice_register _) w = cs_ok
answer (Request.votequorum_qdevice_unregister _) w = cs_ok
answer Request.cmap_initialize w = (cs_ok, 1)
answer (Request.cmap_finalize _) w = cs_ok
answer (Request.cmap_track_add _ _) w = cs_ok
answer (Request.cmap_get_string _ _) w = (cs_ok, [])
answer (Request.cmap_get_uint32 _ _) w = (cs_ok, 1000)
answer (Request.cmap_get_uint8 _ _) w = (cs_ok, 1)
answer (Request.cmap_iter _ _) w = (cs_ok, [])
answer (Request.cmap_dispatch _) w = (cs_ok, [])
answer (Request.file_exists _) w = false
answer (Request.read_file _) w = none
answer (Request.write_file _ _) w = true
answer Request.gethostname w = codes "host"
answer Request.malloc_keys w = λ _. 0
answer (Request.realpath p) w = some p
answer (Request.cmap_fd_get _) w = (cs_ok, 4)
answer (Request.votequorum_fd_get _) w = (cs_ok, 5)
answer (Request.qb_log_init _) w = tt
answer Request.qb_loop_create w = true
answer (Request.qb_loop_timer_add _) w = pos 0
answer (Request.qb_loop_poll_add _) w = pos 0
answer (Request.sd_notify _) w = tt
answer (Request.getenv _) w = none
answer (Request.print _) w = tt
answer (Request.print_err _) w = tt
answer Request.local_time w = codes "2025-01-01-00:00:00+0000"
answer (Request.dirname p) w = p
answer Request.qb_log_configure w = tt
answer (Request.qb_log_file_open _) w = tt
answer (Request.qb_log_blackbox_write_to_file _) w = tt
answer (Request.qb_logt _ _ _) w = tt

abbrev pub lab_env : Env Lab
lab_env = record {
  call = λ r w. (answer r w, record w { sent = votes_in r ++ w.sent });
  popen = λ cmd w. (none, w);
  attempts = 3;
  qdevice_nodeid = 0;
  qdevice_default_timeout = 10000;
}

abbrev same_key : Option ℕ → ℕ → Bool
same_key none k = false
same_key (some j) k = j == k

abbrev lab_reserve : ℕ → St Lab ℤ
lab_reserve k w = elim w.holder [
  | none ↦ (pr_err_ok, record w { holder = some k })
  | some j ↦ if j == k then (pr_err_ok, w) else (pr_err_reservation_failed, w)
]

-- The disk as a host with key `k` sees it.
abbrev pub lab_device : ℕ → Device Lab
lab_device k = record {
  register_key = λ w. (pr_err_ok, record w { keys = k ∷ w.keys });
  unregister_key = λ w. (pr_err_ok, record w { keys = [] });
  reserve = λ w. lab_reserve k w;
  release = λ w. (pr_err_ok, if same_key w.holder k then record w { holder = none } else w);
  is_reserved = λ w. (elim w.holder [ none ↦ pos 0 | some _ ↦ pos 1 ], w);
  get_name = codes "/dev/sda";
  get_key = [];
  get_ikey = k;
  get_registered_keys = λ w. ((pr_err_ok, w.keys), w);
  abort = λ w. (pr_err_ok, record w { holder = none });
  get_device_id = codes "disk";
  get_reservation_owner_key =
      λ w. (elim w.holder [ none ↦ (pr_err_device_not_reserved, 0) | some j ↦ (pr_err_ok, j) ], w);
}

-- Host `i` has key `i + 1`.
abbrev pub lab_dev : ℕ → Device Lab
lab_dev i = lab_device (ℕ.suc i)

pub lab_Disk : Disk (λ _. lab_env) lab_dev (λ w. w.holder)
lab_Disk = record {
  keeps = λ i k. record {
    call_keeps = λ r w h. h;
    is_reserved_keeps = λ w h. h;
    owner_keeps = λ w h. h;
    keys_keep = λ w h. h;
    reserve_keeps = λ w h. ground arith;
  };
  reserve_gains = λ i w h. ground arith;
  release_keeps = λ i k ne w h. ground arith;
  unregister_keeps = λ i k ne w h. h;
  register_keeps = λ i k w h. h;
  distinct_keys = λ i j h. omega arith;
}

abbrev pub no_last : Last
no_last = record {
  old_skip_poll = false;
  old_quorate = false;
  old_node_count = 0;
  old_votes = 0;
  old_expected_votes = 0;
  old_num_nodes_visible = 0;
  old_reserved = false;
  old_resv_node_visible = false;
  old_cast_vote = 0;
}

-- The statics of a daemon with host number `i`, just initialised: the timeout is 12 seconds.
abbrev pub fresh_algorithm : ℕ → Algorithm Lab
fresh_algorithm i = record {
  pr_device = some (lab_dev i);
  algorithm_heartbeat = 750;
  algorithm_timeout = 12000;
  state = start;
  timeout_time = 0;
  good_heartbeat_timeout = 18446744073709551615;
  last = no_last;
}

-- One of two nodes is visible, the host itself, and the partition is quorate.
abbrev pub half_vq : ℕ → Vquorum
half_vq i = record {
  v_handle = 1;
  info = record { node_id = i; node_expected_votes = 3; total_votes = 2 };
  our_nodeid = i;
  ring_id = record { ring_nodeid = i; seq = 4 };
  visible_node_list = i ∷ [];
  vqnode_list = [];
  expected_votes = 3;
  quorate = 1;
  qdisk_key = ℕ.suc i;
  node_list = record { nodeid = i; state = 1; disk_key = ℕ.suc i } ∷ [];
}

abbrev pub lab_log : Log
lab_log = record {
  blackbox_path = codes "/var/log/corosync-qdisk.fdata";
  corosync_logfile_path = codes "/var/log/cluster/corosync.log";
}

abbrev pub two_nodes : Cmap
two_nodes = record { cmap_handle = 1; node_count = 2; cmap_reload_in_progress = false }

abbrev pub free_disk : Lab
free_disk = record { now = 5000; holder = none; keys = 1 ∷ 2 ∷ []; sent = [] }

-- To unfold this is to unfold all that a heartbeat computes with.
unfoldable pub heartbeat_computes : Unit {0}
unfolding algorithm_run run_reserved run_keys run_switch run_finish switch algorithm_stop first_look
    gettime_ms qdisk_cmap_get_node_count vquorum_get_quorate vquorum_get_expected_votes
    vquorum_get_total_votes vquorum_get_node_list vquorum_get_node_key_list collect_keys
    vquorum_get_node_key find_key vquorum_qdevice_poll vquorum_qdevice_unregister dispatch
    notify_all holder_visible key_registered
heartbeat_computes = tt
