-- ===== src/Examples/Instances.antt =====
-- The theorems on the state machine and the start of the daemon, on cmap and on the key file, each at
-- one concrete input.
use corosync_qdisk.Prelude.{
  Text, Option, ℕ, ◌≡◌, ◌⊎◌, ◌↔◌, refl, pos, true, false, none, some, List, [], ◌∷◌, ◌++◌, codes,
  arith, inl,
}
use corosync_qdisk.Libc.{print_key, scan_literal, scan_unsigned, scan_word, skip_spaces}
use corosync_qdisk.Corosync.{cs_ok, Request, Reply, Env}
use corosync_qdisk.Cmap.{node_position, update_node_count}
use corosync_qdisk.Cmap.Count.{Group, all_keys, update_node_count-groups}
use corosync_qdisk.Daemon.{State, start, idle, have_qdisk, resigned, Sys, aborted}
use corosync_qdisk.Reserve.KeyFile.{
  persistent_reserve_device_new, persistent_reserve_device_new_key,
}
use corosync_qdisk.Reserve.KeyFile.Restart.{key_of, device_new-restart}
use corosync_qdisk.Algorithm.Init.{algorithm_init}
use corosync_qdisk.Algorithm.Init.Ready.{IsReady, algorithm_init-IsReady}
use corosync_qdisk.Algorithm.{Seen, switch}
use corosync_qdisk.Algorithm.Switch.{IsLost, switch-vote, switch-abort}
use corosync_qdisk.Examples.Lab.{Lab, answer, lab_env, lab_dev, free_disk}
use corosync_qdisk.Examples.Heartbeats.{s0}

-- One of two nodes is visible, and nobody holds the disk.
abbrev half : Seen
half = record {
  node_count = 2;
  is_quorate = true;
  expected_votes = 3;
  votes = 2;
  reserved = pos 0;
  reservation_holder = 0;
  num_nodes_visible = 1;
  resv_node_visible = false;
}

abbrev pub in_state : State → Sys Lab
in_state st = record s0 { alg = record s0.alg { state = st } }

switch-vote_example :
    (◌≡◌ {A = ℕ} 0 0) ↔ ((start ≡ start) ⊎ ((start ≡ resigned) ⊎ (idle ≡ resigned)))
unfolding switch
switch-vote_example =
    switch-vote lab_env half (lab_dev 0) start s0 {b = record { cast_vote = 0; skip_poll = false }}
      {t = in_state idle} refl refl

switch-abort_example :
    ((t : Sys Lab) × (switch lab_env half (lab_dev 0) have_qdisk s0 ≡ aborted t))
    ↔ ((have_qdisk ≡ have_qdisk) × IsLost lab_env half (lab_dev 0))
switch-abort_example = switch-abort lab_env half (lab_dev 0) have_qdisk s0

-- The keys of two nodes, as cmap lists them.
abbrev nodelist : List Group
nodelist =
    record {
      position = 0;
      first = codes "nodelist.node.0.nodeid";
      others = codes "nodelist.node.0.ring0_addr" ∷ [];
    }
    ∷ record { position = 1; first = codes "nodelist.node.1.nodeid"; others = [] }
    ∷ []

listing : (r : Request) → Lab → Reply r × Lab
listing (Request.cmap_iter _ _) w = ((cs_ok, all_keys nodelist), w)
listing r w = (answer r w, w)

listing_env : Env Lab
listing_env = record lab_env { call = listing }

update_node_count-groups_example :
    (update_node_count listing_env (s0.cmap, free_disk)).1.0 ≡ record s0.cmap { node_count = 2 }
unfolding listing listing_env node_position scan_literal scan_unsigned scan_word skip_spaces
update_node_count-groups_example =
    update_node_count-groups listing_env s0.cmap free_disk nodelist
      ((λ e. ground arith), (refl, ((inl refl, tt), ((λ e. ground arith), (refl, (tt, tt))))))
      (omega arith) refl

-- A world that is one file; the other requests are answered as in the small world.
shelf : (r : Request) → Option Text → Reply r × Option Text
shelf (Request.file_exists _) none = (false, none)
shelf (Request.file_exists _) (some t) = (true, some t)
shelf (Request.read_file _) w = (w, w)
shelf (Request.write_file _ text) w = (true, some text)
shelf r w = (answer r free_disk, w)

shelf_env : Env (Option Text)
shelf_env = record {
  call = shelf;
  popen = λ cmd w. (none, w);
  attempts = 3;
  qdevice_nodeid = 99;
  qdevice_default_timeout = 10000;
}

abbrev stored : Option Text
stored = some (print_key (key_of shelf_env (codes "sda") (codes "key") none) ++ [])

device_new-restart_example :
    ((z : Option Text) × (persistent_reserve_device_new shelf_env (codes "sda") (codes "key") none
        ≡ persistent_reserve_device_new_key shelf_env
            (codes "sda")
            (key_of shelf_env (codes "sda") (codes "key") none)
            z))
    × ((z : Option Text) × (persistent_reserve_device_new shelf_env
            (codes "sda")
            (codes "key")
            stored
          ≡ persistent_reserve_device_new_key shelf_env
              (codes "sda")
              (key_of shelf_env (codes "sda") (codes "key") none)
              z))
unfolding shelf shelf_env
device_new-restart_example =
    device_new-restart shelf_env (codes "sda") (codes "key") none stored [] (refl, refl)
      (refl, refl)

-- A daemon that has just been started.
abbrev closed : Sys Lab
closed = record s0 { alg = record s0.alg { pr_device = none } }

algorithm_init-IsReady_example : IsReady lab_env start (algorithm_init lab_env closed)
algorithm_init-IsReady_example = algorithm_init-IsReady lab_env closed refl

-- Two nodes are visible, in a cluster of `count` nodes.
abbrev pub with_holder : ℕ → Sys Lab
with_holder count = record (in_state idle) {
  cmap = record s0.cmap { node_count = count };
  vq = record s0.vq {
    visible_node_list = 0 ∷ 1 ∷ [];
    node_list =
        record { nodeid = 0; state = 1; disk_key = 1 }
        ∷ record { nodeid = 1; state = 1; disk_key = 2 }
        ∷ [];
  };
  world = record free_disk { holder = some 2 };
}
