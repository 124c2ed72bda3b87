-- ===== src/Examples/Heartbeats.antt =====
-- Two hosts that lose sight of one another race for the disk.
use corosync_qdisk.Prelude.{ℕ, ◌≡◌, refl, ap, Option, some, true}
use mathlib.Core.Path.{subst}
use mathlib.Core.Option.{get_or}
use corosync_qdisk.Reserve.{Device}
use corosync_qdisk.Daemon.{
  State, Sys, Outcome, done, exited, aborted, crashed, start, idle, reserve_disk, have_qdisk,
}
use corosync_qdisk.Algorithm.{algorithm_run}
use corosync_qdisk.Cluster.{Node, Cluster, node_of, put, beat, Reach, here, later, IsInitial}
use corosync_qdisk.Cluster.Lock.{LockStep, Represents, Step-refines}
use corosync_qdisk.Cluster.Safety.{have_qdisk_unique}
use corosync_qdisk.Examples.Lab.{
  Lab, no_last, lab_env, lab_dev, lab_Disk, fresh_algorithm, half_vq, lab_log, two_nodes, free_disk,
  heartbeat_computes,
}

-- The state that a heartbeat leaves.
abbrev after : Outcome Lab (Unit {0}) → Sys Lab → Sys Lab
after (done a s) t = s
after (exited n s) t = s
after (aborted s) t = s
after (crashed s) t = s

abbrev pub s0 : Sys Lab
s0 = record {
  alg = fresh_algorithm 0;
  cmap = two_nodes;
  vq = half_vq 0;
  log = lab_log;
  world = free_disk;
}

s1 : Sys Lab
s1 = after (algorithm_run lab_env s0) s0

s2 : Sys Lab
s2 = after (algorithm_run lab_env s1) s1

s3 : Sys Lab
s3 = after (algorithm_run lab_env s2) s2

beat_1 : algorithm_run lab_env s0 ≡ done tt s1
unfolding s1 heartbeat_computes
beat_1 = refl

beat_2 : algorithm_run lab_env s1 ≡ done tt s2
unfolding s1 s2 heartbeat_computes
beat_2 = refl

beat_3 : algorithm_run lab_env s2 ≡ done tt s3
unfolding s1 s2 s3 heartbeat_computes
beat_3 = refl

-- START, IDLE, RESERVE_DISK, HAVE_QDISK.
race_won : (s1.alg.state ≡ idle) × (s2.alg.state ≡ reserve_disk) × (s3.alg.state ≡ have_qdisk)
unfolding s1 s2 s3 heartbeat_computes
race_won = (refl, refl, refl)

abbrev pub fresh_node : ℕ → Node Lab
fresh_node i = record { alg = fresh_algorithm i; cmap = two_nodes; vq = half_vq i; log = lab_log }

-- Hosts that have just started; host 0 is the first to run.
abbrev pub hosts : Cluster Lab
hosts = record { world = free_disk; node = λ i. some (fresh_node i) }

hosts-IsInitial : IsInitial (λ _. lab_env) lab_dev (λ w. w.holder) hosts
hosts-IsInitial i n h =
    subst (λ m. (m.alg.pr_device ≡ some (lab_dev i)) × (m.alg.state ≡ start))
      (ap (λ o. get_or o (fresh_node i)) h) (refl, refl)

abbrev raced : Cluster Lab
raced =
    put (put (put hosts 0 (some (node_of s1)) s1.world) 0 (some (node_of s2)) s2.world) 0
      (some (node_of s3)) s3.world

hosts_race : Reach (λ _. lab_env) lab_dev (λ w. w.holder) hosts raced
unfolding s1 s2 s3 heartbeat_computes
hosts_race =
    later (later (later here (beat 0 (fresh_node 0) refl beat_1)) (beat 0 (node_of s1) refl beat_2))
      (beat 0 (node_of s2) refl beat_3)

have_qdisk_unique_example : ◌≡◌ {A = ℕ} 0 0
have_qdisk_unique_example =
    have_qdisk_unique (λ _. lab_env) lab_dev (λ w. w.holder) lab_Disk hosts-IsInitial hosts_race 0 0
      (node_of s3) (node_of s3) refl refl race_won.2 race_won.2

-- Host 0 has gone to IDLE and to RESERVE_DISK.
abbrev racing : Cluster Lab
racing = put (put hosts 0 (some (node_of s1)) s1.world) 0 (some (node_of s2)) s2.world

hosts-racing : Reach (λ _. lab_env) lab_dev (λ w. w.holder) hosts racing
unfolding s1 s2 heartbeat_computes
hosts-racing =
    later (later here (beat 0 (fresh_node 0) refl beat_1)) (beat 0 (node_of s1) refl beat_2)

-- The heartbeat in which host 0 takes the lock.
Step-refines_example :
    (o : Option ℕ) × (Represents racing o × ((p : Option ℕ) × (LockStep o p × Represents raced p)))
Step-refines_example =
    Step-refines (λ _. lab_env) lab_dev (λ w. w.holder) lab_Disk hosts-IsInitial hosts-racing
      (beat 0 (node_of s2) refl beat_3)

-- A daemon that has just started, with its device open.
abbrev pub booted : Device Lab → ℕ → Node Lab
booted d i = record {
  alg = record (fresh_algorithm i) { pr_device = some d };
  cmap = two_nodes;
  vq = half_vq i;
  log = lab_log;
}

-- A state of host 0 in the race, with the vote of the heartbeat before it.
abbrev pub race_at : Device Lab → State → ℕ → ℕ → Lab → Sys Lab
race_at d st timeout cast w = record {
  alg = record (booted d 0).alg {
    state = st;
    timeout_time = timeout;
    good_heartbeat_timeout = 17000;
    last = record no_last {
      old_quorate = true;
      old_node_count = 2;
      old_votes = 2;
      old_expected_votes = 3;
      old_num_nodes_visible = 1;
      old_cast_vote = cast;
    };
  };
  cmap = two_nodes;
  vq = half_vq 0;
  log = lab_log;
  world = w;
}
