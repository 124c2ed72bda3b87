-- ===== src/Examples/Rounds.antt =====
-- The theorems on several heartbeats in a row, each at one concrete input.
use corosync_qdisk.Prelude.{List, ◌++◌, ap, ◌∙◌, ℕ, ◌≡◌, ◌≤◌, refl, none, some, [], ◌∷◌, arith}
use corosync_qdisk.Corosync.{votes_in}
use corosync_qdisk.Vquorum.{find_key}
use corosync_qdisk.Vquorum.Service.{vquorum_get_quorate}
use corosync_qdisk.Daemon.{idle, have_qdisk, resigned, Sys}
use corosync_qdisk.Algorithm.{key_registered}
use corosync_qdisk.Algorithm.Progress.{IsHealthy}
use corosync_qdisk.Algorithm.Beats.{IsCalm, IsPoised}
use corosync_qdisk.Algorithm.Race.Won.{IsWinnable, Wins, run-Wins}
use corosync_qdisk.Examples.Lab.{Lab, lab_env, lab_dev, half_vq, free_disk, fresh_algorithm}
use corosync_qdisk.Examples.Heartbeats.{s0}
use corosync_qdisk.Examples.Instances.{in_state, with_holder}

-- It is five seconds, nobody holds the disk, and both keys are registered.
abbrev IsQuiet : List ℕ → Lab → Type 0
IsQuiet l w = (w.now ≡ 5000) × ((w.holder ≡ none) × ((w.keys ≡ 1 ∷ 2 ∷ []) × (w.sent ≡ l)))

-- The same, but host 0 holds the disk.
abbrev IsOwned : List ℕ → Lab → Type 0
IsOwned l w = (w.now ≡ 5000) × ((w.holder ≡ some 1) × ((w.keys ≡ 1 ∷ 2 ∷ []) × (w.sent ≡ l)))

IsQuiet-IsHealthy : (l : List ℕ) → IsHealthy lab_env (lab_dev 0) (IsQuiet l)
unfolding key_registered
IsQuiet-IsHealthy l = record {
  call_keeps = λ r e w h. (h.0, (h.1.0, (h.1.1.0, ap (λ m. m ++ w.sent) e ∙ h.1.1.1)));
  is_reserved_keeps = λ w h. h;
  free = λ w h. rw h.1.0 refl;
  read = λ w h. refl;
  registered = λ w h. rw h.1.1.0 refl;
}

IsQuiet-IsWinnable : IsWinnable lab_env (lab_dev 0) (λ w. w.sent) IsQuiet IsOwned
IsQuiet-IsWinnable = record {
  healthy = IsQuiet-IsHealthy;
  keys_keep = λ l w h. h;
  reserve_succeeds = λ l w h. rw h.1.0 refl;
  reserve_gains = λ l w h. rw h.1.0 (h.0, (refl, h.1.1));
}

-- The clock of the small world stands.
IsQuiet-IsCalm : (i : ℕ) → IsCalm lab_env (lab_dev i) (λ w. w.sent) 5000 12000 IsQuiet
IsQuiet-IsCalm i = record {
  logs = λ l w h. h.1.1.1;
  call_sends = λ r l w h. (h.0, (h.1.0, (h.1.1.0, ap (λ m. votes_in r ++ m) h.1.1.1)));
  no_news = λ handle l w h. refl;
  from_lo = λ l w h. ground (arith, h.0);
  before_end = λ l w h. ground (arith, h.0);
  no_overflow = omega arith;
}

IsOwned-IsCalm : (i : ℕ) → IsCalm lab_env (lab_dev i) (λ w. w.sent) 5000 12000 IsOwned
IsOwned-IsCalm i = record {
  logs = λ l w h. h.1.1.1;
  call_sends = λ r l w h. (h.0, (h.1.0, (h.1.1.0, ap (λ m. votes_in r ++ m) h.1.1.1)));
  no_news = λ handle l w h. refl;
  from_lo = λ l w h. ground (arith, h.0);
  before_end = λ l w h. ground (arith, h.0);
  no_overflow = omega arith;
}

-- A daemon of host `i` at five seconds, as it is.
poised :
    (i : ℕ) (Q : Lab → Type 0) (s : Sys Lab)
    → Q s.world
    → s.alg.pr_device ≡ some (lab_dev i)
    → s.alg.algorithm_timeout ≡ 12000
    → 17000 ≤ s.alg.good_heartbeat_timeout
    → IsPoised lab_env (lab_dev i) (λ w. w.sent) 5000 12000 s.vq s.cmap.node_count Q s.alg.state s
poised i Q s q opened timeout_is armed = record {
  world = q;
  opened = opened;
  at = refl;
  timeout_is = timeout_is;
  armed = armed;
  view = refl;
  nodes = refl;
}

run-Wins_example : Wins lab_env (lab_dev 0) (λ w. w.sent) IsOwned [] s0
unfolding find_key vquorum_get_quorate
run-Wins_example =
    run-Wins lab_env (lab_dev 0) (λ w. w.sent) IsQuiet 5000 12000 (half_vq 0) 2 IsOwned
      IsQuiet-IsWinnable (IsOwned-IsCalm 0) (IsQuiet-IsCalm 0) ((λ e. ground arith), tt) [] s0 refl
      (omega arith) refl
      (poised 0 (IsQuiet []) s0 (refl, (refl, (refl, refl))) refl refl (omega arith))

-- Host 0 in HAVE_QDISK, in a cluster of `count` nodes of which it sees itself.
abbrev owner : ℕ → Sys Lab
owner count = record (in_state have_qdisk) {
  cmap = record s0.cmap { node_count = count };
  world = record free_disk { holder = some 1 };
}

-- Host 0 in HAVE_QDISK, in a cluster of two nodes, when it sees both again.
abbrev joined : Sys Lab
joined = record (owner 2) { vq = (with_holder 2).vq }

-- Host 0 and host 1 in IDLE, and host 1 in RESIGNED without a quorum.
abbrev first : Sys Lab
first = in_state idle

abbrev second : Sys Lab
second = record first { alg = record (fresh_algorithm 1) { state = idle }; vq = half_vq 1 }

abbrev beaten : Sys Lab
beaten = record second {
  alg = record (fresh_algorithm 1) { state = resigned };
  vq = record (half_vq 1) { quorate = 0 };
  world = record free_disk { holder = some 1 };
}
