-- ===== src/Examples/Waiting.antt =====
-- The theorems on a daemon that waits for the holder of the disk, each at one concrete input.
use corosync_qdisk.Prelude.{
  List, ℕ, ap, ◌∙◌, if◌then◌else◌, ◌==◌, ◌≡◌, refl, true, false, some, [], ◌∷◌, ◌++◌, arith, inl,
  inr,
}
use corosync_qdisk.Corosync.{votes_in, cs_ok, Request, Reply, Env, extra_info_notify}
use corosync_qdisk.Vquorum.{find_key, print_extra_info}
use corosync_qdisk.Daemon.{idle, recv_vote, Sys}
use corosync_qdisk.Algorithm.{algorithm_run, key_registered}
use corosync_qdisk.Algorithm.Progress.{Completes}
use corosync_qdisk.Algorithm.Held.{IsHeld}
use corosync_qdisk.Algorithm.Beats.{Voted, IsCalm}
use corosync_qdisk.Algorithm.Wait.{Waits, run-Waits}
use corosync_qdisk.Main.{vquorum_ready, timer, run_loop}
use corosync_qdisk.Main.Follow.{run_loop-receives}
use corosync_qdisk.Examples.Lab.{Lab, answer, lab_env, lab_dev, half_vq, free_disk}
use corosync_qdisk.Examples.Instances.{in_state, with_holder}

-- The other host, with key 2, holds the disk at five seconds.
abbrev IsTaken : List ℕ → Lab → Type 0
IsTaken l w = (w.now ≡ 5000) × ((w.holder ≡ some 2) × ((w.keys ≡ 1 ∷ 2 ∷ []) × (w.sent ≡ l)))

IsTaken-IsHeld : (l : List ℕ) → IsHeld lab_env (lab_dev 0) (IsTaken l) 2
unfolding key_registered
IsTaken-IsHeld l = record {
  call_keeps = λ r e w q. (q.0, (q.1.0, (q.1.1.0, ap (λ m. m ++ w.sent) e ∙ q.1.1.1)));
  is_reserved_keeps = λ w q. q;
  owner_keeps = λ w q. q;
  keys_keep = λ w q. q;
  held = λ w q. ground (arith, q);
  by_key = λ w q. ground (arith, q);
  read = λ w q. refl;
  registered = λ w q. ground (arith, q);
  is_key = λ e. ground (arith, e);
}

IsTaken-IsCalm : IsCalm lab_env (lab_dev 0) (λ w. w.sent) 5000 12000 IsTaken
IsTaken-IsCalm = record {
  logs = λ l w h. h.1.1.1;
  call_sends = λ r l w h. (h.0, (h.1.0, (h.1.1.0, ap (λ m. votes_in r ++ m) h.1.1.1)));
  no_news = λ handle l w h. refl;
  from_lo = λ l w h. ground (arith, h.0);
  before_end = λ l w h. ground (arith, h.0);
  no_overflow = omega arith;
}

-- The other host holds the disk and is not visible; the time to wait is at four seconds.
abbrev waiting : Sys Lab
waiting = record (in_state idle) {
  alg = record (in_state idle).alg { timeout_time = 4000 };
  world = record free_disk { holder = some 2 };
}

run-Waits_example :
    Completes
      (Waits lab_env (lab_dev 0) (λ w. w.sent) true [] (half_vq 0))
      (algorithm_run lab_env waiting)
unfolding find_key
run-Waits_example =
    run-Waits lab_env (lab_dev 0) (λ w. w.sent) IsTaken 2 5000 12000 (half_vq 0) 2 IsTaken-IsHeld
      (λ e. ground (arith, e)) IsTaken-IsCalm ((λ e. ground (arith, e)), tt) (omega arith) refl []
      waiting (λ h. ground (arith, h)) true (λ w q. ground (arith, q.0))
      (record {
        world = (refl, (refl, (refl, refl)));
        opened = refl;
        at = refl;
        timeout_is = refl;
        armed = omega arith;
        view = refl;
        nodes = refl;
      })

-- votequorum has the key of node 1, which is that of the other host, and nothing else: once it is told,
-- which takes until five seconds, there is no news.
told : (r : Request) → Lab → Reply r
told (Request.votequorum_dispatch handle) w =
    if w.now == 5000
    then (cs_ok, [])
    else (cs_ok, extra_info_notify 1 22 (print_extra_info 2 ++ []) ∷ [])
told r w = answer r w

told_env : Env Lab
told_env = record lab_env {
  call = λ r w. (told r w, record w { now = 5000; sent = votes_in r ++ w.sent });
}

-- Two of four nodes are visible, at four seconds, and the key of the other one is not known.
abbrev unknowing : Sys Lab
unknowing = record (with_holder 4) {
  vq = record (with_holder 4).vq {
    node_list =
        record { nodeid = 0; state = 1; disk_key = 1 }
        ∷ record { nodeid = 1; state = 1; disk_key = 0 }
        ∷ [];
  };
  world = record (with_holder 4).world { now = 4000 };
}

told-IsHeld : (l : List ℕ) → IsHeld told_env (lab_dev 0) (IsTaken l) 2
unfolding told_env
told-IsHeld l = record {
  call_keeps = λ r e w q. (refl, (q.1.0, (q.1.1.0, ap (λ m. m ++ w.sent) e ∙ q.1.1.1)));
  is_reserved_keeps = λ w q. q;
  owner_keeps = λ w q. q;
  keys_keep = λ w q. q;
  held = (IsTaken-IsHeld l).held;
  by_key = (IsTaken-IsHeld l).by_key;
  read = λ w q. refl;
  registered = (IsTaken-IsHeld l).registered;
  is_key = λ e. ground (arith, e);
}

told-IsCalm : IsCalm told_env (lab_dev 0) (λ w. w.sent) 5000 12000 IsTaken
unfolding told told_env
told-IsCalm = record {
  logs = λ l w h. h.1.1.1;
  call_sends = λ r l w h. (refl, (h.1.0, (h.1.1.0, ap (λ m. votes_in r ++ m) h.1.1.1)));
  no_news = λ handle l w h. rw h.0 refl;
  from_lo = λ l w h. ground (arith, h.0);
  before_end = λ l w h. ground (arith, h.0);
  no_overflow = omega arith;
}

run_loop-receives_example :
    Completes
      (Voted (λ w. w.sent) recv_vote (1 ∷ []))
      (run_loop told_env false (vquorum_ready ∷ timer ∷ []) unknowing)
unfolding told told_env find_key
run_loop-receives_example =
    run_loop-receives told_env (lab_dev 0) (λ w. w.sent) IsTaken 5000 12000 2 1 22 [] told-IsHeld
      (λ e. ground (arith, e)) told-IsCalm (omega arith) (λ e. ground (arith, e)) []
      (λ ns w q. refl) unknowing ((λ e. ground (arith, e)), ((λ e. ground (arith, e)), tt))
      (omega arith) refl (inr (inl refl)) idle (inl refl)
      (record {
        world = (refl, (refl, (refl, refl)));
        opened = refl;
        at = refl;
        timeout_is = refl;
        armed = omega arith;
        view = refl;
        nodes = refl;
      })
      refl
