-- ===== src/Cluster/Safety.antt =====
-- HAVE_QDISK and the reservation, over every interleaving of the steps of the cluster.
use corosync_qdisk.Prelude.{
  ℤ, is_zero, if◌then◌else◌, ℕ, ◌≡◌, ◌≢◌, sym, ◌⊎◌, Option, none, some, ◌==◌, arith, Bool-cases,
  inl, inr, ==_iff,
}
use corosync_qdisk.Corosync.{Env}
use corosync_qdisk.Reserve.{Device}
use corosync_qdisk.Daemon.{Sys, done, start, have_qdisk}
use corosync_qdisk.Ends.{Ends}
use corosync_qdisk.Algorithm.{algorithm_run, algorithm_stop}
use corosync_qdisk.Algorithm.Init.{init_opened}
use corosync_qdisk.Algorithm.Init.Kept.{init_opened-IsPoisedtled, stop-IsPoisedtled}
use corosync_qdisk.Algorithm.Init.Ready.{IsReady, opened-IsReady}
use corosync_qdisk.Reserve.Scsi.Open.{opened}
use corosync_qdisk.Algorithm.Keeps.{run-IsKept}
use corosync_qdisk.Algorithm.Holding.{run-IsHolding}
use corosync_qdisk.Cluster.{
  Node, Cluster, sys, node_of, put, Disk, Step, beat, exit, abort, stop, crash, boot, news, outside,
  Reach, here, later, IsInitial,
}

pub put_cases :
    {W : Type 0} (c : Cluster W) (i : ℕ) (n : Option (Node W)) (w : W) (j : ℕ) (m : Node W)
    → (put c i n w).node j ≡ some m
    → ((j ≡ i) × (n ≡ some m)) ⊎ ((j ≢ i) × (c.node j ≡ some m))
put_cases c i n w j m h = elim (Bool-cases (j == i)) [
  | inl e ↦ inl ((==_iff j i).0 e, rw e at h)
  | inr e ↦ inr (ground arith, rw e at h)
]

module _ {W : Type 0} (env : ℕ → Env W) (dev : ℕ → Device W) (holder : W → Option ℕ)
    (disk : Disk env dev holder) where
  -- A running daemon has its device, and in HAVE_QDISK its key is the holder.
  abbrev pub IsSafe : ℕ → Node W → W → Type 0
  IsSafe i n w =
      (n.alg.pr_device ≡ some (dev i))
      × (n.alg.state ≡ have_qdisk → holder w ≡ some (dev i).get_ikey)

  abbrev pub AllSafe : Cluster W → Type 0
  AllSafe c = (i : ℕ) (n : Node W) → c.node i ≡ some n → IsSafe i n c.world

  -- A heartbeat of host `i` takes no reservation from host `j`.
  beat_keeps :
      (i j : ℕ) (n : Node W) (w : W)
      → i ≢ j
      → n.alg.pr_device ≡ some (dev i)
      → holder w ≡ some (dev j).get_ikey
      → Ends
          (λ s. (s.alg.pr_device ≡ some (dev i)) × (holder s.world ≡ some (dev j).get_ikey))
          (λ v. holder v ≡ some (dev j).get_ikey)
          (algorithm_run (env i) (sys n w))
  beat_keeps i j n w ne has_device held =
      let other : (dev j).get_ikey ≢ (dev i).get_ikey = λ e. ne (sym (disk.distinct_keys j i e)) in
      run-IsKept (env i) (dev i) (λ v. holder v ≡ some (dev j).get_ikey)
        (disk.keeps i (dev j).get_ikey) (disk.release_keeps i (dev j).get_ikey other)
        (disk.unregister_keeps i (dev j).get_ikey other) (sys n w) (has_device, held)

  beat_holds :
      (i : ℕ) (n : Node W) (w : W)
      → IsSafe i n w
      → Ends
          (λ s.
            (s.alg.pr_device ≡ some (dev i))
            × (s.alg.state ≡ have_qdisk → holder s.world ≡ some (dev i).get_ikey))
          (λ v. Unit)
          (algorithm_run (env i) (sys n w))
  beat_holds i n w safe =
      run-IsHolding (env i) (dev i) (λ v. holder v ≡ some (dev i).get_ikey)
        (disk.keeps i (dev i).get_ikey) (disk.reserve_gains i) (sys n w) safe

  -- Neither does the end of host `i` by a signal, or its start.
  stop_keeps :
      (i j : ℕ) (n : Node W) (w : W)
      → i ≢ j
      → n.alg.pr_device ≡ some (dev i)
      → holder w ≡ some (dev j).get_ikey
      → Ends
          (λ s.
            (holder s.world ≡ some (dev j).get_ikey)
            × ((s.alg.pr_device ≡ some (dev i)) ⊎ (s.alg.pr_device ≡ none)))
          (λ v. holder v ≡ some (dev j).get_ikey)
          (algorithm_stop (env i) (sys n w))
  stop_keeps i j n w ne has_device held =
      let other : (dev j).get_ikey ≢ (dev i).get_ikey = λ e. ne (sym (disk.distinct_keys j i e)) in
      stop-IsPoisedtled (env i) (dev i) (λ v. holder v ≡ some (dev j).get_ikey)
        (disk.keeps i (dev j).get_ikey) (disk.release_keeps i (dev j).get_ikey other)
        (disk.unregister_keeps i (dev j).get_ikey other) (disk.register_keeps i (dev j).get_ikey)
        (sys n w) (held, inl has_device)

  boot_keeps :
      (i j : ℕ) (n : Node W) (w : W)
      → i ≢ j
      → holder w ≡ some (dev j).get_ikey
      → Ends
          (λ s.
            (holder s.world ≡ some (dev j).get_ikey)
            × ((s.alg.pr_device ≡ some (dev i)) ⊎ (s.alg.pr_device ≡ none)))
          (λ v. holder v ≡ some (dev j).get_ikey)
          (init_opened (env i) (opened (dev i)) (sys n w))
  boot_keeps i j n w ne held =
      let other : (dev j).get_ikey ≢ (dev i).get_ikey = λ e. ne (sym (disk.distinct_keys j i e)) in
      init_opened-IsPoisedtled (env i) (dev i) (λ v. holder v ≡ some (dev j).get_ikey)
        (disk.keeps i (dev j).get_ikey) (disk.release_keeps i (dev j).get_ikey other)
        (disk.unregister_keeps i (dev j).get_ikey other) (disk.register_keeps i (dev j).get_ikey)
        (sys n w) held

  -- What the other hosts keep through a heartbeat of host `i`, given what it does to their keys.
  others-IsSafe :
      (c : Cluster W) (i : ℕ) (w : W)
      → AllSafe c
      → ((j : ℕ)
          → i ≢ j
          → holder c.world ≡ some (dev j).get_ikey
          → holder w ≡ some (dev j).get_ikey)
      → (j : ℕ) (m : Node W) → j ≢ i
      → c.node j ≡ some m
      → IsSafe j m w
  others-IsSafe c i w safe keep j m ne f =
      let (has_device, mine) = safe j m f in (has_device, λ e. keep j (λ q. ne (sym q)) (mine e))

  -- A daemon whose start succeeds has the device and is in START.
  boot_IsSafe :
      {j : ℕ} {err : ℤ} {t : Sys W} (i : ℕ) (n m : Node W) (w : W)
      → n.alg.state ≡ start
      → n.alg.pr_device ≡ none
      → init_opened (env i) (opened (dev i)) (sys n w) ≡ done err t
      → (if is_zero err then some (node_of t) else none) ≡ some m
      → j ≡ i
      → IsSafe j m t.world
  boot_IsSafe {err = err} {t = t} i n m w fresh closed r g q =
      let ready : IsReady (env i) n.alg.state (done err t) =
        rw r at (opened-IsReady (env i) (opened (dev i)) (sys n w) closed) in
      let settled : Ends (λ s. Unit × ((s.alg.pr_device ≡ some (dev i)) ⊎ (s.alg.pr_device ≡ none)))
          (λ v. Unit) (done err t) =
        rw r at (
          init_opened-IsPoisedtled (env i) (dev i) (λ v. Unit)
            (record {
              call_keeps = λ _ _ h. h;
              is_reserved_keeps = λ _ h. h;
              owner_keeps = λ _ h. h;
              keys_keep = λ _ h. h;
              reserve_keeps = λ _ h. h;
            })
            (λ _ h. h) (λ _ h. h) (λ _ h. h) (sys n w) tt) in
      rw q (ground (arith, settled.1, ready, g, fresh))

  pub Step-AllSafe : {c t : Cluster W} → Step env dev holder c t → AllSafe c → AllSafe t
  Step-AllSafe {c} (beat i n {t = t} e r) safe j m f =
      elim (put_cases c i (some (node_of t)) t.world j m f) [
        | inl (q, g) ↦ ground (arith, rw r at (beat_holds i n c.world (safe i n e)))
        | inr (ne, g) ↦
            others-IsSafe c i t.world safe
              (λ k x held. (rw r at (beat_keeps i k n c.world x (safe i n e).0 held)).1) j m ne g
      ]
  Step-AllSafe {c} (exit i code n {t = t} e r) safe j m f =
      elim (put_cases c i none t.world j m f) [
        | inl (q, g) ↦ cc
        | inr (ne, g) ↦
            others-IsSafe c i t.world safe
              (λ k x held. rw r at (beat_keeps i k n c.world x (safe i n e).0 held)) j m ne g
      ]
  Step-AllSafe {c} (abort i n {t = t} e r) safe j m f = elim (put_cases c i none t.world j m f) [
    | inl (q, g) ↦ cc
    | inr (ne, g) ↦
        others-IsSafe c i t.world safe
          (λ k x held. rw r at (beat_keeps i k n c.world x (safe i n e).0 held)) j m ne g
  ]
  Step-AllSafe {c} (stop i n {t = t} e r) safe j m f = elim (put_cases c i none t.world j m f) [
    | inl (q, g) ↦ cc
    | inr (ne, g) ↦
        others-IsSafe c i t.world safe
          (λ k x held. (rw r at (stop_keeps i k n c.world x (safe i n e).0 held)).0) j m ne g
  ]
  Step-AllSafe {c} (crash i) safe j m f = elim (put_cases c i none c.world j m f) [
    | inl (q, g) ↦ cc
    | inr (ne, g) ↦ others-IsSafe c i c.world safe (λ k x held. held) j m ne g
  ]
  Step-AllSafe {c} (boot i n {err = err} {t = t} fresh closed r) safe j m f =
      elim (put_cases c i (if is_zero err then some (node_of t) else none) t.world j m f) [
        | inl (q, g) ↦ boot_IsSafe i n m c.world fresh closed r g q
        | inr (ne, g) ↦
            others-IsSafe c i t.world safe
              (λ k x held. (rw r at (boot_keeps i k n c.world x held)).0) j m ne g
      ]
  Step-AllSafe {c} (news i n cm vq log w e keeps) safe j m f =
      ground (arith, safe i n e, safe j m, keeps (dev j).get_ikey, keeps (dev i).get_ikey)
  Step-AllSafe {c} (outside w keeps) safe j m f =
      let (has_device, mine) = safe j m f in (has_device, λ e. keeps (dev j).get_ikey (mine e))

  pub Reach-AllSafe :
      {c t : Cluster W} → IsInitial env dev holder c → Reach env dev holder c t → AllSafe t
  Reach-AllSafe init here i n e =
      let (has_device, fresh) = init i n e in (has_device, λ q. ground arith)
  Reach-AllSafe init (later r st) i n e = Step-AllSafe st (Reach-AllSafe init r) i n e

  -- In every state that any interleaving of heartbeats, starts, ends and news reaches from daemons in
  -- START with their devices open, a daemon in HAVE_QDISK has its own key as the holder of the
  -- reservation.
  pub have_qdisk-holder :
      {c t : Cluster W}
      → IsInitial env dev holder c
      → Reach env dev holder c t
      → (i : ℕ) (n : Node W) → t.node i ≡ some n
      → n.alg.state ≡ have_qdisk
      → holder t.world ≡ some (dev i).get_ikey
  have_qdisk-holder init r i n e q = (Reach-AllSafe init r i n e).1 q

  -- In every state that any interleaving of heartbeats, starts, ends and news reaches from daemons in
  -- START with their devices open, at most one daemon is in HAVE_QDISK, if the keys of the hosts
  -- differ.
  pub have_qdisk_unique :
      {c t : Cluster W}
      → IsInitial env dev holder c
      → Reach env dev holder c t
      → (i j : ℕ) (n m : Node W) → t.node i ≡ some n
      → t.node j ≡ some m
      → n.alg.state ≡ have_qdisk
      → m.alg.state ≡ have_qdisk
      → i ≡ j
  have_qdisk_unique init r i j n m ei ej qi qj =
      disk.distinct_keys i j
        (cc (have_qdisk-holder init r i n ei qi, have_qdisk-holder init r j m ej qj))
