-- ===== src/Cluster/Lock.antt =====
-- The cluster as an implementation of a lock: what the daemons of qdiskd/algorithm.c promise together,
-- without disk, keys, votes and timeouts.
use corosync_qdisk.Prelude.{
  ℕ, ◌≡◌, ◌≢◌, ◌↔◌, ◌⊎◌, inl, inr, refl, sym, ap, ◌∙◌, Option, none, some, ◌==◌, ==_iff, Bool-cases,
  arith, is_zero, if◌then◌else◌, Option-cases,
}
use mathlib.Core.Path.{subst}
use corosync_qdisk.Corosync.{Env}
use corosync_qdisk.Reserve.{Device}
use corosync_qdisk.Daemon.{State, have_qdisk}
use corosync_qdisk.Cluster.{
  Node, Cluster, put, node_of, Disk, Step, beat, exit, abort, stop, crash, boot, news, outside,
  Reach, here, later, IsInitial,
}
use corosync_qdisk.Cluster.Safety.{AllSafe, Step-AllSafe, Reach-AllSafe}

-- A lock with an owner, or none: it is taken only while it is free.
pub data LockStep : Option ℕ → Option ℕ → Type 0 where
  stay : {o : Option ℕ} → LockStep o o
  acquire : (i : ℕ) → LockStep none (some i)
  release : (i : ℕ) → LockStep (some i) none

pub data LockReach : Option ℕ → Type 0 where
  free : LockReach none
  next : {o p : Option ℕ} → LockReach o → LockStep o p → LockReach p

state_cases : (st : State) → (st ≡ have_qdisk) ⊎ (st ≢ have_qdisk)
state_cases have_qdisk = inl refl
state_cases _ = inr (λ e. ground arith)

module _ {W : Type 0} where
  -- The daemon of host `i` runs and is in HAVE_QDISK.
  abbrev pub HasDisk : ℕ → Cluster W → Type 0
  HasDisk i c = (n : Node W) × ((c.node i ≡ some n) × (n.alg.state ≡ have_qdisk))

  -- The owner of the lock is the host that is in HAVE_QDISK.
  abbrev pub Represents : Cluster W → Option ℕ → Type 0
  Represents c o = (i : ℕ) → HasDisk i c ↔ (o ≡ some i)

  HasDisk-cases : (i : ℕ) (c : Cluster W) → HasDisk i c ⊎ (HasDisk i c → ⊥)
  HasDisk-cases i c = elim (Option-cases (c.node i)) [
    | inl e ↦ inr (λ (n, (f, q)). cc)
    | inr (n, e) ↦ elim (state_cases n.alg.state) [
      | inl q ↦ inl (n, (e, q))
      | inr ne ↦ inr (λ (m, (f, q)). ground (arith, e, f, q, ne))
    ]
  ]

  -- A step changes one daemon at most.
  abbrev ChangesOnly : ℕ → Cluster W → Cluster W → Type 0
  ChangesOnly i c t = (j : ℕ) → j ≢ i → t.node j ≡ c.node j

  put-ChangesOnly :
      (c : Cluster W) (i : ℕ) (n : Option (Node W)) (w : W) → ChangesOnly i c (put c i n w)
  put-ChangesOnly c i n w j ne = ground (arith, ne)

module _ {W : Type 0} (env : ℕ → Env W) (dev : ℕ → Device W) (holder : W → Option ℕ)
    (disk : Disk env dev holder) where
  Step-changes : {c t : Cluster W} → Step env dev holder c t → (i : ℕ) × ChangesOnly i c t
  Step-changes {c} (beat i n {t = t} e r) = (i, put-ChangesOnly c i (some (node_of t)) t.world)
  Step-changes {c} (exit i code n {t = t} e r) = (i, put-ChangesOnly c i none t.world)
  Step-changes {c} (abort i n {t = t} e r) = (i, put-ChangesOnly c i none t.world)
  Step-changes {c} (stop i n {t = t} e r) = (i, put-ChangesOnly c i none t.world)
  Step-changes {c} (crash i) = (i, put-ChangesOnly c i none c.world)
  Step-changes {c} (boot i n {err = err} {t = t} a b r) =
      (i, put-ChangesOnly c i (if is_zero err then some (node_of t) else none) t.world)
  Step-changes {c} (news i n cm vq log w e k) =
      (i, put-ChangesOnly c i (some (record { alg = n.alg; cmap = cm; vq = vq; log = log })) w)
  Step-changes {c} (outside w k) = (0, λ j ne. refl)

  -- Two daemons in HAVE_QDISK are one.
  owner_unique :
      (c : Cluster W)
      → AllSafe env dev holder disk c
      → (i j : ℕ) → HasDisk i c
      → HasDisk j c
      → i ≡ j
  owner_unique c safe i j (n, (e, p)) (m, (f, q)) =
      disk.distinct_keys i j (cc ((safe i n e).1 p, (safe j m f).1 q))

  HasDisk-other :
      (c t : Cluster W) (i j : ℕ) → ChangesOnly i c t → j ≢ i → HasDisk j t ↔ HasDisk j c
  HasDisk-other c t i j only ne =
      ((λ (n, (e, q)). (n, (sym (only j ne) ∙ e, q))), (λ (n, (e, q)). (n, (only j ne ∙ e, q))))

  -- A lock that is owned exactly by the host that has the disk represents the cluster.
  Represents-owner :
      (t : Cluster W) (i : ℕ) → AllSafe env dev holder disk t → HasDisk i t → Represents t (some i)
  Represents-owner t i safe h j = (
    (λ k. ap some (owner_unique t safe i j h k)),
    (λ e. let q : i ≡ j = ground (arith, e) in subst (λ k. HasDisk k t) q h),
  )

  Represents-none : (t : Cluster W) → ((j : ℕ) → HasDisk j t → ⊥) → Represents t none
  Represents-none t lost j = ((λ h. absurd (lost j h)), (λ e. ground (arith, e)))

  -- The next state of the lock, once it is known which daemon may have changed.
  lock_step :
      (c t : Cluster W) (i : ℕ) (o : Option ℕ)
      → ChangesOnly i c t
      → AllSafe env dev holder disk t
      → Represents c o
      → (p : Option ℕ) × (LockStep o p × Represents t p)
  lock_step c t i none only safe rep = elim (HasDisk-cases i t) [
    | inl h ↦ (some i, (acquire i, Represents-owner t i safe h))
    | inr lost ↦ (
      none,
      (
        stay,
        Represents-none t (λ j h. elim (Bool-cases (j == i)) [
          | inl e ↦ lost (subst (λ k. HasDisk k t) ((==_iff j i).0 e) h)
          | inr e ↦
              let before = (HasDisk-other c t i j only (ground (arith, e))).0 h in
              let owned : none ≡ some j = (rep j).0 before in ground (arith, owned)
        ]),
      ),
    )
  ]
  lock_step c t i (some k) only safe rep = elim (Bool-cases (k == i)) [
    | inr e ↦
        let ne : k ≢ i = ground (arith, e) in
        (
          some k,
          (stay, Represents-owner t k safe ((HasDisk-other c t i k only ne).1 ((rep k).1 refl))),
        )
    | inl e ↦ elim (HasDisk-cases k t) [
      | inl h ↦ (some k, (stay, Represents-owner t k safe h))
      | inr lost ↦ (
        none,
        (
          release k,
          Represents-none t (λ j h. elim (Bool-cases (j == k)) [
            | inl q ↦ lost (subst (λ m. HasDisk m t) ((==_iff j k).0 q) h)
            | inr q ↦
                let before = (HasDisk-other c t i j only (ground (arith, e, q))).0 h in
                let owned : some k ≡ some j = (rep j).0 before in ground (arith, owned, q)
          ]),
        ),
      )
    ]
  ]

  initial_none : (c : Cluster W) → IsInitial env dev holder c → Represents c none
  initial_none c init =
      Represents-none c (λ j (n, (e, q)). let fresh = (init j n e).1 in ground (arith, fresh, q))

  -- The states of the lock along a run.
  pub Reach-refines :
      {c t : Cluster W}
      → IsInitial env dev holder c
      → Reach env dev holder c t
      → (o : Option ℕ) × (LockReach o × Represents t o)
  Reach-refines {c} init here = (none, (free, initial_none c init))
  Reach-refines {c} init (later {t = t} {u = u} r st) =
      let (o, (reached, rep)) = Reach-refines init r in
      let (i, only) = Step-changes st in
      let safe = Step-AllSafe env dev holder disk st (Reach-AllSafe env dev holder disk init r) in
      let (p, (step, rep')) = lock_step t u i o only safe rep in (p, (next reached step, rep'))

  -- After whatever heartbeats, starts, ends and news have happened to daemons that began in START with
  -- their devices open, the hosts in HAVE_QDISK are the owner of a lock that has one owner at most,
  -- and any further step of the cluster leaves the lock alone, gives it to a host while it is free, or
  -- frees it: no single step passes it from one host to another. This takes the promises of `Disk`.
  pub Step-refines :
      {c t u : Cluster W}
      → IsInitial env dev holder c
      → Reach env dev holder c t
      → Step env dev holder t u
      → (o : Option ℕ) × (Represents t o × ((p : Option ℕ) × (LockStep o p × Represents u p)))
  Step-refines {t = t} {u = u} init r st =
      let (o, (reached, rep)) = Reach-refines init r in
      let (i, only) = Step-changes st in
      let safe = Step-AllSafe env dev holder disk st (Reach-AllSafe env dev holder disk init r) in
      (o, (rep, lock_step t u i o only safe rep))
