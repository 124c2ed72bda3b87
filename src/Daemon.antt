-- ===== src/Daemon.antt =====
-- The globals of all parts of qdiskd together, and programs over them that may end the process.
use corosync_qdisk.Prelude.{ℕ, ◌+◌, ◌*◌, ◌/◌, Bool, Option, none, some, u64}
use corosync_qdisk.Corosync.{Env, Request, St}
use corosync_qdisk.Reserve.{Device}
use corosync_qdisk.Cmap.{Cmap}
use corosync_qdisk.Vquorum.{Vquorum}
use corosync_qdisk.Log.{Log}

-- `enum state` of qdiskd/algorithm.c; its last member, QDISK_NUM_STATES_, counts the others.
pub data State : Type 0 where
  start idle reserve_disk recv_vote have_qdisk release_qdisk resigned : State

-- The statics of `algorithm_run` that remember the last heartbeat; they decide only what is logged.
pub record Last : Type 0 where
  pub old_skip_poll : Bool
  pub old_quorate : Bool
  pub old_node_count : ℕ
  pub old_votes : ℕ
  pub old_expected_votes : ℕ
  pub old_num_nodes_visible : ℕ
  pub old_reserved : Bool
  pub old_resv_node_visible : Bool
  pub old_cast_vote : ℕ

-- The statics of qdiskd/algorithm.c.
pub record Algorithm (W : Type 0) : Type 0 where
  pub pr_device : Option (Device W)
  pub algorithm_heartbeat : ℕ
  pub algorithm_timeout : ℕ
  pub state : State
  pub timeout_time : ℕ
  pub good_heartbeat_timeout : ℕ
  pub last : Last

pub record Sys (W : Type 0) : Type 0 where
  pub alg : Algorithm W
  pub cmap : Cmap
  pub vq : Vquorum
  pub log : Log
  pub world : W

-- How a piece of the program ends: with a value, by `exit`, by `abort`, or by following a null
-- pointer.
pub data Outcome (W A : Type 0) : Type 0 where
  done : A → Sys W → Outcome W A
  exited : ℕ → Sys W → Outcome W A
  aborted : Sys W → Outcome W A
  crashed : Sys W → Outcome W A

abbrev pub Prog : Type 0 → Type 0 → Type 0
Prog W A = Sys W → Outcome W A

module _ {W : Type 0} where
  abbrev pub bind : {A B : Type 0} → Outcome W A → (A → Prog W B) → Outcome W B
  bind (done a s) f = f a s
  bind (exited n s) f = exited n s
  bind (aborted s) f = aborted s
  bind (crashed s) f = crashed s

  infixl 5 ◌>>=◌ ◌>>◌
  abbrev pub ◌>>=◌ : {A B : Type 0} → Prog W A → (A → Prog W B) → Prog W B
  ◌>>=◌ m f s = bind (m s) f

  abbrev pub ◌>>◌ : {A B : Type 0} → Prog W A → Prog W B → Prog W B
  m >> k = m >>= λ _. k

  abbrev pub pure : {A : Type 0} → A → Prog W A
  pure a s = done a s

  abbrev pub exit : {A : Type 0} → ℕ → Prog W A
  exit n s = exited n s

  abbrev pub abort : {A : Type 0} → Prog W A
  abort s = aborted s

  abbrev pub algorithm : Prog W (Algorithm W)
  algorithm s = done s.alg s

  abbrev pub change : (Algorithm W → Algorithm W) → Prog W (Unit {0})
  change f s = done tt (record s { alg = f s.alg })

  abbrev pub votequorum : Prog W Vquorum
  votequorum s = done s.vq s

  -- A part of the program that uses only one part of the state.
  abbrev pub in_vquorum : {A : Type 0} → St (Vquorum × W) A → Prog W A
  in_vquorum m s = let (a, r) = m (s.vq, s.world) in done a (record s { vq = r.0; world = r.1 })

  abbrev pub in_cmap : {A : Type 0} → St (Cmap × W) A → Prog W A
  in_cmap m s = let (a, r) = m (s.cmap, s.world) in done a (record s { cmap = r.0; world = r.1 })

  abbrev pub in_log : {A : Type 0} → St (Log × W) A → Prog W A
  in_log m s = let (a, r) = m (s.log, s.world) in done a (record s { log = r.0; world = r.1 })

  abbrev pub in_world : {A : Type 0} → St W A → Prog W A
  in_world m s = let (a, w) = m s.world in done a (record s { world = w })

  -- The handle `pr_device`, which must not be null where it is used.
  abbrev pub the_device : Option (Device W) → Prog W (Device W)
  the_device none s = crashed s
  the_device (some d) s = done d s

-- `gettime_ms`: the monotonic clock, in milliseconds.
unfoldable pub gettime_ms : {W : Type 0} (env : Env W) → Prog W ℕ
gettime_ms env = do
  (tv_sec, tv_nsec) ← in_world (env.call Request.clock_gettime)
  pure (u64 (u64 (tv_sec * 1000) + tv_nsec / 1000000))
