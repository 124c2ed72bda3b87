-- ===== src/Corosync.antt =====
-- What lies outside the repository: corosync's votequorum and cmap services, the clock, the file
-- system and the shell. A request is one call of such a library and its reply is what the call
-- gives; `Env` is the parameter through which every component calls them.
use corosync_qdisk.Prelude.{[], ◌∷◌, ℕ, ℤ, Bool, true, false, Option, List, Text}

-- `cs_error_t`, by the values that the source names.
pub data CsError : Type 0 where
  cs_ok cs_err_library cs_err_try_again cs_err_init cs_err_no_memory : CsError
  cs_err_other : ℕ → CsError

abbrev pub is_cs_ok : CsError → Bool
is_cs_ok cs_ok = true
is_cs_ok _ = false

abbrev pub is_try_again : CsError → Bool
is_try_again cs_err_try_again = true
is_try_again _ = false

abbrev pub is_library : CsError → Bool
is_library cs_err_library = true
is_library _ = false

-- The fields of `struct votequorum_info` that qdiskd reads.
pub record VotequorumInfo : Type 0 where
  pub node_id : ℕ
  pub node_expected_votes : ℕ
  pub total_votes : ℕ

-- `votequorum_node_t`
pub record VotequorumNode : Type 0 where
  pub nodeid : ℕ
  pub state : ℕ

-- `votequorum_ring_id_t`
pub record RingId : Type 0 where
  pub ring_nodeid : ℕ
  pub seq : ℕ

-- What a dispatch of votequorum delivers, in order: one callback each.
pub data Notification : Type 0 where
  quorum_notify : (quorate : ℕ) → List VotequorumNode → Notification
  expected_votes_notify : (expected_votes : ℕ) → Notification
  nodelist_notify : RingId → List ℕ → Notification
  extra_info_notify : (nodeid ei_size : ℕ) → Text → Notification

-- A changed cmap key: its name, whether its value is a uint8 of length one, and that value.
pub data CmapNotification : Type 0 where
  reload_notify : (key_name : Text) → (is_uint8 : Bool) → (value : ℕ) → CmapNotification
  nodelist_change : CmapNotification

-- What a command wrote, and its status from `pclose`.
pub record Output : Type 0 where
  pub text : Text
  pub status : ℤ

-- `getinfo` takes the buffer that it fills: on an error it may be left as it was. `malloc_keys`
-- gives what uninitialised memory holds.
pub data Request : Type 0 where
  clock_gettime : Request
  sleep : ℕ → Request
  votequorum_model_initialize : Request
  votequorum_finalize : (handle : ℕ) → Request
  votequorum_getinfo : (handle nodeid : ℕ) → VotequorumInfo → Request
  votequorum_trackstart : (handle : ℕ) → Request
  votequorum_dispatch : (handle : ℕ) → Request
  votequorum_set_qdevice_extra_info : (handle ei_size : ℕ) → Text → Request
  votequorum_get_qdevice_extra_info : (handle nodeid : ℕ) → Request
  votequorum_qdevice_poll : (handle cast_vote : ℕ) → RingId → Request
  votequorum_qdevice_register : (handle : ℕ) → Request
  votequorum_qdevice_unregister : (handle : ℕ) → Request
  cmap_initialize : Request
  cmap_finalize : (handle : ℕ) → Request
  cmap_track_add : (handle : ℕ) → Text → Request
  cmap_get_string : (handle : ℕ) → Text → Request
  cmap_get_uint32 : (handle : ℕ) → Text → Request
  cmap_get_uint8 : (handle : ℕ) → Text → Request
  cmap_iter : (handle : ℕ) → Text → Request
  cmap_dispatch : (handle : ℕ) → Request
  file_exists : Text → Request
  read_file : Text → Request
  write_file : Text → Text → Request
  gethostname : Request
  malloc_keys : Request
  realpath : Text → Request
  cmap_fd_get : (handle : ℕ) → Request
  votequorum_fd_get : (handle : ℕ) → Request
  qb_log_init : (level : ℕ) → Request
  qb_loop_create : Request
  qb_loop_timer_add : (nanoseconds : ℕ) → Request
  qb_loop_poll_add : (fd : ℕ) → Request
  sd_notify : Text → Request
  getenv : Text → Request
  print : Text → Request
  print_err : Text → Request
  local_time : Request
  dirname : Text → Request
  qb_log_configure : Request
  qb_log_file_open : Text → Request
  qb_log_blackbox_write_to_file : Text → Request
  qb_logt : (level tags : ℕ) → Text → Request

abbrev pub Reply : Request → Type 0
Reply clock_gettime = ℕ × ℕ
Reply (sleep _) = Unit
Reply votequorum_model_initialize = CsError × ℕ
Reply (votequorum_getinfo _ _ _) = CsError × VotequorumInfo
Reply (votequorum_dispatch _) = CsError × List Notification
Reply (votequorum_get_qdevice_extra_info _ _) = CsError × Text
Reply cmap_initialize = CsError × ℕ
Reply (cmap_get_string _ _) = CsError × Text
Reply (cmap_get_uint32 _ _) = CsError × ℕ
Reply (cmap_get_uint8 _ _) = CsError × ℕ
Reply (cmap_iter _ _) = CsError × List Text
Reply (cmap_dispatch _) = CsError × List CmapNotification
Reply (file_exists _) = Bool
Reply (read_file _) = Option Text
Reply (write_file _ _) = Bool
Reply gethostname = Text
Reply malloc_keys = ℕ → ℕ
Reply (realpath _) = Option Text
Reply (cmap_fd_get _) = CsError × ℕ
Reply (votequorum_fd_get _) = CsError × ℕ
Reply (qb_log_init _) = Unit
Reply qb_loop_create = Bool
Reply (qb_loop_timer_add _) = ℤ
Reply (qb_loop_poll_add _) = ℤ
Reply (sd_notify _) = Unit
Reply (getenv _) = Option Text
Reply (print _) = Unit
Reply (print_err _) = Unit
Reply local_time = Text
Reply (dirname _) = Text
Reply qb_log_configure = Unit
Reply (qb_log_file_open _) = Unit
Reply (qb_log_blackbox_write_to_file _) = Unit
Reply (qb_logt _ _ _) = Unit
Reply _ = CsError

-- The votes that a request carries to votequorum.
abbrev pub votes_in : Request → List ℕ
votes_in (votequorum_qdevice_poll _ cast_vote _) = cast_vote ∷ []
votes_in _ = []

-- A state-passing computation.
abbrev pub St : Type 0 → Type 0 → Type 0
St S A = S → A × S

module _ {S : Type 0} where
  infixl 5 ◌>>=◌ ◌>>◌
  abbrev pub ◌>>=◌ : {A B : Type 0} → St S A → (A → St S B) → St S B
  ◌>>=◌ m f s = let (a, s') = m s in f a s'

  abbrev pub ◌>>◌ : {A B : Type 0} → St S A → St S B → St S B
  m >> k = m >>= λ _. k

  abbrev pub pure : {A : Type 0} → A → St S A
  pure a s = (a, s)

-- The outside world, with a state of its own. `attempts` bounds the retries of a call that answers
-- CS_ERR_TRY_AGAIN, which the code repeats without a bound.
pub record Env (W : Type 0) : Type 0 where
  pub call : (r : Request) → St W (Reply r)
  pub popen : Text → St W (Option Output)
  pub attempts : ℕ
  -- VOTEQUORUM_QDEVICE_NODEID and VOTEQUORUM_QDEVICE_DEFAULT_TIMEOUT
  pub qdevice_nodeid : ℕ
  pub qdevice_default_timeout : ℕ
