-- ===== src/Cmap.antt =====
-- qdiskd/cmap.c: the settings of the daemon and the number of configured nodes.
pub mod Count
pub mod Kept
use corosync_qdisk.Prelude.{
  ℕ, ◌+◌, ◌*◌, ◌/◌, Bool, true, false, not, Option, none, some, List, [], ◌∷◌, Text, codes, ◌==◌,
  ◌&&◌, if◌then◌else◌, u32,
}
use corosync_qdisk.Libc.{scan_literal, scan_unsigned, scan_word}
use corosync_qdisk.Corosync.{
  CsError, cs_ok, cs_err_init, is_cs_ok, is_library, CmapNotification, reload_notify,
  nodelist_change, Request, Reply, Env, St, ◌>>=◌, ◌>>◌, pure,
}

-- The globals.
pub record Cmap : Type 0 where
  pub cmap_handle : ℕ
  pub node_count : ℕ
  pub cmap_reload_in_progress : Bool

-- `sscanf(iter_key, "nodelist.node.%u.%s", …) == 2`, with the position that it reads.
unfoldable pub node_position : Text → Option ℕ
node_position key = elim (scan_literal (codes "nodelist.node.") key) [
  | none ↦ none
  | some t ↦ elim (scan_unsigned t) [
    | none ↦ none
    | some (n, u) ↦ elim (scan_literal (codes ".") u) [
      | none ↦ none
      | some v ↦ if scan_word v then some n else none
    ]
  ]
]

-- The loop of `update_node_count`.
unfoldable pub count_nodes : ℕ → ℕ → List Text → ℕ
count_nodes last count [] = count
count_nodes last count (key ∷ keys) = elim (node_position key) [
  | none ↦ count_nodes last count keys
  | some n ↦ count_nodes n (if last == n then count else u32 (count + 1)) keys
]

unfoldable pub text_eq : Text → Text → Bool
text_eq [] [] = true
text_eq [] (d ∷ u) = false
text_eq (c ∷ t) [] = false
text_eq (c ∷ t) (d ∷ u) = c == d && text_eq t u

module _ {W : Type 0} (env : Env W) where
  abbrev pub Cm : Type 0 → Type 0
  Cm A = St (Cmap × W) A

  abbrev pub call : (r : Request) → Cm (Reply r)
  call r (c, w) = let (a, w') = env.call r w in (a, (c, w'))

  abbrev pub globals : Cm Cmap
  globals (c, w) = (c, (c, w))

  abbrev pub update : (Cmap → Cmap) → Cm (Unit {0})
  update f (c, w) = (tt, (f c, w))

  -- An error of the iterator is only logged; `last_node_pos` starts at -1.
  unfoldable pub update_node_count : Cm (Unit {0})
  update_node_count = do
    c ← globals
    (err, keys) ← call (Request.cmap_iter c.cmap_handle (codes "nodelist.node."))
    update (λ c. record c { node_count = count_nodes 4294967295 0 keys })

  unfoldable pub qdisk_cmap_init : Cm CsError
  qdisk_cmap_init = do
    (err, handle) ← call Request.cmap_initialize
    if not (is_cs_ok err)
        then (update (λ c. record c { cmap_handle = 0 }) >> pure cs_err_init)
        else (do
          update (λ c. record c { cmap_handle = handle })
          reload ←
              call (Request.cmap_track_add handle (codes "config.totemconfig_reload_in_progress"))
          if not (is_cs_ok reload) then pure reload else (do
            nodes ← call (Request.cmap_track_add handle (codes "nodelist."))
            if not (is_cs_ok nodes) then pure nodes else (update_node_count >> pure nodes)))

  unfoldable pub qdisk_cmap_shutdown : Cm CsError
  qdisk_cmap_shutdown = do c ← globals; call (Request.cmap_finalize c.cmap_handle)

  unfoldable pub qdisk_cmap_get_node_count : Cm (CsError × ℕ)
  qdisk_cmap_get_node_count = do c ← globals; pure (cs_ok, c.node_count)

  -- A string setting, which is refused before `qdisk_cmap_init`.
  unfoldable pub get_string : Text → Cm (CsError × Text)
  get_string key = do
    c ← globals
    if c.cmap_handle == 0
        then pure (cs_err_init, [])
        else call (Request.cmap_get_string c.cmap_handle key)

  unfoldable pub qdisk_cmap_get_qdisk_device : Cm (CsError × Text)
  qdisk_cmap_get_qdisk_device = get_string (codes "quorum.device.disk.device")

  unfoldable pub qdisk_cmap_get_qdisk_key_file : Cm (CsError × Text)
  qdisk_cmap_get_qdisk_key_file = get_string (codes "quorum.device.disk.keyfile")

  unfoldable pub qdisk_cmap_get_qdisk_keystr : Cm (CsError × Text)
  qdisk_cmap_get_qdisk_keystr = get_string (codes "quorum.device.disk.key")

  unfoldable pub qdisk_cmap_get_corosync_logfile : Cm (CsError × Text)
  qdisk_cmap_get_corosync_logfile = get_string (codes "logging.logfile")

  -- The heartbeat that was there is left if cmap is not initialised.
  unfoldable pub qdisk_cmap_get_heartbeat : ℕ → Cm (CsError × ℕ)
  qdisk_cmap_get_heartbeat old = do
    c ← globals
    if c.cmap_handle == 0 then pure (cs_err_init, old) else (do
      (err, set) ←
          call (Request.cmap_get_uint32 c.cmap_handle (codes "quorum.device.disk.heartbeat"))
      if is_cs_ok err then pure (cs_ok, set) else (do
        (err', token) ← call (Request.cmap_get_uint32 c.cmap_handle (codes "totem.token"))
        pure (cs_ok, (if is_cs_ok err' then token else 3000) / 4)))

  unfoldable pub qdisk_cmap_get_timeout : ℕ → Cm (CsError × ℕ)
  qdisk_cmap_get_timeout old = do
    c ← globals
    if c.cmap_handle == 0 then pure (cs_err_init, old) else (do
      (err, set) ← call (Request.cmap_get_uint32 c.cmap_handle (codes "quorum.device.disk.timeout"))
      pure (cs_ok, (if is_cs_ok err then set else u32 (env.qdevice_default_timeout * 2))))

  unfoldable pub qdisk_cmap_get_qdisk_can_operate : Cm (CsError × ℕ)
  qdisk_cmap_get_qdisk_can_operate = do
    c ← globals
    if c.cmap_handle == 0
        then pure (cs_err_init, 0)
        else call
            (Request.cmap_get_uint8 c.cmap_handle (codes "runtime.votequorum.qdisk_can_operate"))

  unfoldable pub qdisk_cmap_get_fd : Cm (CsError × ℕ)
  qdisk_cmap_get_fd = do c ← globals; call (Request.cmap_fd_get c.cmap_handle)

  -- While a reload runs the node count is not read again.
  unfoldable pub qdisk_cmap_reload_cb : Text → Bool → ℕ → Cm (Unit {0})
  qdisk_cmap_reload_cb key_name is_uint8 value = do
    c ← globals
    let told = text_eq key_name (codes "config.totemconfig_reload_in_progress") && is_uint8
    let busy = if told then value == 1 else c.cmap_reload_in_progress
    update (λ c. record c { cmap_reload_in_progress = busy })
    if busy then pure tt else update_node_count

  unfoldable pub qdisk_cmap_nodelist_cb : Cm (Unit {0})
  qdisk_cmap_nodelist_cb = update_node_count

  -- The callbacks that a dispatch of cmap makes.
  unfoldable pub notify_all : List CmapNotification → Cm (Unit {0})
  notify_all [] = pure tt
  notify_all (reload_notify key is_uint8 value ∷ ns) =
      qdisk_cmap_reload_cb key is_uint8 value >> notify_all ns
  notify_all (nodelist_change ∷ ns) = qdisk_cmap_nodelist_cb >> notify_all ns

  -- `none` is a call of `abort`.
  unfoldable pub qdisk_cmap_dispatch_all : Cm (Option CsError)
  qdisk_cmap_dispatch_all = do
    c ← globals
    if c.cmap_handle == 0 then pure (some cs_err_init) else (do
      (err, ns) ← call (Request.cmap_dispatch c.cmap_handle)
      notify_all ns
      if not (is_library err) then pure (some err) else (do
        d ← globals
        call (Request.cmap_finalize d.cmap_handle)
        call (Request.sleep 1)
        again ← qdisk_cmap_init
        if is_cs_ok again then pure (some err) else pure none))
