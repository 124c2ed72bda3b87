-- ===== src/Vquorum/Service.antt =====
-- qdiskd/vquorum.c: the functions that the daemon calls.
use corosync_qdisk.Prelude.{
  ℕ, suc, zero, ◌+◌, length, Bool, true, false, not, Option, none, some, List, [], ◌∷◌, ◌==◌,
  if◌then◌else◌,
}
use corosync_qdisk.Corosync.{
  CsError, cs_ok, cs_err_try_again, is_cs_ok, is_try_again, is_library, Request, Env, ◌>>=◌, ◌>>◌,
  pure,
}
use corosync_qdisk.Vquorum.{
  Vquorum, find_key, parse_key, Vq, call, globals, update, getinfo, dispatch,
}

-- `g_quorate` as a bool.
unfoldable pub vquorum_get_quorate : Vquorum → Bool
vquorum_get_quorate v = not (v.quorate == 0)

-- The daemon does not call it.
abbrev vquorum_get_node_count : Vquorum → ℕ
vquorum_get_node_count v = length v.node_list

unfoldable pub vquorum_get_expected_votes : Vquorum → ℕ
vquorum_get_expected_votes v = v.expected_votes

unfoldable pub vquorum_get_total_votes : Vquorum → ℕ
vquorum_get_total_votes v = v.info.total_votes

unfoldable pub vquorum_get_node_list : Vquorum → List ℕ
vquorum_get_node_list v = v.visible_node_list

module _ {W : Type 0} (env : Env W) where
  unfoldable pub vquorum_qdisk_set_qdisk_key : ℕ → Vq env CsError
  vquorum_qdisk_set_qdisk_key key = update env (λ v. record v { qdisk_key = key }) >> pure cs_ok

  unfoldable pub vquorum_init : Vq env CsError
  vquorum_init = do
    (err, handle) ← call env Request.votequorum_model_initialize
    if not (is_cs_ok err) then (update env (λ v. record v { v_handle = 0 }) >> pure err) else (do
      update env (λ v. record v { v_handle = handle })
      got ← getinfo env
      if not (is_cs_ok got) then pure got else (do
        update env (λ v. record v {
          our_nodeid = v.info.node_id;
          expected_votes = v.info.node_expected_votes;
        })
        tracked ← call env (Request.votequorum_trackstart handle)
        if not (is_cs_ok tracked) then pure tracked else dispatch env))

  unfoldable pub vquorum_get_fd : Vq env (CsError × ℕ)
  vquorum_get_fd = do v ← globals env; call env (Request.votequorum_fd_get v.v_handle)

  -- `none` is a call of `abort`.
  unfoldable pub vquorum_dispatch_all : Vq env (Option CsError)
  vquorum_dispatch_all = do
    err ← dispatch env
    if not (is_library err) then pure (some err) else (do
      v ← globals env
      call env (Request.votequorum_finalize v.v_handle)
      call env (Request.sleep 1)
      again ← vquorum_init
      if is_cs_ok again then pure (some err) else pure none)

  unfoldable pub vquorum_heartbeat : Vq env CsError
  vquorum_heartbeat = do
    err ← getinfo env
    if not (is_cs_ok err)
        then pure err
        else (update env (λ v. record v { expected_votes = v.info.node_expected_votes })
            >> pure cs_ok)

  -- The `do … while(CS_ERR_TRY_AGAIN == err)` of `vquorum_get_node_key`.
  unfoldable pub ask_extra_info : ℕ → ℕ → ℕ → Vq env (CsError × List ℕ)
  ask_extra_info zero handle nodeid = pure (cs_err_try_again, [])
  ask_extra_info (suc n) handle nodeid = do
    (err, buf) ← call env (Request.votequorum_get_qdevice_extra_info handle nodeid)
    elim (is_try_again err) [ true ↦ ask_extra_info n handle nodeid | false ↦ pure (err, buf) ]

  -- `*key` is taken as it was and given as it is left: a text that is no key does not write it.
  unfoldable pub vquorum_get_node_key : ℕ → ℕ → Vq env (CsError × ℕ)
  vquorum_get_node_key nodeid old = do
    v ← globals env
    elim (find_key nodeid v.node_list) [
      | some k ↦ pure (cs_ok, k)
      | none ↦ do
        (err, buf) ← ask_extra_info env.attempts v.v_handle nodeid
        if is_cs_ok err then pure (cs_ok, parse_key buf old) else pure (err, old)
    ]

  -- The loop of `vquorum_get_node_key_list`: `j` keys are stored, `slot` is what `res[j]` holds and
  -- `fresh` what the allocated memory held.
  unfoldable pub collect_keys : (ℕ → ℕ) → ℕ → ℕ → List ℕ → Vq env (CsError × List ℕ)
  collect_keys fresh j slot [] = pure (cs_ok, [])
  collect_keys fresh j slot (n ∷ ns) = do
    (err, k) ← vquorum_get_node_key n slot
    elim (is_cs_ok err) [
      | false ↦ pure (err, [])
      | true ↦ elim (k == 0) [
        | true ↦ collect_keys fresh j 0 ns
        | false ↦ do (err', ks) ← collect_keys fresh (j + 1) (fresh (j + 1)) ns; pure (err', k ∷ ks)
      ]
    ]

  -- The keys of the visible nodes; the allocation does not fail.
  unfoldable pub vquorum_get_node_key_list : Vq env (CsError × List ℕ)
  vquorum_get_node_key_list = do
    v ← globals env
    fresh ← call env Request.malloc_keys
    collect_keys fresh 0 (fresh 0) v.visible_node_list

  unfoldable pub vquorum_qdevice_poll : ℕ → Vq env CsError
  vquorum_qdevice_poll cast_vote = do
    err ← dispatch env
    if not (is_cs_ok err) then pure err else (do
      v ← globals env
      call env (Request.votequorum_qdevice_poll v.v_handle cast_vote v.ring_id))

  unfoldable pub vquorum_qdevice_register : Vq env CsError
  vquorum_qdevice_register = do
    v ← globals env
    call env (Request.votequorum_qdevice_register v.v_handle)

  unfoldable pub vquorum_qdevice_unregister : Vq env CsError
  vquorum_qdevice_unregister = do
    v ← globals env
    call env (Request.votequorum_qdevice_unregister v.v_handle)
