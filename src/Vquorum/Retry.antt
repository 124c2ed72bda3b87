-- ===== src/Vquorum/Retry.antt =====
-- qdiskd/vquorum.c: the loops that repeat a call while it answers CS_ERR_TRY_AGAIN. The code repeats
-- without a bound, the model at most `attempts` times.
use corosync_qdisk.Prelude.{ℕ, zero, suc, ◌<◌, ◌≡◌, true, false, List, Text, arith}
use corosync_qdisk.Corosync.{CsError, is_try_again, Request, Env, St}
use corosync_qdisk.Vquorum.{Vquorum, send_extra_info}
use corosync_qdisk.Vquorum.Service.{ask_extra_info}

-- The world answers a call `n` times with CS_ERR_TRY_AGAIN, and then with `a`; the last world is the
-- one behind that answer. `code` is the error code of an answer.
pub data AnswersAfter {W A : Type 0} (code : A → CsError) (call : St W A)
    : ℕ → W → A → W → Type 0 where
  answered :
      {w z : W} {a : A}
      → call w ≡ (a, z)
      → is_try_again (code a) ≡ false
      → AnswersAfter code call 0 w a z
  refused :
      {n : ℕ} {w x z : W} {a b : A}
      → call w ≡ (b, x)
      → is_try_again (code b) ≡ true
      → AnswersAfter code call n x a z
      → AnswersAfter code call (suc n) w a z

module _ {W : Type 0} (env : Env W) where
  -- `votequorum_set_qdevice_extra_info` with its arguments.
  abbrev pub sends : ℕ → ℕ → Text → St W CsError
  sends handle ei_size buf = env.call (Request.votequorum_set_qdevice_extra_info handle ei_size buf)

  -- `votequorum_get_qdevice_extra_info` with its arguments.
  abbrev pub asks : ℕ → ℕ → St W (CsError × List ℕ)
  asks handle nodeid = env.call (Request.votequorum_get_qdevice_extra_info handle nodeid)

  -- With more attempts than refusals, the loop of `vquorum_qdisk_share_ikey` ends with the first
  -- answer that is not CS_ERR_TRY_AGAIN, and does not depend on how many attempts are left.
  pub send_extra_info-enough :
      (handle ei_size : ℕ) (buf : Text) (v : Vquorum) {z : W} {a : CsError} (attempts : ℕ) {n : ℕ}
      {w : W}
      → AnswersAfter (λ e. e) (sends handle ei_size buf) n w a z
      → n < attempts
      → send_extra_info env attempts handle ei_size buf (v, w) ≡ (a, (v, z))
  unfolding send_extra_info
  send_extra_info-enough handle ei_size buf v zero p h = absurd (omega (arith, h))
  send_extra_info-enough handle ei_size buf v (suc m) (answered e f) h = ground arith
  send_extra_info-enough handle ei_size buf v (suc m) (refused e f p) h =
      ground (arith, send_extra_info-enough handle ei_size buf v m p (omega arith))

  -- With more attempts than refusals, the loop of `vquorum_get_node_key` ends with the first answer
  -- that is not CS_ERR_TRY_AGAIN, and does not depend on how many attempts are left.
  pub ask_extra_info-enough :
      (handle nodeid : ℕ) (v : Vquorum) {z : W} {a : CsError × List ℕ} (attempts : ℕ) {n : ℕ}
      {w : W}
      → AnswersAfter (λ e. e.0) (asks handle nodeid) n w a z
      → n < attempts
      → ask_extra_info env attempts handle nodeid (v, w) ≡ (a, (v, z))
  unfolding ask_extra_info
  ask_extra_info-enough handle nodeid v zero p h = absurd (omega (arith, h))
  ask_extra_info-enough handle nodeid v (suc m) (answered e f) h = ground arith
  ask_extra_info-enough handle nodeid v (suc m) (refused e f p) h =
      ground (arith, ask_extra_info-enough handle nodeid v m p (omega arith))
