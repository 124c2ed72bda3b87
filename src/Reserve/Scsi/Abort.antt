-- ===== src/Reserve/Scsi/Abort.antt =====
-- persistent_reserve/scsi_device.c: `device_abort`, which takes the reservation from whoever holds it.
use corosync_qdisk.Prelude.{
  ℕ, ◌≤◌, ◌≡◌, ◌⊎◌, ◌∙◌, ap, Option, some, none, true, false, [], ◌∷◌, ◌++◌, Text, pos, arith,
  length, length-append, is_zero, is_zero-eq, Option-cases, Bool-cases, inl, inr,
}
use corosync_qdisk.Libc.{matched, hex_fixed}
use corosync_qdisk.Libc.Keys.{length-hex_fixed}
use corosync_qdisk.Corosync.{Env, Output}
use corosync_qdisk.Reserve.Exec.{take, exec_cmd, exec_cmd_output}
use corosync_qdisk.Reserve.Scsi.{
  DevicePriv, scan_any, holder_cmd, preempt_cmd, release_cmd, device_release, device_abort,
}
use corosync_qdisk.Reserve.Scsi.Parse.{Fits, shown, scan_any-shown, newline_ends}
use corosync_qdisk.Reserve.Scsi.Commands.{take-all}

-- The key as the shell cuts it out of the line of the holder.
pub record ShowsKey (text : Text) (k : ℕ) : Type 0 where
  pub digits : ℕ
  pub is_text : text ≡ shown digits k ++ 10 ∷ []
  pub fits : Fits digits k
  pub is_short : digits ≤ 16

ShowsKey-scanned : (text : Text) (k : ℕ) → ShowsKey text k → scan_any (take 8191 text) ≡ matched k
ShowsKey-scanned text k s =
    let size = length-append (hex_fixed s.digits k) (10 ∷ []) in
    let digits = length-hex_fixed s.digits k in
    let short : length (shown s.digits k ++ 10 ∷ []) ≤ 8191 =
      omega (arith, size, digits, s.is_short) in
    ap (λ t. scan_any (take 8191 t)) s.is_text
    ∙ ap scan_any (take-all 8191 (shown s.digits k ++ 10 ∷ []) short)
    ∙ scan_any-shown s.digits k (10 ∷ []) s.fits.0 s.fits.1 newline_ends

-- What is taken of the commands of `device_abort` on a disk with the holder `holder w`.
pub record Preempts {W : Type 0} (env : Env W) (d : DevicePriv) (holder : W → Option ℕ)
    : Type 0 where
  pub look_keeps :
      (k : ℕ) (w : W) → holder w ≡ some k → holder (env.popen (holder_cmd d) w).1 ≡ some k
  pub shows :
      (k : ℕ) (o : Output) (w : W)
      → holder w ≡ some k
      → (env.popen (holder_cmd d) w).0 ≡ some o
      → o.status ≡ pos 0
      → ShowsKey o.text k
  -- The reservation of the key that is named goes over to ours.
  pub preempt_takes :
      (k : ℕ) (o : Output) (w : W)
      → holder w ≡ some k
      → (env.popen (preempt_cmd d k) w).0 ≡ some o
      → o.status ≡ pos 0
      → holder (env.popen (preempt_cmd d k) w).1 ≡ some d.ikey
  pub release_frees :
      (o : Output) (w : W)
      → holder w ≡ some d.ikey
      → (env.popen (release_cmd d) w).0 ≡ some o
      → o.status ≡ pos 0
      → holder (env.popen (release_cmd d) w).1 ≡ none

module _ {W : Type 0} (env : Env W) (d : DevicePriv) (holder : W → Option ℕ)
    (disk : Preempts env d holder) where
  -- A release by the holder fails, or the disk is free behind it.
  release-frees :
      (w : W)
      → holder w ≡ some d.ikey
      → (is_zero (device_release env d w).0 ≡ false) ⊎ (holder (device_release env d w).1 ≡ none)
  unfolding device_release exec_cmd
  release-frees w held = elim (Option-cases (env.popen (release_cmd d) w).0) [
    | inl e ↦ inl (ground (arith, e))
    | inr (o, e) ↦ elim (Bool-cases (is_zero o.status)) [
      | inl f ↦ inr (ground (arith, e, disk.release_frees o w held e (is_zero-eq o.status f)))
      | inr f ↦ inl (ground (arith, e, f))
    ]
  ]

  -- When `device_abort` answers success on a disk that somebody holds, it has made our key the holder
  -- and has then released the disk: the world that it leaves is the one behind `device_release` in a
  -- world where our key is the holder, and the disk is free in it unless that release failed.
  -- This takes the promises of `Preempts` on the commands that end with status 0.
  pub device_abort-releases :
      (k : ℕ) (w : W)
      → holder w ≡ some k
      → is_zero (device_abort env d w).0 ≡ true
      → (t : W) × ((holder t ≡ some d.ikey)
          × (((device_abort env d w).1 ≡ (device_release env d t).1)
              × ((is_zero (device_release env d t).0 ≡ false)
                  ⊎ (holder (device_abort env d w).1 ≡ none))))
  unfolding device_abort exec_cmd_output exec_cmd
  device_abort-releases k w held ok = elim (Option-cases (env.popen (holder_cmd d) w).0) [
    | inl e ↦ absurd ground (arith, e, ok)
    | inr (o, e) ↦ elim (Bool-cases (is_zero o.status)) [
      | inr f ↦ absurd ground (arith, e, f, ok)
      | inl f ↦
          let read = ShowsKey-scanned o.text k (disk.shows k o w held e (is_zero-eq o.status f)) in
          let seen = (env.popen (holder_cmd d) w).1 in
          let kept = disk.look_keeps k w held in
          elim (Option-cases (env.popen (preempt_cmd d k) seen).0) [
            | inl g ↦ absurd ground (arith, e, f, read, g, ok)
            | inr (p, g) ↦ elim (Bool-cases (is_zero p.status)) [
              | inr j ↦ absurd ground (arith, e, f, read, g, j, ok)
              | inl j ↦
                  let t = (env.popen (preempt_cmd d k) seen).1 in
                  let taken = disk.preempt_takes k p seen kept g (is_zero-eq p.status j) in
                  let same : (device_abort env d w).1 ≡ (device_release env d t).1 =
                    ground (arith, e, f, read, g, j) in
                  (
                    t,
                    (
                      taken,
                      (
                        same,
                        elim (release-frees t taken) [
                          | inl failed ↦ inl failed
                          | inr free ↦ inr (ap holder same ∙ free)
                        ],
                      ),
                    ),
                  )
            ]
          ]
    ]
  ]
