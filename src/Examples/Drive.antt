-- ===== src/Examples/Drive.antt =====
-- A disk behind the shell: the commands of each host on a small world, for the theorems that go from
-- the commands up to HAVE_QDISK.
use corosync_qdisk.Prelude.{
  ℕ, ◌^◌, ◌<◌, ◌≡◌, ◌≢◌, pos, Bool, true, ◌&&◌, ◌||◌, Option, none, some, List, [], ◌∷◌, Text, ◌==◌,
  if◌then◌else◌, arith, ltb, refl,
}
use corosync_qdisk.Corosync.{Env, Output}
use corosync_qdisk.Cmap.{text_eq}
use corosync_qdisk.Cluster.Target.{Commands, Target}
use corosync_qdisk.Examples.Lab.{Lab, lab_env}

pub text_eq_refl : (t : Text) → text_eq t t ≡ true
unfolding text_eq
text_eq_refl [] = refl
text_eq_refl (c ∷ t) = ground (arith, text_eq_refl t)

abbrev pub told : Bool → Text → Output
told ok text = record { text = text; status = if ok then pos 0 else pos 256 }

module _ (show : Option ℕ → Text) (show_keys : List ℕ → Text) (host : ℕ → Commands) where
  abbrev reserve_of : ℕ → Lab → Option Output × Lab
  reserve_of key w = elim w.holder [
    | none ↦ (some (told (ltb key (2 ^ 64)) (show (some key))), record w { holder = some key })
    | some j ↦ (some (told (j == key && ltb j (2 ^ 64)) (show (some j))), w)
  ]

  abbrev report_of : Lab → Option Output
  report_of w =
      some (told (elim w.holder [ none ↦ true | some j ↦ ltb j (2 ^ 64) ]) (show w.holder))

  abbrev release_of : ℕ → Lab → Lab
  release_of key w = elim w.holder [
    | none ↦ w
    | some j ↦ if j == key then record w { holder = none } else w
  ]

  -- Reservations are taken and given back; nothing else changes the disk.
  unfoldable pub drive : ℕ → Text → Lab → Option Output × Lab
  drive i cmd w =
      if text_eq cmd (host i).reserve
      then reserve_of (host i).ikey w
      else if text_eq cmd (host i).read_reservation
      then (report_of w, w)
      else if text_eq cmd (host i).read_keys
      then (some (told true (show_keys w.keys)), w)
      else if text_eq cmd (host i).register
      then (some (told true []), w)
      else if text_eq cmd (host i).release || text_eq cmd (host i).unregister
      then (some (told true []), release_of (host i).ikey w)
      else (none, w)

  abbrev pub drive_env : ℕ → Env Lab
  drive_env i = record lab_env { popen = drive i }

  drive-keeps :
      (i k : ℕ) (cmd : Text) (w : Lab)
      → (text_eq cmd (host i).reserve
          || text_eq cmd (host i).read_reservation
          || text_eq cmd (host i).read_keys
          || text_eq cmd (host i).register)
        ≡ true
      → w.holder ≡ some k
      → (drive i cmd w).1.holder ≡ some k
  unfolding drive
  drive-keeps i k cmd w known h = ground (arith, known, h)

  drive-other :
      (i k : ℕ) (cmd : Text) (w : Lab)
      → k ≢ (host i).ikey
      → w.holder ≡ some k
      → (drive i cmd w).1.holder ≡ some k
  unfolding drive
  drive-other i k cmd w ne h = ground (arith, ne, h)

  drive-reserve : (i : ℕ) (w : Lab) → drive i (host i).reserve w ≡ reserve_of (host i).ikey w
  unfolding drive
  drive-reserve i w = ground (arith, text_eq_refl (host i).reserve)

  pub drive-Target :
      ((i j : ℕ) → (host i).ikey ≡ (host j).ikey → i ≡ j) → Target drive_env host (λ w. w.holder)
  drive-Target distinct = record {
    call_keeps = λ i k r w h. h;
    read_keeps = λ i k w h.
        drive-keeps i k (host i).read_reservation w
          (ground (arith, text_eq_refl (host i).read_reservation)) h;
    keys_keep = λ i k w h.
        drive-keeps i k (host i).read_keys w (ground (arith, text_eq_refl (host i).read_keys)) h;
    register_keeps = λ i k w h.
        drive-keeps i k (host i).register w (ground (arith, text_eq_refl (host i).register)) h;
    reserve_keeps = λ i k w h.
        drive-keeps i k (host i).reserve w (ground (arith, text_eq_refl (host i).reserve)) h;
    reserve_gains = λ i o w ran ok. ground (arith, drive-reserve i w, ran, ok);
    release_keeps = λ i k ne w h. drive-other i k (host i).release w ne h;
    unregister_keeps = λ i k ne w h. drive-other i k (host i).unregister w ne h;
    distinct_keys = distinct;
  }

  -- A read that succeeds on a reserved disk shows the holder, which fits in 64 bits.
  pub drive-shows :
      (i k : ℕ) (o : Output) (w : Lab)
      → w.holder ≡ some k
      → (drive i (host i).read_reservation w).0 ≡ some o
      → o.status ≡ pos 0
      → (o.text ≡ show (some k)) × (k < 2 ^ 64)
  unfolding drive
  drive-shows i k o w h ran ok = ground (arith, text_eq_refl (host i).read_reservation, h, ran, ok)
