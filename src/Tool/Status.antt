-- ===== src/Tool/Status.antt =====
-- persistent_reserve/qdisktool.c: what the tool prints, and what its exit code means.
use corosync_qdisk.Prelude.{
  ℕ, ◌≡◌, ◌⊎◌, inl, inr, refl, ◌∙◌, sym, ap, true, Option, none, some, List, [], ◌∷◌, ◌++◌, map,
  Text, codes, arith, is_zero, Option-cases,
}
use mathlib.Core.List.{append_assoc, append-nil}
use corosync_qdisk.Libc.{Scan, eof, mismatch, matched, scan_key}
use corosync_qdisk.Corosync.{Env, Request}
use corosync_qdisk.Cmap.{text_eq}
use corosync_qdisk.Reserve.{Device}
use corosync_qdisk.Reserve.Scsi.Open.{Opened, opened, null}
use corosync_qdisk.Reserve.KeyFile.{
  persistent_reserve_device_new, persistent_reserve_device_new_key,
}
use corosync_qdisk.Tool.{
  run_key, Action, action_of, key_line, print_keys, show_reservation, show_status, perform,
  run_action, run_opened, run_default_key, is_usable, run_command, main,
}

-- A world with a terminal: `out` is what has been printed. The operations of the device print nothing.
pub record Console {W : Type 0} (env : Env W) (d : Device W) (out : W → List Text) : Type 0 where
  pub prints : (t : Text) (w : W) → out (env.call (Request.print t) w).1 ≡ out w ++ t ∷ []
  pub reads : (w : W) → out (d.get_registered_keys w).1 ≡ out w

module _ {W : Type 0} (env : Env W) (d : Device W) (out : W → List Text)
    (console : Console env d out) where
  print_keys-out :
      (holder : ℕ) (ks : List ℕ) (w : W)
      → out (print_keys env holder ks w).1 ≡ out w ++ map (key_line holder) ks
  unfolding print_keys
  print_keys-out holder [] w = sym (append-nil (out w))
  print_keys-out holder (k ∷ ks) w =
      let next = (env.call (Request.print (key_line holder k)) w).1 in
      print_keys-out holder ks next
      ∙ ap (λ o. o ++ map (key_line holder) ks) (console.prints (key_line holder k) w)
      ∙ append_assoc (out w) (key_line holder k ∷ []) (map (key_line holder) ks)

  -- Behind what it says of the reservation, `status` prints one line for each registered key, in their
  -- order, with the mark of the holder's key.
  pub show_status-out :
      (w : W)
      → out (show_status env d w).1 ≡ (
          let r = show_reservation env d w in
          out r.1
          ++ (codes "Registered keys:\n"
              ∷ (map (key_line r.0) (d.get_registered_keys r.1).0.1 ++ codes "\n" ∷ [])))
  unfolding show_status
  show_status-out w =
      let r = show_reservation env d w in
      let read = d.get_registered_keys r.1 in
      let head : Text = codes "Registered keys:\n" in
      let lines = map (key_line r.0) read.0.1 in
      let headed = (env.call (Request.print head) read.1).1 in
      let listed = (print_keys env r.0 read.0.1 headed).1 in
      let end : List Text = codes "\n" ∷ [] in
      console.prints (codes "\n") listed
      ∙ ap (λ o. o ++ end) (print_keys-out r.0 read.0.1 headed)
      ∙ ap (λ o. (o ++ lines) ++ end)
          (console.prints head read.1 ∙ ap (λ o. o ++ head ∷ []) (console.reads r.1))
      ∙ append_assoc (out r.1 ++ head ∷ []) lines end
      ∙ append_assoc (out r.1) (head ∷ []) (lines ++ end)

module _ {W : Type 0} (env : Env W) where
  -- A key of the environment that is no number is key 0.
  abbrev key_of_scan : Scan → Option ℕ
  key_of_scan eof = none
  key_of_scan mismatch = some 0
  key_of_scan (matched k) = some k

  abbrev opening : Text → W → Option ℕ → Option (Opened W × W)
  opening device w none = none
  opening device w (some k) = some (persistent_reserve_device_new_key env device k w)

  -- What the opening of the device gives, for a path of a key file or none.
  unfoldable pub handle_of : Text → Option Text → W → Option (Opened W × W)
  handle_of device (some path) w = some (persistent_reserve_device_new env device path w)
  handle_of device none w =
      let var = env.call (Request.getenv (codes "DISK_RESERVE_KEY")) w in
      elim var.0 [
        | none ↦
            some (
              persistent_reserve_device_new env device (codes "/etc/corosync/pr_reserve_key") var.1)
        | some t ↦ opening device var.1 (key_of_scan (scan_key t))
      ]

  -- The action with this name ends without an error.
  abbrev pub Performs : Text → Device W → W → Type 0
  Performs name d w =
      (action : Action) × ((action_of name ≡ some action)
        × (is_zero (perform env d action w).0 ≡ true))

  -- An opening gave a handle, on which the action ended without an error.
  abbrev Uses : Text → Opened W × W → Type 0
  Uses name r = (d : Device W) × ((t : W) × ((r ≡ (opened d, t)) × Performs name d t))

  -- The handle was opened, and the action ended without an error on it.
  abbrev pub Succeeds : Text → Text → Option Text → W → Type 0
  Succeeds name device key_path w =
      (d : Device W) × ((t : W) × ((handle_of device key_path w ≡ some (opened d, t))
          × Performs name d t))

  run_action-Performs :
      (exe name : Text) (d : Device W) (w : W)
      → (run_action env exe name d w).0 ≡ 0
      → Performs name d w
  unfolding run_action
  run_action-Performs exe name d w h = elim (Option-cases (action_of name)) [
    | inl e ↦ ground (arith, e, h)
    | inr (a, e) ↦ (a, (e, ground (arith, e, h)))
  ]

  run_opened-Uses :
      (exe name device : Text) (o : Opened W) (w : W)
      → (run_opened env exe name device o w).0 ≡ some 0
      → Uses name (o, w)
  unfolding run_opened
  run_opened-Uses exe name device (opened d) w h =
      (d, (w, (refl, run_action-Performs exe name d w (ground (arith, h)))))
  run_opened-Uses exe name device null w h = ground (arith, h)
  run_opened-Uses exe name device Opened.abort w h = ground (arith, h)

  run_key-Uses :
      (exe name device key_str : Text) (c : Scan) (w : W)
      → (run_key env exe name device key_str c w).0 ≡ some 0
      → (k : ℕ) × ((key_of_scan c ≡ some k)
          × Uses name (persistent_reserve_device_new_key env device k w))
  unfolding run_key
  run_key-Uses exe name device key_str eof w h = ground (arith, h)
  run_key-Uses exe name device key_str mismatch w h =
      let r = persistent_reserve_device_new_key env device 0 w in
      (0, (refl, run_opened-Uses exe name device r.0 r.1 h))
  run_key-Uses exe name device key_str (matched k) w h =
      let r = persistent_reserve_device_new_key env device k w in
      (k, (refl, run_opened-Uses exe name device r.0 r.1 h))

  Uses-Succeeds :
      (name device : Text) (key_path : Option Text) (w : W) (r : Opened W × W)
      → handle_of device key_path w ≡ some r
      → Uses name r
      → Succeeds name device key_path w
  Uses-Succeeds name device key_path w r q (d, (t, (e, p))) = (d, (t, (q ∙ ap some e, p)))

  run_path-Succeeds :
      (exe name device path : Text) (w : W)
      → (let r = persistent_reserve_device_new env device path w in
          run_opened env exe name device r.0 r.1).0
        ≡ some 0
      → Succeeds name device (some path) w
  unfolding handle_of
  run_path-Succeeds exe name device path w h =
      let r = persistent_reserve_device_new env device path w in
      Uses-Succeeds name device (some path) w r refl (run_opened-Uses exe name device r.0 r.1 h)

  run_default_key-Succeeds :
      (exe name device : Text) (w : W)
      → (run_default_key env exe name device w).0 ≡ some 0
      → Succeeds name device none w
  unfolding run_default_key handle_of
  run_default_key-Succeeds exe name device w h =
      let var = env.call (Request.getenv (codes "DISK_RESERVE_KEY")) w in
      let path : Text = codes "/etc/corosync/pr_reserve_key" in
      elim (Option-cases var.0) [
        | inl e ↦
            let r = persistent_reserve_device_new env device path var.1 in
            let given : handle_of device none w ≡ some r = rw (e, handle_of) refl in
            Uses-Succeeds name device none w r given
              (run_opened-Uses exe name device r.0 r.1 (ground (arith, e, h)))
        | inr (s, e) ↦
            let (k, (c, uses)) =
              run_key-Uses exe name device s (scan_key s) var.1 (ground (arith, e, h)) in
            let r = persistent_reserve_device_new_key env device k var.1 in
            let given : handle_of device none w ≡ some r = rw (e, handle_of) (rw c refl) in
            Uses-Succeeds name device none w r given uses
      ]

  -- The device can be used, and the name is `check` or that of an action which ended without an error
  -- on the handle that was opened behind that test.
  abbrev pub Serves : Text → Text → Option Text → W → Type 0
  Serves name device key_path w =
      ((is_usable env device w).0 ≡ some true)
      × ((text_eq name (codes "check") ≡ true)
          ⊎ Succeeds name device key_path (is_usable env device w).1)

  run_command-Serves :
      (exe name device : Text) (key_path : Option Text) (w : W)
      → (run_command env exe name device key_path w).0 ≡ some 0
      → Serves name device key_path w
  unfolding run_command
  run_command-Serves exe name device none w h =
      ground (arith, h, run_default_key-Succeeds exe name device (is_usable env device w).1)
  run_command-Serves exe name device (some path) w h =
      ground (arith, h, run_path-Succeeds exe name device path (is_usable env device w).1)

  -- The path of a key file is the last argument, if there is one.
  abbrev pub last_argument : Option Text → List Text
  last_argument none = []
  last_argument (some path) = path ∷ []

  -- When the tool exits with 0, it was given a name, a device and at most the path of a key file, the
  -- device can be used, and the name is `check` or that of an action that ended without an error on the
  -- handle that the opening of this device gave, with the key of the file, or without one with the key
  -- of the environment or of the default key file.
  pub main-Serves :
      (exe : Text) (args : List Text) (w : W)
      → (main env exe args w).0 ≡ some 0
      → (name : Text) × ((device : Text) × ((key_path : Option Text) × ((args
                ≡ name ∷ device ∷ last_argument key_path)
              × Serves name device key_path w)))
  unfolding main
  main-Serves exe [] w h = ground (arith, h)
  main-Serves exe (name ∷ []) w h = ground (arith, h)
  main-Serves exe (name ∷ device ∷ []) w h =
      (name, (device, (none, (refl, run_command-Serves exe name device none w h))))
  main-Serves exe (name ∷ device ∷ path ∷ []) w h =
      (name, (device, (some path, (refl, run_command-Serves exe name device (some path) w h))))
  main-Serves exe (name ∷ device ∷ path ∷ x ∷ more) w h = ground (arith, h)
