-- ===== src/Log.antt =====
-- qdiskd/log.c: the tags of the log, the path of a message to libqb, and the file of the blackbox. The
-- messages that the callers give are not modelled.
use corosync_qdisk.Prelude.{
  ℕ, ◌+◌, ◌-◌, ◌≡◌, refl, Text, codes, ◌++◌, ◌==◌, if◌then◌else◌, Option, none, some, length, [],
  ◌∷◌, arith,
}
use corosync_qdisk.Corosync.{Env, Request, St}
use corosync_qdisk.Reserve.Exec.{take, snprintf}

-- The static of qdiskd/log.c, and the one of qdiskd/main.c.
pub record Log : Type 0 where
  pub blackbox_path : Text
  pub corosync_logfile_path : Text

-- PATH_MAX
abbrev pub path_max : ℕ
path_max = 4096

unfoldable pub qdisk_log_tag_to_string : ℕ → Text
qdisk_log_tag_to_string tags =
    if tags == 1
    then codes "MAIN"
    else if tags == 2
    then codes "ALGORITHM"
    else if tags == 3
    then codes "MISC"
    else if tags == 4
    then codes "PR"
    else codes "UNKNOWN"

module _ {W : Type 0} (env : Env W) where
  -- `strftime` is given 30 bytes.
  unfoldable pub update_blackbox_path_with_timestamp : Text → St (Log × W) (Unit {0})
  update_blackbox_path_with_timestamp dir (l, w) =
      let (time, v) = env.call Request.local_time w in
      let path =
        snprintf path_max (dir ++ codes "/corosync-qdiskd-" ++ take 29 time ++ codes ".fdata") in
      (tt, (record l { blackbox_path = path }, v))

  unfoldable pub qdisk_dump_blackbox : St (Log × W) (Unit {0})
  qdisk_dump_blackbox (l, w) =
      let (_, v) = env.call (Request.qb_log_blackbox_write_to_file l.blackbox_path) w in
      (tt, (l, v))

  -- `text` is what `vsnprintf` makes of the format and its arguments, or `none` when it fails; a `none`
  -- that is given back is a call of `abort`. The buffer has room for the text and its zero; the tag is
  -- TAGS_PR.
  unfoldable pub pr_log : ℕ → Option Text → St W (Option (Unit {0}))
  pr_log level none w = (none, w)
  pr_log level (some text) w =
      let buf = snprintf (1 + length text) text in
      let (_, v) = env.call (Request.qb_logt level 4 buf) w in (some tt, v)

take-length : (t : Text) → take (length t) t ≡ t
unfolding take
take-length [] = refl
take-length (c ∷ t) = rw (take-length t) refl

snprintf-whole : (t : Text) → snprintf (1 + length t) t ≡ t
unfolding snprintf
snprintf-whole t = let room : (1 + length t) - 1 ≡ length t = omega arith in rw room (take-length t)

module _ {W : Type 0} (env : Env W) where
  -- A message comes to libqb as a whole, however long it is.
  pr_log-whole :
      (level : ℕ) (text : Text) (w : W)
      → pr_log env level (some text) w ≡ (some tt, (env.call (Request.qb_logt level 4 text) w).1)
  unfolding pr_log
  pr_log-whole level text w = rw (snprintf-whole text) refl
