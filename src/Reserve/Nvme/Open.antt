-- ===== src/Reserve/Nvme/Open.antt =====
-- persistent_reserve/nvme_device.c: finding out whether a device can be used, and opening it.
use corosync_qdisk.Prelude.{
  ℕ, zero, suc, ◌-◌, Bool, ◌&&◌, ◌||◌, Option, none, some, List, [], ◌∷◌, ◌++◌, map, Text, codes,
  length, ltb, leb, ◌==◌, if◌then◌else◌, is_zero, not, true, false,
}
use corosync_qdisk.Libc.{
  hex_value, dec_value, scan_literal, skip_spaces, is_space, has_text, print_key,
}
use corosync_qdisk.Corosync.{Env, St, ◌>>=◌, pure}
use corosync_qdisk.Reserve.Exec.{cmd_result_length, take, exec_cmd_output}
use corosync_qdisk.Reserve.Scsi.{device_maxlen, skip_while}
use corosync_qdisk.Reserve.Scsi.Open.{Opened, opened, null}
use corosync_qdisk.Reserve.Nvme.{split_colon, map_device_path, nvme_device_vtable}

-- `strtok(…, ":\r\n")`: the pieces between delimiters that are not empty. The piece that is begun
-- comes first.
unfoldable pub tokens_from : Text → Text → List Text
tokens_from [] [] = []
tokens_from (a ∷ acc) [] = (a ∷ acc) ∷ []
tokens_from acc (c ∷ t) = elim (c == 58 || c == 13 || c == 10) [
  | false ↦ tokens_from (acc ++ c ∷ []) t
  | true ↦ let rest = tokens_from [] t in elim acc [ [] ↦ rest | a ∷ u ↦ (a ∷ u) ∷ rest ]
]

-- The character of a text at a position.
unfoldable pub char_at : ℕ → Text → ℕ
char_at i [] = 0
char_at zero (c ∷ t) = c
char_at (suc i) (c ∷ t) = char_at i t

-- The loop that goes back over white space: it ends at the position where the text is cut.
unfoldable pub cut_at : ℕ → Text → ℕ
cut_at zero t = 0
cut_at (suc i) t = let rest = cut_at i t in if is_space (char_at i t) then rest else suc i

-- A value: spaces at its head are skipped, and it is cut at the position found from its last
-- character on, which is always lost.
unfoldable pub trim_value : Text → Text
trim_value value =
    let v = skip_while (λ c. c == 32 || c == 9) value in take (cut_at (length v - 1) v) v

-- The loop over labels and values, with the model and the serial number found so far.
unfoldable pub find_names : Option Text × Option Text → List Text → Option Text × Option Text
find_names found [] = found
find_names found (label ∷ []) = found
find_names (mn, sn) (label ∷ value ∷ rest) =
    let v = some (trim_value value) in
    find_names
      (
        (if has_text (codes "mn") label then v else mn),
        (if has_text (codes "sn") label then v else sn),
      )
      rest

abbrev underscored : ℕ → ℕ
underscored c = if is_space c then 95 else c

-- The device id. An id that does not fit in its buffer overruns it in the code.
unfoldable pub device_id : Text → Text → Text
device_id mn sn = map underscored (take device_maxlen mn ++ codes "_" ++ take device_maxlen sn)

-- `strstr(t, p)`: the text from the first place on where `p` stands.
unfoldable pub from_text : Text → Text → Option Text
from_text p [] = none
from_text p (c ∷ t) =
    let rest = from_text p t in
    elim (scan_literal p (c ∷ t)) [ none ↦ rest | some _ ↦ some (c ∷ t) ]

-- Some digit at the head of a text, in a base given by its digits' values, is not 0.
unfoldable pub digits_nonzero : (ℕ → Option ℕ) → Text → Bool
digits_nonzero value [] = Bool.false
digits_nonzero value (c ∷ t) =
    let rest = digits_nonzero value t in
    elim (value c) [ none ↦ Bool.false | some d ↦ if d == 0 then rest else Bool.true ]

abbrev octal_value : ℕ → Option ℕ
octal_value c = if leb 48 c && leb c 55 then some (c - 48) else none

unfoldable pub number_nonzero : Text → Bool
number_nonzero [] = Bool.false
number_nonzero (c ∷ []) = digits_nonzero dec_value (c ∷ [])
number_nonzero (c ∷ x ∷ t) =
    if c == 48
    then (if x == 120 || x == 88
        then digits_nonzero hex_value t
        else digits_nonzero octal_value (x ∷ t))
    else digits_nonzero dec_value (c ∷ x ∷ t)

unfoldable pub signed_nonzero : Text → Bool
signed_nonzero [] = Bool.false
signed_nonzero (c ∷ t) = if c == 43 || c == 45 then number_nonzero t else number_nonzero (c ∷ t)

-- `0 != strtol(t, NULL, 0)`
unfoldable pub strtol_nonzero : Text → Bool
strtol_nonzero t = signed_nonzero (skip_spaces t)

-- The field rescap in the output of `nvme id-ns` is not 0.
unfoldable pub has_rescap : Text → Bool
has_rescap result = elim (from_text (codes "rescap") result) [
  | none ↦ Bool.false
  | some t ↦ elim (split_colon t) [ none ↦ Bool.false | some (label, rest) ↦ strtol_nonzero rest ]
]

module _ {W : Type 0} (env : Env W) where
  -- The allocation does not fail.
  unfoldable pub nvme_pr_device_init : Text → ℕ → St W (Opened W)
  nvme_pr_device_init device_name ikey =
      if not (ltb (length device_name) device_maxlen) then pure null else (do
        let name = take device_maxlen (map_device_path device_name)
        (err, output) ← exec_cmd_output env cmd_result_length (codes "nvme id-ctrl " ++ name)
        let found = find_names (none, none) (tokens_from [] output)
        if not (is_zero err)
            then pure null
            else pure (elim found.0 [
              | none ↦ null
              | some mn ↦ elim found.1 [
                | none ↦ null
                | some sn ↦ opened (
                    nvme_device_vtable env (record {
                      ikey = ikey;
                      key = print_key ikey;
                      device_name = name;
                      id = device_id mn sn;
                    }))
              ]
            ]))

  unfoldable pub is_nvme_device_usable : Text → St W Bool
  is_nvme_device_usable device = do
    (ret, result) ←
        exec_cmd_output env cmd_result_length
          (codes "nvme id-ns " ++ map_device_path device ++ codes " 2>&1")
    pure (if is_zero ret then has_rescap result else Bool.false)
