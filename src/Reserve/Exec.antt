-- ===== src/Reserve/Exec.antt =====
-- persistent_reserve/persistent_reserve.c and helpers.h: running a command, and its output by lines.
pub mod Lines
use corosync_qdisk.Prelude.{
  ℕ, zero, suc, ◌-◌, ℤ, negsuc, Option, none, some, List, [], ◌∷◌, ◌++◌, Text, leb, ◌==◌, Bool,
  true, false, ◌||◌,
}
use corosync_qdisk.Corosync.{Env, Output, St, ◌>>=◌, pure}

abbrev pub cmd_length : ℕ
cmd_length = 768

abbrev pub cmd_result_length : ℕ
cmd_result_length = 8192

unfoldable pub take : ℕ → Text → Text
take zero t = []
take (suc n) [] = []
take (suc n) (c ∷ t) = c ∷ take n t

-- `snprintf` into a buffer of `n` bytes keeps a byte for the final zero.
unfoldable pub snprintf : ℕ → Text → Text
snprintf n t = take (n - 1) t

-- What `fgets` reads, line by line: up to a newline, and at most `size - 1` bytes. `room` bytes are
-- left for the line that is begun in `acc`.
unfoldable pub lines_from : ℕ → ℕ → Text → Text → List Text
lines_from size room [] [] = []
lines_from size room (a ∷ acc) [] = (a ∷ acc) ∷ []
lines_from size room acc (c ∷ t) = elim (c == 10 || leb room 1) [
  | true ↦ (acc ++ c ∷ []) ∷ lines_from size (size - 1) [] t
  | false ↦ lines_from size (room - 1) (acc ++ c ∷ []) t
]

unfoldable pub lines : ℕ → Text → List Text
lines size t = lines_from size (size - 1) [] t

module _ {W : Type 0} (env : Env W) where
  -- The status of the command, or -1 if it cannot be run.
  unfoldable pub exec_cmd : Text → St W ℤ
  exec_cmd cmd = do
    out ← env.popen cmd
    elim out [ none ↦ pure (negsuc 0) | some o ↦ pure o.status ]

  -- The same, with the output cut to the buffer; what does not fit is read and dropped.
  unfoldable pub exec_cmd_output : ℕ → Text → St W (ℤ × Text)
  exec_cmd_output result_len cmd = do
    out ← env.popen cmd
    elim out [ none ↦ pure (negsuc 0, []) | some o ↦ pure (o.status, take (result_len - 1) o.text) ]
