-- ===== src/Reserve/Errors.antt =====
-- persistent_reserve/persistent_reserve.c: the texts of the errors.
use corosync_qdisk.Prelude.{ℕ, zero, suc, ℤ, pos, negsuc, Text, codes, ◌==◌, if◌then◌else◌}

-- The text of the error -(n + 1).
unfoldable pub strerr_negative : ℕ → Text
strerr_negative n =
    if n == 125
    then codes "Device name length exceeded"
    else if n == 124
    then codes "Invalid Device"
    else if n == 123
    then codes "Memory allocation failed"
    else if n == 122
    then codes "Failed to read registration key from file"
    else if n == 121
    then codes "Device not ready"
    else if n == 120
    then codes "Device not operable"
    else if n == 119
    then codes "Device not reserved"
    else if n == 118
    then codes "Key registraction action failed"
    else if n == 117
    then codes "Reservation action failed"
    else if n == 116
    then codes "Key unregister action failed"
    else if n == 115
    then codes "Release action failed"
    else if n == 114
    then codes "Abort action failed"
    else if n == 113
    then codes "Found unexpected unregistered node key"
    else if n == 112
    then codes "Exec failed"
    else if n == 111
    then codes "Data parsing error"
    else codes "Unknown Error"

unfoldable pub pr_strerr : ℤ → Text
pr_strerr (pos zero) = codes "No error"
pr_strerr (pos (suc n)) = codes "Unknown Error"
pr_strerr (negsuc n) = strerr_negative n
