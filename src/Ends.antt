-- ===== src/Ends.antt =====
-- How a piece of the program ends, and the rule for a sequence of two.
use corosync_qdisk.Daemon.{Sys, Prog, Outcome, done, exited, aborted, crashed, bind}

-- `P` holds if it returns, and `F` if the process ends by `exit` or `abort`. It follows no null
-- pointer.
abbrev pub Ends : {W A : Type 0} → (Sys W → Type 0) → (W → Type 0) → Outcome W A → Type 0
Ends P F (done a s) = P s
Ends P F (exited n s) = F s.world
Ends P F (aborted s) = F s.world
Ends P F (crashed s) = ⊥

pub bind-Ends :
    {W A B : Type 0} (P R : Sys W → Type 0) (F : W → Type 0) (o : Outcome W A) (f : A → Prog W B)
    → Ends P F o
    → ((a : A) (s : Sys W) → P s → Ends R F (f a s))
    → Ends R F (bind o f)
bind-Ends P R F (done a s) f h k = k a s h
bind-Ends P R F (exited n s) f h k = h
bind-Ends P R F (aborted s) f h k = h
bind-Ends P R F (crashed s) f h k = absurd h
