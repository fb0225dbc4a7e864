-- ===== src/Server/Reaping.antt =====
-- The handler of SIGCHLD in src/engine/main.c: `waitpid` with WNOHANG until no child is left that has
-- ended. The children that have ended are a list of process numbers; those that still run are not
-- in it, and for them `waitpid` gives 0.
use cftp_server.Base.{
  ℕ, zero, suc, ◌<◌, ◌≡◌, refl, List, [], ◌∷◌, length, arith, ltb, All, true, false,
}
use cftp_server.Faults.{Run, ok, fault, out_of_fuel}

-- The result of the call, and the children that are left to be waited for.
abbrev pub waitpid : List ℕ → ℕ × List ℕ
waitpid [] = (0, [])
waitpid (pid ∷ ended) = (pid, ended)

unfoldable pub sigchld_handler : ℕ → List ℕ → Run (List ℕ)
sigchld_handler zero ended = fault out_of_fuel
sigchld_handler (suc fuel) ended =
    let (pid, rest) = waitpid ended in
    elim (ltb 0 pid) [ true ↦ sigchld_handler fuel rest | false ↦ ok rest ]

-- With one round more than there are children that have ended, the loop ends and none is left.
pub sigchld_handler-none_left :
    (fuel : ℕ) (ended : List ℕ)
    → All (λ pid. 0 < pid) ended
    → length ended < fuel
    → sigchld_handler fuel ended ≡ ok []
unfolding sigchld_handler
sigchld_handler-none_left zero ended pids enough = absurd (omega arith)
sigchld_handler-none_left (suc fuel) [] pids enough = refl
sigchld_handler-none_left (suc fuel) (pid ∷ ended) pids enough =
    let exists : ltb 0 pid ≡ true = (let h = pids.0 in ground arith) in
    rw (sigchld_handler, exists) (sigchld_handler-none_left fuel ended pids.1 (omega arith))
