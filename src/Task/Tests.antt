-- ===== src/Task/Tests.antt =====
-- A task whose child processes changed.
use etmem.Base.{ℕ, ◌≡◌, ◌+◌, ◌==◌, Bool, true, List, [], ◌∷◌, Option, some}
use etmem.Task.Pids.{TaskPid, etmemd_get_task_pids}
use etmem.Task.Listed.{numbers, listed, get_task_pids-listed}
use etmem.Task.Counted.{count, get_task_pids-count}

abbrev node : ℕ → TaskPid
node pid = record { pid = pid; params = 0 }

abbrev fresh_params : ℕ → Option ℕ
fresh_params pid = some 1

abbrev before : List TaskPid
before = node 7 ∷ node 8 ∷ node 10 ∷ []

abbrev now : List (Option ℕ)
now = some 9 ∷ some 10 ∷ some 12 ∷ []

abbrev is_8 : TaskPid → Bool
is_8 n = n.pid == 8

get_task_pids-listed_example :
    let u =
      etmemd_get_task_pids (λ p. some 1) (some 7) true (some (numbers (9 ∷ 10 ∷ 12 ∷ []))) before in
    (u.done ≡ true) × (listed u.pids ≡ some 7 ∷ numbers (9 ∷ 10 ∷ 12 ∷ []))
get_task_pids-listed_example = get_task_pids-listed (λ p. 1) 7 (9 ∷ 10 ∷ 12 ∷ []) before

get_task_pids-count_example :
    let u = etmemd_get_task_pids fresh_params (some 7) true (some now) before in
    count is_8 u.pids + count is_8 u.freed ≡ count is_8 before + count is_8 u.made
get_task_pids-count_example = get_task_pids-count fresh_params (some 7) true (some now) before is_8
