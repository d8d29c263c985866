-- ===== src/Pool/Pushing.antt =====
-- etmem/src/etmemd_src/etmemd_pool_adapter.c: push_ctrl_workflow, which pushes the processes of a task.
use etmem.Base.{
  ℕ, suc, Bool, true, false, List, [], ◌∷◌, ◌++◌, Option, none, some, ◌≡◌, refl, ap, ◌∙◌,
}
use etmem.Scan.Walks.{rewind}
use etmem.Pool.{
  threadpool_add_worker, Pool, add_worker, threadpool_notify, Reach, later, add, notify, thread,
}
use etmem.Pool.Steps.{hits}
use etmem.Pool.Drain.{equal_counts-done}
use etmem.Pool.Ends.{Moves, rest_here, move_on, notified-Ends}

-- The processes that stay in the task's list, and the pool.
pub record Pushed : Type 0 where
  pub pids : List ℕ
  pub inst : Pool

abbrev pub keep_pid : ℕ → Option Pushed → Option Pushed
keep_pid pid none = none
keep_pid pid (some pushed) = some (record pushed { pids = pid ∷ pushed.pids })

-- Whether malloc gives the next worker; where the list ends, it does.
abbrev pub next_malloc : List Bool → Bool
next_malloc [] = true
next_malloc (given ∷ malloc) = given

abbrev pub later_malloc : List Bool → List Bool
later_malloc [] = []
later_malloc (given ∷ malloc) = malloc

-- The last process: where it is not pushed it is freed, and the step to the next one reads through NULL.
unfoldable pub after_last : ℕ → Option Pool → Option Pushed
after_last pid none = none
after_last pid (some inst) = some (record { pids = pid ∷ []; inst = inst })

-- A process with another behind it: where it is not pushed it is freed, and the step is made from the
-- next one, which stays and is not pushed.
unfoldable pub after_push :
    (pid next : ℕ) → (more skip : Pool → Option Pushed) → Pool → Option Pool → Option Pushed
after_push pid next more skip inst none = keep_pid next (skip inst)
after_push pid next more skip inst (some pushed) = keep_pid pid (more pushed)

-- The loop over the processes.
unfoldable pub push_loop : List ℕ → (malloc : List Bool) → Pool → Option Pushed
push_loop [] malloc inst = some (record { pids = []; inst = inst })
push_loop (pid ∷ []) malloc inst =
    after_last pid (threadpool_add_worker (next_malloc malloc) pid inst)
push_loop (pid ∷ next ∷ pids) malloc inst =
    after_push pid next (push_loop (next ∷ pids) (later_malloc malloc))
      (push_loop pids (later_malloc malloc)) inst
      (threadpool_add_worker (next_malloc malloc) pid inst)

-- The task is read from the first process.
unfoldable pub push_ctrl_workflow : List ℕ → (malloc : List Bool) → Pool → Option Pushed
push_ctrl_workflow [] malloc inst = none
push_ctrl_workflow (pid ∷ pids) malloc inst = push_loop (pid ∷ pids) malloc inst

-- Memory for as many workers as a list has, and none for the next.
abbrev pub fails_after : List ℕ → List Bool
fails_after [] = false ∷ []
fails_after (pid ∷ pids) = true ∷ fails_after pids

push_loop-fails :
    (pids : List ℕ) (pid : ℕ) (inst : Pool)
    → push_loop (pids ++ pid ∷ []) (fails_after pids) inst ≡ none
unfolding push_loop after_last after_push threadpool_add_worker
push_loop-fails [] pid inst = refl
push_loop-fails (first ∷ []) pid inst = refl
push_loop-fails (first ∷ second ∷ pids) pid inst =
    ap (keep_pid first) (push_loop-fails (second ∷ pids) pid (add_worker first inst))

-- If there is memory for the workers of all processes of a task but the last, pushing them reads
-- through NULL.
pub push_ctrl_workflow-fault :
    (pids : List ℕ) (pid : ℕ) (inst : Pool)
    → push_ctrl_workflow (pids ++ pid ∷ []) (fails_after pids) inst ≡ none
unfolding push_ctrl_workflow
push_ctrl_workflow-fault [] pid inst = push_loop-fails [] pid inst
push_ctrl_workflow-fault (first ∷ pids) pid inst = push_loop-fails (first ∷ pids) pid inst

-- Worker after worker.
abbrev pub add_all : List ℕ → Pool → Pool
add_all [] inst = inst
add_all (pid ∷ pids) inst = add_all pids (add_worker pid inst)

abbrev pub pushed_all : List ℕ → Pool → Pushed
pushed_all pids inst = record { pids = pids; inst = inst }

push_loop-all :
    (pids : List ℕ) (inst : Pool)
    → push_loop pids [] inst ≡ some (pushed_all pids (add_all pids inst))
unfolding push_loop after_last after_push threadpool_add_worker
push_loop-all [] inst = refl
push_loop-all (pid ∷ []) inst = refl
push_loop-all (pid ∷ next ∷ pids) inst =
    ap (keep_pid pid) (push_loop-all (next ∷ pids) (add_worker pid inst))

pushed-add_all :
    (pids : List ℕ) (inst : Pool) → (add_all pids inst).pushed ≡ rewind pids inst.pushed
unfolding add_worker rewind
pushed-add_all [] inst = refl
pushed-add_all (pid ∷ pids) inst = pushed-add_all pids (add_worker pid inst)

Reach-add_all :
    {threads : ℕ} (pids : List ℕ) (inst : Pool)
    → Reach threads inst
    → Reach threads (add_all pids inst)
Reach-add_all [] inst reach = reach
Reach-add_all (pid ∷ pids) inst reach =
    Reach-add_all pids (add_worker pid inst) (later reach (add inst pid))

Reach-Moves :
    {threads : ℕ} {inst last : Pool} → Moves inst last → Reach threads inst → Reach threads last
Reach-Moves (rest_here inst) reach = reach
Reach-Moves (move_on move moves) reach = Reach-Moves moves (later reach (thread move))

notified-pushed : (inst : Pool) → (threadpool_notify inst).pushed ≡ inst.pushed
unfolding threadpool_notify
notified-pushed inst = refl

-- From every state that a pool with at least one thread can come to, in any order of the steps of
-- its threads and of its timer, pushing the processes of a task with memory for each and
-- notifying the threads leads to a pool from which the threads alone can come to equal counts;
-- then the queue is empty, no thread works, and for every test as many of the executed processes
-- pass it as of those pushed since the last reset.
pub pushed-executed :
    (threads : ℕ) (test : ℕ → Bool) {inst : Pool} (pid : ℕ) (pids : List ℕ)
    → Reach (suc threads) inst
    → (pushed : Pushed) × (last : Pool) × (push_ctrl_workflow (pid ∷ pids) [] inst ≡ some pushed)
      × Moves (threadpool_notify pushed.inst) last
      × (last.scheduing_size ≡ last.execution_size)
      × (last.worker_list ≡ [])
      × (last.working ≡ [])
      × (hits test last.executed ≡ hits test (rewind (pid ∷ pids) inst.pushed))
unfolding push_ctrl_workflow
pushed-executed threads test {inst} pid pids reach =
    let all = Reach-add_all (pid ∷ pids) inst reach in
    let ends = notified-Ends threads all in
    let reached = Reach-Moves ends.1 (later all (notify (add_all (pid ∷ pids) inst))) in
    let done = equal_counts-done (suc threads) test reached ends.2 in
    (
      pushed_all (pid ∷ pids) (add_all (pid ∷ pids) inst),
      ends.0,
      push_loop-all (pid ∷ pids) inst,
      ends.1,
      ends.2,
      done.0,
      done.1,
      done.2
          ∙ ap (hits test) (
              ends.4
              ∙ notified-pushed (add_all (pid ∷ pids) inst)
              ∙ pushed-add_all (pid ∷ pids) inst),
    )
