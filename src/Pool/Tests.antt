-- ===== src/Pool/Tests.antt =====
-- A pool with concrete processes, and what the theorems say of it.
use etmem.Scan.Walks.{rewind}
use etmem.Base.{ℕ, Bool, true, false, [], ◌∷◌, ◌≡◌, refl, arith, some, none, ltb}
use etmem.Pool.{
  Pool, created, add_worker, take_worker, finish_worker, threadpool_notify, Reach, start, later,
  add, thread, take, finish,
}
use etmem.Pool.Steps.{hits}
use etmem.Pool.Drain.{equal_counts-done}
use etmem.Pool.Ends.{Moves}
use etmem.Pool.Pushing.{Pushed, push_ctrl_workflow, push_ctrl_workflow-fault, pushed-executed}

abbrev large : ℕ → Bool
large pid = ltb 10 pid

-- A pool of two threads that has got a worker, taken it and finished it.
abbrev one_added : Pool
one_added = add_worker 77 (created 2)

abbrev one_taken : Pool
one_taken = take_worker 77 [] one_added

abbrev one_finished : Pool
one_finished = finish_worker [] 77 [] one_taken

finished-Reach : Reach 2 one_finished
unfolding created add_worker take_worker finish_worker
finished-Reach =
    later
      (later (later start (add (created 2) 77))
        (thread (take one_added 77 [] (omega arith) (omega arith) refl)))
      (thread (finish one_taken [] 77 [] refl))

equal_counts-done_example :
    (one_finished.worker_list ≡ [])
    × (one_finished.working ≡ [])
    × (hits large one_finished.executed ≡ hits large one_finished.pushed)
unfolding created add_worker take_worker finish_worker
equal_counts-done_example = equal_counts-done 2 large finished-Reach refl

push_ctrl_workflow-fault_example :
    push_ctrl_workflow (5 ∷ 6 ∷ 7 ∷ []) (true ∷ true ∷ false ∷ []) (created 2) ≡ none
push_ctrl_workflow-fault_example = push_ctrl_workflow-fault (5 ∷ 6 ∷ []) 7 (created 2)

pushed-executed_example :
    (pushed : Pushed) × (last : Pool) × (push_ctrl_workflow (5 ∷ 16 ∷ []) [] (created 2)
      ≡ some pushed)
    × Moves (threadpool_notify pushed.inst) last
    × (last.scheduing_size ≡ last.execution_size)
    × (last.worker_list ≡ [])
    × (last.working ≡ [])
    × (hits large last.executed ≡ 1)
unfolding created rewind
pushed-executed_example = pushed-executed 1 large 5 (16 ∷ []) start
