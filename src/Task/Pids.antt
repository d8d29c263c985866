-- ===== src/Task/Pids.antt =====
-- etmem/src/etmemd_src/etmemd_task.c: the list of the process ids of a task, which is brought up to
-- date in place, so that a process that is still there keeps its node and the engine's parameters.
use etmem.Base.{
  ℕ, Bool, true, false, List, [], ◌∷◌, ◌++◌, Option, none, some, ltb, ◌==◌, if◌then◌else◌,
}

-- struct task_pid. `params` stands for what alloc_pid_params attached to the node.
pub record TaskPid : Type 0 where
  pub pid : ℕ
  pub params : ℕ

-- What a change of a list leaves: whether it worked, the list, and the nodes that were made and freed.
pub record Update : Type 0 where
  pub done : Bool
  pub pids : List TaskPid
  pub made : List TaskPid
  pub freed : List TaskPid

-- What one call of update_task_pids leaves at its cursor: the node that the cursor then stands
-- behind, if there is one, the list from there on, and the nodes that were made and freed.
pub record Step : Type 0 where
  pub node : Option TaskPid
  pub rest : List TaskPid
  pub made : List TaskPid
  pub freed : List TaskPid

-- `alloc` gives the parameters of a new node, or none if calloc or alloc_pid_params fails.
unfoldable pub alloc_tkpid_node : (ℕ → Option ℕ) → ℕ → Option TaskPid
alloc_tkpid_node alloc pid = elim (alloc pid) [
  | none ↦ none
  | some params ↦ some (record { pid = pid; params = params })
]

unfoldable pub insert_task_pids : Option TaskPid → List TaskPid → Step
insert_task_pids none cur = record { node = none; rest = cur; made = []; freed = [] }
insert_task_pids (some n) cur = record { node = some n; rest = cur; made = n ∷ []; freed = [] }

unfoldable pub update_task_pids : (ℕ → Option ℕ) → ℕ → List TaskPid → Step
unfolding alloc_tkpid_node insert_task_pids
update_task_pids alloc pid [] = insert_task_pids (alloc_tkpid_node alloc pid) []
update_task_pids alloc pid (n ∷ cur) =
    let later = update_task_pids alloc pid cur in
    if pid == n.pid
    then record { node = some n; rest = cur; made = []; freed = [] }
    else if ltb n.pid pid
    then record later { freed = n ∷ later.freed }
    else insert_task_pids (alloc_tkpid_node alloc pid) (n ∷ cur)

-- Puts a step in front of what the lines after it do.
unfoldable pub after_step : Step → Update → Update
after_step s u = elim s.node [
  | none ↦ record { done = false; pids = s.rest; made = s.made; freed = s.freed }
  | some n ↦ record {
    done = u.done;
    pids = n ∷ u.pids;
    made = s.made ++ u.made;
    freed = s.freed ++ u.freed;
  }
]

-- The loop of read_fill_child_pid_file. A line is a number, or none where it does not parse.
unfoldable pub read_fill_child_pid_file : (ℕ → Option ℕ) → List (Option ℕ) → List TaskPid → Update
unfolding update_task_pids after_step
read_fill_child_pid_file alloc [] cur = record { done = true; pids = []; made = []; freed = cur }
read_fill_child_pid_file alloc (none ∷ lines) cur = record {
  done = false;
  pids = cur;
  made = [];
  freed = [];
}
read_fill_child_pid_file alloc (some pid ∷ lines) cur =
    let s = update_task_pids alloc pid cur in
    after_step s (read_fill_child_pid_file alloc lines s.rest)

unfoldable pub new_head : Option TaskPid → List TaskPid → Update
new_head none pids = record { done = false; pids = []; made = []; freed = pids }
new_head (some n) pids = record { done = true; pids = n ∷ []; made = n ∷ []; freed = pids }

-- The task's own process id comes first. If it is another one than before, all nodes are freed.
unfoldable pub fill_task_pid : (ℕ → Option ℕ) → ℕ → List TaskPid → Update
unfolding new_head
fill_task_pid alloc pid [] = new_head (alloc_tkpid_node alloc pid) []
fill_task_pid alloc pid (n ∷ pids) =
    if n.pid == pid
    then record { done = true; pids = n ∷ pids; made = []; freed = [] }
    else new_head (alloc_tkpid_node alloc pid) (n ∷ pids)

-- Behind the head of the list; the caller frees the whole list if this fails.
unfoldable pub fill_children : (ℕ → Option ℕ) → Option (List (Option ℕ)) → Update → Update
unfolding read_fill_child_pid_file
fill_children alloc none u = record {
  done = false;
  pids = [];
  made = u.made;
  freed = u.freed ++ u.pids;
}
fill_children alloc (some lines) u = elim u.pids [
  | [] ↦ record u { done = false }
  | n ∷ cur ↦
      let v = read_fill_child_pid_file alloc lines cur in
      if v.done
      then record {
        done = true;
        pids = n ∷ v.pids;
        made = u.made ++ v.made;
        freed = u.freed ++ v.freed;
      }
      else record {
        done = false;
        pids = [];
        made = u.made ++ v.made;
        freed = u.freed ++ (v.freed ++ (n ∷ v.pids));
      }
]

-- `target` is the process id that the task names, or none where it is not found, not alive or not a
-- number; `children` are the lines that pgrep writes, or none where it cannot be read.
unfoldable pub etmemd_get_task_pids :
    (ℕ → Option ℕ)
    → (target : Option ℕ) (recursive : Bool) (children : Option (List (Option ℕ))) → List TaskPid
    → Update
unfolding fill_task_pid fill_children
etmemd_get_task_pids alloc none recursive children pids = record {
  done = false;
  pids = pids;
  made = [];
  freed = [];
}
etmemd_get_task_pids alloc (some pid) recursive children pids =
    let u = fill_task_pid alloc pid pids in
    if u.done then (if recursive then fill_children alloc children u else u) else u
