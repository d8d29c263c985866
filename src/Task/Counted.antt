-- ===== src/Task/Counted.antt =====
-- The nodes of a task's list of process ids (etmemd_task.c), counted over an update.
use etmem.Base.{
  ◌⊎◌, Option-cases, ℕ, ◌≡◌, refl, ◌+◌, Bool, List, [], ◌∷◌, ◌++◌, Option, none, some, ltb, ◌==◌,
  if◌then◌else◌, Bool-cases, inl, inr, arith,
}
use etmem.Task.Pids.{
  TaskPid, Update, Step, alloc_tkpid_node, insert_task_pids, update_task_pids, new_head, after_step,
  fill_task_pid, read_fill_child_pid_file, etmemd_get_task_pids, fill_children,
}

-- How many nodes pass a test.
unfoldable pub count : (TaskPid → Bool) → List TaskPid → ℕ
count test [] = 0
count test (n ∷ ns) = (if test n then 1 else 0) + count test ns

count-append :
    (test : TaskPid → Bool) (xs ys : List TaskPid)
    → count test (xs ++ ys) ≡ count test xs + count test ys
unfolding count
count-append test [] ys = omega arith
count-append test (x ∷ xs) ys = omega (arith, count-append test xs ys)

-- Every node that was there or was made is in the list or was freed, once.
abbrev pub Conserved : List TaskPid → Update → Type 0
Conserved before u =
    (test : TaskPid → Bool)
    → count test u.pids + count test u.freed ≡ count test before + count test u.made

-- The nodes of a step, in one list.
abbrev at_cursor : Step → List TaskPid
at_cursor s = elim s.node [ none ↦ s.rest | some n ↦ n ∷ s.rest ]

insert-conserved :
    (test : TaskPid → Bool) (o : Option TaskPid) (cur : List TaskPid)
    → let s = insert_task_pids o cur in
      count test (at_cursor s) + count test s.freed ≡ count test cur + count test s.made
unfolding insert_task_pids count
insert-conserved test none cur = refl
insert-conserved test (some n) cur = omega arith

update-conserved :
    (test : TaskPid → Bool) (alloc : ℕ → Option ℕ) (pid : ℕ) (cur : List TaskPid)
    → let s = update_task_pids alloc pid cur in
      count test (at_cursor s) + count test s.freed ≡ count test cur + count test s.made
unfolding update_task_pids count
update-conserved test alloc pid [] = insert-conserved test (alloc_tkpid_node alloc pid) []
update-conserved test alloc pid (n ∷ cur) = elim (Bool-cases (pid == n.pid)) [
  | inl e ↦ rw e (omega arith)
  | inr e ↦ rw e (elim (Bool-cases (ltb n.pid pid)) [
    | inl f ↦ rw f (omega (arith, update-conserved test alloc pid cur))
    | inr f ↦ rw f (insert-conserved test (alloc_tkpid_node alloc pid) (n ∷ cur))
  ])
]

after_step-conserved :
    (test : TaskPid → Bool) (cur : List TaskPid) (s : Step) (u : Update)
    → count test (at_cursor s) + count test s.freed ≡ count test cur + count test s.made
    → count test u.pids + count test u.freed ≡ count test s.rest + count test u.made
    → count test (after_step s u).pids + count test (after_step s u).freed
      ≡ count test cur + count test (after_step s u).made
unfolding after_step count
after_step-conserved test cur s u here later = elim (Option-cases s.node) [
  | inl e ↦ rw e (rw e at here)
  | inr (n, e) ↦
      let here' = rw e at here in
      rw e (
        omega
          (arith, here', later, count-append test s.made u.made, count-append test s.freed u.freed))
]

List-cases :
    (ns : List TaskPid) → (ns ≡ []) ⊎ ((n : TaskPid) × (cur : List TaskPid) × (ns ≡ n ∷ cur))
List-cases [] = inl refl
List-cases (n ∷ cur) = inr (n, cur, refl)

read-Conserved :
    (alloc : ℕ → Option ℕ) (lines : List (Option ℕ)) (cur : List TaskPid)
    → Conserved cur (read_fill_child_pid_file alloc lines cur)
unfolding read_fill_child_pid_file count
read-Conserved alloc [] cur test = omega arith
read-Conserved alloc (none ∷ lines) cur test = refl
read-Conserved alloc (some pid ∷ lines) cur test =
    let s = update_task_pids alloc pid cur in
    after_step-conserved test cur s (read_fill_child_pid_file alloc lines s.rest)
      (update-conserved test alloc pid cur) (read-Conserved alloc lines s.rest test)

new_head-Conserved : (o : Option TaskPid) (pids : List TaskPid) → Conserved pids (new_head o pids)
unfolding new_head count
new_head-Conserved none pids test = omega arith
new_head-Conserved (some n) pids test = omega arith

fill_task_pid-Conserved :
    (alloc : ℕ → Option ℕ) (pid : ℕ) (pids : List TaskPid)
    → Conserved pids (fill_task_pid alloc pid pids)
unfolding fill_task_pid
fill_task_pid-Conserved alloc pid [] test = new_head-Conserved (alloc_tkpid_node alloc pid) [] test
fill_task_pid-Conserved alloc pid (n ∷ pids) test = elim (Bool-cases (n.pid == pid)) [
  | inl e ↦ rw e refl
  | inr e ↦ rw e (new_head-Conserved (alloc_tkpid_node alloc pid) (n ∷ pids) test)
]

module _ (alloc : ℕ → Option ℕ) where
  fill_children-Conserved :
      (children : Option (List (Option ℕ))) (u : Update) (pids : List TaskPid)
      → Conserved pids u
      → Conserved pids (fill_children alloc children u)
  unfolding fill_children count
  fill_children-Conserved none u pids h test =
      omega (arith, h test, count-append test u.freed u.pids)
  fill_children-Conserved (some lines) u pids h test = elim (List-cases u.pids) [
    | inl e ↦ rw e (rw e at (h test))
    | inr (n, cur, e) ↦
        let v = read_fill_child_pid_file alloc lines cur in
        let here = rw e at (h test) in
        let later = read-Conserved alloc lines cur test in
        rw e (elim (Bool-cases v.done) [
          | inl f ↦ rw f (
              omega (
                arith,
                here,
                later,
                count-append test u.made v.made,
                count-append test u.freed v.freed,
              ))
          | inr f ↦ rw f (
              omega (
                arith,
                here,
                later,
                count-append test u.made v.made,
                count-append test u.freed (v.freed ++ (n ∷ v.pids)),
                count-append test v.freed (n ∷ v.pids),
              ))
        ])
  ]

  get_task_pids-Conserved :
      (target : Option ℕ) (recursive : Bool) (children : Option (List (Option ℕ)))
      (pids : List TaskPid)
      → Conserved pids (etmemd_get_task_pids alloc target recursive children pids)
  unfolding etmemd_get_task_pids count
  get_task_pids-Conserved none recursive children pids test = refl
  get_task_pids-Conserved (some pid) recursive children pids test =
      let u = fill_task_pid alloc pid pids in
      elim (Bool-cases u.done) [
        | inl e ↦ rw e (elim (Bool-cases recursive) [
          | inl r ↦ rw r (
              fill_children-Conserved children u pids (fill_task_pid-Conserved alloc pid pids) test)
          | inr r ↦ rw r (fill_task_pid-Conserved alloc pid pids test)
        ])
        | inr e ↦ rw e (fill_task_pid-Conserved alloc pid pids test)
      ]

-- On every branch of the update of a task's process ids, errors included, each node that was in
-- the list or was made is afterwards in the list or was freed, and once only: for every test on
-- nodes, as many of those in the list and freed pass it as of those before and made.
pub get_task_pids-count :
    (alloc : ℕ → Option ℕ) (target : Option ℕ) (recursive : Bool)
    (children : Option (List (Option ℕ))) (pids : List TaskPid) (test : TaskPid → Bool)
    → let u = etmemd_get_task_pids alloc target recursive children pids in
      count test u.pids + count test u.freed ≡ count test pids + count test u.made
get_task_pids-count alloc target recursive children pids test =
    get_task_pids-Conserved alloc target recursive children pids test
