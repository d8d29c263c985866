-- ===== src/Task/Listed.antt =====
-- The process ids in a task's list (etmemd_task.c) after an update.
use etmem.Base.{
  ◌≢◌, Option-cases, ℕ, ◌≡◌, refl, List, [], ◌∷◌, Option, none, some, ltb, ◌==◌, Bool-cases, inl,
  inr, arith, sym, false, true, ◌∙◌, ap, ap₂, ==_iff,
}
use etmem.Base.Options.{some_inj}
use etmem.Task.Pids.{
  TaskPid, Update, Step, alloc_tkpid_node, insert_task_pids, update_task_pids, new_head, after_step,
  fill_task_pid, read_fill_child_pid_file, etmemd_get_task_pids, fill_children,
}

-- The process ids of the nodes, as lines.
unfoldable pub listed : List TaskPid → List (Option ℕ)
listed [] = []
listed (n ∷ ns) = some n.pid ∷ listed ns

alloc-pid :
    (alloc : ℕ → Option ℕ) (pid : ℕ) (n : TaskPid)
    → alloc_tkpid_node alloc pid ≡ some n
    → n.pid ≡ pid
unfolding alloc_tkpid_node
alloc-pid alloc pid n h = ground arith

insert-node : (o : Option TaskPid) (cur : List TaskPid) → (insert_task_pids o cur).node ≡ o
unfolding insert_task_pids
insert-node none cur = refl
insert-node (some n) cur = refl

update-pid :
    (alloc : ℕ → Option ℕ) (pid : ℕ) (cur : List TaskPid) (n : TaskPid)
    → (update_task_pids alloc pid cur).node ≡ some n
    → n.pid ≡ pid
unfolding update_task_pids
update-pid alloc pid [] n h =
    alloc-pid alloc pid n (sym (insert-node (alloc_tkpid_node alloc pid) []) ∙ h)
update-pid alloc pid (m ∷ cur) n h = elim (Bool-cases (pid == m.pid)) [
  | inl e ↦ ap (λ (k : TaskPid). k.pid) (sym (some_inj (rw e at h))) ∙ sym ((==_iff pid m.pid).0 e)
  | inr e ↦
      let h₁ = rw e at h in
      elim (Bool-cases (ltb m.pid pid)) [
        | inl f ↦ update-pid alloc pid cur n (rw f at h₁)
        | inr f ↦
            alloc-pid alloc pid n
              (sym (insert-node (alloc_tkpid_node alloc pid) (m ∷ cur)) ∙ (rw f at h₁))
      ]
]

true_ne_false : true ≢ false
true_ne_false h = cc

false_ne_true : false ≢ true
false_ne_true h = cc

after_step-listed :
    (pid : ℕ) (lines : List (Option ℕ)) (s : Step) (u : Update)
    → ((n : TaskPid) → s.node ≡ some n → n.pid ≡ pid)
    → (u.done ≡ true → listed u.pids ≡ lines)
    → (after_step s u).done ≡ true
    → listed (after_step s u).pids ≡ some pid ∷ lines
unfolding after_step listed
after_step-listed pid lines s u named later h = elim (Option-cases s.node) [
  | inl e ↦ absurd (false_ne_true (rw e at h))
  | inr (n, e) ↦ rw e (ap₂ (λ p ps. some p ∷ ps) (named n e) (later (rw e at h)))
]

-- If all lines parse and every allocation succeeds, the list is that of the lines, in their order.
read-listed :
    (alloc : ℕ → Option ℕ) (lines : List (Option ℕ)) (cur : List TaskPid)
    → (read_fill_child_pid_file alloc lines cur).done ≡ true
    → listed (read_fill_child_pid_file alloc lines cur).pids ≡ lines
unfolding read_fill_child_pid_file listed
read-listed alloc [] cur h = refl
read-listed alloc (none ∷ lines) cur h = cc
read-listed alloc (some pid ∷ lines) cur h =
    let s = update_task_pids alloc pid cur in
    after_step-listed pid lines s (read_fill_child_pid_file alloc lines s.rest)
      (update-pid alloc pid cur) (read-listed alloc lines s.rest) h

-- The head of the list is the task's own process.
Headed : ℕ → List TaskPid → Type 0
Headed pid ns = (n : TaskPid) × (cur : List TaskPid) × (ns ≡ n ∷ cur) × (n.pid ≡ pid)

new_head-Headed :
    (alloc : ℕ → Option ℕ) (pid : ℕ) (pids : List TaskPid)
    → (new_head (alloc_tkpid_node alloc pid) pids).done ≡ true
    → Headed pid (new_head (alloc_tkpid_node alloc pid) pids).pids
unfolding new_head Headed
new_head-Headed alloc pid pids h = elim (Option-cases (alloc_tkpid_node alloc pid)) [
  | inl e ↦ absurd (false_ne_true (rw e at h))
  | inr (n, e) ↦ rw e (n, [], refl, alloc-pid alloc pid n e)
]

fill_task_pid-Headed :
    (alloc : ℕ → Option ℕ) (pid : ℕ) (pids : List TaskPid)
    → (fill_task_pid alloc pid pids).done ≡ true
    → Headed pid (fill_task_pid alloc pid pids).pids
unfolding fill_task_pid Headed
fill_task_pid-Headed alloc pid [] h = new_head-Headed alloc pid [] h
fill_task_pid-Headed alloc pid (n ∷ pids) h = elim (Bool-cases (n.pid == pid)) [
  | inl e ↦ rw e (n, pids, refl, (==_iff n.pid pid).0 e)
  | inr e ↦ rw e (new_head-Headed alloc pid (n ∷ pids) (rw e at h))
]

fill_children-listed :
    (alloc : ℕ → Option ℕ) (pid : ℕ) (lines : List (Option ℕ)) (u : Update)
    → Headed pid u.pids
    → (fill_children alloc (some lines) u).done ≡ true
    → listed (fill_children alloc (some lines) u).pids ≡ some pid ∷ lines
unfolding fill_children Headed listed
fill_children-listed alloc pid lines u (n, cur, e, named) h =
    let h₁ = rw e at h in
    let v = read_fill_child_pid_file alloc lines cur in
    rw e (elim (Bool-cases v.done) [
      | inl f ↦ rw f (ap₂ (λ p ps. some p ∷ ps) named (read-listed alloc lines cur f))
      | inr f ↦ absurd (false_ne_true (rw f at h₁))
    ])

-- An update that succeeds leaves the listed process ids.
done-listed :
    (alloc : ℕ → Option ℕ) (pid : ℕ) (lines : List (Option ℕ)) (pids : List TaskPid)
    → (etmemd_get_task_pids alloc (some pid) true (some lines) pids).done ≡ true
    → listed (etmemd_get_task_pids alloc (some pid) true (some lines) pids).pids ≡ some pid ∷ lines
unfolding etmemd_get_task_pids
done-listed alloc pid lines pids h =
    let u = fill_task_pid alloc pid pids in
    elim (Bool-cases u.done) [
      | inl e ↦ rw e (
          fill_children-listed alloc pid lines u (fill_task_pid-Headed alloc pid pids e)
            (rw e at h))
      | inr e ↦ absurd (false_ne_true (sym e ∙ (rw e at h)))
    ]

new_head-none :
    (o : Option TaskPid) (pids : List TaskPid)
    → (new_head o pids).done ≡ false
    → (new_head o pids).pids ≡ []
unfolding new_head
new_head-none none pids h = refl
new_head-none (some n) pids h = cc

fill_task_pid-none :
    (alloc : ℕ → Option ℕ) (pid : ℕ) (pids : List TaskPid)
    → (fill_task_pid alloc pid pids).done ≡ false
    → (fill_task_pid alloc pid pids).pids ≡ []
unfolding fill_task_pid
fill_task_pid-none alloc pid [] h = new_head-none (alloc_tkpid_node alloc pid) [] h
fill_task_pid-none alloc pid (n ∷ pids) h = elim (Bool-cases (n.pid == pid)) [
  | inl e ↦ absurd (true_ne_false (rw e at h))
  | inr e ↦ rw e (new_head-none (alloc_tkpid_node alloc pid) (n ∷ pids) (rw e at h))
]

abbrev pub numbers : List ℕ → List (Option ℕ)
numbers [] = []
numbers (p ∷ ps) = some p ∷ numbers ps

after_step-done :
    (s : Step) (u : Update) (n : TaskPid)
    → s.node ≡ some n
    → u.done ≡ true
    → (after_step s u).done ≡ true
unfolding after_step
after_step-done s u n e h = rw e h

module _ (params : ℕ → ℕ) where
  abbrev always : ℕ → Option ℕ
  always pid = some (params pid)

  update-node :
      (pid : ℕ) (cur : List TaskPid)
      → (n : TaskPid) × ((update_task_pids always pid cur).node ≡ some n)
  unfolding update_task_pids alloc_tkpid_node insert_task_pids
  update-node pid [] = (_, refl)
  update-node pid (m ∷ cur) = elim (Bool-cases (pid == m.pid)) [
    | inl e ↦ rw e (m, refl)
    | inr e ↦ rw e (elim (Bool-cases (ltb m.pid pid)) [
      | inl f ↦ rw f (update-node pid cur)
      | inr f ↦ rw f (record { pid = pid; params = params pid }, refl)
    ])
  ]

  read-done :
      (ps : List ℕ) (cur : List TaskPid)
      → (read_fill_child_pid_file always (numbers ps) cur).done ≡ true
  unfolding read_fill_child_pid_file
  read-done [] cur = refl
  read-done (p ∷ ps) cur =
      let (n, e) = update-node p cur in
      after_step-done (update_task_pids always p cur) _ n e
        (read-done ps (update_task_pids always p cur).rest)

  fill_task_pid-done : (pid : ℕ) (pids : List TaskPid) → (fill_task_pid always pid pids).done ≡ true
  unfolding fill_task_pid new_head alloc_tkpid_node
  fill_task_pid-done pid [] = refl
  fill_task_pid-done pid (n ∷ pids) = elim (Bool-cases (n.pid == pid)) [
    | inl e ↦ rw e refl
    | inr e ↦ rw e refl
  ]

  fill_children-done :
      (pid : ℕ) (ps : List ℕ) (u : Update)
      → Headed pid u.pids
      → (fill_children always (some (numbers ps)) u).done ≡ true
  unfolding fill_children Headed
  fill_children-done pid ps u (n, cur, e, named) = rw e (rw (read-done ps cur) refl)

  get_task_pids-done :
      (pid : ℕ) (ps : List ℕ) (pids : List TaskPid)
      → (etmemd_get_task_pids always (some pid) true (some (numbers ps)) pids).done ≡ true
  unfolding etmemd_get_task_pids
  get_task_pids-done pid ps pids =
      let ready = fill_task_pid-done pid pids in
      rw ready (
        fill_children-done pid ps (fill_task_pid always pid pids)
          (fill_task_pid-Headed always pid pids ready))

-- If every allocation succeeds, the process of the task is found, and every line of pgrep is a
-- number, then the update of the task's process ids with its children succeeds, and the list is
-- the process id of the task, followed by those of the children in the order in which pgrep gives
-- them, whatever the list was before.
pub get_task_pids-listed :
    (params : ℕ → ℕ) (pid : ℕ) (children : List ℕ) (pids : List TaskPid)
    → let u =
        etmemd_get_task_pids
          (λ p. some (params p))
          (some pid)
          true
          (some (numbers children))
          pids in
      (u.done ≡ true) × (listed u.pids ≡ some pid ∷ numbers children)
get_task_pids-listed params pid children pids =
    let done = get_task_pids-done params pid children pids in
    (done, done-listed (λ p. some (params p)) pid (numbers children) pids done)
