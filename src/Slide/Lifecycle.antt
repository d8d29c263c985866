-- ===== src/Slide/Lifecycle.antt =====
-- etmem/src/etmemd_src/etmemd_slide.c and etmemd_pool_adapter.c: what a task of the slide engine owns while
-- it is started and stopped (slide_start_task, slide_stop_task, slide_clear_task, start_threadpool_work,
-- stop_and_delete_threadpool_work).
use etmem.Base.{Option, none, some, not, ℕ, Bool, true, false, List, [], ◌≡◌, refl, if◌then◌else◌}

-- The parts of a task that are allocated: by flags, and its process ids.
pub record Owned : Type 0 where
  pub params : Bool
  pub executor : Bool
  pub threadpool_inst : Bool
  pub timer_inst : Bool
  pub pids : List ℕ

-- How threadpool_create ends: with a pool, with NULL before any thread was made, or after pthread_create
-- failed, where it goes through threads by a number that is not set.
pub data PoolCreated : Type 0 where
  created not_created thread_failed : PoolCreated

-- How the calls of a start end.
pub record Luck : Type 0 where
  pub malloc : Bool
  pub pool : PoolCreated
  pub creates_timer : Bool
  pub starts_timer : Bool

-- Whether the start returns 0, and what the task owns then.
pub record Started : Type 0 where
  pub returns_0 : Bool
  pub owned : Owned

-- threadpool_stop_and_destroy and thread_timer_destroy, as far as the task goes.
abbrev pub destroy_pool : Owned → Owned
destroy_pool tk = record tk { threadpool_inst = false }

abbrev pub destroy_timer : Owned → Owned
destroy_timer tk = record tk { timer_inst = false }

-- With a timer.
unfoldable pub start_timer : Bool → Owned → Started
start_timer true tk = record { returns_0 = true; owned = tk }
start_timer false tk = record { returns_0 = false; owned = destroy_timer (destroy_pool tk) }

-- With a pool.
unfoldable pub start_with_pool : Luck → Owned → Started
start_with_pool luck tk =
    if luck.creates_timer
    then start_timer luck.starts_timer (record tk { timer_inst = true })
    else record { returns_0 = false; owned = destroy_pool (record tk { timer_inst = false }) }

-- none: the behaviour is undefined.
unfoldable pub start_threadpool_work : Luck → PoolCreated → Owned → Option Started
start_threadpool_work luck created tk =
    some (start_with_pool luck (record tk { threadpool_inst = true }))
start_threadpool_work luck not_created tk =
    some (record { returns_0 = false; owned = record tk { threadpool_inst = false } })
start_threadpool_work luck thread_failed tk = none

-- A failed start frees the executor.
unfoldable pub after_start : Option Started → Option Started
after_start none = none
after_start (some started) = some (
    if started.returns_0
    then started
    else record started { owned = record started.owned { executor = false } })

-- none: params is NULL and read through, or what start_threadpool_work does is undefined.
unfoldable pub slide_start_task : Luck → Owned → Option Started
slide_start_task luck tk =
    let works =
      after_start (start_threadpool_work luck luck.pool (record tk { executor = true })) in
    if not tk.params
    then none
    else if luck.malloc
    then works
    else some (record { returns_0 = false; owned = record tk { executor = false } })

unfoldable pub stop_and_delete_threadpool_work : Owned → Owned
stop_and_delete_threadpool_work tk = if tk.timer_inst then destroy_pool (destroy_timer tk) else tk

-- none: params is NULL and read through.
unfoldable pub slide_stop_task : Owned → Option Owned
slide_stop_task tk =
    let stopped = stop_and_delete_threadpool_work tk in
    if tk.params then some (record stopped { pids = []; executor = false }) else none

unfoldable pub slide_clear_task : Owned → Owned
slide_clear_task tk = record tk { pids = []; params = false }

-- A task that is not running.
abbrev pub stopped_task : Bool → List ℕ → Owned
stopped_task params pids = record {
  params = params;
  executor = false;
  threadpool_inst = false;
  timer_inst = false;
  pids = pids;
}

abbrev pub IsWhole : Option Started → Type 0
IsWhole none = ⊥
IsWhole (some started) =
    (started.returns_0 ≡ started.owned.executor)
    × (started.returns_0 ≡ started.owned.threadpool_inst)
    × (started.returns_0 ≡ started.owned.timer_inst)
    × (slide_stop_task started.owned ≡ some (stopped_task true []))

-- Of a task whose parameters are filled: undefined exactly where it comes to a failed thread.
abbrev pub Outcome : (malloc : Bool) → PoolCreated → Option Started → Type 0
Outcome false pool r = IsWhole r
Outcome true created r = IsWhole r
Outcome true not_created r = IsWhole r
Outcome true thread_failed r = r ≡ none

whole :
    (malloc : Bool) (pool : PoolCreated) (timer start : Bool) (pids : List ℕ)
    → Outcome malloc pool (
        slide_start_task
          (record { malloc = malloc; pool = pool; creates_timer = timer; starts_timer = start })
          (stopped_task true pids))
unfolding slide_start_task after_start start_threadpool_work start_with_pool start_timer
    slide_stop_task stop_and_delete_threadpool_work
whole false pool timer start pids = (refl, refl, refl, refl)
whole true created false start pids = (refl, refl, refl, refl)
whole true created true false pids = (refl, refl, refl, refl)
whole true created true true pids = (refl, refl, refl, refl)
whole true not_created timer start pids = (refl, refl, refl, refl)
whole true thread_failed timer start pids = refl

-- For a task of the slide engine with its parameters that was not running: where there is memory
-- for the executor and pthread_create fails in threadpool_create, the behaviour of the start is
-- undefined; else the start ends, the task owns its executor, its pool and its timer exactly if
-- the start returns 0, and stopping it afterwards leaves it without any of them and without
-- process ids.
pub slide_start_task-IsWhole :
    (luck : Luck) (pids : List ℕ)
    → Outcome luck.malloc luck.pool (slide_start_task luck (stopped_task true pids))
slide_start_task-IsWhole luck pids =
    whole luck.malloc luck.pool luck.creates_timer luck.starts_timer pids
