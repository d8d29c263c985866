-- ===== src/Pool.antt =====
-- etmem/src/etmemd_src/etmemd_threadpool.c and etmemd_pool_adapter.c: the queue of a pool of threads, and
-- the pushing of a task's processes into it. A thread holds the lock from its test of the queue to its
-- unlocking, so each of these parts is one step; the threads are alike, so the state has how many of them
-- look for work or wait, and what the others work on.
pub mod Steps
pub mod Drain
pub mod Ends
pub mod Pushing
mod Tests
use etmem.Base.{
  ℕ, zero, suc, Bool, true, false, List, [], ◌∷◌, ◌++◌, length, Option, none, some, ◌+◌, ◌-◌,
  if◌then◌else◌, ◌≤◌, ◌≡◌,
}

-- struct thread_pool_t: worker_list by the arguments of its functors, and the states of the threads.
-- `pushed` and `executed` record what went in and was done since the counts were reset.
pub record Pool : Type 0 where
  pub worker_list : List ℕ
  pub scheduing_size : ℕ
  pub execution_size : ℕ
  pub looking : ℕ
  pub waiting : ℕ
  pub working : List ℕ
  pub pushed : List ℕ
  pub executed : List ℕ

-- threadpool_create, where every call succeeds.
unfoldable pub created : (max_thread_num : ℕ) → Pool
created max_thread_num = record {
  worker_list = [];
  scheduing_size = 0;
  execution_size = 0;
  looking = max_thread_num;
  waiting = 0;
  working = [];
  pushed = [];
  executed = [];
}

-- The part of threadpool_add_worker behind malloc.
unfoldable pub add_worker : ℕ → Pool → Pool
add_worker arg inst = record inst {
  worker_list = arg ∷ inst.worker_list;
  scheduing_size = inst.scheduing_size + 1;
  pushed = arg ∷ inst.pushed;
}

-- none is -1.
unfoldable pub threadpool_add_worker : (malloc : Bool) → ℕ → Pool → Option Pool
threadpool_add_worker malloc arg inst = if malloc then some (add_worker arg inst) else none

-- pthread_cond_broadcast
unfoldable pub threadpool_notify : Pool → Pool
threadpool_notify inst = record inst { looking = inst.looking + inst.waiting; waiting = 0 }

unfoldable pub threadpool_reset_status : Pool → Pool
threadpool_reset_status inst = record inst {
  scheduing_size = 0;
  execution_size = 0;
  pushed = [];
  executed = [];
}

-- threadpool_routine: pthread_cond_wait of a thread that finds nothing scheduled.
unfoldable pub wait_for_work : Pool → Pool
wait_for_work inst = record inst { looking = inst.looking - 1; waiting = inst.waiting + 1 }

-- threadpool_routine: a thread takes the head of the queue.
unfoldable pub take_worker : (arg : ℕ) (rest : List ℕ) → Pool → Pool
take_worker arg rest inst = record inst {
  worker_list = rest;
  looking = inst.looking - 1;
  working = arg ∷ inst.working;
}

-- threadpool_routine: the functor of one of the working threads has returned.
unfoldable pub finish_worker : (before : List ℕ) (arg : ℕ) (after : List ℕ) → Pool → Pool
finish_worker before arg after inst = record inst {
  working = before ++ after;
  looking = inst.looking + 1;
  execution_size = inst.execution_size + 1;
  executed = arg ∷ inst.executed;
}

-- What a thread does, for one that is not cancelled.
pub data Move : Pool → Pool → Type 0 where
  wait : (inst : Pool) → 1 ≤ inst.looking → inst.scheduing_size ≡ 0 → Move inst (wait_for_work inst)
  take :
      (inst : Pool) (arg : ℕ) (rest : List ℕ)
      → 1 ≤ inst.looking
      → 1 ≤ inst.scheduing_size
      → inst.worker_list ≡ arg ∷ rest
      → Move inst (take_worker arg rest inst)
  finish :
      (inst : Pool) (before : List ℕ) (arg : ℕ) (after : List ℕ)
      → inst.working ≡ before ++ arg ∷ after
      → Move inst (finish_worker before arg after inst)

-- A step of the pool: of a thread, or of launch_threadtimer_executor, which adds, notifies, and resets
-- the counts once it has read them as equal.
pub data Step : Pool → Pool → Type 0 where
  thread : {inst next : Pool} → Move inst next → Step inst next
  add : (inst : Pool) (arg : ℕ) → Step inst (add_worker arg inst)
  notify : (inst : Pool) → Step inst (threadpool_notify inst)
  reset :
      (inst : Pool)
      → inst.scheduing_size ≡ inst.execution_size
      → Step inst (threadpool_reset_status inst)

-- What can come of a new pool.
pub data Reach (max_thread_num : ℕ) : Pool → Type 0 where
  start : Reach max_thread_num (created max_thread_num)
  later :
      {inst next : Pool} → Reach max_thread_num inst → Step inst next → Reach max_thread_num next
