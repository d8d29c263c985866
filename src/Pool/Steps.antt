-- ===== src/Pool/Steps.antt =====
-- etmem/src/etmemd_src/etmemd_threadpool.c: the counts of a pool, in every order of its threads' steps.
use etmem.Base.{
  ℕ, suc, Bool, List, [], ◌∷◌, ◌++◌, length, length-append, ◌≡◌, ap, ◌+◌, arith, if◌then◌else◌,
  Bool-cases, inl, inr,
}
use etmem.Pool.{
  Pool, created, add_worker, threadpool_notify, threadpool_reset_status, wait_for_work, take_worker,
  finish_worker, Move, wait, take, finish, Step, thread, add, notify, reset, Reach, start, later,
}

-- How many of a list pass a test.
abbrev pub hits : (ℕ → Bool) → List ℕ → ℕ
hits test [] = 0
hits test (x ∷ xs) = let more = hits test xs in if test x then suc more else more

pub hits-append :
    (test : ℕ → Bool) (xs ys : List ℕ) → hits test (xs ++ ys) ≡ hits test xs + hits test ys
hits-append test [] ys = omega arith
hits-append test (x ∷ xs) ys = elim (Bool-cases (test x)) [
  | inl e ↦ rw e (omega (arith, hits-append test xs ys))
  | inr e ↦ rw e (omega (arith, hits-append test xs ys))
]

-- Each scheduled worker is in the queue, with a thread, or done; each thread looks, waits or works.
pub record IsCounted (max_thread_num : ℕ) (inst : Pool) : Type 0 where
  pub scheduled :
      inst.scheduing_size ≡ length inst.worker_list + (length inst.working + inst.execution_size)
  pub threads : inst.looking + (inst.waiting + length inst.working) ≡ max_thread_num

abbrev pub Tested : (ℕ → Bool) → Pool → Type 0
Tested test inst =
    hits test inst.pushed
    ≡ hits test inst.worker_list + (hits test inst.working + hits test inst.executed)

module _ (max_thread_num : ℕ) where
  pub Move-IsCounted :
      {inst next : Pool}
      → Move inst next
      → IsCounted max_thread_num inst
      → IsCounted max_thread_num next
  unfolding wait_for_work take_worker finish_worker
  Move-IsCounted (wait inst free idle) counted = record {
    scheduled = counted.scheduled;
    threads = omega (arith, counted.threads);
  }
  Move-IsCounted (take inst arg rest free busy e) counted = record {
    scheduled = omega (arith, counted.scheduled, ap length e);
    threads = omega (arith, counted.threads);
  }
  Move-IsCounted (finish inst before arg after e) counted = record {
    scheduled = omega (
      arith,
      counted.scheduled,
      ap length e,
      length-append before (arg ∷ after),
      length-append before after,
    );
    threads = omega (
      arith,
      counted.threads,
      ap length e,
      length-append before (arg ∷ after),
      length-append before after,
    );
  }

  pub Step-IsCounted :
      {inst next : Pool}
      → Step inst next
      → IsCounted max_thread_num inst
      → IsCounted max_thread_num next
  unfolding add_worker threadpool_notify threadpool_reset_status
  Step-IsCounted (thread move) counted = Move-IsCounted move counted
  Step-IsCounted (add inst arg) counted = record {
    scheduled = omega (arith, counted.scheduled);
    threads = counted.threads;
  }
  Step-IsCounted (notify inst) counted = record {
    scheduled = counted.scheduled;
    threads = omega (arith, counted.threads);
  }
  Step-IsCounted (reset inst e) counted = record {
    scheduled = omega (arith, counted.scheduled);
    threads = counted.threads;
  }

  pub Reach-IsCounted : {inst : Pool} → Reach max_thread_num inst → IsCounted max_thread_num inst
  unfolding created
  Reach-IsCounted start = record { scheduled = omega arith; threads = omega arith }
  Reach-IsCounted (later reach step) = Step-IsCounted step (Reach-IsCounted reach)
