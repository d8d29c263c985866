-- ===== src/Pool/Drain.antt =====
-- etmem/src/etmemd_src/etmemd_threadpool.c and etmemd_pool_adapter.c: what it means that the two counts
-- which launch_threadtimer_executor compares are equal, and that they can become so.
use etmem.Base.{
  ℕ, Bool, List, [], ◌∷◌, length, ◌≡◌, refl, ap, ◌+◌, arith, if◌then◌else◌, Bool-cases, inl, inr,
}
use etmem.Pool.{
  Pool, created, add_worker, threadpool_notify, threadpool_reset_status, wait_for_work, take_worker,
  finish_worker, Move, wait, take, finish, Step, thread, add, notify, reset, Reach, start, later,
}
use etmem.Pool.Steps.{hits, hits-append, IsCounted, Tested, Reach-IsCounted}

empty : (xs : List ℕ) → length xs ≡ 0 → xs ≡ []
empty [] h = refl
empty (x ∷ xs) h = absurd (omega arith)

one_hit : Bool → ℕ
one_hit b = if b then 1 else 0

hits-cons :
    (test : ℕ → Bool) (x : ℕ) (xs : List ℕ) → hits test (x ∷ xs) ≡ one_hit (test x) + hits test xs
unfolding one_hit
hits-cons test x xs = elim (Bool-cases (test x)) [
  | inl e ↦ rw e (omega arith)
  | inr e ↦ rw e (omega arith)
]

module _ (max_thread_num : ℕ) (test : ℕ → Bool) where
  Move-Tested : {inst next : Pool} → Move inst next → Tested test inst → Tested test next
  unfolding wait_for_work take_worker finish_worker
  Move-Tested (wait inst free idle) tested = tested
  Move-Tested (take inst arg rest free busy e) tested =
      omega
        (arith, tested, ap (hits test) e, hits-cons test arg rest, hits-cons test arg inst.working)
  Move-Tested (finish inst before arg after e) tested = omega (
    arith,
    tested,
    ap (hits test) e,
    hits-append test before (arg ∷ after),
    hits-append test before after,
    hits-cons test arg after,
    hits-cons test arg inst.executed,
  )

  Step-Tested :
      {inst next : Pool}
      → Step inst next
      → IsCounted max_thread_num inst
      → Tested test inst
      → Tested test next
  unfolding add_worker threadpool_notify threadpool_reset_status
  Step-Tested (thread move) counted tested = Move-Tested move tested
  Step-Tested (add inst arg) counted tested =
      omega (arith, tested, hits-cons test arg inst.pushed, hits-cons test arg inst.worker_list)
  Step-Tested (notify inst) counted tested = tested
  Step-Tested (reset inst e) counted tested = omega (
    arith,
    ap (hits test) (empty inst.worker_list (omega (arith, counted.scheduled, e))),
    ap (hits test) (empty inst.working (omega (arith, counted.scheduled, e))),
  )

  Reach-Tested : {inst : Pool} → Reach max_thread_num inst → Tested test inst
  unfolding created
  Reach-Tested start = refl
  Reach-Tested (later reach step) =
      Step-Tested step (Reach-IsCounted max_thread_num reach) (Reach-Tested reach)

  -- In every state that a pool can come to, in any order of the steps of its threads and of its
  -- timer, if the count of scheduled workers equals that of executed ones, as
  -- launch_threadtimer_executor waits for, then the queue is empty, no thread works, and for
  -- every test as many executed processes pass it as pushed ones.
  pub equal_counts-done :
      {inst : Pool}
      → Reach max_thread_num inst
      → inst.scheduing_size ≡ inst.execution_size
      → (inst.worker_list ≡ [])
        × (inst.working ≡ [])
        × (hits test inst.executed ≡ hits test inst.pushed)
  equal_counts-done {inst} reach equal =
      let counted = Reach-IsCounted max_thread_num reach in
      let queue = empty inst.worker_list (omega (arith, counted.scheduled)) in
      let busy = empty inst.working (omega (arith, counted.scheduled)) in
      (queue, busy, omega (arith, Reach-Tested reach, ap (hits test) queue, ap (hits test) busy))
