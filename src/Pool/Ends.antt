-- ===== src/Pool/Ends.antt =====
-- etmem/src/etmemd_src/etmemd_pool_adapter.c: the threads can always bring the two counts together that
-- launch_threadtimer_executor waits for.
use etmem.Base.{ℕ, zero, suc, List, [], ◌∷◌, length, ◌≡◌, refl, ap, ◌+◌, ◌*◌, ◌≤◌, arith}
use etmem.Pool.{
  Pool, threadpool_notify, take_worker, finish_worker, Move, take, finish, notify, Reach,
}
use etmem.Pool.Steps.{IsCounted, Move-IsCounted, Step-IsCounted, Reach-IsCounted}

-- Steps of the threads only.
pub data Moves : Pool → Pool → Type 0 where
  rest_here : (inst : Pool) → Moves inst inst
  move_on : {inst next last : Pool} → Move inst next → Moves next last → Moves inst last

-- The threads come to a pool with equal counts, and with the same workers pushed.
abbrev pub Ends : Pool → Type 0
Ends inst =
    (last : Pool) × Moves inst last
    × (last.scheduing_size ≡ last.execution_size)
    × (last.scheduing_size ≡ inst.scheduing_size)
    × (last.pushed ≡ inst.pushed)

module _ (threads : ℕ) where
  drain_lists :
      (fuel : ℕ) (inst : Pool) (working queue : List ℕ)
      → IsCounted (suc threads) inst
      → inst.waiting ≡ 0
      → inst.working ≡ working
      → inst.worker_list ≡ queue
      → 2 * length queue + length working ≤ fuel
      → Ends inst
  unfolding take_worker finish_worker
  drain_lists fuel inst [] [] counted awake w q h =
      (inst, rest_here inst, omega (arith, counted.scheduled, ap length w, ap length q), refl, refl)
  drain_lists zero inst [] (arg ∷ queue) counted awake w q h = absurd (omega arith)
  drain_lists zero inst (arg ∷ working) queue counted awake w q h = absurd (omega arith)
  drain_lists (suc fuel) inst [] (arg ∷ queue) counted awake w q h =
      let move =
        take inst arg queue (omega (arith, counted.threads, ap length w, awake))
          (omega (arith, counted.scheduled, ap length q)) q in
      let later =
        drain_lists fuel (take_worker arg queue inst) (arg ∷ []) queue
          (Move-IsCounted (suc threads) move counted) awake (ap (λ busy. arg ∷ busy) w) refl
          (omega arith) in
      (later.0, move_on move later.1, later.2, later.3, later.4)
  drain_lists (suc fuel) inst (arg ∷ working) queue counted awake w q h =
      let move = finish inst [] arg working w in
      let later =
        drain_lists fuel (finish_worker [] arg working inst) working queue
          (Move-IsCounted (suc threads) move counted) awake refl q (omega arith) in
      (later.0, move_on move later.1, later.2, later.3, later.4)

  pub notified-Ends : {inst : Pool} → Reach (suc threads) inst → Ends (threadpool_notify inst)
  unfolding threadpool_notify
  notified-Ends {inst} reach =
      drain_lists (2 * length inst.worker_list + length inst.working) (threadpool_notify inst)
        inst.working inst.worker_list
        (Step-IsCounted (suc threads) (notify inst) (Reach-IsCounted (suc threads) reach)) refl refl
        refl (omega arith)
