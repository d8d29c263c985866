-- ===== src/Memdcd/Tests.antt =====
-- Three pages in messages for the memory router.
use etmem.Base.{some, arith, ◌*◌, ℕ, ◌≡◌, refl, Bool, true, List, [], ◌∷◌}
use etmem.Base.Int.{pos}
use etmem.Base.Named.{All}
use etmem.Router.{VmaAddrWithCount, SwapVmaWithCount}
use etmem.Memdcd.{Batch, memdcd_do_migrate}
use etmem.Memdcd.Batches.{entries_of, Fits, Starts, AllCarry, memdcd_do_migrate-batches}

abbrev cold : ℕ → VmaAddrWithCount
cold visits = record { start_addr = 4096 * visits; vma_len = 4096; count = pos visits }

abbrev accept : List SwapVmaWithCount → SwapVmaWithCount → Bool
accept sent message = true

memdcd_do_migrate-batches_example :
    (bs : List Batch) × (messages : List SwapVmaWithCount) × (memdcd_do_migrate true accept
        (cold 1 ∷ cold 2 ∷ cold 3 ∷ [])
      ≡ some (true, messages))
    × AllCarry 3 bs messages
    × (entries_of bs ≡ cold 1 ∷ cold 2 ∷ cold 3 ∷ [])
    × All Fits bs
    × Starts bs
memdcd_do_migrate-batches_example =
    memdcd_do_migrate-batches accept (cold 1) (cold 2 ∷ cold 3 ∷ []) (λ sent m. refl) (omega arith)
