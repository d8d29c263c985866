-- ===== src/Migrate/Tests.antt =====
-- Concrete pages and calls for migrate.c, and what the theorems say of them.
use etmem.Base.{ℕ, true, false, List, [], ◌∷◌, ◌≡◌, refl, arith, some, leb, ◌≤◌}
use etmem.Base.Int.{pos}
use etmem.Project.{Project, ScanParam}
use etmem.Migrate.{Files, migrated, etmemd_grade_migrate}
use etmem.Migrate.Batches.{InBatches, etmemd_grade_migrate-writes}
use etmem.Migrate.Wmark.{Call, Cache, reclaim_calls}
use etmem.Migrate.Marked.{MarkedOnce, reclaim_calls-MarkedOnce}

-- Memory is short in the first two rounds.
abbrev files : Files
files = record { opens = true; calloc = λ round. leb 2 round; fputs = λ round. true }

memory : (n : ℕ) → 2 ≤ n → leb 2 n ≡ true
memory n h = ground arith

etmemd_grade_migrate-writes_example :
    (texts : List (List ℕ)) × (etmemd_grade_migrate files 4 [] (4096 ∷ 8192 ∷ []) ≡ migrated texts)
    × InBatches (4096 ∷ 8192 ∷ []) texts
etmemd_grade_migrate-writes_example =
    etmemd_grade_migrate-writes files 2 memory (λ n. refl) 4 [] (4096 ∷ 8192 ∷ []) refl
      (omega arith)

abbrev proj : Project
proj = record {
  name = "p";
  scan_param = ScanParam.unset;
  sysmem_threshold = pos 50;
  swapcache_high_wmark = pos 5;
  swapcache_low_wmark = pos 3;
  start = true;
  engs = [];
}

abbrev call : Call
call = record {
  reads = record {
    mem_total = some 1000;
    mem_free = some 100;
    swap_cached = some 100;
    vm_rss = some 10;
    vm_swap = some 10;
    pagesize = 4096;
  };
  opens_wmark = true;
  sets_wmark = true;
  opens = true;
  reclaims = true;
}

abbrev fresh : Cache
fresh = record { wmark_set = false; sent = [] }

reclaim_calls-MarkedOnce_example :
    MarkedOnce 1283
      (reclaim_calls proj (call ∷ call ∷ []) fresh).wmark_set
      (reclaim_calls proj (call ∷ call ∷ []) fresh).sent
reclaim_calls-MarkedOnce_example =
    reclaim_calls-MarkedOnce proj 3 5 (call ∷ call ∷ []) fresh refl refl (omega arith) (omega arith)
      tt
