-- ===== src/Scan/Tests.antt =====
-- A process with a few pages, and what the theorems say of a scan of it.
use etmem.Scan.Walks.{rewind}
use etmem.Scan.Walks.{Vma, IdlePages, ScanFile, scanned, scan_crashed, get_page_refs}
use etmem.Scan.Process.{Along, touch_walks, get_page_refs-touches}
use etmem.Base.{ℕ, Bool, true, List, [], ◌∷◌, ◌≡◌, refl, arith, some, none}
use etmem.Base.Int.{ℤ, pos}
use etmem.Scan.{
  page_type_by_idle_kind, page_type_to_size, PageSizes, init_g_page_size, pte_access, shift_one,
  pte_type,
}
use etmem.Scan.Sizes.{init_g_page_size-undefined}
use etmem.Scan.Exported.{etmemd_get_page_refs, etmemd_get_page_refs-crashes}
use etmem.Scan.Refs.{PageRefs, moved, fault, record_parse_result, alloc_page_refs_node}
use etmem.Scan.Samples.{whole_numbers}
use etmem.Scan.Bytes.{handling, parse_vma_result}
use etmem.Scan.Touched.{Holds}
use etmem.Scan.Answer.{Block, encode, touch_blocks}
use etmem.Scan.Reading.{IsParsed, parse_vma_result-IsParsed}
use etmem.Scan.Sorted.{SortedFrom, parse_vma_result-SortedFrom}
use etmem.Scan.Faults.{record_parse_result-fault}

abbrev page_sizes : PageSizes
page_sizes = record { pte = 4096; pmd = 2097152; pud = 1073741824; junk = 0 }

abbrev always : ℕ → Bool
always n = true

abbrev answer : List Block
answer =
    record {
      start = 8192;
      items =
          record { code = 0; nr = 3 }
          ∷ record { code = 8; nr = 2 }
          ∷ record { code = 5; nr = 1 }
          ∷ [];
    }
    ∷ record { start = 65536; items = record { code = 3; nr = 2 } ∷ [] }
    ∷ []

abbrev known : List (PageRefs ℤ)
known =
    alloc_page_refs_node whole_numbers 12288 (pos 0) pte_type
    ∷ alloc_page_refs_node whole_numbers 65536 (pos 0) pte_type
    ∷ []

init_g_page_size-undefined_example :
    init_g_page_size (some 65536)
    ≡ some (record { pte = some 65536; pmd = shift_one 29; pud = none })
init_g_page_size-undefined_example = init_g_page_size-undefined 16 (omega arith) (omega arith)

parse_vma_result-IsParsed_example :
    IsParsed 73728 73728
      (touch_blocks page_sizes whole_numbers 1 answer known)
      (parse_vma_result whole_numbers always page_sizes 1 3 (encode answer) none (moved [] known 0))
unfolding page_type_to_size page_type_by_idle_kind rewind
parse_vma_result-IsParsed_example =
    parse_vma_result-IsParsed page_sizes whole_numbers 1 always (λ n. refl) 3 refl (omega arith)
      answer 0 [] known 0 none (omega arith) tt

parse_vma_result-SortedFrom_example :
    (list : List (PageRefs ℤ)) × SortedFrom 0 list
    × Holds
        (parse_vma_result whole_numbers always page_sizes 1 3
          (encode answer)
          none
          (moved [] known 0)).walked
        73728
        list
unfolding page_type_to_size page_type_by_idle_kind rewind alloc_page_refs_node
parse_vma_result-SortedFrom_example =
    parse_vma_result-SortedFrom whole_numbers page_sizes 1 always (λ n. refl) 3 refl (omega arith)
      answer 0 [] known 0 none (omega arith) tt (omega arith)

record_parse_result-fault_example :
    record_parse_result whole_numbers always page_sizes 0 0 8192 pte_access 3 (moved [] [] 0)
    ≡ fault
unfolding page_type_to_size page_type_by_idle_kind
record_parse_result-fault_example =
    record_parse_result-fault whole_numbers always page_sizes 0 0 refl 8192 2 pte_access [] 0 refl

-- Two areas with two pages in use in each; the answer for one begins where its walk begins.
abbrev areas : List Vma
areas = record { start = 8192; end = 16384 } ∷ record { start = 65536; end = 73728 } ∷ []

abbrev answer_at : ℕ → List Block
answer_at start = record { start = start; items = record { code = 0; nr = 2 } ∷ [] } ∷ []

abbrev idle_pages : IdlePages
idle_pages = record {
  buffer = λ size. true;
  lseek = λ start. true;
  read = λ start size. some (encode (answer_at start));
}

abbrev scan_file : ScanFile
scan_file = record { opens = true; ioctl_parameter = 1; ioctl = true; fileno = true }

areas-Along : Along page_sizes answer_at 0 0 areas
unfolding page_type_to_size page_type_by_idle_kind
areas-Along = omega arith

get_page_refs-touches_example :
    (asked : ℕ) × (get_page_refs whole_numbers always page_sizes idle_pages scan_file areas 1 3
        known 0
      ≡ scanned (touch_walks page_sizes answer_at whole_numbers 1 0 areas known) asked)
get_page_refs-touches_example =
    get_page_refs-touches page_sizes answer_at whole_numbers 1 always (λ n. refl) 3 refl
      (omega arith) idle_pages (λ start size. refl) (λ start size. refl) scan_file areas known 0
      refl refl refl areas-Along

etmemd_get_page_refs-crashes_example :
    etmemd_get_page_refs whole_numbers always page_sizes true idle_pages
      (some areas)
      (some scan_file)
      (some [])
      0
      0
    ≡ scan_crashed
unfolding page_type_to_size page_type_by_idle_kind handling encode
etmemd_get_page_refs-crashes_example =
    etmemd_get_page_refs-crashes whole_numbers always page_sizes (record { code = 0; nr = 2 })
      pte_access 1 refl (omega arith) 8192 (omega arith) (omega arith) refl idle_pages
      (record { start = 8192; end = 16384 }) [] (λ size. refl) refl (λ size. refl)
      (record { start = 65536; end = 73728 } ∷ []) scan_file 0 0 refl refl refl
