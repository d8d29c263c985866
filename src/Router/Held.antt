-- ===== src/Router/Held.antt =====
-- What is valid of the processes of memRouter/src/memdcd_process.c, and that their list keeps it.
use Prim.Native.Nat.{zero, suc}
use etmem.Base.{
  ◌*◌, ℕ, ◌≡◌, refl, ap, subst, ◌+◌, ◌^◌, ◌≤◌, ◌<◌, ◌==◌, false, ◌||◌, List, [], ◌∷◌, Option, none,
  some, length, ltb, Bool-cases, inl, inr, ◌||◌,
}
use etmem.Base.Named.{All}
use etmem.Base.Options.{some_inj}
use etmem.Router.{VmaAddrWithCount, SwapVmaWithCount}
use etmem.Router.Collect.{
  page_list_bytes, Process, Router, Moment, migrate_process_remove, migrate_process_search,
  migrate_process_recycle, put_process, recycle_loop, expired, copy_pages,
}

-- The pages that a process holds are as many as its offset, and no more than announced.
pub record ProcessValid (p : Process) : Type 0 where
  pub held : p.offset ≡ length p.pages
  pub within : p.offset ≤ p.total
  pub announced : 24 * p.total + 8 < 2 ^ 64
  -- The pages and the length in front of them are within the block that was allocated.
  pub in_block : 24 * length p.pages + 8 ≤ page_list_bytes p.total

abbrev pub RouterValid : Router → Type 0
RouterValid s = (s.fault ≡ false) × All ProcessValid s.processes

-- The sizes of a message that a sender can mean.
pub record SizesValid (vma : SwapVmaWithCount) : Type 0 where
  pub bytes : vma.length ≤ 512 * 24
  pub total : 24 * vma.total_length + 8 < 2 ^ 64

-- The state is valid, and a process that is ready has all its pages.
abbrev pub Collected : Option Process × Router → Type 0
Collected (none, s) = RouterValid s
Collected (some p, s) = (length p.pages ≡ p.total) × ProcessValid p × RouterValid s

pub length-copy_pages :
    (m : Moment) (entries : ℕ → VmaAddrWithCount) (i n : ℕ) → length (copy_pages m entries i n) ≡ n
unfolding copy_pages
length-copy_pages m entries i zero = refl
length-copy_pages m entries i (suc n) = ap suc (length-copy_pages m entries (i + 1) n)

pub remove-All :
    (pid : ℕ) (ps : List Process)
    → All ProcessValid ps
    → All ProcessValid (migrate_process_remove pid ps)
unfolding migrate_process_remove
remove-All pid [] v = tt
remove-All pid (p ∷ ps) v = elim (Bool-cases (p.pid == pid)) [
  | inl e ↦ rw e v.1
  | inr e ↦ rw e (v.0, remove-All pid ps v.1)
]

pub put-All :
    (q : Process) (ps : List Process)
    → ProcessValid q
    → All ProcessValid ps
    → All ProcessValid (put_process q ps)
unfolding put_process
put-All q [] w v = tt
put-All q (p ∷ ps) w v = elim (Bool-cases (p.pid == q.pid)) [
  | inl e ↦ rw e (w, v.1)
  | inr e ↦ rw e (v.0, put-All q ps w v.1)
]

recycle-All :
    (m : Moment) (timeout : ℕ) (ps : List Process)
    → All ProcessValid ps
    → All ProcessValid (recycle_loop m timeout ps)
unfolding recycle_loop
recycle-All m timeout [] v = tt
recycle-All m timeout (p ∷ ps) v = elim (Bool-cases (expired m timeout p)) [
  | inl e ↦ rw e (recycle-All m timeout ps v.1)
  | inr e ↦ rw e (v.0, recycle-All m timeout ps v.1)
]

pub search-Valid :
    (pid : ℕ) (ps : List Process) {p : Process}
    → All ProcessValid ps
    → migrate_process_search pid ps ≡ some p
    → ProcessValid p
unfolding migrate_process_search
search-Valid pid [] v h = cc
search-Valid pid (q ∷ ps) {p} v h = elim (Bool-cases (q.pid == pid)) [
  | inl e ↦ subst ProcessValid (some_inj (rw e at h)) v.0
  | inr e ↦ search-Valid pid ps v.1 (rw e at h)
]

pub migrate_process_recycle-Valid :
    (m : Moment) (s : Router) → RouterValid s → RouterValid (migrate_process_recycle m s)
unfolding migrate_process_recycle
migrate_process_recycle-Valid m s v = elim (Bool-cases (s.collect_page_timeout == 0)) [
  | inl e ↦ rw e v
  | inr e ↦ rw e (elim (Bool-cases (s.last == 0 || ltb m.now (s.last + s.collect_page_timeout))) [
    | inl f ↦ rw f v
    | inr f ↦ rw f (v.0, recycle-All m s.collect_page_timeout s.processes v.1)
  ])
]
