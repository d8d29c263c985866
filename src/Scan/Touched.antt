-- ===== src/Scan/Touched.antt =====
-- The reference for the list of etmem/src/etmemd_src/etmemd_scan.c: a page is looked for from the head of
-- the list each time, without a cursor.
use Prim.Native.Nat.{zero, suc}
use etmem.Base.{
  ℕ, Bool, true, false, List, [], ◌∷◌, ◌≡◌, refl, ap, ltb, ◌==◌, ◌<◌, ◌≤◌, arith, if◌then◌else◌,
  Bool-cases, inl, inr, lt→ltb, ltb→lt, ◌∙◌,
}
use etmem.Scan.{PageType}
use etmem.Scan.Refs.{
  Floats, PageRefs, Walked, moved, null_pf, fault, alloc_page_refs_node, visit, insert_node,
  update_page_refs, is_visit, visit_again, next_m,
}
use etmem.Scan.Walks.{rewind}
use etmem.Base.Int.{ℤ, pos, negsuc}

-- Every node of a list is below an address.
abbrev pub Below : {D : Type 0} → ℕ → List (PageRefs D) → Type 0
Below a [] = Unit
Below a (pf ∷ list) = (pf.addr < a) × Below a list

-- A cursor whose list is known, and behind which every node is below an address.
abbrev pub Holds : {D : Type 0} → Walked D → ℕ → List (PageRefs D) → Type 0
Holds (moved passed rest asked) a list = (rewind passed rest ≡ list) × Below a passed
Holds _ a list = ⊥

eq-lt : (a b : ℕ) → b < a → (a == b) ≡ false
eq-lt a b h = ground arith

eq-true : (a b : ℕ) → (a == b) ≡ true → a ≡ b
eq-true a b h = ground arith

pub Below-mono :
    {D : Type 0} {a b : ℕ} (list : List (PageRefs D)) → a ≤ b → Below a list → Below b list
Below-mono [] h below = tt
Below-mono (pf ∷ list) h below = (omega arith, Below-mono list h below.1)

pub Holds-mono :
    {D : Type 0} {a b : ℕ} (w : Walked D) (list : List (PageRefs D))
    → a ≤ b
    → Holds w a list
    → Holds w b list
Holds-mono (moved passed rest asked) list h holds = (holds.0, Below-mono passed h holds.1)
Holds-mono (null_pf passed rest asked) list h holds = absurd holds
Holds-mono fault list h holds = absurd holds

module _ {D : Type 0} (fl : Floats D) where
  unfoldable pub touch : ℕ → D → PageType → List (PageRefs D) → List (PageRefs D)
  touch addr est_time kind [] = alloc_page_refs_node fl addr est_time kind ∷ []
  touch addr est_time kind (pf ∷ list) =
      let later = touch addr est_time kind list in
      if addr == pf.addr
      then visit fl est_time pf ∷ list
      else if ltb pf.addr addr
      then pf ∷ later
      else alloc_page_refs_node fl addr est_time kind ∷ (pf ∷ list)

  visit_again-addr :
      (m : ℤ) (est_time : D) (pf : PageRefs D) → (visit_again fl m est_time pf).addr ≡ pf.addr
  unfolding visit_again
  visit_again-addr (pos zero) est_time pf = refl
  visit_again-addr (pos (suc n)) est_time pf = refl
  visit_again-addr (negsuc zero) est_time pf = refl
  visit_again-addr (negsuc (suc n)) est_time pf = refl

  pub visit-addr : (est_time : D) (pf : PageRefs D) → (visit fl est_time pf).addr ≡ pf.addr
  unfolding visit
  visit-addr est_time pf = elim (Bool-cases (is_visit fl est_time)) [
    | inl e ↦ rw e (visit_again-addr (next_m pf.m) est_time pf)
    | inr e ↦ rw e refl
  ]

  touch-behind :
      (addr : ℕ) (est_time : D) (kind : PageType) (pf : PageRefs D) (rest : List (PageRefs D))
      → pf.addr < addr
      → touch addr est_time kind (pf ∷ rest) ≡ pf ∷ touch addr est_time kind rest
  unfolding touch
  touch-behind addr est_time kind pf rest h = rw (eq-lt addr pf.addr h, lt→ltb pf.addr addr h) refl

  pub touch-rewind :
      (addr : ℕ) (est_time : D) (kind : PageType) (passed rest : List (PageRefs D))
      → Below addr passed
      → touch addr est_time kind (rewind passed rest)
        ≡ rewind passed (touch addr est_time kind rest)
  unfolding rewind
  touch-rewind addr est_time kind [] rest below = refl
  touch-rewind addr est_time kind (pf ∷ passed) rest below =
      touch-rewind addr est_time kind passed (pf ∷ rest) below.1
      ∙ ap (rewind passed) (touch-behind addr est_time kind pf rest below.0)

  module _ (calloc : ℕ → Bool) (memory : (n : ℕ) → calloc n ≡ true) where
    insert-Holds :
        (addr : ℕ) (est_time : D) (kind : PageType) (passed rest : List (PageRefs D)) (asked : ℕ)
        → Below addr passed
        → Holds
            (insert_node fl calloc addr est_time kind passed rest asked)
            (suc addr)
            (rewind passed (alloc_page_refs_node fl addr est_time kind ∷ rest))
    unfolding insert_node rewind
    insert-Holds addr est_time kind passed rest asked below =
        rw (memory asked) (refl, (omega arith, Below-mono passed (omega arith) below))

    pub update-Holds :
        (addr : ℕ) (est_time : D) (kind : PageType) (passed rest : List (PageRefs D)) (asked : ℕ)
        → Below addr passed
        → Holds
            (update_page_refs fl calloc addr est_time kind passed rest asked)
            (suc addr)
            (rewind passed (touch addr est_time kind rest))
    unfolding update_page_refs touch rewind
    update-Holds addr est_time kind passed [] asked below =
        insert-Holds addr est_time kind passed [] asked below
    update-Holds addr est_time kind passed (pf ∷ rest) asked below =
        elim (Bool-cases (addr == pf.addr)) [
          | inl e ↦ rw e (
            refl,
            (
              omega (arith, eq-true addr pf.addr e, visit-addr est_time pf),
              Below-mono passed (omega arith) below,
            ),
          )
          | inr ne ↦ elim (Bool-cases (ltb pf.addr addr)) [
            | inl l ↦
                rw (ne, l)
                  (update-Holds addr est_time kind (pf ∷ passed) rest asked
                    (ltb→lt pf.addr addr l, below))
            | inr g ↦ rw (ne, g) (insert-Holds addr est_time kind passed (pf ∷ rest) asked below)
          ]
        ]
