-- ===== src/Migrate/Marked.antt =====
-- etmem/src/etmemd_src/etmemd_migrate.c: the order of the requests that etmemd_reclaim_swapcache makes.
use etmem.Base.{
  subst, sym, ℕ, Bool, true, false, ◌&&◌, List, [], ◌∷◌, Option, none, some, ◌≡◌, refl,
  if◌then◌else◌, Bool-cases, inl, inr, ◌<◌, ◌+◌, ◌*◌, arith,
}
use etmem.Base.Int.{pos}
use etmem.Project.{Project}
use etmem.Migrate.Wmark.{
  Ioctl, set_swapcache_wmark_cmd, reclaim_swapcache_on, Call, Cache, Result, swapcache_wmark,
  check_should_reclaim_swapcache, set_swapcache_wmark, send_reclaim, after_wmark, reclaim, answered,
  etmemd_reclaim_swapcache, continued, reclaim_calls, low_byte,
}

-- The first request set the marks to a value, and all the others reclaim; none yet while they are not set.
abbrev pub MarkedOnce : ℕ → Bool → List Ioctl → Type 0
MarkedOnce marks false [] = Unit
MarkedOnce marks false (request ∷ sent) = ⊥
MarkedOnce marks true [] = ⊥
MarkedOnce marks true (set_swapcache_wmark_cmd value ∷ sent) = (value ≡ marks) × (sent ≡ [])
MarkedOnce marks true (reclaim_swapcache_on ∷ sent) = MarkedOnce marks true sent

one_more :
    (marks : ℕ) (wmark_set : Bool) (sent : List Ioctl)
    → wmark_set ≡ true
    → MarkedOnce marks wmark_set sent
    → MarkedOnce marks wmark_set (reclaim_swapcache_on ∷ sent)
one_more marks true sent set marked = marked
one_more marks false sent set marked = cc

nothing_sent :
    (marks : ℕ) (wmark_set : Bool) (sent : List Ioctl)
    → wmark_set ≡ false
    → MarkedOnce marks wmark_set sent
    → sent ≡ []
nothing_sent marks false [] unset marked = refl
nothing_sent marks false (request ∷ sent) unset marked = absurd marked
nothing_sent marks true sent unset marked = cc

module _ (proj : Project) where
  abbrev Marked : Cache → Type 0
  Marked cache = MarkedOnce (swapcache_wmark proj) cache.wmark_set cache.sent

  abbrev marked_first : Cache → Cache
  marked_first cache = record {
    wmark_set = true;
    sent = set_swapcache_wmark_cmd (swapcache_wmark proj) ∷ cache.sent;
  }

  send_reclaim-Marked :
      (call : Call) (cache : Cache)
      → cache.wmark_set ≡ true
      → Marked cache
      → Marked (send_reclaim call cache).cache
  unfolding send_reclaim
  send_reclaim-Marked call cache set marked = elim (Bool-cases (call.opens && call.reclaims)) [
    | inl e ↦ rw e (one_more (swapcache_wmark proj) cache.wmark_set cache.sent set marked)
    | inr e ↦ rw e marked
  ]

  set-Marked :
      (call : Call) (cache : Cache)
      → cache.wmark_set ≡ false
      → Marked cache
      → Marked (after_wmark call cache (set_swapcache_wmark proj call cache)).cache
  unfolding after_wmark set_swapcache_wmark
  set-Marked call cache unset marked = elim (Bool-cases (call.opens_wmark && call.sets_wmark)) [
    | inl e ↦ rw e (
        send_reclaim-Marked call (marked_first cache) refl
          (refl, nothing_sent (swapcache_wmark proj) cache.wmark_set cache.sent unset marked))
    | inr e ↦ rw e marked
  ]

  reclaim-Marked :
      (call : Call) (cache : Cache) → Marked cache → Marked (reclaim proj call cache).cache
  unfolding reclaim
  reclaim-Marked call cache marked =
      let choice : Bool → Result = λ b.
        if b
        then send_reclaim call cache
        else after_wmark call cache (set_swapcache_wmark proj call cache) in
      elim (Bool-cases cache.wmark_set) [
        | inl set ↦
            subst (λ (b : Bool). Marked (choice b).cache) (sym set)
              (send_reclaim-Marked call cache set marked)
        | inr unset ↦
            subst (λ (b : Bool). Marked (choice b).cache) (sym unset)
              (set-Marked call cache unset marked)
      ]

  continued-Marked :
      (call : Call) (calls : List Call) (cache : Cache) (answer : Option Bool)
      → Marked cache
      → ((next : Cache) → Marked next → Marked (reclaim_calls proj calls next))
      → Marked (continued (reclaim_calls proj calls) cache (answered proj call cache answer))
  unfolding continued answered
  continued-Marked call calls cache none marked later = marked
  continued-Marked call calls cache (some false) marked later = later cache marked
  continued-Marked call calls cache (some true) marked later =
      later (reclaim proj call cache).cache (reclaim-Marked call cache marked)

  byte_marks :
      (low high : ℕ)
      → proj.swapcache_low_wmark ≡ pos low
      → proj.swapcache_high_wmark ≡ pos high
      → low < 256
      → high < 256
      → swapcache_wmark proj ≡ low + 256 * high
  unfolding swapcache_wmark low_byte
  byte_marks low high e f h k = rw (e, f) (omega arith)

  kept_marked :
      (calls : List Call) (cache : Cache)
      → MarkedOnce (swapcache_wmark proj) cache.wmark_set cache.sent
      → MarkedOnce
          (swapcache_wmark proj)
          (reclaim_calls proj calls cache).wmark_set
          (reclaim_calls proj calls cache).sent
  unfolding reclaim_calls etmemd_reclaim_swapcache
  kept_marked [] cache marked = marked
  kept_marked (call ∷ calls) cache marked =
      continued-Marked call calls cache (check_should_reclaim_swapcache proj call.reads) marked
        (kept_marked calls)

  -- For a project with marks from 0 to 255, however many times etmemd_reclaim_swapcache is
  -- called, whatever it reads and whichever requests the kernel takes, if so far wmark_set says
  -- whether the marks were set and they were set first and once, with the low mark in the low
  -- byte of the request and the high mark in the next, then this holds afterwards: nothing is
  -- reclaimed before the marks are set.
  pub reclaim_calls-MarkedOnce :
      (low high : ℕ) (calls : List Call) (cache : Cache)
      → proj.swapcache_low_wmark ≡ pos low
      → proj.swapcache_high_wmark ≡ pos high
      → low < 256
      → high < 256
      → MarkedOnce (low + 256 * high) cache.wmark_set cache.sent
      → MarkedOnce
          (low + 256 * high)
          (reclaim_calls proj calls cache).wmark_set
          (reclaim_calls proj calls cache).sent
  reclaim_calls-MarkedOnce low high calls cache e f h k marked =
      let same = byte_marks low high e f h k in
      subst
        (λ (value : ℕ).
          MarkedOnce value (reclaim_calls proj calls cache).wmark_set
            (reclaim_calls proj calls cache).sent)
        same
        (kept_marked calls cache
          (subst (λ (value : ℕ). MarkedOnce value cache.wmark_set cache.sent) (sym same) marked))
