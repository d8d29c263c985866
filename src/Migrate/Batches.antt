-- ===== src/Migrate/Batches.antt =====
-- etmem/src/etmemd_src/etmemd_migrate.c: the loop of etmemd_migrate_mem.
use etmem.Base.{
  ℕ, zero, suc, true, false, List, [], ◌∷◌, ◌++◌, length, length-take, length-drop, take, drop,
  take-append-drop, ◌≡◌, refl, ap, sym, ◌+◌, ◌-◌, ◌/◌, ◌<◌, ◌≤◌, arith, Bool-cases, inl, inr, ◌∙◌,
  subst,
}
use etmem.Base.Named.{All}
use etmem.Migrate.{
  Files, Migrated, migrated, still_running, wrote, migrate_loop, etmemd_migrate_mem,
  etmemd_grade_migrate, swap_limit, not_migrated, migrate_round,
}
use etmem.Migrate.Lines.{
  Written, lines-Written, lines, get_swap_string-take, lines-append, length-lines,
  get_swap_string-none,
}

unfoldable pub joined : List (List ℕ) → List ℕ
joined [] = []
joined (text ∷ texts) = text ++ joined texts

-- A line for each address, read back as that address, in texts that each fit into a batch, as few as there can be.
abbrev pub InBatches : List ℕ → List (List ℕ) → Type 0
InBatches addrs texts =
    Written addrs (joined texts)
    × All (λ text. length text < 4000) texts
    × (length texts ≡ (length addrs + 199) / 200)

abbrev InLines : List ℕ → List (List ℕ) → Type 0
InLines addrs texts =
    (joined texts ≡ lines addrs)
    × All (λ text. length text < 4000) texts
    × (length texts ≡ (length addrs + 199) / 200)

nothing : InLines [] []
unfolding joined
nothing = (refl, tt, refl)

lines-batches :
    (addrs : List ℕ) (texts : List (List ℕ)) → InLines addrs texts → InBatches addrs texts
lines-batches addrs texts done =
    (subst (λ text. Written addrs text) (sym done.0) (lines-Written addrs), done.1, done.2)

abbrev Done : List ℕ → Migrated → Type 0
Done addrs (migrated texts) = InLines addrs texts
Done addrs (not_migrated texts) = ⊥
Done addrs (still_running texts) = ⊥

migrated_texts :
    (addrs : List ℕ) (m : Migrated)
    → Done addrs m
    → (texts : List (List ℕ)) × (m ≡ migrated texts) × InBatches addrs texts
migrated_texts addrs (migrated texts) done = (texts, refl, lines-batches addrs texts done)
migrated_texts addrs (not_migrated texts) done = absurd done
migrated_texts addrs (still_running texts) done = absurd done

module _ (files : Files) (k : ℕ) (memory : (n : ℕ) → k ≤ n → files.calloc n ≡ true)
    (writes : (n : ℕ) → files.fputs n ≡ true) where
  wrote-Done :
      (addr : ℕ) (addrs : List ℕ) (m : Migrated)
      → Done (drop swap_limit (addr ∷ addrs)) m
      → Done (addr ∷ addrs) (wrote (lines (take swap_limit (addr ∷ addrs))) m)
  unfolding joined
  wrote-Done addr addrs (migrated texts) done =
      let xs : List ℕ = addr ∷ addrs in
      (
        ap (λ more. lines (take swap_limit xs) ++ more) done.0
            ∙ sym (lines-append (take swap_limit xs) (drop swap_limit xs))
            ∙ ap lines (take-append-drop swap_limit xs),
        (omega (arith, length-lines (take swap_limit xs), length-take swap_limit xs), done.1),
        omega (arith, done.2, length-drop swap_limit xs),
      )
  wrote-Done addr addrs (not_migrated texts) done = absurd done
  wrote-Done addr addrs (still_running texts) done = absurd done

  early : (round : ℕ) → files.calloc round ≡ false → round < k
  early round e = ground (arith, memory round)

  migrate_loop-Done :
      (fuel round : ℕ) (addrs : List ℕ)
      → length addrs + (k - round) ≤ fuel
      → Done addrs (migrate_loop files fuel round addrs)
  unfolding migrate_loop migrate_round
  migrate_loop-Done zero round [] h = nothing
  migrate_loop-Done (suc fuel) round [] h = nothing
  migrate_loop-Done zero round (addr ∷ addrs) h = absurd (omega arith)
  migrate_loop-Done (suc fuel) round (addr ∷ addrs) h = elim (Bool-cases (files.calloc round)) [
    | inl e ↦
        let xs : List ℕ = addr ∷ addrs in
        rw (e, get_swap_string-take xs swap_limit, writes round)
          (wrote-Done addr addrs (migrate_loop files fuel (suc round) (drop swap_limit xs)) (
            migrate_loop-Done fuel (suc round) (drop swap_limit xs)
              (omega (arith, length-drop swap_limit xs))))
    | inr e ↦
        rw (e, get_swap_string-none (addr ∷ addrs) swap_limit)
          (migrate_loop-Done fuel (suc round) (addr ∷ addrs) (omega (arith, early round e, h)))
  ]

  -- If the swap file opens and takes every text, and memory for a text is there from some round
  -- on, then etmemd_grade_migrate ends after at most that many rounds and one for each cold page,
  -- and has written for each cold page, in order, a line of "0x" and hexadecimal digits that are
  -- read back as its address of 64 bits, in texts below 4000 bytes, one for each 200 pages or
  -- part of them.
  pub etmemd_grade_migrate-writes :
      (fuel : ℕ) (hot_pages cold_pages : List ℕ)
      → files.opens ≡ true
      → length cold_pages + k ≤ fuel
      → (texts : List (List ℕ)) × (etmemd_grade_migrate files fuel hot_pages cold_pages
          ≡ migrated texts)
        × InBatches cold_pages texts
  unfolding etmemd_grade_migrate etmemd_migrate_mem
  etmemd_grade_migrate-writes fuel hot_pages [] opens h = ([], refl, lines-batches [] [] nothing)
  etmemd_grade_migrate-writes fuel hot_pages (addr ∷ cold_pages) opens h = simp opens (
      migrated_texts (addr ∷ cold_pages) (migrate_loop files fuel 0 (addr ∷ cold_pages))
        (migrate_loop-Done fuel 0 (addr ∷ cold_pages) (omega arith)))
