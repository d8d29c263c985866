-- ===== src/Base/Named.antt =====
-- Singly linked lists whose nodes are found by name, as the daemon keeps its projects, engines and
-- tasks. A node is found, changed and unlinked at its first occurrence.
use mathlib.Core.Option
use etmem.Base.{
  ◌≡◌, refl, sym, ap, subst, ◌∙◌, ◌≢◌, inl, inr, List, [], ◌∷◌, map, Option, none, some,
  if◌then◌else◌, String,
}
use etmem.Base.Options.{some_inj}
use etmem.Base.Text.{str_eq, str_eq-cases, str_eq_refl}

-- No entry is called `n`.
abbrev pub Absent : String → List String → Type 0
Absent n [] = Unit {0}
Absent n (m ∷ ms) = (m ≢ n) × Absent n ms

abbrev pub Distinct : List String → Type 0
Distinct [] = Unit {0}
Distinct (m ∷ ms) = Absent m ms × Distinct ms

abbrev pub All {ℓ κ} : {A : Type ℓ} → (A → Type κ) → List A → Type κ
All P [] = Unit
All P (x ∷ xs) = P x × All P xs

module _ {A : Type 0} (name : A → String) where
  abbrev pub names : List A → List String
  names xs = map name xs

  unfoldable pub find_by : String → List A → Option A
  find_by n [] = none
  find_by n (x ∷ xs) = if str_eq (name x) n then some x else find_by n xs

  unfoldable pub remove_by : String → List A → List A
  remove_by n [] = []
  remove_by n (x ∷ xs) = if str_eq (name x) n then xs else x ∷ remove_by n xs

  unfoldable pub update_by : String → (A → A) → List A → List A
  update_by n f [] = []
  update_by n f (x ∷ xs) = if str_eq (name x) n then f x ∷ xs else x ∷ update_by n f xs

  pub find_by-name : (n : String) (xs : List A) {x : A} → find_by n xs ≡ some x → name x ≡ n
  unfolding find_by
  find_by-name n [] h = cc
  find_by-name n (y ∷ ys) {x} h = elim (str_eq-cases (name y) n) [
    | inl (p, e) ↦ ap name (sym (some_inj (rw e at h))) ∙ p
    | inr (_, e) ↦ find_by-name n ys (rw e at h)
  ]

  pub find_by-none-Absent : (n : String) (xs : List A) → find_by n xs ≡ none → Absent n (names xs)
  unfolding find_by
  find_by-none-Absent n [] h = tt
  find_by-none-Absent n (x ∷ xs) h = elim (str_eq-cases (name x) n) [
    | inl (_, e) ↦ cc (rw e at h)
    | inr (ne, e) ↦ (ne, find_by-none-Absent n xs (rw e at h))
  ]

  pub Absent-find_by : (n : String) (xs : List A) → Absent n (names xs) → find_by n xs ≡ none
  unfolding find_by
  Absent-find_by n [] a = refl
  Absent-find_by n (x ∷ xs) a = elim (str_eq-cases (name x) n) [
    | inl (p, _) ↦ absurd (a.0 p)
    | inr (_, e) ↦ rw e (Absent-find_by n xs a.1)
  ]

  pub find_by-head : (x : A) (xs : List A) → find_by (name x) (x ∷ xs) ≡ some x
  unfolding find_by
  find_by-head x xs = rw (str_eq_refl (name x))

  pub remove_by-head : (x : A) (xs : List A) → remove_by (name x) (x ∷ xs) ≡ xs
  unfolding remove_by
  remove_by-head x xs = rw (str_eq_refl (name x))

  pub remove_by-Absent :
      (n m : String) (xs : List A) → Absent m (names xs) → Absent m (names (remove_by n xs))
  unfolding remove_by
  remove_by-Absent n m [] a = tt
  remove_by-Absent n m (x ∷ xs) a = elim (str_eq-cases (name x) n) [
    | inl (_, e) ↦ rw e a.1
    | inr (_, e) ↦ rw e (a.0, remove_by-Absent n m xs a.1)
  ]

  pub remove_by-Distinct :
      (n : String) (xs : List A) → Distinct (names xs) → Distinct (names (remove_by n xs))
  unfolding remove_by
  remove_by-Distinct n [] d = tt
  remove_by-Distinct n (x ∷ xs) d = elim (str_eq-cases (name x) n) [
    | inl (_, e) ↦ rw e d.1
    | inr (_, e) ↦ rw e (remove_by-Absent n (name x) xs d.0, remove_by-Distinct n xs d.1)
  ]

  pub find_by-remove_by :
      (n : String) (xs : List A) → Distinct (names xs) → find_by n (remove_by n xs) ≡ none
  unfolding remove_by find_by
  find_by-remove_by n [] d = refl
  find_by-remove_by n (x ∷ xs) d = elim (str_eq-cases (name x) n) [
    | inl (p, e) ↦ rw e (rw p at (Absent-find_by (name x) xs d.0))
    | inr (_, e) ↦ rw e (rw e (find_by-remove_by n xs d.1))
  ]

  pub find_by-remove_by_ne :
      (n m : String) (xs : List A) → n ≢ m → find_by m (remove_by n xs) ≡ find_by m xs
  unfolding remove_by find_by
  find_by-remove_by_ne n m [] ne = refl
  find_by-remove_by_ne n m (x ∷ xs) ne = elim (str_eq-cases (name x) n) [
    | inl (p, e) ↦ elim (str_eq-cases (name x) m) [
      | inl (q, _) ↦ absurd (ne (sym p ∙ q))
      | inr (_, f) ↦ rw (e, f) refl
    ]
    | inr (_, e) ↦
        rw e (ap (λ r. if str_eq (name x) m then some x else r) (find_by-remove_by_ne n m xs ne))
  ]

  pub names-update_by :
      (n : String) (f : A → A) (xs : List A)
      → ((x : A) → name x ≡ n → name (f x) ≡ n)
      → names (update_by n f xs) ≡ names xs
  unfolding update_by
  names-update_by n f [] keep = refl
  names-update_by n f (x ∷ xs) keep = elim (str_eq-cases (name x) n) [
    | inl (p, e) ↦ rw e (ap (λ m. m ∷ names xs) (keep x p ∙ sym p))
    | inr (_, e) ↦ rw e (rw (names-update_by n f xs keep))
  ]

  pub find_by-update_by :
      (n : String) (f : A → A) (xs : List A)
      → ((x : A) → name x ≡ n → name (f x) ≡ n)
      → find_by n (update_by n f xs) ≡ Option.map f (find_by n xs)
  unfolding update_by find_by
  find_by-update_by n f [] keep = refl
  find_by-update_by n f (x ∷ xs) keep = elim (str_eq-cases (name x) n) [
    | inl (p, e) ↦ rw e (rw (keep x p) (rw (str_eq_refl n)))
    | inr (_, e) ↦ rw e (rw e (find_by-update_by n f xs keep))
  ]

  pub find_by-update_by_ne :
      (n m : String) (f : A → A) (xs : List A)
      → ((x : A) → name x ≡ n → name (f x) ≡ n)
      → n ≢ m
      → find_by m (update_by n f xs) ≡ find_by m xs
  unfolding update_by find_by
  find_by-update_by_ne n m f [] keep ne = refl
  find_by-update_by_ne n m f (x ∷ xs) keep ne = elim (str_eq-cases (name x) n) [
    | inl (p, e) ↦ elim (str_eq-cases (name x) m) [
      | inl (q, _) ↦ absurd (ne (sym p ∙ q))
      | inr (_, g) ↦ rw e (rw (keep x p ∙ sym p) (rw g))
    ]
    | inr (_, e) ↦
        rw e (
          ap (λ r. if str_eq (name x) m then some x else r) (find_by-update_by_ne n m f xs keep ne))
  ]

  -- Writing back the node that was found changes nothing.
  pub update_by_self :
      (n : String) (f : A → A) (xs : List A) {x : A}
      → find_by n xs ≡ some x
      → f x ≡ x
      → update_by n f xs ≡ xs
  unfolding update_by find_by
  update_by_self n f [] h e = refl
  update_by_self n f (y ∷ ys) h e = elim (str_eq-cases (name y) n) [
    | inl (_, t) ↦ rw t (cc (rw t at h))
    | inr (_, t) ↦ rw t (rw (update_by_self n f ys (rw t at h) e))
  ]

module _ {A : Type 0} (name : A → String) (P : A → Type 0) where
  pub All-find_by : (n : String) (xs : List A) {x : A} → All P xs → find_by name n xs ≡ some x → P x
  unfolding find_by
  All-find_by n [] a h = cc
  All-find_by n (y ∷ ys) a h = elim (str_eq-cases (name y) n) [
    | inl (_, t) ↦ subst P (some_inj (rw t at h)) a.0
    | inr (_, t) ↦ All-find_by n ys a.1 (rw t at h)
  ]

  pub All-remove_by : (n : String) (xs : List A) → All P xs → All P (remove_by name n xs)
  unfolding remove_by
  All-remove_by n [] a = tt
  All-remove_by n (x ∷ xs) a = elim (str_eq-cases (name x) n) [
    | inl (_, e) ↦ rw e a.1
    | inr (_, e) ↦ rw e (a.0, All-remove_by n xs a.1)
  ]

  pub All-update_by :
      (n : String) (f : A → A) (xs : List A)
      → All P xs
      → ((x : A) → P x → name x ≡ n → P (f x))
      → All P (update_by name n f xs)
  unfolding update_by
  All-update_by n f [] a keep = tt
  All-update_by n f (x ∷ xs) a keep = elim (str_eq-cases (name x) n) [
    | inl (p, e) ↦ rw e (keep x a.0 p, a.1)
    | inr (_, e) ↦ rw e (a.0, All-update_by n f xs a.1 keep)
  ]
