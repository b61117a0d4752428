-- ===== src/Capability/Registry.antt =====
-- The order in which capabilities are registered does not matter.
use ag_infer.Prelude.{
  ℕ, ◌≡◌, refl, sym, ◌∙◌, ap₂, Bool, true, false, not, List, [], ◌∷◌, map, list_eq, Bool-cases, inl,
  inr, String, insert_sorted, sorted, arith,
}
use mathlib.Core.List.{Permᴰ}
use ag_infer.Inventory.{InventoryOp, LoweringInventory}
use ag_infer.Command.{CudaArch}
use ag_infer.Capability.{
  ProviderCapability, digest_leb, has_digest, all_distinct, ordered_by_digest,
  resolve_provider_capabilities,
}

digest_leb-flip :
    (xs ys : List ℕ) → list_eq xs ys ≡ false → digest_leb xs ys ≡ not (digest_leb ys xs)
unfolding digest_leb list_eq
digest_leb-flip [] [] e = cc
digest_leb-flip [] (y ∷ ys) e = refl
digest_leb-flip (x ∷ xs) [] e = refl
digest_leb-flip (x ∷ xs) (y ∷ ys) e = elim (Bool-cases (list_eq xs ys)) [
  | inl same ↦ ground arith
  | inr other ↦ let rest = digest_leb-flip xs ys other in ground arith
]

digest_leb_trans :
    (xs ys zs : List ℕ)
    → digest_leb xs ys ≡ true
    → digest_leb ys zs ≡ true
    → digest_leb xs zs ≡ true
unfolding digest_leb
digest_leb_trans [] ys zs h k = refl
digest_leb_trans (x ∷ xs) [] zs h k = cc
digest_leb_trans (x ∷ xs) (y ∷ ys) [] h k = cc
digest_leb_trans (x ∷ xs) (y ∷ ys) (z ∷ zs) h k = elim (Bool-cases (digest_leb xs ys)) [
  | inl first ↦ elim (Bool-cases (digest_leb ys zs)) [
    | inl second ↦ let rest = digest_leb_trans xs ys zs first second in ground arith
    | inr second ↦ ground arith
  ]
  | inr first ↦ ground arith
]

list_eq_sym : (xs ys : List ℕ) → list_eq xs ys ≡ list_eq ys xs
unfolding list_eq
list_eq_sym [] [] = refl
list_eq_sym [] (y ∷ ys) = refl
list_eq_sym (x ∷ xs) [] = refl
list_eq_sym (x ∷ xs) (y ∷ ys) = let rest = list_eq_sym xs ys in ground arith

module _ {A : Type 0} (le : A → A → Bool)
    (le_trans : (x y z : A) → le x y ≡ true → le y z ≡ true → le x z ≡ true) where
  insert_sorted_comm :
      (x y : A) (zs : List A)
      → le x y ≡ not (le y x)
      → insert_sorted le x (insert_sorted le y zs) ≡ insert_sorted le y (insert_sorted le x zs)
  unfolding insert_sorted
  insert_sorted_comm x y [] flip = elim (Bool-cases (le y x)) [
    | inl t ↦ simp (flip, t, insert_sorted)
    | inr n ↦ simp (flip, n, insert_sorted)
  ]
  insert_sorted_comm x y (z ∷ zs) flip = elim (Bool-cases (le x z)) [
    | inl xz ↦ elim (Bool-cases (le y z)) [
      | inl yz ↦ elim (Bool-cases (le y x)) [
        | inl t ↦ simp (xz, yz, flip, t, insert_sorted)
        | inr n ↦ simp (xz, yz, flip, n, insert_sorted)
      ]
      | inr yz ↦ elim (Bool-cases (le y x)) [
        | inl t ↦ absurd (let h = le_trans y x z t xz in cc)
        | inr n ↦ simp (xz, yz, n, insert_sorted)
      ]
    ]
    | inr xz ↦ elim (Bool-cases (le y z)) [
      | inl yz ↦ elim (Bool-cases (le y x)) [
        | inl t ↦ simp (xz, yz, flip, t, insert_sorted)
        | inr n ↦ absurd (let h = le_trans x y z (rw (flip, n) refl) yz in cc)
      ]
      | inr yz ↦ let rest = insert_sorted_comm x y zs flip in simp (xz, yz, rest, insert_sorted)
    ]
  ]

-- Two digests at the front may change places.
swap_distinct :
    (d e : List ℕ) (ds : List (List ℕ)) → all_distinct (d ∷ e ∷ ds) ≡ all_distinct (e ∷ d ∷ ds)
unfolding all_distinct has_digest
swap_distinct d e ds = let s = list_eq_sym d e in ground arith

apart : (d e : List ℕ) (ds : List (List ℕ)) → all_distinct (d ∷ e ∷ ds) ≡ true → list_eq d e ≡ false
unfolding all_distinct has_digest
apart d e ds h = ground arith

swap_has :
    (x d e : List ℕ) (ds : List (List ℕ)) → has_digest x (d ∷ e ∷ ds) ≡ has_digest x (e ∷ d ∷ ds)
unfolding has_digest
swap_has x d e ds = ground arith

module _ (digest : ProviderCapability → List ℕ) where
  has_digest-Permᴰ :
      (d : List ℕ) {xs ys : List ProviderCapability}
      → Permᴰ xs ys
      → has_digest d (map digest xs) ≡ has_digest d (map digest ys)
  unfolding has_digest
  has_digest-Permᴰ d Permᴰ.nil = refl
  has_digest-Permᴰ d (Permᴰ.cons {a = a} {b = b} {l₁ = xs} {l₂ = ys} e p) =
      rw (e, has_digest-Permᴰ d p) refl
  has_digest-Permᴰ d (Permᴰ.swap {a = a} {b = b} {a' = c} {b' = e} {l = l} p q) =
      ap₂ (λ x y. has_digest d (map digest (x ∷ y ∷ l))) p q
      ∙ swap_has d (digest e) (digest c) (map digest l)
  has_digest-Permᴰ d (Permᴰ.trans p q) = has_digest-Permᴰ d p ∙ has_digest-Permᴰ d q

  all_distinct-Permᴰ :
      {xs ys : List ProviderCapability}
      → Permᴰ xs ys
      → all_distinct (map digest xs) ≡ all_distinct (map digest ys)
  unfolding all_distinct has_digest
  all_distinct-Permᴰ Permᴰ.nil = refl
  all_distinct-Permᴰ (Permᴰ.cons {a = a} {b = b} {l₁ = xs} {l₂ = ys} e p) =
      rw (e, has_digest-Permᴰ (digest b) p, all_distinct-Permᴰ p) refl
  all_distinct-Permᴰ (Permᴰ.swap {a = a} {b = b} {a' = c} {b' = e} {l = l} p q) =
      ap₂ (λ x y. all_distinct (map digest (x ∷ y ∷ l))) p q
      ∙ swap_distinct (digest e) (digest c) (map digest l)
  all_distinct-Permᴰ (Permᴰ.trans p q) = all_distinct-Permᴰ p ∙ all_distinct-Permᴰ q

  ordered_by_digest-Permᴰ :
      {xs ys : List ProviderCapability}
      → Permᴰ xs ys
      → all_distinct (map digest xs) ≡ true
      → ordered_by_digest digest xs ≡ ordered_by_digest digest ys
  unfolding ordered_by_digest sorted all_distinct has_digest
  ordered_by_digest-Permᴰ Permᴰ.nil h = refl
  ordered_by_digest-Permᴰ (Permᴰ.cons {a = a} {b = b} {l₁ = xs} {l₂ = ys} e p) h =
      rw (e, ordered_by_digest-Permᴰ p (ground arith)) refl
  ordered_by_digest-Permᴰ (Permᴰ.swap {a = a} {b = b} {a' = c} {b' = e} {l = l} p q) h =
      ap₂ (λ x y. ordered_by_digest digest (x ∷ y ∷ l)) p q
      ∙ insert_sorted_comm (λ a b. digest_leb (digest a) (digest b))
          (λ x y z. digest_leb_trans (digest x) (digest y) (digest z)) e c
          (ordered_by_digest digest l)
          (digest_leb-flip (digest e) (digest c) (
            apart (digest e) (digest c) (map digest l)
              (sym (ap₂ (λ x y. all_distinct (map digest (x ∷ y ∷ l))) p q) ∙ h)))
  ordered_by_digest-Permᴰ (Permᴰ.trans p q) h =
      ordered_by_digest-Permᴰ p h ∙ ordered_by_digest-Permᴰ q (sym (all_distinct-Permᴰ p) ∙ h)

module _ (digest : ProviderCapability → List ℕ)
    (requirement_detail : InventoryOp → CudaArch → String)
    (inventory_sha256 : LoweringInventory → List ℕ) where
  -- The order in which the capabilities stand in the registry does not matter: for a permutation of the
  -- registry, `resolve_provider_capabilities` returns the same resolution or raises the same
  -- exception.
  pub resolve_provider_capabilities-Permᴰ :
      (inventory : LoweringInventory) (registry registry' : List ProviderCapability)
      (target_arch : CudaArch) (strict : Bool)
      → Permᴰ registry registry'
      → resolve_provider_capabilities digest requirement_detail inventory_sha256 inventory registry
          target_arch strict
        ≡ resolve_provider_capabilities digest requirement_detail inventory_sha256 inventory
            registry' target_arch strict
  unfolding resolve_provider_capabilities
  resolve_provider_capabilities-Permᴰ inventory registry registry' target_arch strict p =
      elim (Bool-cases (all_distinct (map digest registry))) [
        | inl t ↦ rw (sym (all_distinct-Permᴰ digest p), t, ordered_by_digest-Permᴰ digest p t) refl
        | inr n ↦ rw (sym (all_distinct-Permᴰ digest p), n) refl
      ]
