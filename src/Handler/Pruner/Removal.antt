-- ===== src/Handler/Pruner/Removal.antt =====
-- Removal from a list by swapping with the last entry, as pruner does it in handler/spawner.go.
use mathlib.Core.List.{Memᴰ}
use ezproxy.Base.{
  ℕ, zero, suc, ◌-◌, ◌<◌, ◌≤◌, ◌≡◌, ◌≢◌, refl, subst, ap, none, some, List, [], ◌∷◌, length,
  get_elem?, set, All, arith, Option-cases, ◌⊎◌, inl, inr, length-set,
}
use ezproxy.Handler.Pruner.{last, drop_last, swap_remove, remove_each}

module _ {ℓ} {A : Type ℓ} where
  length-drop_last : (vs : List A) → length (drop_last vs) ≡ length vs - 1
  unfolding drop_last
  length-drop_last [] = refl
  length-drop_last (v ∷ []) = refl
  length-drop_last (v ∷ w ∷ vs) = omega (arith, length-drop_last (w ∷ vs))

  pub get_elem?-drop_last :
      (vs : List A) (j : ℕ) {v : A}
      → get_elem? (drop_last vs) j ≡ some v
      → (get_elem? vs j ≡ some v) × (suc j < length vs)
  unfolding drop_last
  get_elem?-drop_last [] j e = cc
  get_elem?-drop_last (v ∷ []) j e = cc
  get_elem?-drop_last (v ∷ w ∷ vs) zero e = (e, omega arith)
  get_elem?-drop_last (v ∷ w ∷ vs) (suc j) e =
      let (f, l) = get_elem?-drop_last (w ∷ vs) j e in (f, omega arith)

  pub get_elem?-last :
      (vs : List A) (n : ℕ) {v : A} → last vs ≡ some v → length vs ≡ suc n → get_elem? vs n ≡ some v
  unfolding last
  get_elem?-last [] n e l = cc
  get_elem?-last (v ∷ []) zero e l = e
  get_elem?-last (v ∷ []) (suc n) e l = absurd (omega arith)
  get_elem?-last (v ∷ w ∷ vs) zero e l = absurd (omega arith)
  get_elem?-last (v ∷ w ∷ vs) (suc n) e l = get_elem?-last (w ∷ vs) n e (omega arith)

  pub get_elem?-set :
      (vs : List A) (i j : ℕ) (x : A) {v : A}
      → get_elem? (set vs i x) j ≡ some v
      → ((j ≡ i) × (v ≡ x)) ⊎ ((j ≢ i) × (get_elem? vs j ≡ some v))
  get_elem?-set [] i j x e = cc
  get_elem?-set (w ∷ vs) zero zero x e = inl (refl, cc)
  get_elem?-set (w ∷ vs) zero (suc j) x e = inr (omega arith, e)
  get_elem?-set (w ∷ vs) (suc i) zero x e = inr (omega arith, e)
  get_elem?-set (w ∷ vs) (suc i) (suc j) x e = elim (get_elem?-set vs i j x e) [
    | inl (p, q) ↦ inl (omega arith, q)
    | inr (p, q) ↦ inr (omega arith, q)
  ]

  -- One removal: the last entry takes the place of the one that goes.
  pub swap_remove_cases :
      (i : ℕ) (vs ws : List A)
      → swap_remove i vs ≡ some ws
      → (x : A) × (i < length vs) × (last vs ≡ some x) × (ws ≡ drop_last (set vs i x))
  unfolding swap_remove
  swap_remove_cases i vs ws e = elim (Option-cases (last vs)) [
    | inl none_ ↦ absurd (ground arith)
    | inr (x, found) ↦ (x, ground arith, found, ground arith)
  ]

  pub length-swap_remove :
      (i : ℕ) (vs ws : List A) → swap_remove i vs ≡ some ws → length vs ≡ suc (length ws)
  length-swap_remove i vs ws e =
      let (x, l, found, eq) = swap_remove_cases i vs ws e in
      omega (arith, ap length eq, length-drop_last (set vs i x), length-set vs i x)

  -- An index that is out of range before its turn panics, whatever is removed before.
  pub remove_each_out :
      (is : List ℕ) (vs : List A) (j : ℕ) → Memᴰ j is → length vs ≤ j → remove_each is vs ≡ none
  unfolding remove_each
  remove_each_out [] vs j m l = elim m [ ]
  remove_each_out (i ∷ is) vs j m l = elim (Option-cases (swap_remove i vs)) [
    | inl e ↦ rw e refl
    | inr (ws, e) ↦ rw e (
        later i is vs ws j m l e
          (λ k. remove_each_out is ws j k (omega (arith, length-swap_remove i vs ws e))))
  ]
    where
      later :
          (i : ℕ) (is : List ℕ) (vs ws : List A) (j : ℕ)
          → Memᴰ j (i ∷ is)
          → length vs ≤ j
          → swap_remove i vs ≡ some ws
          → (Memᴰ j is → remove_each is ws ≡ none)
          → remove_each is ws ≡ none
      later i is vs ws j (Memᴰ.head p) l e k =
          absurd (omega (arith, (swap_remove_cases i vs ws e).1))
      later i is vs ws j (Memᴰ.tail m) l e k = k m

module _ {A : Type 0} (P : A → Type 0) where
  All-set : (vs : List A) (i : ℕ) (x : A) → P x → All P vs → All P (set vs i x)
  All-set [] i x h a = tt
  All-set (v ∷ vs) zero x h a = (h, a.1)
  All-set (v ∷ vs) (suc i) x h a = (a.0, All-set vs i x h a.1)

  All-drop_last : (vs : List A) → All P vs → All P (drop_last vs)
  unfolding drop_last
  All-drop_last [] a = tt
  All-drop_last (v ∷ []) a = tt
  All-drop_last (v ∷ w ∷ vs) a = (a.0, All-drop_last (w ∷ vs) a.1)

  All-last : (vs : List A) (x : A) → last vs ≡ some x → All P vs → P x
  unfolding last
  All-last [] x e a = absurd (cc e)
  All-last (v ∷ []) x e a = subst P (ground arith) a.0
  All-last (v ∷ w ∷ vs) x e a = All-last (w ∷ vs) x e a.1

  -- What is left after the removals was there before.
  pub remove_each-All :
      (is : List ℕ) (vs zs : List A) → remove_each is vs ≡ some zs → All P vs → All P zs
  unfolding remove_each
  remove_each-All [] vs zs e a = subst (All P) (ground arith) a
  remove_each-All (i ∷ is) vs zs e a = elim (Option-cases (swap_remove i vs)) [
    | inl out ↦ absurd (ground arith)
    | inr (ws, f) ↦
        let (x, l, found, eq) = swap_remove_cases i vs ws f in
        remove_each-All is ws zs (ground arith)
          (rw eq (All-drop_last (set vs i x) (All-set vs i x (All-last vs x found a) a)))
  ]
