-- ===== src/Handler/Pruner/Channels.antt =====
-- The second half of pruner, handler/spawner.go: dead receivers are taken out by swapping with the
-- last, at indices found before the first of them was taken out.
use mathlib.Core.List.{Memᴰ}
use ezproxy.Base.{
  ℕ, zero, suc, ◌+◌, ◌<◌, ◌≡◌, ◌≢◌, refl, ap, true, false, none, some, List, [], ◌∷◌, ◌++◌, length,
  get_elem?, set, All, arith, Bool-cases, Option-cases, inl, inr, length-set, length-append,
}
use ezproxy.Context.{Contexts, is_done}
use ezproxy.Handler.State.{RecvChan, Spawner}
use ezproxy.Handler.Pruner.{dead_indices, swap_remove, remove_each, prune_channels}
use ezproxy.Handler.Invariant.{IsValid, IsChannel}
use ezproxy.Handler.Pruner.Removal.{
  get_elem?-drop_last, get_elem?-last, get_elem?-set, swap_remove_cases, length-swap_remove,
  remove_each_out, remove_each-All,
}

-- Every dead receiver stands at one of the indices.
abbrev Covers : Contexts → List ℕ → List RecvChan → Type 0
Covers s is vs =
    (j : ℕ) (v : RecvChan) → get_elem? vs j ≡ some v → is_done s v.ctx ≡ true → Memᴰ j is

abbrev IsAlive : Contexts → RecvChan → Type 0
IsAlive s v = is_done s v.ctx ≡ false

dead_indices-mem :
    (s : Contexts) (i : ℕ) (vs : List RecvChan) (j k : ℕ) (v : RecvChan)
    → get_elem? vs j ≡ some v
    → is_done s v.ctx ≡ true
    → k ≡ i + j
    → Memᴰ k (dead_indices s i vs)
unfolding dead_indices
dead_indices-mem s i [] j k v e d l = cc
dead_indices-mem s i (w ∷ vs) zero k v e d l =
    let dead : is_done s w.ctx ≡ true = ground arith in rw dead (Memᴰ.head (omega arith))
dead_indices-mem s i (w ∷ vs) (suc j) k v e d l =
    let m = dead_indices-mem s (i + 1) vs j k v e d (omega arith) in
    elim (Bool-cases (is_done s w.ctx)) [ inl dead ↦ rw dead (Memᴰ.tail m) | inr live ↦ rw live m ]

mem-tail : (j i : ℕ) (is : List ℕ) → Memᴰ j (i ∷ is) → j ≢ i → Memᴰ j is
mem-tail j i is (Memᴰ.head p) n = absurd (n p)
mem-tail j i is (Memᴰ.tail m) n = m

Covers-swap_remove :
    (s : Contexts) (i : ℕ) (is : List ℕ) (vs ws zs : List RecvChan)
    → Covers s (i ∷ is) vs
    → swap_remove i vs ≡ some ws
    → remove_each is ws ≡ some zs
    → Covers s is ws
Covers-swap_remove s i is vs ws zs c e r j v at dead =
    let (x, l, found, eq) = swap_remove_cases i vs ws e in
    let shrunk = length-swap_remove i vs ws e in
    let (in_set, inside) = get_elem?-drop_last (set vs i x) j (rw eq at at) in
    let near : suc j < length vs = omega (arith, inside, length-set vs i x) in
    elim (get_elem?-set vs i j x in_set) [
      | inr (apart, there) ↦ mem-tail j i is (c j v there dead) apart
      | inl (here, moved) ↦
          let final = get_elem?-last vs (length ws) found shrunk in
          let m =
            mem-tail (length ws) i is (c (length ws) x final (ground (arith, moved, dead)))
              (omega arith) in
          absurd (cc (remove_each_out is ws (length ws) m (omega arith)))
    ]

All-get {ℓ} :
    {A : Type ℓ} (P : A → Type 0) (vs : List A)
    → ((j : ℕ) (v : A) → get_elem? vs j ≡ some v → P v)
    → All P vs
All-get P [] f = tt
All-get P (v ∷ vs) f = (f zero v refl, All-get P vs (λ j w e. f (suc j) w e))

mem-nil : {j : ℕ} → Memᴰ j [] → ⊥
mem-nil m = elim m [ ]

Covers-nil : (s : Contexts) (vs : List RecvChan) → Covers s [] vs → All (IsAlive s) vs
Covers-nil s vs c = All-get (IsAlive s) vs λ j v e. elim (Bool-cases (is_done s v.ctx)) [
  | inl dead ↦ absurd (mem-nil (c j v e dead))
  | inr live ↦ live
]

remove_each_live :
    (s : Contexts) (is : List ℕ) (vs zs : List RecvChan)
    → Covers s is vs
    → remove_each is vs ≡ some zs
    → All (IsAlive s) zs × (length zs + length is ≡ length vs)
unfolding remove_each
remove_each_live s [] vs zs c e =
    let same : vs ≡ zs = ground arith in
    (rw (← same) (Covers-nil s vs c), omega (arith, ap length same))
remove_each_live s (i ∷ is) vs zs c e = elim (Option-cases (swap_remove i vs)) [
  | inl out ↦ absurd (ground arith)
  | inr (ws, f) ↦
      let e' : remove_each is ws ≡ some zs = ground arith in
      let (live, total) =
        remove_each_live s is ws zs (Covers-swap_remove s i is vs ws zs c f e') e' in
      (live, omega (arith, length-swap_remove i vs ws f))
]

-- When the pruner does not panic, exactly as many receivers go as were dead, and all that stay are
-- alive.
pub prune_channels_live :
    (p q : Spawner)
    → prune_channels p ≡ some q
    → All (λ v. is_done q.contexts v.ctx ≡ false) q.rc_chan
      × (length q.rc_chan + length (dead_indices p.contexts 0 p.rc_chan) ≡ length p.rc_chan)
unfolding prune_channels
prune_channels_live p q e = elim (Option-cases (remove_each dead p.rc_chan)) [
  | inl out ↦ absurd (ground arith)
  | inr (zs, f) ↦
      let e' : record p { rc_chan = zs } ≡ q = ground arith in
      rw (← e') (
        remove_each_live p.contexts dead p.rc_chan zs
          (λ j v at d. dead_indices-mem p.contexts 0 p.rc_chan j j v at d (omega arith)) f)
]
  where
    dead : List ℕ
    dead = dead_indices p.contexts 0 p.rc_chan

dead_indices-last :
    (s : Contexts) (i : ℕ) (vs : List RecvChan) (v : RecvChan)
    → is_done s v.ctx ≡ true
    → dead_indices s i (vs ++ v ∷ []) ≡ dead_indices s i vs ++ (i + length vs) ∷ []
unfolding dead_indices
dead_indices-last s i [] v d = ground arith
dead_indices-last s i (w ∷ vs) v d = ground (arith, dead_indices-last s (i + 1) vs v d)

mem_last : (is : List ℕ) (j : ℕ) → Memᴰ j (is ++ j ∷ [])
mem_last [] j = Memᴰ.head refl
mem_last (i ∷ is) j = Memᴰ.tail (mem_last is j)

remove_each_panics :
    (is : List ℕ) (vs : List RecvChan) (j n : ℕ)
    → Memᴰ j is
    → length vs ≡ suc n
    → remove_each (is ++ n ∷ []) vs ≡ none
unfolding remove_each
remove_each_panics [] vs j n m l = absurd (mem-nil m)
remove_each_panics (i ∷ is) vs j n m l = elim (Option-cases (swap_remove i vs)) [
  | inl out ↦ rw out refl
  | inr (ws, f) ↦ rw f (
      remove_each_out (is ++ n ∷ []) ws n (mem_last is n)
        (omega (arith, length-swap_remove i vs ws f)))
]

-- The pruner panics, with an index out of range, whenever the last receiver is dead and so is
-- another one.
pub prune_channels_panics :
    (p : Spawner) (vs : List RecvChan) (u v : RecvChan) (j : ℕ)
    → p.rc_chan ≡ vs ++ v ∷ []
    → is_done p.contexts v.ctx ≡ true
    → get_elem? vs j ≡ some u
    → is_done p.contexts u.ctx ≡ true
    → prune_channels p ≡ none
unfolding prune_channels
prune_channels_panics p vs u v j e d f d' =
    let last_too = dead_indices-last p.contexts 0 vs v d in
    let m = dead_indices-mem p.contexts 0 vs j j u f d' (omega arith) in
    let n : 0 + length vs ≡ length vs = omega arith in
    let out =
      remove_each_panics (dead_indices p.contexts 0 vs) (vs ++ v ∷ []) j (length vs) m
        (omega (arith, length-append vs (v ∷ []))) in
    rw (e, last_too, n, out) refl

-- The receivers that stay keep the spawner valid.
pub prune_channels-IsValid :
    (p q : Spawner)
    → IsValid p
    → prune_channels p ≡ some q
    → IsValid q × (q.connections ≡ p.connections) × (q.wg ≡ p.wg)
unfolding prune_channels
prune_channels-IsValid p q v e =
    elim (Option-cases (remove_each (dead_indices p.contexts 0 p.rc_chan) p.rc_chan)) [
      | inl out ↦ absurd (ground arith)
      | inr (zs, f) ↦
          let e' : record p { rc_chan = zs } ≡ q = ground arith in
          rw (← e') (
            record {
              tree = v.tree;
              rooted = v.rooted;
              fresh = v.fresh;
              located = v.located;
              distinct = v.distinct;
              linked = v.linked;
              filter_made = v.filter_made;
              housed = v.housed;
              channels = remove_each-All (IsChannel p.contexts) _ p.rc_chan zs f v.channels;
              counted = v.counted;
            },
            refl,
            refl,
          )
    ]
