-- ===== src/Context/Laws.antt =====
-- What the cancel functions of package context promise, proved of the model in Context.
use ezproxy.Base.{
  ◌⊎◌, ℕ, ◌<◌, ◌≤◌, ◌≡◌, refl, true, Option, none, some, [], ◌∷◌, ◌==◌, if◌then◌else◌, length,
  arith, inl, inr, Option-cases,
}
use ezproxy.Errors.{Error}
use ezproxy.Context.{Contexts, cause_of, is_done, with_cancel, cancel, is_under, IsTree}

pub length-cancel : (s : Contexts) (c : ℕ) (e : Error) → length (cancel s c e) ≡ length s
unfolding cancel
length-cancel [] c e = refl
length-cancel (n ∷ s) c e = ground (arith, length-cancel s c e)

cause_of_above : (s : Contexts) (c : ℕ) → length s ≤ c → cause_of s c ≡ none
unfolding cause_of
cause_of_above [] c h = refl
cause_of_above (n ∷ s) c h = ground (arith, cause_of_above s c)

-- What a cancel leaves as the cause of a context.
abbrev pub after_cancel : Contexts → ℕ → Error → ℕ → Option Error
after_cancel s c e d = elim (cause_of s d) [
  | some old ↦ some old
  | none ↦ if is_under s c d then some e else none
]

-- In a tree of contexts a cancel reaches exactly the context and its descendants, and gives them its
-- cause; one that was cancelled before keeps the cause that it had.
pub cause_of-cancel :
    (s : Contexts) (c d : ℕ) (e : Error)
    → IsTree s
    → cause_of (cancel s c e) d ≡ after_cancel s c e d
unfolding cancel cause_of is_under
cause_of-cancel [] c d e t = refl
cause_of-cancel (n ∷ s) c d e t = elim (Option-cases n.parent) [
  | inl root ↦ ground (arith, length-cancel s c e, cause_of-cancel s c d e t.1)
  | inr (p, child) ↦
      ground (arith, length-cancel s c e, cause_of-cancel s c d e t.1, cause_of-cancel s c p e t.1)
]

pub cancel-IsTree : (s : Contexts) (c : ℕ) (e : Error) → IsTree s → IsTree (cancel s c e)
unfolding cancel cause_of
cancel-IsTree [] c e t = tt
cancel-IsTree (n ∷ s) c e t = elim (Option-cases n.parent) [
  | inl root ↦ ground (arith, cancel-IsTree s c e t.1)
  | inr (p, child) ↦
      ground (arith, cancel-IsTree s c e t.1, length-cancel s c e, cause_of-cancel s c p e t.1)
]

pub with_cancel-IsTree :
    (s : Contexts) (p : ℕ) → IsTree s → p < length s → IsTree (with_cancel s p).0
unfolding with_cancel
with_cancel-IsTree s p t h = ground arith

-- A new context is cancelled at once when its parent is, and no other context changes.
pub cause_of-with_cancel :
    (s : Contexts) (p d : ℕ)
    → cause_of (with_cancel s p).0 d ≡ (if d == length s then cause_of s p else cause_of s d)
unfolding with_cancel cause_of
cause_of-with_cancel s p d = refl

pub is_done-lt : (s : Contexts) (c : ℕ) → is_done s c ≡ true → c < length s
unfolding is_done cause_of
is_done-lt [] c h = cc
is_done-lt (n ∷ s) c h = ground (arith, is_done-lt s c)

is_under_self : (s : Contexts) (c : ℕ) → c < length s → is_under s c c ≡ true
unfolding is_under
is_under_self [] c h = elim h [ ]
is_under_self (n ∷ s) c h = ground (arith, is_under_self s c)

-- A cancelled context is done.
pub is_done-cancel_self :
    (s : Contexts) (c : ℕ) (e : Error) → IsTree s → c < length s → is_done (cancel s c e) c ≡ true
unfolding is_done
is_done-cancel_self s c e t h = ground (arith, cause_of-cancel s c c e t, is_under_self s c h)

-- A cancel brings no context back to life.
pub is_done-cancel_mono :
    (s : Contexts) (c d : ℕ) (e : Error)
    → IsTree s
    → is_done s d ≡ true
    → is_done (cancel s c e) d ≡ true
unfolding is_done
is_done-cancel_mono s c d e t h = ground (arith, cause_of-cancel s c d e t)

-- The child of a context is cancelled with it, for the same reason.
pub child-cancelled :
    (s : Contexts) (p : ℕ) (e : Error)
    → IsTree s
    → p < length s
    → cause_of s p ≡ none
    → cause_of (cancel (with_cancel s p).0 p e) (with_cancel s p).1 ≡ some e
unfolding with_cancel is_under cause_of
child-cancelled s p e t h live = ground (
  arith,
  cause_of-cancel (with_cancel s p).0 p (length s) e (with_cancel-IsTree s p t h),
  is_under_self s p h,
)

-- To cancel what is cancelled, or what does not exist, changes nothing.
pub cancel_idle :
    (s : Contexts) (c : ℕ) (e : Error)
    → IsTree s
    → (is_done s c ≡ true) ⊎ (length s ≤ c)
    → cancel s c e ≡ s
unfolding cancel cause_of is_done
cancel_idle [] c e t h = refl
cancel_idle (n ∷ s) c e t h = elim (Option-cases n.parent) [
  | inl root ↦ ground (arith, cancel_idle s c e t.1)
  | inr (p, child) ↦ ground (arith, cancel_idle s c e t.1)
]

pub cancel_done :
    (s : Contexts) (c : ℕ) (e : Error) → IsTree s → is_done s c ≡ true → cancel s c e ≡ s
cancel_done s c e t h = cancel_idle s c e t (inl h)
