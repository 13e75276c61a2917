-- ===== src/Context.antt =====
-- The contexts of Go's package context, as the program uses them: WithCancelCause, WithCancel, the
-- cancel functions, Err and Cause. A context is named by the number of contexts made before it.
pub mod Laws
use ezproxy.Base.{
  ℕ, ◌<◌, Bool, true, false, ◌≡◌, ◌||◌, Option, none, some, List, [], ◌∷◌, ◌==◌, if◌then◌else◌,
  length, is_some,
}
use ezproxy.Errors.{Error, canceled}

-- `parent` is absent in a root; `cause` is there once the context is cancelled.
pub record Node : Type 0 where
  pub parent : Option ℕ
  pub cause : Option Error

-- The newest context first.
abbrev pub Contexts : Type 0
Contexts = List Node

-- context.Cause(c); none while c.Err() is nil
unfoldable pub cause_of : Contexts → ℕ → Option Error
cause_of [] c = none
cause_of (n ∷ s) c = if c == length s then n.cause else cause_of s c

-- c.Err() != nil
unfoldable pub is_done : Contexts → ℕ → Bool
is_done s c = is_some (cause_of s c)

abbrev pub parent_cause : Contexts → Option ℕ → Option Error
parent_cause s none = none
parent_cause s (some p) = cause_of s p

-- context.WithCancelCause(p): a child of a cancelled context is born cancelled.
unfoldable pub with_cancel : Contexts → ℕ → Contexts × ℕ
with_cancel s p = (record { parent = some p; cause = cause_of s p } ∷ s, length s)

-- What becomes of one context: it keeps its cause, is the one cancelled, or follows its parent.
abbrev settle : Node → Bool → Error → Option Error → Option Error
settle n is_target e above = elim n.cause [
  | some old ↦ some old
  | none ↦ if is_target then some e else above
]

-- cancel(e): the context and its descendants that are not yet cancelled get the cause `e`.
unfoldable pub cancel : Contexts → ℕ → Error → Contexts
cancel [] c e = []
cancel (n ∷ s) c e =
    let s' = cancel s c e in
    record n { cause = settle n (c == length s) e (parent_cause s' n.parent) } ∷ s'

-- c is d, or an ancestor of d
pub is_under : Contexts → ℕ → ℕ → Bool
is_under [] c d = false
is_under (n ∷ s) c d =
    if d == length s
    then (d == c || elim n.parent [ none ↦ false | some p ↦ is_under s c p ])
    else is_under s c d

abbrev IsChild : Option ℕ → Option Error → Contexts → Type 0
IsChild none cause s = Unit {0}
IsChild (some p) cause s = (p < length s) × (is_some (cause_of s p) ≡ true → is_some cause ≡ true)

-- A parent is older than its child, and a child of a cancelled context is cancelled.
abbrev pub IsTree : Contexts → Type 0
IsTree [] = Unit {0}
IsTree (n ∷ s) = IsChild n.parent n.cause s × IsTree s
