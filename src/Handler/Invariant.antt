-- ===== src/Handler/Invariant.antt =====
-- What holds of a spawner between two calls.
pub mod Frame
use ezproxy.Base.{
  ℕ, ◌<◌, ◌≤◌, ◌≡◌, Bool, true, Option, none, some, List, [], ◌∷◌, length, get_elem?, All, is_some,
}
use ezproxy.Base.Maps.{lookup}
use ezproxy.Context.{Contexts, is_done, IsTree}
use ezproxy.Handler.State.{Container, RecvChan, Spawner}

abbrev pub id_at : List Container → ℕ → Option ℕ
id_at cs h = elim (get_elem? cs h) [ none ↦ none | some c ↦ some c.id ]

-- The keys of a Go map are distinct.
abbrev pub IsMap : List (ℕ × ℕ) → Type 0
IsMap [] = Unit {0}
IsMap ((k, h) ∷ m) = (lookup k m ≡ none) × IsMap m

-- A receiver whose channel is closed has a dead context.
abbrev pub IsChannel : Contexts → RecvChan → Type 0
IsChannel s v = (v.ctx < length s) × (v.closed ≡ true → is_done s v.ctx ≡ true)

abbrev pub IsMade : Contexts → Option ℕ → Type 0
IsMade s none = Unit {0}
IsMade s (some c) = c < length s

pub record IsValid (p : Spawner) : Type 0 where
  pub tree : IsTree p.contexts
  pub rooted : p.context < length p.contexts
  pub fresh : All (λ e. e.0 < p.current_id) p.connections
  pub located : All (λ e. id_at p.containers e.1 ≡ some e.0) p.connections
  pub distinct : IsMap p.connections
  pub linked : is_some p.send_callback ≡ true → is_some p.callback_ctx ≡ true
  pub filter_made : IsMade p.contexts p.callback_ctx
  pub housed : All (λ c. c.ctx < length p.contexts) p.containers
  pub channels : All (IsChannel p.contexts) p.rc_chan
  pub counted : length p.connections ≤ p.wg
