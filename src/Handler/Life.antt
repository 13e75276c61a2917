-- ===== src/Handler/Life.antt =====
-- The life of one connection, as the users of a ProxySpawner see it by its id: what the table, and the
-- context of the container, of handler/spawner.go and handler/proxy.go come to.
pub mod Ageing
pub mod Moves
pub mod Quiet
pub mod Births
pub mod Growth
pub mod Laws
use ezproxy.Base.{ℕ, Option, none, some, ltb, if◌then◌else◌}
use ezproxy.Base.Maps.{lookup}
use ezproxy.Handler.State.{Spawner}
use ezproxy.Handler.Container.{is_alive}

-- Not yet given out, given out to a live connection or to a dead one, and taken off the table.
pub data Stage : Type 0 where
  unborn alive dead removed : Stage

abbrev of_place : Spawner → Option ℕ → Stage
of_place p none = removed
of_place p (some h) = if is_alive p h then alive else dead

-- The stage of the connection with the id
abbrev pub stage : ℕ → Spawner → Stage
stage id p = if ltb id p.current_id then of_place p (lookup id p.connections) else unborn

-- The moves of the abstract machine: no stage is left out, and none comes back.
pub data Move : Stage → Stage → Type 0 where
  rests : {s : Stage} → Move s s
  is_born : Move unborn alive
  dies : Move alive dead
  leaves : Move dead removed

-- Its runs
pub data Run (s : Stage) : Stage → Type 0 where
  begin : Run s s
  then_ : {t u : Stage} → Run s t → Move t u → Run s u
