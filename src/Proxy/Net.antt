-- ===== src/Proxy/Net.antt =====
-- proxy/util.go, and what the sockets of package net answer.
use text.Mathlib.Text.{◌==◌ as str_eq}
use ezproxy.Base.{Bool, false, ◌&&◌, Option, none, some}
use ezproxy.Errors.{Error}
use ezproxy.Handler.State.{Bytes, Addr, Spawner}

-- err.(net.Error), by what its Timeout() returns; none is any other error.
abbrev pub NetError : Type 0
NetError = Error → Option Bool

-- isTimeoutError
unfoldable pub is_timeout_error : NetError → Option Error → Bool
is_timeout_error net none = false
is_timeout_error net (some e) = elim (net e) [ none ↦ false | some b ↦ b ]

-- compareNetAddr
unfoldable pub compare_net_addr : Addr → Addr → Bool
compare_net_addr left right = str_eq left.network right.network && str_eq left.address right.address

-- ReadFromUDP: what was read, and from where
pub data Datagram : Type 0 where
  arrived : Bytes → Addr → Datagram
  unread : Error → Datagram

-- How a loop that passes packets on has ended so far: it waits for more, its context is over, or it has
-- cancelled the context for a reason.
pub data Ending : Type 0 where
  waits ended : Ending
  cancelled : Error → Ending

-- What other goroutines do to the spawner while a listener blocks.
abbrev pub Meanwhile : Type 0
Meanwhile = Spawner → Spawner
