-- ===== src/Handler/Flags.antt =====
-- handler/flags.go. A CapFlags is a uint32.
use Prim.Native.Nat.{bit_and}
use ezproxy.Base.{ℕ, Bool, not, ◌==◌}

abbrev pub to_server : ℕ
to_server = 1

abbrev pub injected : ℕ
injected = 2

-- c & flag != 0
unfoldable pub has_flag : ℕ → ℕ → Bool
has_flag c flag = not (bit_and c flag == 0)

unfoldable pub is_serverbound : ℕ → Bool
unfolding has_flag
is_serverbound c = has_flag c to_server

unfoldable pub is_clientbound : ℕ → Bool
is_clientbound c = bit_and c to_server == 0

unfoldable pub is_injected : ℕ → Bool
unfolding has_flag
is_injected c = has_flag c injected
