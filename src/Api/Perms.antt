-- ===== src/Api/Perms.antt =====
-- The permissions of api/auth.go and the rules of api/endpoints.go for giving them to a new key. A
-- set of permissions is an int, held as its 64-bit pattern.
pub mod Laws
use Prim.Native.Nat.{bit_and, bit_or}
use ezproxy.Base.{ℕ, Bool, true, false, not, ◌==◌, if◌then◌else◌}

-- The permissions that the program names.
pub data Perm : Type 0 where
  check_status close use_websocket filter inject make_keys duplicate_keys : Perm

-- AuthCanCheckStatus … AuthCanDuplicateKeys
abbrev pub code : Perm → ℕ
code check_status = 0x01
code close = 0x02
code use_websocket = 0x04
code filter = 0x08
code inject = 0x10
code make_keys = 0x20
code duplicate_keys = 0x40

-- AuthAll
abbrev pub auth_all : ℕ
auth_all = 0xfff_ffff_ffff_ffff

-- checkPermission
unfoldable pub check_permission : ℕ → ℕ → Bool
check_permission val c = not (bit_and val c == 0)

unfoldable pub is_valid_creation_perm : ℕ → ℕ → ℕ → ℕ → ℕ × Bool
is_valid_creation_perm current user desired perm =
    if check_permission desired perm
    then (if check_permission user perm then (bit_or current perm, true) else (0, false))
    else (current, true)

-- The permissions of a new key, or the permission whose name stands in the error.
pub data Granted : Type 0 where
  granted : ℕ → Granted
  lacking : Perm → Granted

infixl 5 ◌>>=◌
abbrev ◌>>=◌ : Granted → (ℕ → Granted) → Granted
granted v >>= f = f v
lacking p >>= f = lacking p

-- if !ok { return 0, errors.New(…) }
abbrev pub or_lacking : ℕ × Bool → Perm → Granted
or_lacking (v, ok) p = if ok then granted v else lacking p

-- The special case of AuthCanMakeKeys.
unfoldable pub with_make_keys : ℕ → ℕ → ℕ → Granted
with_make_keys value user desired =
    if check_permission desired (code make_keys)
    then (if check_permission user (code duplicate_keys)
        then granted (bit_or value (code make_keys))
        else lacking make_keys)
    else granted value

-- The last error names AuthCanInject, as the source does.
unfoldable pub create_new_perms : ℕ → ℕ → Granted
unfolding is_valid_creation_perm with_make_keys
create_new_perms user desired = do
  a ← or_lacking (is_valid_creation_perm 0 user desired (code check_status)) check_status
  b ← or_lacking (is_valid_creation_perm a user desired (code close)) close
  c ← or_lacking (is_valid_creation_perm b user desired (code use_websocket)) use_websocket
  d ← or_lacking (is_valid_creation_perm c user desired (code filter)) filter
  e ← or_lacking (is_valid_creation_perm d user desired (code inject)) inject
  f ← with_make_keys e user desired
  or_lacking (is_valid_creation_perm f user desired (code duplicate_keys)) inject
