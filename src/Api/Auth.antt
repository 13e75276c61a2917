-- ===== src/Api/Auth.antt =====
-- authLookup of api/auth.go, and AddAuth of api/api.go. The table maps a key to its permissions.
pub mod Laws
use Prim.Native.Nat.{bit_or}
use Prim.Native.String.{String}
use text.Mathlib.Text.{◌==◌ as str_eq}
use ezproxy.Base.{ℕ, zero, suc, Bool, true, false, Option, none, some, List, [], ◌∷◌, if◌then◌else◌}
use ezproxy.Base.Maps.{lookup, insert}
use ezproxy.Errors.{key_exists, auth_disabled, Result, ok, err}
use ezproxy.Api.Http.{Text, Request, message, Response, json, method_must_be, Checked, pass, refuse}
use ezproxy.Api.Hex.{parse_uint}
use ezproxy.Api.Perms.{Perm, code, check_permission}

abbrev pub Keys : Type 0
Keys = List (ℕ × ℕ)

-- newAuthLookup
abbrev pub new_auth_lookup : Keys
new_auth_lookup = []

-- getKey
unfoldable pub get_key : Request → Checked ℕ
get_key r = elim r.key [
  | none ↦ refuse (json 401 (message "no 'key' query parameter"))
  | some t ↦ elim (parse_uint t) [
    | none ↦ refuse (json 400 (message "invalid 'key' parameter"))
    | some key ↦ pass key
  ]
]

abbrev known : Keys → ℕ → Checked (ℕ × ℕ)
known keys key = elim (lookup key keys) [
  | none ↦ refuse (json 401 (message "unknown api key"))
  | some value ↦ pass (key, value)
]

-- getAuthValues: the key and its permissions
unfoldable pub get_auth_values : Keys → Request → Checked (ℕ × ℕ)
unfolding get_key
get_auth_values keys r = elim (get_key r) [ refuse x ↦ refuse x | pass key ↦ known keys key ]

-- The loop of checkPermission over the required permissions.
unfoldable pub has_all : ℕ → List Perm → Bool
has_all value [] = true
has_all value (p ∷ ps) = if check_permission value (code p) then has_all value ps else false

-- authLookup.checkPermission
unfoldable pub check_request : Keys → List Perm → Request → Checked ℕ
unfolding has_all
check_request keys requires r = elim r.key [
  | none ↦ refuse (json 401 (message "missing 'key' parameter"))
  | some t ↦ elim (parse_uint t) [
    | none ↦ refuse (json 401 (message "invalid 'key' parameter"))
    | some key ↦ elim (lookup key keys) [
      | none ↦ refuse (json 401 (message "unknown api key"))
      | some value ↦
          if has_all value requires
          then pass value
          else refuse (json 403 (message "invalid permissions"))
    ]
  ]
]

-- addKeyInt
unfoldable pub add_key_int : ℕ → ℕ → Keys → Result Keys
add_key_int key perms keys = elim (lookup key keys) [
  | some old ↦ err key_exists
  | none ↦ ok (insert key perms keys)
]

abbrev pub union : List ℕ → ℕ → ℕ
union [] v = v
union (p ∷ ps) v = union ps (bit_or v p)

-- addKey
unfoldable pub add_key : ℕ → List ℕ → Keys → Result Keys
unfolding add_key_int
add_key key perms keys = elim (lookup key keys) [
  | some old ↦ err key_exists
  | none ↦ add_key_int key (union perms 0) keys
]

-- WebApi.AddAuth; without authentication there is no table.
unfoldable pub add_auth : ℕ → List ℕ → Option Keys → Result Keys
unfolding add_key
add_auth key perms none = err auth_disabled
add_auth key perms (some keys) = add_key key perms keys

-- The outcome of a draw: the key is taken over, or it was in use.
abbrev taken : ℕ → Result Keys → Option (ℕ × Keys) → Option (ℕ × Keys)
taken key (ok keys) again = some (key, keys)
taken key (err e) again = again

-- The loop of newKeyInt with the draws that are left; a draw that fails, and the end of the draws,
-- are panics.
unfoldable pub draw_key : (ℕ → Option ℕ) → ℕ → ℕ → Keys → Option (ℕ × Keys)
unfolding add_key_int
draw_key rand zero perms keys = none
draw_key rand (suc left) perms keys =
    let again = draw_key rand left perms keys in
    elim (rand left) [ none ↦ none | some key ↦ taken key (add_key_int key perms keys) again ]

-- newKeyInt: `rand n` is the draw after which n are left.
unfoldable pub new_key_int : (ℕ → Option ℕ) → ℕ → Keys → Option (ℕ × Keys)
new_key_int rand perms keys = draw_key rand 1000 perms keys

-- The handler that addEndpoint registers: the method, then the permissions if there is a table, and
-- only then the endpoint itself.
unfoldable pub guarded {ℓ} :
    {A : Type ℓ} → Option Keys → String → List Perm → Request → A → (Response → A) → A
unfolding check_request
guarded auth method requires r handler answer =
    if str_eq r.method method
    then elim auth [
      | none ↦ handler
      | some keys ↦ elim (check_request keys requires r) [
        | refuse x ↦ answer x
        | pass value ↦ handler
      ]
    ]
    else answer (method_must_be method)
