-- ===== src/Tests/Access.antt =====
-- Keys and permissions at a concrete table: api/auth.go and api/endpoints.go.
use ezproxy.Base.{arith, ℕ, ◌≡◌, ◌↔◌, refl, true, none, some, ◌∷◌, []}
use ezproxy.Base.Maps.{lookup, insert}
use ezproxy.Api.Http.{Request, pass}
use ezproxy.Api.Hex.{parse_digits, digit_value, parse_uint, print_hex}
use ezproxy.Api.Perms.{Perm, close, make_keys, code, check_permission, create_new_perms}
use ezproxy.Api.Perms.Laws.{needed, create_new_perms_granted}
use ezproxy.Api.Auth.{
  Keys, has_all, get_key, get_auth_values, add_key_int, check_request, draw_key, new_key_int,
  guarded,
}
use ezproxy.Api.Auth.Laws.{IsFresh, Permitted, new_key_int-Returns, check_request-Permitted}
use ezproxy.Api.Keys.{serve_newkey, ep_get_key, make_key}
use ezproxy.Api.Keys.Use.{Opens, serve_newkey-Opens}
use ezproxy.Api.Keys.Laws.{Makes, serve_newkey-Makes}

-- Key 0xa has all permissions, key 0xb may make keys and close.
abbrev two_keys : Keys
two_keys = (10, 0x7f) ∷ (11, 0x22) ∷ []

create_new_perms_granted_example :
    (check_permission 2 (code close) ≡ check_permission 2 (code close))
    × (check_permission 2 (code close) ≡ true → check_permission 0x22 (code close) ≡ true)
unfolding create_new_perms check_permission
create_new_perms_granted_example = create_new_perms_granted 0x22 2 2 close refl

new_key_int-Returns_example :
    (made : ℕ × Keys) × (new_key_int (λ n. some 12) 2 two_keys ≡ some made)
    × IsFresh 2 two_keys made
unfolding lookup
new_key_int-Returns_example =
    new_key_int-Returns (λ n. some 12) 2 two_keys (λ n l. refl) 0 12 (omega arith) refl refl

abbrev asking : Request
asking = record { method = "GET"; key = some (98 ∷ []); perms = some (50 ∷ []) }

check_request-Permitted_example :
    (check_request two_keys (make_keys ∷ []) asking ≡ pass 0x22)
    ↔ Permitted two_keys (make_keys ∷ []) asking 0x22
check_request-Permitted_example = check_request-Permitted two_keys (make_keys ∷ []) asking 0x22

serve_newkey-Makes_example :
    (ours : ℕ) × Permitted two_keys (make_keys ∷ []) asking ours
    × ((p : Perm)
        → check_permission 2 (code p) ≡ true
        → check_permission ours (code (needed p)) ≡ true)
    × Makes two_keys 2 (print_hex 12) (some (insert 12 2 two_keys))
unfolding serve_newkey ep_get_key make_key guarded new_key_int draw_key check_request has_all
    get_auth_values get_key add_key_int lookup parse_uint parse_digits digit_value check_permission
    create_new_perms
serve_newkey-Makes_example =
    serve_newkey-Makes (λ t. some 2) (λ n. some 12) two_keys asking (print_hex 12) 2
      (some (insert 12 2 two_keys)) refl

-- The new key is shown.
abbrev returning : Request
returning = record { method = "GET"; key = some (print_hex 12); perms = none }

serve_newkey-Opens_example : Opens returning 2 (some (insert 12 2 two_keys))
unfolding serve_newkey ep_get_key make_key guarded new_key_int draw_key check_request has_all
    get_auth_values get_key add_key_int lookup parse_uint parse_digits digit_value check_permission
    create_new_perms
serve_newkey-Opens_example =
    serve_newkey-Opens (λ t. some 2) (λ n. some 12) two_keys asking (print_hex 12) 2
      (some (insert 12 2 two_keys)) returning (λ n key e. ground arith) refl refl
