-- ===== src/Api/Keys.antt =====
-- The endpoints that give out and show keys, api/endpoints.go: epGetKey and epGetAuthValue.
pub mod Laws
pub mod Use
use ezproxy.Base.{ℕ, Bool, true, false, Option, none, some, List, [], ◌∷◌, ◌==◌, if◌then◌else◌}
use ezproxy.Api.Http.{
  Text, Request, AuthValue, message, new_key, auth_value, lacking_permission, Response, json, pass,
  refuse,
}
use ezproxy.Api.Hex.{print_hex}
use ezproxy.Api.Perms.{
  check_status, close, use_websocket, filter, inject, make_keys, duplicate_keys, code, auth_all,
  check_permission, granted, lacking, create_new_perms,
}
use ezproxy.Api.Auth.{Keys, get_auth_values, new_key_int, guarded}

-- strconv.ParseInt(s, 0, 64), as the 64-bit pattern of its result
abbrev pub ParseInt : Type 0
ParseInt = Text → Option ℕ

-- The end of epGetKey, once the permissions are settled. None is a panic of newKeyInt.
unfoldable pub make_key : (ℕ → Option ℕ) → ℕ → Keys → Option (Response × Option Keys)
make_key rand perms keys =
    if perms == 0
    then some (json 400 (message "no permissions were added"), some keys)
    else elim (new_key_int rand perms keys) [
      | none ↦ none
      | some (key, keys') ↦ some (json 200 (new_key (print_hex key) perms), some keys')
    ]

-- epGetKey
unfoldable pub ep_get_key :
    ParseInt → (ℕ → Option ℕ) → Option Keys → Request → Option (Response × Option Keys)
unfolding make_key
ep_get_key parse_int rand none r = some (json 204 (message "Authentication is disabled"), none)
ep_get_key parse_int rand (some keys) r = elim r.perms [
  | none ↦ some (json 400 (message "requires 'perms' field"), some keys)
  | some t ↦ elim (parse_int t) [
    | none ↦ some (json 400 (message "invalid perms field"), some keys)
    | some desired ↦ elim (get_auth_values keys r) [
      | refuse x ↦ some (x, some keys)
      | pass (key, ours) ↦ elim (create_new_perms ours desired) [
        | lacking p ↦ some (json 403 (lacking_permission p), some keys)
        | granted v ↦ make_key rand v keys
      ]
    ]
  ]
]

-- The endpoint newkey as NewWebApi registers it.
unfoldable pub serve_newkey :
    ParseInt → (ℕ → Option ℕ) → Option Keys → Request → Option (Response × Option Keys)
unfolding ep_get_key guarded
serve_newkey parse_int rand auth r =
    guarded auth "GET" (make_keys ∷ []) r (ep_get_key parse_int rand auth r) (λ x. some (x, auth))

-- epGetAuthValue
unfoldable pub ep_get_auth_value : Option Keys → Request → Response
ep_get_auth_value none r = json 204 (message "Authentication is disabled")
ep_get_auth_value (some keys) r = elim (get_auth_values keys r) [
  | refuse x ↦ x
  | pass (key, value) ↦ json 200 (
      auth_value (record {
        value = value;
        check_status = check_permission value (code check_status);
        close = check_permission value (code close);
        use_websocket = check_permission value (code use_websocket);
        filter = check_permission value (code filter);
        inject = check_permission value (code inject);
        make_keys = check_permission value (code make_keys);
        duplicate_keys = check_permission value (code duplicate_keys);
        admin = value == auth_all;
      }))
]
