-- ===== src/Api/Keys/Use.antt =====
-- A key that newkey gives out is of use: api/endpoints.go and api/auth.go.
use text.Mathlib.Text.{◌==◌ as str_eq}
use ezproxy.Base.{
  ℕ, ◌<◌, ◌≡◌, Bool-cases, Option-cases, inl, inr, Option, some, [], ◌∷◌, ◌==◌, arith, Returns, ap,
  ◌∙◌,
}
use ezproxy.Base.Maps.{lookup}
use ezproxy.Handler.State.{word}
use ezproxy.Api.Http.{Text, Request, new_key, json, pass}
use ezproxy.Api.Hex.{print_hex, parse_uint-print_hex}
use ezproxy.Api.Perms.{make_keys, create_new_perms}
use ezproxy.Api.Auth.{Keys, check_request, get_key, get_auth_values, new_key_int, guarded}
use ezproxy.Api.Auth.Laws.{IsFresh, new_key_int-IsFresh, new_key_int-bound, check_request-refuse}
use ezproxy.Api.Keys.{ParseInt, make_key, ep_get_key, serve_newkey}
use ezproxy.Api.Keys.Laws.{Checked-cases, Granted-cases, get_auth_values-status}

-- A request that shows the text of a key of the table.
get_auth_values-print_hex :
    (keys : Keys) (later : Request) (key v : ℕ)
    → key < word
    → lookup key keys ≡ some v
    → later.key ≡ some (print_hex key)
    → get_auth_values keys later ≡ pass (key, v)
unfolding get_auth_values get_key
get_auth_values-print_hex keys later key v l m k = ground (arith, parse_uint-print_hex key l)

-- The table that is left lets a request in that shows the text, with these permissions.
abbrev pub Opens : Request → ℕ → Option Keys → Type 0
Opens later v auth' =
    Returns auth' (λ keys'. (key : ℕ) × (get_auth_values keys' later ≡ pass (key, v)))

IsFresh-there :
    (perms : ℕ) (keys : Keys) (key : ℕ) (keys' : Keys)
    → IsFresh perms keys (key, keys')
    → lookup key keys' ≡ some perms
unfolding IsFresh
IsFresh-there perms keys key keys' f = f.1

make_key-Opens :
    (rand : ℕ → Option ℕ) (perms v : ℕ) (keys : Keys) (t : Text) (auth' : Option Keys)
    (later : Request)
    → ((n key : ℕ) → rand n ≡ some key → key < word)
    → make_key rand perms keys ≡ some (json 200 (new_key t v), auth')
    → later.key ≡ some t
    → Opens later v auth'
unfolding make_key
make_key-Opens rand perms v keys t auth' later l h k = elim (Bool-cases (perms == 0)) [
  | inl a ↦ absurd (ground arith)
  | inr a ↦ elim (Option-cases (new_key_int rand perms keys)) [
    | inl b ↦ absurd (ground arith)
    | inr ((key, keys'), b) ↦
        let left : auth' ≡ some keys' = ground arith in
        let text : t ≡ print_hex key = ground arith in
        let same : v ≡ perms = ground arith in
        let fresh = new_key_int-IsFresh rand perms keys (key, keys') b in
        let small = new_key_int-bound rand word perms keys (key, keys') l b in
        let there : lookup key keys' ≡ some v =
          rw same (IsFresh-there perms keys key keys' fresh) in
        rw left (key, get_auth_values-print_hex keys' later key v small there (k ∙ ap some text))
  ]
]

ep_get_key-Opens :
    (parse_int : ParseInt) (rand : ℕ → Option ℕ) (keys : Keys) (r : Request) (t : Text) (v : ℕ)
    (auth' : Option Keys) (later : Request)
    → ((n key : ℕ) → rand n ≡ some key → key < word)
    → ep_get_key parse_int rand (some keys) r ≡ some (json 200 (new_key t v), auth')
    → later.key ≡ some t
    → Opens later v auth'
unfolding ep_get_key
ep_get_key-Opens parse_int rand keys r t v auth' later l h k = elim (Option-cases r.perms) [
  | inl a ↦ absurd (ground arith)
  | inr (s, a) ↦ elim (Option-cases (parse_int s)) [
    | inl b ↦ absurd (ground arith)
    | inr (desired, b) ↦ elim (Checked-cases (get_auth_values keys r)) [
      | inr (x, c) ↦ absurd (ground (arith, get_auth_values-status keys r x c))
      | inl ((key, ours), c) ↦ elim (Granted-cases (create_new_perms ours desired)) [
        | inr (p, d) ↦ absurd (ground arith)
        | inl (w, d) ↦ make_key-Opens rand w v keys t auth' later l (ground arith) k
      ]
    ]
  ]
]

-- A key that newkey gives out is of use: a later request that shows its text is let in by getAuthValues
-- with exactly the permissions that the reply named, if the random draws are 64-bit numbers.
pub serve_newkey-Opens :
    (parse_int : ParseInt) (rand : ℕ → Option ℕ) (keys : Keys) (r : Request) (t : Text) (v : ℕ)
    (auth' : Option Keys) (later : Request)
    → ((n key : ℕ) → rand n ≡ some key → key < word)
    → serve_newkey parse_int rand (some keys) r ≡ some (json 200 (new_key t v), auth')
    → later.key ≡ some t
    → Opens later v auth'
unfolding serve_newkey guarded
serve_newkey-Opens parse_int rand keys r t v auth' later l h k =
    elim (Bool-cases (str_eq r.method "GET")) [
      | inr a ↦ absurd (ground arith)
      | inl a ↦ elim (Checked-cases (check_request keys (make_keys ∷ []) r)) [
        | inr (x, b) ↦ absurd (ground (arith, check_request-refuse keys (make_keys ∷ []) r x b))
        | inl (ours, b) ↦ ep_get_key-Opens parse_int rand keys r t v auth' later l (ground arith) k
      ]
    ]
