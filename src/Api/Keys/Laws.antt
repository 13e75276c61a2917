-- ===== src/Api/Keys/Laws.antt =====
-- What the endpoint newkey gives out, api/endpoints.go.
use text.Mathlib.Text.{◌==◌ as str_eq}
use ezproxy.Base.{
  ℕ, ◌≡◌, ◌≢◌, refl, sym, ap, ◌∙◌, true, Option, none, some, [], ◌∷◌, ◌==◌, ◌⊎◌, inl, inr,
  Bool-cases, Option-cases, arith,
}
use ezproxy.Base.Maps.{lookup}
use ezproxy.Api.Http.{Text, Request, new_key, Response, json, status, Checked, pass, refuse}
use ezproxy.Api.Hex.{parse_uint, print_hex}
use ezproxy.Api.Perms.{
  Perm, make_keys, code, check_permission, Granted, granted, lacking, create_new_perms,
}
use ezproxy.Api.Perms.Laws.{needed, create_new_perms_granted}
use ezproxy.Api.Auth.{Keys, check_request, get_key, get_auth_values, new_key_int, guarded}
use ezproxy.Api.Auth.Laws.{
  IsFresh, Permitted, check_request-Permitted, check_request-refuse, new_key_int-IsFresh,
}
use ezproxy.Api.Keys.{ParseInt, make_key, ep_get_key, serve_newkey}

pub Checked-cases :
    {A : Type 0} (c : Checked A) → ((a : A) × (c ≡ pass a)) ⊎ ((x : Response) × (c ≡ refuse x))
Checked-cases (pass a) = inl (a, refl)
Checked-cases (refuse x) = inr (x, refl)

pub Granted-cases : (g : Granted) → ((v : ℕ) × (g ≡ granted v)) ⊎ ((p : Perm) × (g ≡ lacking p))
Granted-cases (granted v) = inl (v, refl)
Granted-cases (lacking p) = inr (p, refl)

-- The table that a request leaves behind when it makes a key.
abbrev pub Makes : Keys → ℕ → Text → Option Keys → Type 0
Makes keys v t auth' =
    (key : ℕ) × (keys' : Keys) × (auth' ≡ some keys')
    × (t ≡ print_hex key)
    × IsFresh v keys (key, keys')

make_key-Makes :
    (rand : ℕ → Option ℕ) (perms v : ℕ) (keys : Keys) (t : Text) (auth' : Option Keys)
    → make_key rand perms keys ≡ some (json 200 (new_key t v), auth')
    → (v ≡ perms) × Makes keys v t auth'
unfolding make_key
make_key-Makes rand perms v keys t auth' h = elim (Bool-cases (perms == 0)) [
  | inl a ↦ ground arith
  | inr a ↦ elim (Option-cases (new_key_int rand perms keys)) [
    | inl b ↦ ground arith
    | inr ((key, keys'), b) ↦
        let e : v ≡ perms = ground arith in
        (
          e,
          (
            key,
            keys',
            ground arith,
            ground arith,
            rw e (new_key_int-IsFresh rand perms keys (key, keys') b),
          ),
        )
  ]
]

-- The key of a request that getAuthValues accepts stands in the table.
get_auth_values_sound :
    (keys : Keys) (r : Request) (key ours : ℕ)
    → get_auth_values keys r ≡ pass (key, ours)
    → (t : Text) × (r.key ≡ some t) × (parse_uint t ≡ some key) × (lookup key keys ≡ some ours)
unfolding get_auth_values get_key
get_auth_values_sound keys r key ours h = elim (Option-cases r.key) [
  | inl a ↦ ground arith
  | inr (t, a) ↦ elim (Option-cases (parse_uint t)) [
    | inl b ↦ ground arith
    | inr (k, b) ↦ elim (Option-cases (lookup k keys)) [
      | inl c ↦ ground arith
      | inr (v, c) ↦
          let e : k ≡ key = ground arith in
          (t, a, b ∙ ap some e, ap (λ x. lookup x keys) (sym e) ∙ ground arith)
    ]
  ]
]

pub get_auth_values-status :
    (keys : Keys) (r : Request) (x : Response)
    → get_auth_values keys r ≡ refuse x
    → (status x ≡ 400) ⊎ (status x ≡ 401)
unfolding get_auth_values get_key
get_auth_values-status keys r x h = ground arith

-- The endpoint makes a key: the permissions of the request's key allow it.
ep_get_key-Makes :
    (parse_int : ParseInt) (rand : ℕ → Option ℕ) (keys : Keys) (r : Request) (t : Text) (v : ℕ)
    (auth' : Option Keys)
    → ep_get_key parse_int rand (some keys) r ≡ some (json 200 (new_key t v), auth')
    → (key ours desired : ℕ) × (get_auth_values keys r ≡ pass (key, ours))
      × (create_new_perms ours desired ≡ granted v)
      × Makes keys v t auth'
unfolding ep_get_key
ep_get_key-Makes parse_int rand keys r t v auth' h = elim (Option-cases r.perms) [
  | inl a ↦ ground arith
  | inr (s, a) ↦ elim (Option-cases (parse_int s)) [
    | inl b ↦ ground arith
    | inr (desired, b) ↦ elim (Checked-cases (get_auth_values keys r)) [
      | inr (x, c) ↦ ground (arith, get_auth_values-status keys r x c)
      | inl ((key, ours), c) ↦ elim (Granted-cases (create_new_perms ours desired)) [
        | inr (p, d) ↦ ground arith
        | inl (w, d) ↦
            let m = make_key-Makes rand w v keys t auth' (ground arith) in
            (key, ours, desired, c, d ∙ ap granted (sym m.0), m.1)
      ]
    ]
  ]
]

allowed :
    (keys : Keys) (r : Request) (key own ours desired v : ℕ)
    → get_auth_values keys r ≡ pass (key, own)
    → Permitted keys (make_keys ∷ []) r ours
    → create_new_perms own desired ≡ granted v
    → (p : Perm) → check_permission v (code p) ≡ true
    → check_permission ours (code (needed p)) ≡ true
allowed keys r key own ours desired v c (t, k, a, b, l, all) d p h =
    let (t', a', b', l') = get_auth_values_sound keys r key own c in
    let e : own ≡ ours = ground arith in
    ap (λ x. check_permission x (code (needed p))) (sym e)
    ∙ (create_new_perms_granted own desired v p d).1 h

-- A key can only be made by a request that carries a key of the table with AuthCanMakeKeys, and the
-- new key has no named permission that its maker may not give away: his own ones, and AuthCanMakeKeys
-- with AuthCanDuplicateKeys. The response shows the key that has been added, which was free before,
-- and no other key changes.
pub serve_newkey-Makes :
    (parse_int : ParseInt) (rand : ℕ → Option ℕ) (keys : Keys) (r : Request) (t : Text) (v : ℕ)
    (auth' : Option Keys)
    → serve_newkey parse_int rand (some keys) r ≡ some (json 200 (new_key t v), auth')
    → (ours : ℕ) × Permitted keys (make_keys ∷ []) r ours
      × ((p : Perm)
          → check_permission v (code p) ≡ true
          → check_permission ours (code (needed p)) ≡ true)
      × Makes keys v t auth'
unfolding serve_newkey guarded
serve_newkey-Makes parse_int rand keys r t v auth' h = elim (Bool-cases (str_eq r.method "GET")) [
  | inr a ↦ ground arith
  | inl a ↦ elim (Checked-cases (check_request keys (make_keys ∷ []) r)) [
    | inr (x, b) ↦ ground (arith, check_request-refuse keys (make_keys ∷ []) r x b)
    | inl (ours, b) ↦
        let q = (check_request-Permitted keys (make_keys ∷ []) r ours).0 b in
        let (key, own, desired, c, d, m) =
          ep_get_key-Makes parse_int rand keys r t v auth' (ground arith) in
        (ours, q, allowed keys r key own ours desired v c q d, m)
  ]
]

-- A request for a key that is not answered with 200 changes no key.
pub serve_newkey-refuse :
    (parse_int : ParseInt) (rand : ℕ → Option ℕ) (auth auth' : Option Keys) (r : Request)
    (x : Response)
    → serve_newkey parse_int rand auth r ≡ some (x, auth')
    → status x ≢ 200
    → auth' ≡ auth
unfolding serve_newkey guarded ep_get_key make_key
serve_newkey-refuse parse_int rand none auth' r x h l = ground arith
serve_newkey-refuse parse_int rand (some keys) auth' r x h l = ground arith
