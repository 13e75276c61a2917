-- ===== src/Api/Auth/Laws.antt =====
-- The table of keys, api/auth.go.
use ezproxy.Base.{
  ℕ, zero, suc, ◌<◌, ◌≡◌, ◌≢◌, refl, sym, ap, ◌∙◌, true, Option, none, some, List, [], ◌∷◌,
  if◌then◌else◌, ◌⊎◌, inl, inr, Bool-cases, Option-cases, arith, ◌==◌, is_some, ◌↔◌, All,
}
use ezproxy.Base.Maps.{lookup, insert, lookup-insert}
use ezproxy.Errors.{key_exists, ok, err}
use ezproxy.Api.Http.{Text, Request, Response, status, pass, refuse}
use ezproxy.Api.Hex.{parse_uint}
use ezproxy.Api.Perms.{Perm, code, check_permission}
use ezproxy.Api.Auth.{Keys, has_all, check_request, add_key, union, draw_key, new_key_int}

-- A key that is not in the table can be added, once: it then has all the permissions given, no other
-- key changes, and a second addition is refused.
pub add_key_once :
    (key j : ℕ) (perms : List ℕ) (keys : Keys)
    → lookup key keys ≡ none
    → (k : Keys) × (add_key key perms keys ≡ ok k)
      × (lookup j k ≡ (if key == j then some (union perms 0) else lookup j keys))
      × (add_key key perms k ≡ err key_exists)
unfolding add_key
add_key_once key j perms keys h = (
  insert key (union perms 0) keys,
  ground arith,
  lookup-insert key j (union perms 0) keys,
  ground (arith, lookup-insert key key (union perms 0) keys),
)

-- A key made by the loop was free, and it is the only one that changes.
unfoldable pub IsFresh : ℕ → Keys → ℕ × Keys → Type 0
IsFresh perms keys (key, keys') =
    (lookup key keys ≡ none)
    × (lookup key keys' ≡ some perms)
    × ((j : ℕ) → j ≢ key → lookup j keys' ≡ lookup j keys)

insert-IsFresh :
    (key perms : ℕ) (keys : Keys)
    → lookup key keys ≡ none
    → IsFresh perms keys (key, insert key perms keys)
unfolding IsFresh
insert-IsFresh key perms keys h = (
  h,
  ground (arith, lookup-insert key key perms keys),
  λ j l. ground (arith, lookup-insert key j perms keys),
)

pub draw_key-IsFresh :
    (rand : ℕ → Option ℕ) (left perms : ℕ) (keys : Keys) (made : ℕ × Keys)
    → draw_key rand left perms keys ≡ some made
    → IsFresh perms keys made
unfolding draw_key
draw_key-IsFresh rand zero perms keys made h = ground arith
draw_key-IsFresh rand (suc left) perms keys made h = elim (Option-cases (rand left)) [
  | inl e ↦ ground arith
  | inr (key, e) ↦
      ground (arith, draw_key-IsFresh rand left perms keys made, insert-IsFresh key perms keys)
]

-- A key is one of the draws.
draw_key-bound :
    (rand : ℕ → Option ℕ) (bound left perms : ℕ) (keys : Keys) (made : ℕ × Keys)
    → ((n key : ℕ) → rand n ≡ some key → key < bound)
    → draw_key rand left perms keys ≡ some made
    → made.0 < bound
unfolding draw_key
draw_key-bound rand bound zero perms keys made l h = ground arith
draw_key-bound rand bound (suc left) perms keys made l h = elim (Option-cases (rand left)) [
  | inl e ↦ ground arith
  | inr (key, e) ↦ ground (arith, draw_key-bound rand bound left perms keys made l, l left key e)
]

pub new_key_int-bound :
    (rand : ℕ → Option ℕ) (bound perms : ℕ) (keys : Keys) (made : ℕ × Keys)
    → ((n key : ℕ) → rand n ≡ some key → key < bound)
    → new_key_int rand perms keys ≡ some made
    → made.0 < bound
unfolding new_key_int
new_key_int-bound rand bound perms keys made l h =
    draw_key-bound rand bound 1000 perms keys made l h

-- The draws do not fail, and one of them finds a key that is free: a key is made.
pub draw_key-Returns :
    (rand : ℕ → Option ℕ) (left perms : ℕ) (keys : Keys)
    → ((n : ℕ) → n < left → is_some (rand n) ≡ true)
    → (n key : ℕ) → n < left
    → rand n ≡ some key
    → lookup key keys ≡ none
    → is_some (draw_key rand left perms keys) ≡ true
unfolding draw_key
draw_key-Returns rand zero perms keys all n key l e h = ground arith
draw_key-Returns rand (suc left) perms keys all n key l e h = elim (Option-cases (rand left)) [
  | inl d ↦ ground (arith, all left)
  | inr (k, d) ↦
      ground (arith, draw_key-Returns rand left perms keys (λ m b. all m (omega arith)) n key)
]

draw_key_taken :
    (rand : ℕ → Option ℕ) (left perms : ℕ) (keys : Keys)
    → ((n key : ℕ) → rand n ≡ some key → is_some (lookup key keys) ≡ true)
    → draw_key rand left perms keys ≡ none
unfolding draw_key
draw_key_taken rand zero perms keys all = refl
draw_key_taken rand (suc left) perms keys all = elim (Option-cases (rand left)) [
  | inl d ↦ ground arith
  | inr (k, d) ↦ ground (arith, draw_key_taken rand left perms keys all, all left k)
]

-- A key that newKeyInt gives out was not in the table, stands in the new table with the permissions,
-- and no other key has changed.
pub new_key_int-IsFresh :
    (rand : ℕ → Option ℕ) (perms : ℕ) (keys : Keys) (made : ℕ × Keys)
    → new_key_int rand perms keys ≡ some made
    → IsFresh perms keys made
unfolding new_key_int
new_key_int-IsFresh rand perms keys made h = draw_key-IsFresh rand 1000 perms keys made h

-- newKeyInt makes a key if no draw of the 1000 fails and one of them is not in the table.
pub new_key_int-Returns :
    (rand : ℕ → Option ℕ) (perms : ℕ) (keys : Keys)
    → ((n : ℕ) → n < 1000 → is_some (rand n) ≡ true)
    → (n key : ℕ) → n < 1000
    → rand n ≡ some key
    → lookup key keys ≡ none
    → (made : ℕ × Keys) × (new_key_int rand perms keys ≡ some made) × IsFresh perms keys made
unfolding new_key_int
new_key_int-Returns rand perms keys all n key l e h =
    elim (Option-cases (draw_key rand 1000 perms keys)) [
      | inl d ↦ absurd (ground (arith, draw_key-Returns rand 1000 perms keys all n key l e h))
      | inr (made, d) ↦ (made, d, draw_key-IsFresh rand 1000 perms keys made d)
    ]

-- The request carries a key of the table, and the key has all the permissions.
abbrev pub Permitted : Keys → List Perm → Request → ℕ → Type 0
Permitted keys requires r value =
    (t : Text) × (key : ℕ) × (r.key ≡ some t)
    × (parse_uint t ≡ some key)
    × (lookup key keys ≡ some value)
    × All (λ p. check_permission value (code p) ≡ true) requires

has_all-All :
    (value : ℕ) (ps : List Perm)
    → has_all value ps ≡ true
    → All (λ p. check_permission value (code p) ≡ true) ps
unfolding has_all
has_all-All value [] h = tt
has_all-All value (p ∷ ps) h = (ground arith, has_all-All value ps (ground arith))

All-has_all :
    (value : ℕ) (ps : List Perm)
    → All (λ p. check_permission value (code p) ≡ true) ps
    → has_all value ps ≡ true
unfolding has_all
All-has_all value [] h = refl
All-has_all value (p ∷ ps) h = ground (arith, h.0, All-has_all value ps h.1)

check_request_sound :
    (keys : Keys) (requires : List Perm) (r : Request) (value : ℕ)
    → check_request keys requires r ≡ pass value
    → Permitted keys requires r value
unfolding check_request
check_request_sound keys requires r value h = elim (Option-cases r.key) [
  | inl a ↦ ground arith
  | inr (t, a) ↦ elim (Option-cases (parse_uint t)) [
    | inl b ↦ ground arith
    | inr (key, b) ↦ elim (Option-cases (lookup key keys)) [
      | inl c ↦ ground arith
      | inr (v, c) ↦ elim (Bool-cases (has_all v requires)) [
        | inl d ↦
            let e : v ≡ value = ground arith in
            (
              t,
              key,
              a,
              b,
              c ∙ ap some e,
              has_all-All value requires (ap (λ x. has_all x requires) (sym e) ∙ d),
            )
        | inr d ↦ ground arith
      ]
    ]
  ]
]

-- checkPermission lets a request pass exactly if it carries a key of the table that has all the
-- required permissions.
pub check_request-Permitted :
    (keys : Keys) (requires : List Perm) (r : Request) (value : ℕ)
    → (check_request keys requires r ≡ pass value) ↔ Permitted keys requires r value
unfolding check_request
check_request-Permitted keys requires r value = (
  check_request_sound keys requires r value,
  λ (t, key, a, b, c, d). ground (arith, All-has_all value requires d),
)

-- checkPermission answers a request that it refuses with 401, or, with a known key that lacks a
-- permission, with 403; never with 400.
pub check_request-refuse :
    (keys : Keys) (requires : List Perm) (r : Request) (x : Response)
    → check_request keys requires r ≡ refuse x
    → (status x ≡ 401) ⊎ (status x ≡ 403)
unfolding check_request
check_request-refuse keys requires r x h = ground arith
