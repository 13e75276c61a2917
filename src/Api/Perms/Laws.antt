-- ===== src/Api/Perms/Laws.antt =====
-- What a new key may do, api/endpoints.go.
use Prim.Native.Nat.{bit_or}
use ezproxy.Base.{ℕ, ◌≡◌, ◌≢◌, refl, sym, ◌∙◌, Bool, true, false, ◌⊎◌, if◌then◌else◌, arith}
use ezproxy.Api.Perms.{
  Perm, check_status, close, use_websocket, filter, inject, make_keys, duplicate_keys, code,
  check_permission, granted, lacking, create_new_perms,
}

-- The permission that a key must have to give another one away.
abbrev pub needed : Perm → Perm
needed make_keys = duplicate_keys
needed p = p

-- The user may give the permission, or it was not asked for.
abbrev pub MayGive : ℕ → ℕ → Perm → Type 0
MayGive user desired p =
    check_permission desired (code p) ≡ true → check_permission user (code (needed p)) ≡ true

abbrev add : Bool → Perm → ℕ → ℕ
add b p v = if b then bit_or v (code p) else v

-- The value of a set of permissions, put together in the order of createNewPerms.
abbrev assemble : Bool → Bool → Bool → Bool → Bool → Bool → Bool → ℕ
assemble a b c d e f g = add g duplicate_keys (
    add f make_keys
      (add e inject (add d filter (add c use_websocket (add b close (add a check_status 0))))))

abbrev assembled : (Perm → Bool) → ℕ
assembled f =
    assemble (f check_status) (f close) (f use_websocket) (f filter) (f inject) (f make_keys)
      (f duplicate_keys)

abbrev pick : Bool → Bool → Bool → Bool → Bool → Bool → Bool → Perm → Bool
pick a b c d e f g check_status = a
pick a b c d e f g close = b
pick a b c d e f g use_websocket = c
pick a b c d e f g filter = d
pick a b c d e f g inject = e
pick a b c d e f g make_keys = f
pick a b c d e f g duplicate_keys = g

-- Each permission has a bit of its own.
check_permission-assemble :
    (a b c d e f g : Bool) (p : Perm)
    → check_permission (assemble a b c d e f g) (code p) ≡ pick a b c d e f g p
unfolding check_permission
check_permission-assemble a b c d e f g check_status = ground arith
check_permission-assemble a b c d e f g p = ground arith

module _ (user desired : ℕ) where
  abbrev asked : Perm → Bool
  asked p = check_permission desired (code p)

  create_new_perms-MayGive :
      (v : ℕ) (p : Perm) → create_new_perms user desired ≡ granted v → MayGive user desired p
  unfolding create_new_perms
  create_new_perms-MayGive v check_status h a = ground arith
  create_new_perms-MayGive v p h a = ground arith

  create_new_perms-assembled :
      (v : ℕ) → create_new_perms user desired ≡ granted v → v ≡ assembled asked
  unfolding create_new_perms
  create_new_perms-assembled v h = ground arith

pick-asked : (f : Perm → Bool) (p : Perm) → check_permission (assembled f) (code p) ≡ f p
pick-asked f p = check f p ∙ chosen f p
  where
    check :
        (f : Perm → Bool) (p : Perm)
        → check_permission (assembled f) (code p)
          ≡ pick
              (f check_status)
              (f close)
              (f use_websocket)
              (f filter)
              (f inject)
              (f make_keys)
              (f duplicate_keys)
              p
    check f p =
        check_permission-assemble (f check_status) (f close) (f use_websocket) (f filter) (f inject)
          (f make_keys) (f duplicate_keys) p

    chosen :
        (f : Perm → Bool) (p : Perm)
        → pick
            (f check_status)
            (f close)
            (f use_websocket)
            (f filter)
            (f inject)
            (f make_keys)
            (f duplicate_keys)
            p
          ≡ f p
    chosen f check_status = refl
    chosen f p = refl

-- A new key has exactly the named permissions that were asked for, and its maker may give away each
-- of them: he has it himself, or, for AuthCanMakeKeys, has AuthCanDuplicateKeys.
pub create_new_perms_granted :
    (user desired v : ℕ) (p : Perm)
    → create_new_perms user desired ≡ granted v
    → (check_permission v (code p) ≡ check_permission desired (code p))
      × (check_permission v (code p) ≡ true → check_permission user (code (needed p)) ≡ true)
create_new_perms_granted user desired v p h =
    let e = create_new_perms-assembled user desired v h in
    let same : check_permission v (code p) ≡ asked user desired p =
      rw e (pick-asked (asked user desired) p) in
    (same, λ a. create_new_perms-MayGive user desired v p h (sym same ∙ a))

-- The permission was asked for and may not be given away.
abbrev pub Refused : ℕ → ℕ → Perm → Type 0
Refused user desired p =
    (check_permission desired (code p) ≡ true) × (check_permission user (code (needed p)) ≡ false)

-- A refusal has its reason in the permission that it names; but where it names AuthCanInject, the
-- reason may be AuthCanDuplicateKeys instead.
pub create_new_perms_lacking :
    (user desired : ℕ) (q : Perm)
    → create_new_perms user desired ≡ lacking q
    → Refused user desired q ⊎ ((q ≡ inject) × Refused user desired duplicate_keys)
unfolding create_new_perms
create_new_perms_lacking user desired check_status h = ground arith
create_new_perms_lacking user desired q h = ground arith

-- Nothing that the user may not give away gets through.
pub create_new_perms-Refused :
    (user desired v : ℕ) (p : Perm)
    → Refused user desired p
    → create_new_perms user desired ≢ granted v
create_new_perms-Refused user desired v p r h =
    let m = create_new_perms-MayGive user desired v p h r.0 in cc
