-- ===== src/Errors.antt =====
-- handler/errors.go, and every other error value that the modelled code makes or compares.
use ezproxy.Base.{ℕ, ◌≡◌, refl, ◌⊎◌, inl, inr, Bool, true, false}

pub data Error : Type 0 where
  canceled : Error  -- context.Canceled
  spawner_closed_ok proxy_closed_ok proxy_max_retries proxy_retry : Error
  no_cancel proxy_not_found close_timeout callback_exists no_listeners same_addresses : Error
  key_exists auth_disabled : Error
  already_initialized end_of_file : Error  -- package proxy, and io.EOF
  no_callbacks both_callbacks no_main bad_main done_running : Error  -- package ezp_lua
  listener_late too_little_sent echo_differs testing_completed main_closed : Error  -- the integration test
  formatted : Error → Error  -- fmt.Errorf("…: %v", err): a text, which unwraps to nothing
  wrapped : Error → Error  -- an error of the environment that unwraps to another
  external : ℕ → Error  -- any other error of the environment

-- errors.Is(err, ErrProxyRetry)
abbrev pub is_proxy_retry : Error → Bool
is_proxy_retry proxy_retry = true
is_proxy_retry (wrapped e) = is_proxy_retry e
is_proxy_retry _ = false

-- errors.Is(err, ErrProxyClosedOk)
abbrev pub is_proxy_closed_ok : Error → Bool
is_proxy_closed_ok proxy_closed_ok = true
is_proxy_closed_ok (wrapped e) = is_proxy_closed_ok e
is_proxy_closed_ok _ = false

-- A Go result with an error.
pub data Result {ℓ} (A : Type ℓ) : Type ℓ where
  ok : A → Result A
  err : Error → Result A

pub Result-cases {ℓ} :
    {A : Type ℓ} (r : Result A) → ((a : A) × (r ≡ ok a)) ⊎ ((e : Error) × (r ≡ err e))
Result-cases (ok a) = inl (a, refl)
Result-cases (err e) = inr (e, refl)
