-- ===== src/Tests/Scripts.antt =====
-- What scripts do at a concrete spawner: package ezp_lua.
use ezproxy.Base.{arith, ℕ, refl, ◌≡◌, true, none, some, ◌∷◌, []}
use ezproxy.Errors.{both_callbacks}
use ezproxy.Context.{is_done, cause_of}
use ezproxy.Handler.State.{Spawner}
use ezproxy.Lua.Values.{number_value, bytes_value, function_value, Checks}
use ezproxy.Lua.Spawner.{minus_one, bind_inject_to_both, bind_inject_to_client}
use ezproxy.Lua.Spawner.Laws.{left, bind_inject_to_both-left}
use ezproxy.Lua.Callback.{Globals, returns, run_lua_callback}
use ezproxy.Lua.Callback.Laws.{run_lua_callback_both}
use ezproxy.Tests.Data.{busy, unfiltered, busy-IsValid, lenient}

-- A script in which every name is a function
abbrev eager : Globals
eager n = some (function_value 5)

run_lua_callback_both_example :
    (q : Spawner) × (own : ℕ) × (run_lua_callback eager 3 1 [] unfiltered
      ≡ returns (some both_callbacks) q)
    × (q.callback_ctx ≡ some own)
    × (is_done q.contexts own ≡ true)
unfolding is_done cause_of
run_lua_callback_both_example =
    run_lua_callback_both eager 3 1 5 5 [] unfiltered refl refl busy-IsValid.tree (omega arith) refl
      refl

abbrev exact : Checks
exact = record {
  check_int = λ v. elim v [ number_value n ↦ some n | _ ↦ none ];
  check_string = λ v. elim v [ bytes_value b ↦ some b | _ ↦ none ];
  check_function = λ v. elim v [ function_value f ↦ some f | _ ↦ none ];
}

bind_inject_to_both-left_example :
    left
      (bind_inject_to_both exact lenient (number_value minus_one ∷ bytes_value (7 ∷ []) ∷ []) busy)
    ≡ left (
        bind_inject_to_client exact lenient
          (number_value minus_one ∷ bytes_value (7 ∷ []) ∷ [])
          busy)
bind_inject_to_both-left_example =
    bind_inject_to_both-left exact lenient (number_value minus_one ∷ bytes_value (7 ∷ []) ∷ []) busy
