-- ===== src/Tests/Plugin.antt =====
-- Runs of lance/callbacks.go: a registry with plugins that echo their payload or miss.
use lance_go.Base.{ℕ, ◌+◌, ◌≡◌, ◌↔◌, true, some, [], ◌∷◌, arith, ◌==◌, if◌then◌else◌}
use lance_go.Errors.{leaf, Leaf}
use lance_go.Plugin.{Registry}
use lance_go.Plugin.Handles.{register, release, run, run_fresh, Ascending, IsValid}
use lance_go.Plugin.Invoke.{
  Plugin, returned, failed, Fmt, go_callback_invoke, callback-ok_iff, Returns, call_ok,
}

abbrev plugins : Registry ℕ
plugins = record { entries = (3, 30) ∷ (1, 10) ∷ []; next = 4 }

plugins-IsValid : IsValid plugins
plugins-IsValid = (omega arith, omega arith, (omega arith, omega arith, tt))

run_fresh_example :
    let (hs, r) = run (register 50 ∷ release 5 ∷ register 60 ∷ []) plugins in
    Ascending 4 hs × IsValid r
run_fresh_example =
    run_fresh (register 50 ∷ release 5 ∷ register 60 ∷ []) plugins plugins-IsValid (omega arith)

abbrev echo : Plugin ℕ
echo method payload n =
    if method == 0 then (returned payload, n + 1) else (failed (leaf Leaf.plugin_miss), n)

abbrev echoes : Registry (Plugin ℕ)
echoes = record { entries = (1, echo) ∷ []; next = 1 }

abbrev plain_fmt : Fmt
plain_fmt = record { appendf = λ f args. []; error_text = λ e. 101 ∷ [] }

callback-ok_iff_example :
    ((go_callback_invoke plain_fmt echoes 1 0 (some (8 ∷ 9 ∷ [])) 2 true 40).rc ≡ call_ok)
    ↔ Returns plain_fmt echoes 1 0
        (some (8 ∷ 9 ∷ []))
        2
        true
        40
        (go_callback_invoke plain_fmt echoes 1 0 (some (8 ∷ 9 ∷ [])) 2 true 40)
callback-ok_iff_example = callback-ok_iff plain_fmt echoes 1 0 (some (8 ∷ 9 ∷ [])) 2 true 40
