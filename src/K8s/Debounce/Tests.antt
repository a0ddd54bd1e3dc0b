-- ===== src/K8s/Debounce/Tests.antt =====
-- The theorems on the debouncer at runs with string keys.
use aku.Base.{◌+◌, ◌≤◌, ◌≡◌, refl, String, List, [], ◌∷◌, string_key, insert, delete, lookup}
use aku.K8s.Debounce.{Debouncer, new_debouncer, fire, trigger}
use aku.K8s.Debounce.Trace.{
  Event, triggered, fired, callbacks, trigger_count, pending, step, calls, callbacks-le, after_run,
}

abbrev idle : Debouncer String
idle = new_debouncer

-- Two triggers of `pods`, whose first timer runs late.
abbrev run : List (Event String)
run = triggered "pods" ∷ triggered "pods" ∷ fired "pods" 0 ∷ fired "pods" 1 ∷ fired "pods" 1 ∷ []

run-callbacks : callbacks "pods" run idle ≡ 1
unfolding callbacks step calls trigger fire insert delete lookup
run-callbacks = refl

callbacks-le_example :
    callbacks "pods" run idle + pending "pods" (after_run run idle)
    ≤ trigger_count "pods" run + pending "pods" idle
callbacks-le_example = callbacks-le "pods" run idle
