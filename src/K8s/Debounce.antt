-- ===== src/K8s/Debounce.antt =====
-- internal/k8s/debounce.go. A timer is a number, its callback a step of its own: it may run at any
-- time after `time.AfterFunc`, also after a `Stop` that came too late, so nothing but the check
-- under the lock keeps it back. The quiet interval itself is not modelled.
pub mod Trace
mod Tests
use aku.Base.{
  ℕ, ◌+◌, Bool, true, false, Option, none, some, List, [], ◌∷◌, ◌==◌, if◌then◌else◌, KeyEq, Assoc,
  lookup, delete, insert,
}

-- `timers`, and the number of the next timer.
pub record Debouncer {ℓ} (K : Type ℓ) : Type ℓ where
  pub timers : Assoc K ℕ
  pub next : ℕ

abbrev pub new_debouncer {ℓ} : {K : Type ℓ} → Debouncer K
new_debouncer = record { timers = []; next = 0 }

abbrev pub is_timer : ℕ → Option ℕ → Bool
is_timer t none = false
is_timer t (some u) = u == t

module _ {ℓ} {K : Type ℓ} ⦃e : KeyEq K⦄ where
  -- An older timer of the key goes.
  unfoldable pub trigger : K → Debouncer K → Debouncer K
  trigger key d = record { timers = insert key d.next (delete key d.timers); next = d.next + 1 }

  -- The function of timer `t` of the key: true where it calls back.
  unfoldable pub fire : K → ℕ → Debouncer K → Debouncer K × Bool
  fire key t d =
      if is_timer t (lookup key d.timers)
      then (record d { timers = delete key d.timers }, true)
      else (d, false)

  unfoldable pub cancel : K → Debouncer K → Debouncer K
  cancel key d = record d { timers = delete key d.timers }

  unfoldable pub stop : Debouncer K → Debouncer K
  stop d = record d { timers = [] }
