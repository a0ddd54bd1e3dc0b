-- ===== src/K8s/Debounce/Trace.antt =====
-- Runs of the debouncer: triggers, late timers, cancellations, in any order.
use aku.Base.{
  ℕ, ◌+◌, ◌≤◌, ◌≡◌, Bool, true, false, ◌&&◌, ◌==◌, List, [], ◌∷◌, arith, KeyEq, lookup, delete,
  lookup-delete, lookup-insert, has,
}
use aku.K8s.Debounce.{Debouncer, trigger, fire, cancel, stop}

pub data Event {ℓ} (K : Type ℓ) : Type ℓ where
  triggered cancelled : K → Event K
  fired : K → ℕ → Event K
  stopped : Event K

abbrev pub bit : Bool → ℕ
bit true = 1
bit false = 0

module _ {ℓ} {K : Type ℓ} ⦃e : KeyEq K⦄ where
  unfoldable pub step : Event K → Debouncer K → Debouncer K
  unfolding trigger fire cancel stop
  step (triggered k) d = trigger k d
  step (cancelled k) d = cancel k d
  step (fired k t) d = (fire k t d).0
  step stopped d = stop d

  -- The event calls back for the key.
  unfoldable pub calls : K → Event K → Debouncer K → Bool
  unfolding fire
  calls key (fired k t) d = e.same k key && (fire k t d).1
  calls key (triggered k) d = false
  calls key (cancelled k) d = false
  calls key stopped d = false

  abbrev pub triggers : K → Event K → Bool
  triggers key (triggered k) = e.same k key
  triggers key (cancelled k) = false
  triggers key (fired k t) = false
  triggers key stopped = false

  abbrev pub pending : K → Debouncer K → ℕ
  pending key d = bit (has key d.timers)

  -- The callbacks for the key in a run, and the triggers.
  unfoldable pub callbacks : K → List (Event K) → Debouncer K → ℕ
  unfolding calls step
  callbacks key [] d = 0
  callbacks key (ev ∷ evs) d = bit (calls key ev d) + callbacks key evs (step ev d)

  -- The debouncer behind a run.
  abbrev pub after_run : List (Event K) → Debouncer K → Debouncer K
  after_run [] d = d
  after_run (ev ∷ evs) d = after_run evs (step ev d)

  abbrev pub trigger_count : K → List (Event K) → ℕ
  trigger_count key [] = 0
  trigger_count key (ev ∷ evs) = bit (triggers key ev) + trigger_count key evs

  -- One event pays each callback with the timer that was pending, and only a trigger adds one.
  step-pending :
      (key : K) (ev : Event K) (d : Debouncer K)
      → bit (calls key ev d) + pending key (step ev d) ≤ bit (triggers key ev) + pending key d
  unfolding calls step trigger fire cancel stop lookup
  step-pending key (triggered k) d =
      ground (arith, lookup-insert k key d.next (delete k d.timers), lookup-delete k key d.timers)
  step-pending key (cancelled k) d = ground (arith, lookup-delete k key d.timers)
  step-pending key (fired k t) d = ground (arith, lookup-delete k key d.timers, e.same_iff k key)
  step-pending key stopped d = omega arith

  -- In any run each callback for a key answers a trigger of that key: there are no more callbacks,
  -- with the one that is pending behind the run, than triggers and the one that was pending before.
  pub callbacks-le :
      (key : K) (evs : List (Event K)) (d : Debouncer K)
      → callbacks key evs d + pending key (after_run evs d) ≤ trigger_count key evs + pending key d
  unfolding callbacks
  callbacks-le key [] d = omega arith
  callbacks-le key (ev ∷ evs) d =
      omega (arith, callbacks-le key evs (step ev d), step-pending key ev d)

  cancel-pending : (key : K) (d : Debouncer K) → pending key (cancel key d) ≡ 0
  unfolding cancel
  cancel-pending key d = ground (arith, lookup-delete key key d.timers, e.same_iff key key)

  -- After `Cancel` of a key, or after `Stop`, no timer calls back for it before the next trigger.
  pub silent :
      (key : K) (evs : List (Event K)) (d : Debouncer K)
      → trigger_count key evs ≡ 0
      → (callbacks key evs (cancel key d) ≡ 0) × (callbacks key evs (stop d) ≡ 0)
  unfolding stop lookup
  silent key evs d none_triggered = (
    omega (arith, callbacks-le key evs (cancel key d), cancel-pending key d),
    omega (arith, callbacks-le key evs (stop d)),
  )

  -- After a `Trigger` the timer that it started calls back, and no other timer of the key.
  pub fire-trigger :
      (key : K) (t : ℕ) (d : Debouncer K) → (fire key t (trigger key d)).1 ≡ (d.next == t)
  unfolding trigger fire
  fire-trigger key t d =
      ground (arith, lookup-insert key key d.next (delete key d.timers), e.same_iff key key)
