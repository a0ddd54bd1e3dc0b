-- ===== src/Notify/History.antt =====
-- What the store shows of all messages that were added to it.
use aku.Base.{
  ℕ, zero, suc, ◌+◌, ◌-◌, ◌%◌, ◌^◌, ◌≡◌, refl, sym, ap, ◌∙◌, Bool, Option, none, some, List, [],
  ◌∷◌, ◌++◌, arith, reverse, reverse-cons, length, length-drop, get_elem?, drop, last_n, adds,
  adds-eq-last_n, take-append, take_all, Bool-cases, inl, inr, ltb, ltb→lt, ℤ, pos, pos_part, leb_ℤ,
  if◌then◌else◌, if-cases,
}
use aku.Notify.{
  Level, Message, Store, Entry, stamp, evict, new_store, add, list, is_live, live, live_loop, keep,
}

-- A client's calls of `Add`, in order.
abbrev pub add_all : List Entry → Store → Store
add_all [] s = s
add_all (e ∷ es) s = add_all es (add e s).store

-- The messages for the entries, numbered from the id after `id` on.
abbrev pub stamped : ℕ → List Entry → List Message
stamped id [] = []
stamped id (e ∷ es) = let next = (id + 1) % 2 ^ 64 in stamp next e ∷ stamped next es

evict-last_n : (cap : ℕ) (msgs : List Message) → evict cap msgs ≡ last_n cap msgs
evict-last_n cap msgs =
    if-cases (λ r. r ≡ last_n cap msgs) (ltb cap (length msgs)) _ _
      (λ over.
        let window = drop (length msgs - cap) msgs in
        let full : length window ≡ cap =
          omega (arith, length-drop (length msgs - cap) msgs, ltb→lt cap (length msgs) over) in
        take-append cap window (drop (length window) msgs) (omega arith)
        ∙ take_all cap window (omega arith))
      (λ within. ap (λ k. drop k msgs) {x = 0} (ground arith))

add_all-adds :
    (es : List Entry) (s : Store) → (add_all es s).msgs ≡ adds s.cap s.msgs (stamped s.next_id es)
unfolding add
add_all-adds [] s = refl
add_all-adds (e ∷ es) s =
    add_all-adds es (add e s).store
    ∙ ap (λ m. adds s.cap m (stamped ((s.next_id + 1) % 2 ^ 64) es)) (evict-last_n s.cap _)

-- After any calls of `Add` a new store lists, newest first, the last messages up to the capacity
-- asked for, or 1000 if that was not positive, numbered in the order of the calls.
pub list-add_all :
    (capacity : ℤ) (es : List Entry)
    → list (add_all es (new_store capacity))
      ≡ reverse (last_n (if leb_ℤ capacity (pos 0) then 1000 else pos_part capacity) (stamped 0 es))
list-add_all capacity es = ap reverse (
    add_all-adds es (new_store capacity)
    ∙ adds-eq-last_n (new_store capacity).cap [] (stamped 0 es) (omega arith))

-- The elements of `xs` with `p`, in order.
abbrev pub select {ℓ} : {A : Type ℓ} → (A → Bool) → List A → List A
select p [] = []
select p (x ∷ xs) = if p x then x ∷ select p xs else select p xs

select-append {ℓ} :
    {A : Type ℓ} (p : A → Bool) (xs ys : List A) → select p (xs ++ ys) ≡ select p xs ++ select p ys
select-append p [] ys = refl
select-append p (x ∷ xs) ys = elim (Bool-cases (p x)) [
  | inl hit ↦ rw hit (ap (λ r. x ∷ r) (select-append p xs ys))
  | inr other ↦ rw other (select-append p xs ys)
]

keep-append :
    (p : Message → Bool) (o : Option Message) (xs ys : List Message)
    → keep p o (xs ++ ys) ≡ keep p o xs ++ ys
keep-append p none xs ys = refl
keep-append p (some m) xs ys = elim (Bool-cases (p m)) [
  | inl hit ↦ rw hit refl
  | inr other ↦ rw other refl
]

-- The oldest message comes last.
live_loop-cons :
    (p : Message → Bool) (m : Message) (ms : List Message) (n : ℕ)
    → live_loop p (m ∷ ms) (suc n) ≡ live_loop p ms n ++ select p (m ∷ [])
live_loop-cons p m ms zero = refl
live_loop-cons p m ms (suc n) =
    ap (keep p (get_elem? ms n)) (live_loop-cons p m ms n)
    ∙ keep-append p (get_elem? ms n) (live_loop p ms n) (select p (m ∷ []))

live_loop-select :
    (p : Message → Bool) (ms : List Message) → live_loop p ms (length ms) ≡ select p (reverse ms)
live_loop-select p [] = refl
live_loop-select p (m ∷ ms) =
    live_loop-cons p m ms (length ms)
    ∙ ap (λ r. r ++ select p (m ∷ [])) (live_loop-select p ms)
    ∙ sym (select-append p (reverse ms) (m ∷ []))
    ∙ ap (select p) (sym (reverse-cons m ms))

-- `Live` is `List` without the messages whose time is over, in the same order.
pub live-select :
    (now : ℤ) (ttl : Level → ℤ) (s : Store) → live now ttl s ≡ select (is_live now ttl) (list s)
unfolding live
live-select now ttl s = live_loop-select (is_live now ttl) s.msgs
