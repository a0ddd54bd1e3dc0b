-- ===== src/Notify.antt =====
-- internal/notify/store.go: the bounded store of aku's own messages. The clock is read once by each
-- `Add`, which takes the time as an argument; a time is a count of nanoseconds, and the callback,
-- called on a goroutine of its own, is the notice that `add` returns. `SetClock` has no state here.
pub mod History
mod Tests
use aku.Base.{
  zero, suc, ◌&&◌, ℕ, ◌+◌, ◌-◌, ◌%◌, ◌^◌, String, Bool, true, false, ◌||◌, Option, none, some, List,
  [], ◌∷◌, ◌++◌, reverse, length, get_elem?, take, drop, ltb, if◌then◌else◌, ℤ, pos, pos_part,
  ltb_ℤ, leb_ℤ, ◌-ℤ◌,
}

pub data Level : Type 0 where
  info warning error : Level

-- `Level.String`.
abbrev pub level_name : Level → String
level_name warning = "warning"
level_name error = "error"
level_name info = "info"

pub record Message : Type 0 where
  pub id : ℕ
  pub time : ℤ
  pub level : Level
  pub text : String
  pub context : String
  pub source : String

-- `sending`: a callback is set.
pub record Store : Type 0 where
  pub msgs : List Message
  pub next_id : ℕ
  pub cap : ℕ
  pub sending : Bool

abbrev pub default_capacity : ℕ
default_capacity = 1000

abbrev pub new_store : ℤ → Store
new_store capacity = record {
  msgs = [];
  next_id = 0;
  cap = if leb_ℤ capacity (pos 0) then default_capacity else pos_part capacity;
  sending = false;
}

abbrev pub set_send : Bool → Store → Store
set_send on s = record s { sending = on }

-- What a caller hands to `Add`, with the time of the clock.
pub record Entry : Type 0 where
  pub level : Level
  pub text : String
  pub context : String
  pub source : String
  pub time : ℤ

abbrev pub stamp : ℕ → Entry → Message
stamp id e = record {
  id = id;
  time = e.time;
  level = e.level;
  text = e.text;
  context = e.context;
  source = e.source;
}

-- `copy(dst, src)` on slices with room for `src`.
abbrev pub copy_over : List Message → List Message → List Message
copy_over dst src = src ++ drop (length src) dst

-- Past the capacity the live window is shifted to the front and cut.
abbrev pub evict : ℕ → List Message → List Message
evict cap msgs =
    if ltb cap (length msgs)
    then take cap (copy_over msgs (drop (length msgs - cap) msgs))
    else msgs

-- `MessageAddedMsg`.
pub record Notice : Type 0 where
  pub id : ℕ
  pub level : Level

pub record Added : Type 0 where
  pub store : Store
  pub message : Message
  pub notice : Option Notice

-- `nextID` is a uint64.
unfoldable pub add : Entry → Store → Added
add e s =
    let id = (s.next_id + 1) % 2 ^ 64 in
    record {
      store = record s { msgs = evict s.cap (s.msgs ++ stamp id e ∷ []); next_id = id };
      message = stamp id e;
      notice = if s.sending then some (record { id = id; level = e.level }) else none;
    }

-- `List`: newest first.
abbrev pub list : Store → List Message
list s = reverse s.msgs

-- `Sticky`.
abbrev pub sticky : ℤ
sticky = pos 0

abbrev pub is_sticky : ℤ → Bool
is_sticky d = leb_ℤ d sticky && leb_ℤ sticky d

abbrev pub is_live : ℤ → (Level → ℤ) → Message → Bool
is_live now ttl m = is_sticky (ttl m.level) || ltb_ℤ (now -ℤ m.time) (ttl m.level)

abbrev pub keep : (Message → Bool) → Option Message → List Message → List Message
keep live none rest = rest
keep live (some m) rest = if live m then m ∷ rest else rest

-- The loop of `Live` at the index `i - 1` and down.
abbrev pub live_loop : (Message → Bool) → List Message → ℕ → List Message
live_loop live msgs zero = []
live_loop live msgs (suc i) = keep live (get_elem? msgs i) (live_loop live msgs i)

unfoldable pub live : ℤ → (Level → ℤ) → Store → List Message
live now ttl s = live_loop (is_live now ttl) s.msgs (length s.msgs)
