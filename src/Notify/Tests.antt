-- ===== src/Notify/Tests.antt =====
-- The theorems on the message store at a store of two messages.
use aku.Base.{◌≡◌, refl, [], ◌∷◌, reverse, last_n, ℤ, pos, ◌-ℤ◌}
use aku.Notify.{Level, info, error, Store, Entry, new_store, add, list, live}
use aku.Notify.History.{add_all, stamped, list-add_all}

abbrev said : Level → ℤ → Entry
said level time = record {
  level = level;
  text = "pod gone";
  context = "prod";
  source = "store";
  time = time;
}

abbrev three : Store
three =
    add_all (said info (pos 1) ∷ said error (pos 2) ∷ said info (pos 3) ∷ []) (new_store (pos 2))

abbrev ttl : Level → ℤ
ttl level = elim level [ error ↦ pos 0 | _ ↦ pos 5 ]

list-add_all_example :
    list three
    ≡ reverse
        (last_n 2 (stamped 0 (said info (pos 1) ∷ said error (pos 2) ∷ said info (pos 3) ∷ [])))
list-add_all_example =
    list-add_all (pos 2) (said info (pos 1) ∷ said error (pos 2) ∷ said info (pos 3) ∷ [])

-- The error stays, the two others go.
late :
    live (pos 9) ttl three
    ≡ record {
      id = 2;
      time = pos 2;
      level = error;
      text = "pod gone";
      context = "prod";
      source = "store";
    }
      ∷ []
unfolding live add ◌-ℤ◌
late = refl
