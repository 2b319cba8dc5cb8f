-- ===== src/Obsv/Journal/Reopen.antt =====
-- obsv/journal/journal.go: what `OpenFile` finds after any calls.
use aa.Base.{
  ℕ, ◌≤◌, String, true, false, Option, some, List, [], ◌∷◌, ◌++◌, ◌≡◌, ltb, ◌==◌, Result, ok, ◌>>=◌,
}
use aa.Obsv.Journal.{Event, Error, File, new_memory, load}
use aa.Obsv.Journal.Durable.{Rising, after}

-- `round` is the round trip of encoding/json on the events.
module _ (trim : String → String) {Line : Type 0} (size : Line → ℕ) (encode : Event → Line)
    (decode : Line → Option Event) (round : (ev : Event) → decode (encode ev) ≡ some ev) where
  -- The scanner takes the line of the event, and does not skip it.
  abbrev pub Fits : Event → Type 0
  Fits ev = (ltb (size (encode ev)) 1048576 ≡ true) × ((size (encode ev) == 0) ≡ false)

  abbrev add_last : Event → Result Error (List Event) → Result Error (List Event)
  add_last e r = r >>= λ evs. ok (evs ++ e ∷ [])

  -- The file holds exactly these events, and the next sequence is above them.
  abbrev Keeps : File Line → List Event → Type 0
  Keeps f evs =
      (load trim size encode decode f.lines ≡ ok evs)
      × Rising trim 0 evs
      × (after trim 0 evs ≤ f.memory.next)

  abbrev pub empty_file : File Line
  empty_file = record { memory = new_memory; lines = [] }
