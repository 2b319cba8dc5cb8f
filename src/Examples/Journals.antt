-- ===== src/Examples/Journals.antt =====
-- Runs at concrete inputs: the observation journal.
use aa.Base.{
  ℕ, zero, suc, String, true, false, Option, none, some, List, [], ◌∷◌, ◌≡◌, refl, ◌+◌, ◌-◌, ◌++◌,
  length, take, get_elem?,
}
use aa.Base.Int.{pos, negsuc}
use aa.Obsv.Journal.{
  Event, Memory, Subscription, replay, subscribe, Call, appends, closes, restarts, calls, append,
  new_memory, validate, deliver,
}
use aa.Obsv.Journal.Delivery.{append_all, subscribe-delivers}
use aa.Obsv.Journal.Reopen.{empty_file}

-- An event of the session with a source; the sequence is left to the journal.
abbrev seen : String → String → Event
seen session source = record {
  version = "";
  session_id = session;
  sequence = negsuc 6;
  occurred_at = "";
  source_type = "tool";
  source = source;
  action = "run";
  confidence = "exact";
  actor = "worker";
  work_package_id = "wp-1";
  attempt_id = "at-1";
  metadata = [];
}

abbrev same : String → String
same s = s

abbrev line_size : Event → ℕ
line_size ev = 200

abbrev line_of : Event → Event
line_of ev = ev

-- The second write fails, the third event names no session, and the file is closed and opened again.
abbrev session_calls : List Call
session_calls =
    appends true (seen "s" "first")
    ∷ appends false (seen "s" "second")
    ∷ appends true (seen "" "third")
    ∷ appends true (seen "s" "fourth")
    ∷ closes
    ∷ appends true (seen "s" "fifth")
    ∷ restarts
    ∷ appends true (seen "s" "sixth")
    ∷ []

abbrev numbered : ℕ → String → Event
numbered n source = record (seen "s" source) { version = "1.0"; sequence = pos n }

abbrev recorded : List Event
recorded = numbered 0 "first" ∷ numbered 2 "fourth" ∷ numbered 3 "sixth" ∷ []

session_answers :
    (calls same line_size line_of some
      (empty_file same line_size line_of some (λ ev. refl))
      session_calls).1
    ≡ recorded
unfolding calls append new_memory validate
session_answers = refl

-- A journal of three events, and the same one with a subscription from the second on.
abbrev three : List Event
three = numbered 0 "first" ∷ numbered 1 "second" ∷ numbered 2 "third" ∷ []

abbrev quiet : Memory
quiet = record { events = three; next = 3; subs = []; closed = false }

abbrev watched : Memory
watched = record {
  events = three;
  next = 3;
  subs =
      record {
        waiting = numbered 1 "second" ∷ numbered 2 "third" ∷ [];
        capacity = 66;
        dropped = 0;
        closed = false;
      }
      ∷ [];
  closed = false;
}

abbrev many : ℕ → List Event
many zero = seen "" "last" ∷ []
many (suc n) = seen "s" "more" ∷ many n

abbrev given : Option Subscription → ℕ × ℕ
given none = (0, 0)
given (some s) = (length s.waiting, s.dropped)

given-many : given (get_elem? (append_all same watched (many 70)).0.subs 0) ≡ (66, 6)
unfolding append_all append validate deliver
given-many = refl

subscribe-delivers_example :
    get_elem? (append_all same watched (many 70)).0.subs 0
    ≡ some (record {
      waiting = replay quiet (pos 1) ++ take 64 (append_all same watched (many 70)).1;
      capacity = length (replay quiet (pos 1)) + 64;
      dropped = length (append_all same watched (many 70)).1 - 64;
      closed = false;
    })
unfolding subscribe
subscribe-delivers_example = subscribe-delivers same quiet watched (pos 1) (many 70) refl
