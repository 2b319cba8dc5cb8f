-- ===== src/Obsv/Journal.antt =====
-- obsv/journal/journal.go and the event of obsv/protocol/protocol.go: the append-only journal, its
-- subscriptions, and its durable file.
pub mod Delivery
pub mod Durable
pub mod Reopen
use aa.Base.{
  ℕ, zero, suc, ◌+◌, ◌-◌, String, Bool, true, false, not, ◌||◌, Option, none, some, List, [], ◌∷◌,
  ◌++◌, map, length, drop, keep, str_eq, ◌==◌, elem, ltb, if◌then◌else◌, Result, ok, err, ◌>>=◌,
}
use aa.Base.Int.{ℤ, pos, negsuc, ltℤ}

pub record Event : Type 0 where
  pub version : String
  pub session_id : String
  pub sequence : ℤ
  pub occurred_at : String
  pub source_type : String
  pub source : String
  pub action : String
  pub confidence : String
  pub actor : String
  pub work_package_id : String
  pub attempt_id : String
  pub metadata : List (String × String)

pub data Error : Type 0 where
  is_closed : Error
  version_required session_required negative_sequence : Error
  unsupported_version : String → Error
  unknown_source_type : String → Error
  unknown_confidence : String → Error
  undecodable : Error
  too_long : Error
  not_written : Error

abbrev pub current : String
current = "1.0"

-- `ValidSourceType` and `ValidConfidence`
abbrev pub source_types : List String
source_types = "session" ∷ "tool" ∷ "file" ∷ "work_delta" ∷ []

abbrev pub confidences : List String
confidences = "exact" ∷ "correlated" ∷ "observed" ∷ "inferred" ∷ []

-- The channel of a subscription, with what waits in it; a closed one takes nothing more.
pub record Subscription : Type 0 where
  pub waiting : List Event
  pub capacity : ℕ
  pub dropped : ℕ
  pub closed : Bool

-- `Memory`. A subscription that is closed is no longer registered; the list keeps its place.
pub record Memory : Type 0 where
  pub events : List Event
  pub next : ℕ
  pub subs : List Subscription
  pub closed : Bool

unfoldable pub new_memory : Memory
new_memory = record { events = []; next = 0; subs = []; closed = false }

-- `deliver`: the event is dropped where the channel is full.
unfoldable pub deliver : Event → Subscription → Subscription
deliver ev s =
    if s.closed
    then s
    else if ltb (length s.waiting) s.capacity
    then record s { waiting = s.waiting ++ ev ∷ [] }
    else record s { dropped = s.dropped + 1 }

abbrev pub at_least : ℤ → Event → Bool
at_least from ev = not (ltℤ ev.sequence from)

-- `Replay`
unfoldable pub replay : Memory → ℤ → List Event
replay m from = keep (at_least from) m.events

-- `Subscribe`, with the journal's next subscription.
unfoldable pub subscribe : Memory → ℤ → Result Error Memory
subscribe m from =
    let backlog = keep (at_least from) m.events in
    if m.closed
    then err is_closed
    else ok (record m {
      subs =
          m.subs
          ++ record {
            waiting = backlog;
            capacity = length backlog + 64;
            dropped = 0;
            closed = false;
          }
            ∷ [];
    })

abbrev pub shut : Subscription → Subscription
shut s = record s { closed = true }

unfoldable pub shut_at : ℕ → List Subscription → List Subscription
shut_at i [] = []
shut_at zero (s ∷ subs) = shut s ∷ subs
shut_at (suc i) (s ∷ subs) = s ∷ shut_at i subs

-- `Subscription.Close` and `Memory.Close`
unfoldable pub close_subscription : Memory → ℕ → Memory
unfolding shut_at
close_subscription m i = record m { subs = shut_at i m.subs }

unfoldable pub close : Memory → Memory
close m = record m { closed = true; subs = map shut m.subs }

-- `Policy`; a bound of zero or less is none.
pub record Policy : Type 0 where
  pub max_events : ℤ
  pub min_sequence : ℤ

abbrev pub above_floor : ℤ → Event → Bool
above_floor floor ev = not (ltℤ (pos 0) floor) || at_least floor ev

abbrev pub newest : ℤ → List Event → List Event
newest (negsuc n) kept = kept
newest (pos n) kept =
    if ltb 0 n then (if ltb n (length kept) then drop (length kept - n) kept else kept) else kept

-- `trim`
unfoldable pub trim : List Event → Policy → List Event
trim events p = newest p.max_events (keep (above_floor p.min_sequence) events)

-- `File`: the journal and the lines of the file.
module _ (Line : Type 0) where
  pub record File : Type 0 where
    pub memory : Memory
    pub lines : List Line

pub data Call : Type 0 where
  appends : Bool → Event → Call
  closes restarts : Call

-- `trim_space` is `strings.TrimSpace`.
module _ (trim_space : String → String) where
  -- `Validate`
  unfoldable pub validate : Event → Option Error
  validate ev =
      if str_eq ev.version ""
      then some version_required
      else if not (str_eq ev.version current)
      then some (unsupported_version ev.version)
      else if str_eq (trim_space ev.session_id) ""
      then some session_required
      else if ltℤ ev.sequence (pos 0)
      then some negative_sequence
      else if not (elem ev.source_type source_types)
      then some (unknown_source_type ev.source_type)
      else if not (elem ev.confidence confidences)
      then some (unknown_confidence ev.confidence)
      else none

  -- The version and the sequence that a stored event gets.
  abbrev pub stamped : Memory → Event → Event
  stamped m ev = record ev {
    version = if str_eq ev.version "" then current else ev.version;
    sequence = pos m.next;
  }

  abbrev pub stored : Memory → Event → Memory
  stored m ev = record m {
    events = m.events ++ ev ∷ [];
    next = m.next + 1;
    subs = map (deliver ev) m.subs;
  }

  -- The event is stored where `Validate` finds no error.
  abbrev pub taken : Memory → Event → Option Error → Result Error (Memory × Event)
  taken m ev none = ok (stored m ev, ev)
  taken m ev (some e) = err e

  -- `appendAssigned`, which `Append` calls.
  unfoldable pub append : Memory → Event → Result Error (Memory × Event)
  append m ev = if m.closed then err is_closed else taken m (stamped m ev) (validate (stamped m ev))

  -- The sequence that the loop of `OpenFile` sets before it appends.
  abbrev pub raised : Memory → ℤ → Memory
  raised m (negsuc n) = m
  raised m (pos n) = if ltb m.next n then record m { next = n } else m

  -- The loop of `OpenFile` over the loaded events.
  unfoldable pub load_all : Memory → List Event → Result Error Memory
  load_all m [] = ok m
  load_all m (ev ∷ evs) = append (raised m ev.sequence) ev >>= λ r. load_all r.0 evs

  -- The file of a journal: `size` is a line's bytes, `encode` and `decode` are of encoding/json.
  module _ {Line : Type 0} (size : Line → ℕ) (encode : Event → Line)
      (decode : Line → Option Event) where
    abbrev pub decoded : Option Event → Result Error (List Event) → Result Error (List Event)
    decoded none rest = err undecodable
    decoded (some ev) rest = rest >>= λ evs. ok (ev ∷ evs)

    -- The body of `load` on a line: the scanner's buffer ends at 1<<20 bytes, the line's end among them.
    abbrev pub scanned : Line → Result Error (List Event) → Result Error (List Event)
    scanned line rest =
        if ltb (size line) 1048576
        then (if size line == 0 then rest else decoded (decode line) rest)
        else err too_long

    -- `load`
    unfoldable pub load : List Line → Result Error (List Event)
    load [] = ok []
    load (line ∷ lines) = scanned line (load lines)

    -- `OpenFile`, of a file that opens and is read.
    unfoldable pub open_file : List Line → Result Error Memory
    unfolding load load_all
    open_file lines = load lines >>= λ evs. load_all new_memory evs

    -- `File.Append`, from the answer of the memory on; `written` says whether the write succeeds.
    abbrev pub written_to :
        File Line → Bool → Result Error (Memory × Event) → File Line × Result Error Event
    written_to f written (err e) = (f, err e)
    written_to f true (ok (m, ev)) =
        (record { memory = m; lines = f.lines ++ encode ev ∷ [] }, ok ev)
    written_to f false (ok (m, ev)) = (record f { memory = m }, err not_written)

    unfoldable pub append_file : File Line → Bool → Event → File Line × Result Error Event
    append_file f written ev = written_to f written (append f.memory ev)

    -- The events that `File.Append` answers with.
    abbrev pub answered : Result Error Event → List Event
    answered (err e) = []
    answered (ok ev) = ev ∷ []

    abbrev pub reopened : File Line → Result Error Memory → File Line
    reopened f (err e) = f
    reopened f (ok m) = record f { memory = m }

    -- What the users of a journal do, with the events they are answered: `File.Append` with or without
    -- a failing write, `File.Close`, and `OpenFile` in a new process.
    unfoldable pub call : File Line → Call → File Line × List Event
    unfolding append_file close open_file
    call f (appends written ev) = let r = append_file f written ev in (r.0, answered r.1)
    call f closes = (record f { memory = close f.memory }, [])
    call f restarts = (reopened f (open_file f.lines), [])

    unfoldable pub calls : File Line → List Call → File Line × List Event
    unfolding call
    calls f [] = (f, [])
    calls f (c ∷ cs) = let r = call f c in let rest = calls r.0 cs in (rest.0, r.1 ++ rest.1)
