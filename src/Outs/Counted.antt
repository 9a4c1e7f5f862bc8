-- ===== src/Outs/Counted.antt =====
-- The bound on out numbers as a predicate on cells, under reads and writes.
use skorekeeper.Common.{
  ◌≤◌, String, Dict, lookup, insert, get_or, AllValues, AllValues-lookup, AllValues-insert, arith,
  Option-cases, inl, inr,
}
use skorekeeper.Game.{Event, blank_event}

abbrev pub IsCounted : Event → Type 0
IsCounted ev = ev.out_num ≤ 3

abbrev pub AllCounted : Dict Event → Type 0
AllCounted events = AllValues IsCounted events

-- A cell that is read, or a blank one where there is none.
pub IsCounted-found :
    (key id : String) (events : Dict Event)
    → AllCounted events
    → IsCounted (get_or (lookup key events) (blank_event id))
IsCounted-found key id events h = elim (Option-cases (lookup key events)) [
  | inl missing ↦ rw missing (omega arith)
  | inr (ev, found) ↦ rw found (AllValues-lookup IsCounted key events h found)
]

pub AllCounted-insert :
    (key : String) (ev : Event) (events : Dict Event)
    → AllCounted events
    → IsCounted ev
    → AllCounted (insert key ev events)
AllCounted-insert key ev events h c = AllValues-insert IsCounted key ev events h c
