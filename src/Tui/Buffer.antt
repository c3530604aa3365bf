-- ===== src/Tui/Buffer.antt =====
-- lib/sippycup_tui/state.py, `BoundedEventBuffer`: its critical sections, and the steps that
-- producers and consumers take between them. A thread that has seen the queue full, and one that
-- has found no drop to report, stands between two sections; a timeout may end its wait.
pub mod Conserved
use sippycup.Prelude.{
  ℕ, ◌+◌, ◌-◌, ◌<◌, String, Bool, true, false, ◌&&◌, List, [], ◌∷◌, ◌++◌, Option, none, some,
  Result, ok, err, ◌>>=◌, ◌>>◌, guard, ◌≡◌, not, str_eq, ltb, leb, ◌==◌, length, if◌then◌else◌,
}
use sippycup.Json.{int, pos, Fields, end, field}
use sippycup.Tui.Event.{Event, EventError, invalid_capacity}

pub record Buffer : Type 0 where
  pub capacity : ℕ
  pub queue : List Event
  pub dropped : ℕ
  pub diagnostic_sequence : ℕ

-- `__init__`.
unfoldable pub create : ℕ → Result EventError Buffer
create capacity = do
  guard (leb 1 capacity && leb capacity 10000) invalid_capacity
  ok (record { capacity = capacity; queue = []; dropped = 0; diagnostic_sequence = 0 })

-- `self._queue.put`, or `none` for `queue.Full`.
unfoldable pub enqueue : Event → Buffer → Option Buffer
enqueue event b =
    if ltb (length b.queue) b.capacity
    then some (record b { queue = b.queue ++ event ∷ [] })
    else none

-- `self._dropped += 1`, under the lock.
unfoldable pub count_drop : Buffer → Buffer
count_drop b = record b { dropped = b.dropped + 1 }

-- `Event(sequence, "ui-buffer", "ui.dropped", {"count": count})`.
abbrev pub diagnostic : ℕ → ℕ → Event
diagnostic sequence count = record {
  sequence = sequence;
  source = "ui-buffer";
  kind = "ui.dropped";
  payload = field "count" (int (pos count)) end;
}

-- The part of `get` under the lock: a report of the drops, or `none` where there are none.
unfoldable pub report_drops : Buffer → Option (Event × Buffer)
report_drops b =
    if b.dropped == 0
    then none
    else some (
      diagnostic (b.diagnostic_sequence + 1) b.dropped,
      record b { dropped = 0; diagnostic_sequence = b.diagnostic_sequence + 1 },
    )

-- `self._queue.get`, or `none` where it waits.
unfoldable pub dequeue : List Event → Buffer → Option (Event × Buffer)
dequeue [] b = none
dequeue (event ∷ rest) b = some (event, record b { queue = rest })

-- Whether `task_done` tells the queue.
unfoldable pub is_queued : Event → Bool
is_queued event = not (str_eq event.source "ui-buffer")

-- The buffer with the threads between two sections, and what was seen from outside: the events for
-- which `put` found room, the number of those for which it did not, and what `get` returned.
pub record System : Type 0 where
  pub buffer : Buffer
  pub refused : ℕ
  pub waiting : ℕ
  pub accepted : List Event
  pub lost : ℕ
  pub delivered : List Event
  pub reports : List Event

abbrev pub start : Buffer → System
start b = record {
  buffer = b;
  refused = 0;
  waiting = 0;
  accepted = [];
  lost = 0;
  delivered = [];
  reports = [];
}

pub data Step : System → System → Type 0 where
  put_succeeds :
      (s : System) (event : Event) (b : Buffer)
      → enqueue event s.buffer ≡ some b
      → Step s (record s { buffer = b; accepted = s.accepted ++ event ∷ [] })
  put_finds_full :
      (s : System) (event : Event)
      → enqueue event s.buffer ≡ none
      → Step s (record s { refused = s.refused + 1; lost = s.lost + 1 })
  put_counts :
      (s : System)
      → 0 < s.refused
      → Step s (record s { buffer = count_drop s.buffer; refused = s.refused - 1 })
  get_reports :
      (s : System) (event : Event) (b : Buffer)
      → report_drops s.buffer ≡ some (event, b)
      → Step s (record s { buffer = b; reports = s.reports ++ event ∷ [] })
  get_waits :
      (s : System) → report_drops s.buffer ≡ none → Step s (record s { waiting = s.waiting + 1 })
  get_takes :
      (s : System) (event : Event) (b : Buffer)
      → 0 < s.waiting
      → dequeue s.buffer.queue s.buffer ≡ some (event, b)
      → Step s
          (record s { buffer = b; waiting = s.waiting - 1; delivered = s.delivered ++ event ∷ [] })
  get_times_out : (s : System) → 0 < s.waiting → Step s (record s { waiting = s.waiting - 1 })

pub data Reach (s : System) : System → Type 0 where
  here : Reach s s
  next : {t u : System} → Reach s t → Step t u → Reach s u
