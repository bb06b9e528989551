-- ===== src/Daemon/Queue.antt =====
-- daemon/queue.py: `DropNewestEventQueue`. The `asyncio.Queue` inside is unbounded; it is the list of
-- its items, the oldest first, and its count of unfinished tasks.
pub mod Laws
mod Tests
use yyr4_linux_control.Base.{
  ℕ, zero, suc, ◌+◌, ◌-◌, Bool, true, false, Option, none, some, List, [], ◌∷◌, ◌++◌, String,
  Result, ok, err, leb, length, if◌then◌else◌,
}

pub record EventQueue (A : Type 0) : Type 0 where
  pub capacity : ℕ
  pub items : List A
  pub unfinished_tasks : ℕ
  pub dropped_count : ℕ

module _ {A : Type 0} where
  abbrev pub empty : ℕ → EventQueue A
  empty capacity = record {
    capacity = capacity;
    items = [];
    unfinished_tasks = 0;
    dropped_count = 0;
  }

  unfoldable pub enqueue : A → EventQueue A → EventQueue A × Bool
  enqueue event q =
      if leb q.capacity (length q.items)
      then (record q { dropped_count = q.dropped_count + 1 }, false)
      else (
        record q { items = q.items ++ event ∷ []; unfinished_tasks = q.unfinished_tasks + 1 },
        true,
      )

  -- the items without the first
  abbrev pub taken : EventQueue A → List A → Option (A × EventQueue A)
  taken q [] = none
  taken q (x ∷ xs) = some (x, record q { items = xs })

  -- `none`: the call waits for an event
  unfoldable pub dequeue : EventQueue A → Option (A × EventQueue A)
  dequeue q = taken q q.items

  -- `none`: `task_done` was called more often than items were taken
  unfoldable pub task_done : EventQueue A → Option (EventQueue A)
  task_done q =
      if leb q.unfinished_tasks 0
      then none
      else some (record q { unfinished_tasks = q.unfinished_tasks - 1 })

  abbrev pub size : EventQueue A → ℕ
  size q = length q.items

  -- the loop of `get_all_nowait`, on the items that are left
  unfoldable pub drain : List A → List A → List A
  drain [] items = items
  drain (x ∷ xs) items = drain xs (items ++ x ∷ [])

  unfoldable pub get_all_nowait : EventQueue A → List A × EventQueue A
  unfolding drain
  get_all_nowait q = (drain q.items [], record q { items = [] })

  -- `enqueue` for each event of a burst
  unfoldable pub enqueue_all : List A → EventQueue A → EventQueue A
  enqueue_all [] q = q
  enqueue_all (e ∷ es) q = enqueue_all es (enqueue e q).0
