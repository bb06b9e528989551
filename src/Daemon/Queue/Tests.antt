-- ===== src/Daemon/Queue/Tests.antt =====
-- A queue of two places.
use yyr4_linux_control.Base.{ℕ, ◌≡◌, List, [], ◌∷◌, refl, arith}
use yyr4_linux_control.Daemon.Queue.{EventQueue, enqueue_all, enqueue}
use yyr4_linux_control.Daemon.Queue.Laws.{IsBurst, enqueue_all-IsBurst}

abbrev one_waiting : EventQueue ℕ
one_waiting = record { capacity = 2; items = 7 ∷ []; unfinished_tasks = 1; dropped_count = 0 }

abbrev burst : List ℕ
burst = 8 ∷ 9 ∷ 10 ∷ []

two_dropped : (enqueue_all burst one_waiting).dropped_count ≡ 2
unfolding enqueue_all enqueue
two_dropped = refl

enqueue_all-IsBurst_example : IsBurst burst one_waiting (enqueue_all burst one_waiting)
enqueue_all-IsBurst_example = enqueue_all-IsBurst burst one_waiting (omega arith)
