-- ===== src/Daemon/Queue/Laws.antt =====
-- The queue is a bounded FIFO that drops the newest events, and counts them.
use mathlib.Core.List.{append_assoc, append-nil}
use yyr4_linux_control.Base.{
  ℕ, zero, suc, ◌+◌, ◌-◌, ◌≤◌, ◌≡◌, refl, subst, ap, sym, ◌∙◌, true, false, List, [], ◌∷◌, ◌++◌,
  length, length-append, arith, leb, take, Bool-cases, inl, inr, ◌<◌,
}
use yyr4_linux_control.Daemon.Queue.{EventQueue, enqueue, enqueue_all, drain, get_all_nowait}

module _ {A : Type 0} where
  drain-append : (xs items : List A) → drain xs items ≡ items ++ xs
  unfolding drain
  drain-append [] items = sym (append-nil items)
  drain-append (x ∷ xs) items = drain-append xs (items ++ x ∷ []) ∙ append_assoc items (x ∷ []) xs

  -- `get_all_nowait` returns every item, the oldest first, and leaves the queue empty.
  pub get_all_nowait_lem :
      (q : EventQueue A) → get_all_nowait q ≡ (q.items, record q { items = [] })
  unfolding get_all_nowait
  get_all_nowait_lem q = ap (λ xs. (xs, record q { items = [] })) (drain-append q.items [])

  take-nil : (n : ℕ) → take {A = A} n [] ≡ []
  take-nil zero = refl
  take-nil (suc n) = refl

  -- What a burst does to a queue: which events it keeps and how many it counts as dropped.
  abbrev pub IsBurst : List A → EventQueue A → EventQueue A → Type 0
  IsBurst es q r =
      (r.items ≡ q.items ++ take (q.capacity - length q.items) es)
      × (r.dropped_count ≡ q.dropped_count + (length es - (q.capacity - length q.items)))
      × (length r.items ≤ r.capacity)
      × (r.capacity ≡ q.capacity)

  IsBurst-full :
      (e : A) (es : List A) (q r : EventQueue A)
      → q.capacity ≡ length q.items
      → IsBurst es (record q { dropped_count = q.dropped_count + 1 }) r
      → IsBurst (e ∷ es) q r
  IsBurst-full e es q r full (items, dropped, fits, same) =
      let none_left : q.capacity - length q.items ≡ 0 = omega arith in
      (
        items
            ∙ ap (λ n. q.items ++ take n es) none_left
            ∙ sym (ap (λ n. q.items ++ take n (e ∷ es)) none_left),
        omega (arith, dropped, none_left),
        fits,
        same,
      )

  IsBurst-room :
      (e : A) (es : List A) (q r : EventQueue A)
      → length q.items < q.capacity
      → IsBurst es
          (record q { items = q.items ++ e ∷ []; unfinished_tasks = q.unfinished_tasks + 1 })
          r
      → IsBurst (e ∷ es) q r
  IsBurst-room e es q r room (items, dropped, fits, same) =
      let longer = length-append q.items (e ∷ []) in
      let n = q.capacity - length (q.items ++ e ∷ []) in
      let one_more : q.capacity - length q.items ≡ suc n = omega (arith, longer) in
      (
        items
            ∙ append_assoc q.items (e ∷ []) (take n es)
            ∙ sym (ap (λ m. q.items ++ take m (e ∷ es)) one_more),
        omega (arith, dropped, one_more),
        fits,
        same,
      )

  abbrev drop_one : EventQueue A → EventQueue A
  drop_one q = record q { dropped_count = q.dropped_count + 1 }

  abbrev keep_one : A → EventQueue A → EventQueue A
  keep_one e q = record q { items = q.items ++ e ∷ []; unfinished_tasks = q.unfinished_tasks + 1 }

  enqueue_full :
      (e : A) (q : EventQueue A)
      → leb q.capacity (length q.items) ≡ true
      → (enqueue e q).0 ≡ drop_one q
  unfolding enqueue
  enqueue_full e q h = rw h

  enqueue_room :
      (e : A) (q : EventQueue A)
      → leb q.capacity (length q.items) ≡ false
      → (enqueue e q).0 ≡ keep_one e q
  unfolding enqueue
  enqueue_room e q h = rw h

  -- Of a burst of events a queue within its capacity keeps, behind its items and in their order,
  -- the first ones that there is room for. It counts the others as dropped, and stays within its
  -- capacity.
  pub enqueue_all-IsBurst :
      (es : List A) (q : EventQueue A)
      → length q.items ≤ q.capacity
      → IsBurst es q (enqueue_all es q)
  unfolding enqueue_all
  enqueue_all-IsBurst [] q h = (
    sym (ap (λ x. q.items ++ x) (take-nil (q.capacity - length q.items)) ∙ append-nil q.items),
    omega arith,
    h,
    refl,
  )
  enqueue_all-IsBurst (e ∷ es) q h = elim (Bool-cases (leb q.capacity (length q.items))) [
    | inl full ↦ IsBurst-full e es q (enqueue_all es (enqueue e q).0) (ground arith) (
        subst (λ s. IsBurst es (drop_one q) (enqueue_all es s)) (sym (enqueue_full e q full))
          (enqueue_all-IsBurst es (drop_one q) h))
    | inr room ↦ IsBurst-room e es q (enqueue_all es (enqueue e q).0) (ground arith) (
        subst (λ s. IsBurst es (keep_one e q) (enqueue_all es s)) (sym (enqueue_room e q room))
          (enqueue_all-IsBurst es (keep_one e q) (ground (arith, length-append q.items (e ∷ [])))))
  ]
