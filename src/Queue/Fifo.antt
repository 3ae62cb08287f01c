-- ===== src/Queue/Fifo.antt =====
-- MPSCQueue (service/job_queue.cpp) hands out what was pushed, in the order of the pushes.
use iqoption_test_task.Prelude.{
  ℕ, zero, suc, subst, map, append-nil, ◌+◌, ◌≡◌, refl, sym, ap, ◌∙◌, Option, none, some, List, [],
  ◌∷◌, ◌++◌, length, get_or, set, arith, length-append, append_assoc,
}
use iqoption_test_task.Queue.{
  Node, MpscQueue, stub, new_queue, push, try_pop, exchange_tail, link_next,
}

module _ {A : Type 0} where
  -- The node at h, with value v, and behind it one node for each value, each linked to the next.
  abbrev pub cells : ℕ → Option A → List A → List (Node A)
  cells h v [] = record { next = none; value = v } ∷ []
  cells h v (x ∷ xs) = record { next = some (suc h); value = v } ∷ cells (suc h) (some x) xs

  -- The queue holds these values, the oldest first.
  abbrev pub Holds : MpscQueue A → List A → Type 0
  Holds q xs =
      (front : List (Node A)) × (v : Option A) × (q.nodes ≡ front ++ cells (length front) v xs)
      × (q.head ≡ length front)
      × (q.tail ≡ length front + length xs)

  length-cells : (h : ℕ) (v : Option A) (xs : List A) → length (cells h v xs) ≡ suc (length xs)
  length-cells h v [] = refl
  length-cells h v (x ∷ xs) = ap suc (length-cells (suc h) (some x) xs)

  abbrev linked : List (Node A) → ℕ → ℕ → List (Node A)
  linked nodes prev new = set nodes prev (record (get_or nodes prev stub) { next = some new })

  linked-append :
      (front back : List (Node A)) (j new : ℕ)
      → linked (front ++ back) (length front + j) new ≡ front ++ linked back j new
  linked-append [] back j new = let e : 0 + j ≡ j = omega arith in rw e refl
  linked-append (n ∷ ns) back j new =
      let e : suc (length ns) + j ≡ suc (length ns + j) = omega arith in
      rw (e, linked-append ns back j new) refl

  abbrev last_node : A → List (Node A)
  last_node x = record { next = none; value = some x } ∷ []

  linked-cells :
      (h : ℕ) (v : Option A) (xs : List A) (x : A) (new : ℕ)
      → new ≡ suc h + length xs
      → linked (cells h v xs ++ last_node x) (length xs) new ≡ cells h v (xs ++ (x ∷ []))
  linked-cells h v [] x new e = let e' : new ≡ suc h = omega arith in rw e' refl
  linked-cells h v (y ∷ ys) x new e = rw (linked-cells (suc h) (some y) ys x new (omega arith)) refl

  pub new_queue-Holds : Holds new_queue []
  new_queue-Holds = ([], none, refl, refl, omega arith)

  -- A push puts its value behind all others.
  pub push-Holds :
      (q : MpscQueue A) (xs : List A) (x : A) → Holds q xs → Holds (push x q) (xs ++ (x ∷ []))
  unfolding push exchange_tail link_next
  push-Holds q xs x (front, v, nodes, head, tail) =
      let size : length q.nodes ≡ suc (length front) + length xs = omega (
        arith,
        ap length nodes,
        length-append front (cells (length front) v xs),
        length-cells (length front) v xs,
      ) in
      (
        front,
        v,
        rw (tail, size, nodes, append_assoc front (cells (length front) v xs) (last_node x))
            (linked-append front (cells (length front) v xs ++ last_node x) (length xs)
                (suc (length front) + length xs)
              ∙ ap (◌++◌ front)
                  (linked-cells (length front) v xs x (suc (length front) + length xs) refl)),
        head,
        omega (arith, size, length-append xs (x ∷ [])),
      )

  get_or-append :
      (front back : List (Node A)) (j : ℕ)
      → get_or (front ++ back) (length front + j) stub ≡ get_or back j stub
  get_or-append [] back j = let e : 0 + j ≡ j = omega arith in rw e refl
  get_or-append (n ∷ ns) back j =
      let e : suc (length ns) + j ≡ suc (length ns + j) = omega arith in
      rw e (get_or-append ns back j)

  first_value : (h : ℕ) (v : Option A) (xs : List A) → (get_or (cells h v xs) 0 stub).value ≡ v
  first_value h v [] = refl
  first_value h v (x ∷ xs) = refl

  -- An empty queue gives nothing and stays as it is.
  pub try_pop-empty : (q : MpscQueue A) → Holds q [] → try_pop q ≡ (none, q)
  unfolding try_pop
  try_pop-empty q (front, v, nodes, head, tail) =
      let at : q.head ≡ length front + 0 = omega arith in
      let last : get_or q.nodes q.head stub ≡ record { next = none; value = v } =
        rw (at, nodes) (get_or-append front (cells (length front) v []) 0) in
      rw last refl

  -- Else it gives the oldest value and keeps the others.
  pub try_pop-Holds :
      (q : MpscQueue A) (x : A) (xs : List A)
      → Holds q (x ∷ xs)
      → ((try_pop q).0 ≡ some x) × Holds (try_pop q).1 xs
  unfolding try_pop
  try_pop-Holds q x xs (front, v, nodes, head, tail) =
      let h = length front in
      let cell : Node A = record { next = some (suc h); value = v } in
      let at : q.head ≡ h + 0 = omega arith in
      let first : get_or q.nodes q.head stub ≡ cell =
        rw (at, nodes) (get_or-append front (cells h v (x ∷ xs)) 0) in
      let there : suc h ≡ h + 1 = omega arith in
      let popped : (get_or q.nodes (suc h) stub).value ≡ some x =
        rw (there, nodes)
          (ap (λ (n : Node A). n.value) (get_or-append front (cells h v (x ∷ xs)) 1)
            ∙ first_value (suc h) (some x) xs) in
      let longer : length (front ++ (cell ∷ [])) ≡ suc h =
        omega (arith, length-append front (cell ∷ [])) in
      rw first (
        popped,
        (
          front ++ (cell ∷ []),
          some x,
          rw (longer, append_assoc front (cell ∷ []) (cells (suc h) (some x) xs)) nodes,
          sym longer,
          omega (arith, longer),
        ),
      )

  unfoldable pub push_all : List A → MpscQueue A → MpscQueue A
  push_all [] q = q
  push_all (x ∷ xs) q = push_all xs (push x q)

  -- What a consumer gets in n calls of tryPop.
  unfoldable pub pop_times : ℕ → MpscQueue A → List (Option A)
  pop_times zero q = []
  pop_times (suc n) q = (try_pop q).0 ∷ pop_times n (try_pop q).1

  push_all-Holds :
      (ys xs : List A) (q : MpscQueue A) → Holds q xs → Holds (push_all ys q) (xs ++ ys)
  unfolding push_all
  push_all-Holds [] xs q h = rw append-nil h
  push_all-Holds (y ∷ ys) xs q h =
      subst (Holds (push_all ys (push y q))) (append_assoc xs (y ∷ []) ys)
        (push_all-Holds ys (xs ++ (y ∷ [])) (push y q) (push-Holds q xs y h))

  pop_times-Holds :
      (xs : List A) (q : MpscQueue A)
      → Holds q xs
      → pop_times (suc (length xs)) q ≡ map some xs ++ (none ∷ [])
  unfolding pop_times
  pop_times-Holds [] q h = rw (try_pop-empty q h) refl
  pop_times-Holds (x ∷ xs) q h =
      let (first, rest) = try_pop-Holds q x xs h in
      rw (first, pop_times-Holds xs (try_pop q).1 rest) refl

  -- Whatever a queue holds, what is pushed comes out behind it in the order of the pushes, each value
  -- once, and then the queue is empty.
  pub pop_times-push_all :
      (xs ys : List A) (q : MpscQueue A)
      → Holds q xs
      → pop_times (suc (length (xs ++ ys))) (push_all ys q) ≡ map some (xs ++ ys) ++ (none ∷ [])
  pop_times-push_all xs ys q h =
      pop_times-Holds (xs ++ ys) (push_all ys q) (push_all-Holds ys xs q h)
