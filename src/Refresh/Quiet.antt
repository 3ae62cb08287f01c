-- ===== src/Refresh/Quiet.antt =====
-- Nobody reads the rating while it is recalculated, and nobody is left asleep behind it
-- (service/worker_pool.cpp, service/rating_calculator.cpp).
use iqoption_test_task.Prelude.{
  ◌⊎◌, ℕ, ◌+◌, ◌≡◌, refl, sym, subst, ap, ◌∙◌, Bool, true, false, not, List, ◌∷◌, ◌++◌, arith, inl,
  inr,
}
use iqoption_test_task.Refresh.{
  Stage, reads, checks, asleep, notified, woken, Change, same, plus, changed, Move, lock_again,
  wake, count_in, Refreshing, idle, told, recalculates, stored, RefreshState, is_free, RefreshStep,
  move, tell, proceed, store, notify_all, RefreshRun, begun, continued,
}
use iqoption_test_task.Refresh.Counts.{
  is_reading, is_counted, is_woken, is_dozing, is_asleep, bit, number, number-replace,
  number-member, Move-counts, changed_lem, not_then, or_false, free_lem, number-notified,
  nobody_asleep, all_read, none_at_start,
}

-- The recalculating thread raises the flag only while no worker is between the end of its wait and its
-- count: a minute lies between two refreshes, a few instructions between these.
abbrev pub TimelyStep : {s s' : RefreshState} → RefreshStep s s' → Type 0
TimelyStep (tell s e) = number is_woken s.workers ≡ 0
TimelyStep (move s xs ys w w' c e m) = Unit {0}
TimelyStep (proceed s e z) = Unit {0}
TimelyStep (store s e f) = Unit {0}
TimelyStep (notify_all s e) = Unit {0}

abbrev pub Timely : {n : ℕ} {s : RefreshState} → RefreshRun n s → Type 0
Timely begun = Unit {0}
Timely (continued r t) = Timely r × TimelyStep t

-- The flag at each point of the recalculating thread.
abbrev raised : Refreshing → Bool
raised idle = false
raised told = true
raised recalculates = true
raised stored = false

record Invariant (s : RefreshState) : Type 0 where
  flag : s.refresh_in_progress ≡ raised s.refreshing
  counted : s.data_reader_count ≡ number is_counted s.workers
  no_woken : s.refresh_in_progress ≡ true → number is_woken s.workers ≡ 0
  none_counted : s.refreshing ≡ recalculates → number is_counted s.workers ≡ 0
  no_dozing : s.refresh_in_progress ≡ false → number is_dozing s.workers ≡ 0
  no_asleep : s.refreshing ≡ idle → number is_asleep s.workers ≡ 0

flag_at :
    (s : RefreshState) (r : Refreshing)
    → Invariant s
    → s.refreshing ≡ r
    → s.refresh_in_progress ≡ raised r
flag_at s r v e = v.flag ∙ ap raised e

module _ (s : RefreshState) (xs ys : List Stage) (w w' : Stage) (v : Invariant s)
    (e : s.workers ≡ xs ++ (w ∷ ys)) where
  -- How many there are after the worker's move.
  replaced :
      (f : Stage → Bool) → number f (xs ++ (w' ∷ ys)) + bit (f w) ≡ number f s.workers + bit (f w')
  replaced f = number-replace f xs ys w w' ∙ ap (λ l. number f l + bit (f w')) (sym e)

  nobody : (f : Stage → Bool) → number f s.workers ≡ 0 → f w ≡ false
  nobody f z = number-member f xs ys w (ap (number f) (sym e) ∙ z)

  -- Still there is nobody, if the move makes none.
  still_nobody :
      (f : Stage → Bool) → number f s.workers ≡ 0 → f w' ≡ false → number f (xs ++ (w' ∷ ys)) ≡ 0
  still_nobody f z none_new = omega (arith, replaced f, ap bit none_new, z)

Move-Invariant :
    (s : RefreshState) (xs ys : List Stage) (w w' : Stage) (c : Change)
    → s.workers ≡ xs ++ (w ∷ ys)
    → Move s.refresh_in_progress (is_free s.workers) w w' c
    → Invariant s
    → Invariant
        (record s { workers = xs ++ (w' ∷ ys); data_reader_count = changed c s.data_reader_count })
Move-Invariant s xs ys w w' c e m v =
    let (counts, becomes, wakes, dozing, sleeps) = Move-counts m in
    record {
      flag = v.flag;
      counted =
          changed_lem c s.data_reader_count (number is_counted s.workers)
            (number is_counted (xs ++ (w' ∷ ys))) (is_counted w) (is_counted w') counts
            (replaced s xs ys w w' v e is_counted) v.counted;
      no_woken = λ r.
          still_nobody s xs ys w w' v e is_woken (v.no_woken r)
            (not_then (is_woken w') _ wakes (ap not r));
      none_counted = λ r. still_nobody s xs ys w w' v e is_counted (v.none_counted r) (
          not_then (is_counted w') _ becomes (
            or_false (nobody s xs ys w w' v e is_counted (v.none_counted r))
              (nobody s xs ys w w' v e is_woken (v.no_woken (flag_at s recalculates v r)))));
      no_dozing = λ r.
          still_nobody s xs ys w w' v e is_dozing (v.no_dozing r)
            (not_then (is_dozing w') _ dozing r);
      no_asleep = λ r. still_nobody s xs ys w w' v e is_asleep (v.no_asleep r) (
          not_then (is_asleep w') _ sleeps
            (nobody s xs ys w w' v e is_dozing (v.no_dozing (flag_at s idle v r))));
    }

RefreshStep-Invariant :
    {s s' : RefreshState} (t : RefreshStep s s') → TimelyStep t → Invariant s → Invariant s'
RefreshStep-Invariant (move s xs ys w w' c e m) p v = Move-Invariant s xs ys w w' c e m v
RefreshStep-Invariant (tell s e) p v = record {
  flag = refl;
  counted = v.counted;
  no_woken = λ r. p;
  none_counted = λ r. absurd (cc);
  no_dozing = λ r. absurd (cc);
  no_asleep = λ r. absurd (cc);
}
RefreshStep-Invariant (proceed s e z) p v = record {
  flag = flag_at s told v e;
  counted = v.counted;
  no_woken = v.no_woken;
  none_counted = λ r. sym v.counted ∙ z;
  no_dozing = v.no_dozing;
  no_asleep = λ r. absurd (cc);
}
RefreshStep-Invariant (store s e f) p v = record {
  flag = refl;
  counted = v.counted;
  no_woken = λ r. absurd (cc);
  none_counted = λ r. absurd (cc);
  no_dozing = λ r. free_lem s.workers f;
  no_asleep = λ r. absurd (cc);
}
RefreshStep-Invariant (notify_all s e) p v = record {
  flag = flag_at s stored v e;
  counted = v.counted ∙ sym (number-notified is_counted s.workers (λ w. ground arith));
  no_woken = λ r. number-notified is_woken s.workers (λ w. ground arith) ∙ v.no_woken r;
  none_counted = λ r. absurd (cc);
  no_dozing = λ r. number-notified is_dozing s.workers (λ w. ground arith) ∙ v.no_dozing r;
  no_asleep = λ r. nobody_asleep s.workers;
}

RefreshRun-Invariant : {n : ℕ} {s : RefreshState} (r : RefreshRun n s) → Timely r → Invariant s
RefreshRun-Invariant {n = n} begun p = record {
  flag = refl;
  counted = sym (all_read n);
  no_woken = λ r. absurd (cc);
  none_counted = λ r. absurd (cc);
  no_dozing = λ r. none_at_start is_dozing n refl;
  no_asleep = λ r. none_at_start is_asleep n refl;
}
RefreshRun-Invariant (continued r t) p = RefreshStep-Invariant t p.1 (RefreshRun-Invariant r p.0)

-- However the steps of the workers and of the recalculating thread interleave, if the flag is raised
-- only while no worker is between the end of its wait and its count, then no worker reads the rating
-- while it is recalculated.
pub run-quiet :
    (n : ℕ) (s : RefreshState) (r : RefreshRun n s) (before after : List Stage) (w : Stage)
    → Timely r
    → s.refreshing ≡ recalculates
    → s.workers ≡ before ++ (w ∷ after)
    → is_reading w ≡ false
run-quiet n s r before after w p e at =
    let v = RefreshRun-Invariant r p in
    uncounted w
      (number-member is_counted before after w (ap (number is_counted) (sym at) ∙ v.none_counted e))
  where
    uncounted : (x : Stage) → is_counted x ≡ false → is_reading x ≡ false
    uncounted x h = ground arith

-- In such a run, when the recalculating thread is idle again, a worker that waits was woken: nobody is
-- left asleep. If the lock is free, the worker then has three steps from here, in which it takes the
-- lock, sees the end of the refresh, and is counted as a reader of the rating again.
pub run-returns :
    (n : ℕ) (s : RefreshState) (r : RefreshRun n s) (before after : List Stage) (w : Stage)
    → Timely r
    → s.refreshing ≡ idle
    → is_free s.workers ≡ true
    → (w ≡ asleep) ⊎ (w ≡ notified)
    → s.workers ≡ before ++ (w ∷ after)
    → let s₁ : RefreshState = record s { workers = before ++ (checks ∷ after) } in
      let s₂ : RefreshState = record s { workers = before ++ (woken ∷ after) } in
      let s₃ : RefreshState = record s {
        workers = before ++ (reads ∷ after);
        data_reader_count = s.data_reader_count + 1;
      } in
      (w ≡ notified) × RefreshStep s s₁ × RefreshStep s₁ s₂ × RefreshStep s₂ s₃
run-returns n s r before after w p e f (inl a) at =
    let v = RefreshRun-Invariant r p in
    let awake =
      number-member is_asleep before after w (ap (number is_asleep) (sym at) ∙ v.no_asleep e) in
    absurd (cc (awake, ap is_asleep a))
run-returns n s r before after w p e f (inr a) at =
    let v = RefreshRun-Invariant r p in
    let low : s.refresh_in_progress ≡ false = flag_at s idle v e in
    let s₁ : RefreshState = record s { workers = before ++ (checks ∷ after) } in
    let s₂ : RefreshState = record s { workers = before ++ (woken ∷ after) } in
    (
      a,
      move s before after notified checks same (at ∙ ap (λ x. before ++ (x ∷ after)) a)
          (subst (λ b. Move s.refresh_in_progress b notified checks same) (sym f) (lock_again _)),
      move s₁ before after checks woken same refl
          (subst (λ b. Move b (is_free s₁.workers) checks woken same) (sym low) (wake _)),
      move s₂ before after woken reads plus refl (count_in _ _),
    )
