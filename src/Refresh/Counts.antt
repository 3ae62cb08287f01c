-- ===== src/Refresh/Counts.antt =====
-- How many workers are at which stages, and what a move does to these numbers (service/worker_pool.cpp).
use iqoption_test_task.Prelude.{
  zero, suc, ℕ, ◌+◌, ◌≡◌, refl, ap, Bool, true, false, not, ◌||◌, List, [], ◌∷◌, ◌++◌, map,
  replicate, if◌then◌else◌, arith,
}
use iqoption_test_task.Refresh.{
  Stage, reads, depletes, locked, dozes, asleep, woken, left_by_flag, Change, same, minus, plus,
  changed, Move, see_refresh, lock, count_out, doze, sleep, wake_spuriously, lock_again, wake,
  count_in, leave, fail_reading, fail_depleting, holds_lock, is_free, notified_by,
}

-- A worker that may read the rating.
abbrev pub is_reading : Stage → Bool
is_reading reads = true
is_reading depletes = true
is_reading _ = false

-- One that dataReaderCount counts: also one that left for a signal.
abbrev pub is_counted : Stage → Bool
is_counted locked = true
is_counted left_by_flag = true
is_counted w = is_reading w

abbrev pub is_woken : Stage → Bool
is_woken woken = true
is_woken _ = false

abbrev pub is_dozing : Stage → Bool
is_dozing dozes = true
is_dozing _ = false

abbrev pub is_asleep : Stage → Bool
is_asleep asleep = true
is_asleep _ = false

abbrev pub bit : Bool → ℕ
bit b = if b then 1 else 0

-- How many of the workers.
abbrev pub number : (Stage → Bool) → List Stage → ℕ
number f [] = 0
number f (w ∷ ws) = bit (f w) + number f ws

pub number-replace :
    (f : Stage → Bool) (xs ys : List Stage) (w w' : Stage)
    → number f (xs ++ (w' ∷ ys)) + bit (f w) ≡ number f (xs ++ (w ∷ ys)) + bit (f w')
number-replace f [] ys w w' = omega arith
number-replace f (x ∷ xs) ys w w' = omega (arith, number-replace f xs ys w w')

pub number-member :
    (f : Stage → Bool) (xs ys : List Stage) (w : Stage)
    → number f (xs ++ (w ∷ ys)) ≡ 0
    → f w ≡ false
number-member f [] ys w z = ground arith
number-member f (x ∷ xs) ys w z = number-member f xs ys w (omega arith)

abbrev pub taken : Change → ℕ
taken minus = 1
taken _ = 0

abbrev pub given : Change → ℕ
given plus = 1
given _ = 0

abbrev pub implies : Bool → Bool → Bool
implies true b = b
implies false b = true

-- What a move does to the counts.
pub Move-counts :
    {refresh free : Bool} {w w' : Stage} {c : Change}
    → Move refresh free w w' c
    → (bit (is_counted w') + taken c ≡ bit (is_counted w) + given c)
      × (implies (is_counted w') (is_counted w || is_woken w) ≡ true)
      × (implies (is_woken w') (not refresh) ≡ true)
      × (implies (is_dozing w') refresh ≡ true)
      × (implies (is_asleep w') (is_dozing w) ≡ true)
Move-counts (see_refresh f) = (refl, refl, refl, refl, refl)
Move-counts (lock r) = (refl, refl, refl, refl, refl)
Move-counts (count_out r f) = (refl, refl, refl, refl, refl)
Move-counts (doze f) = (refl, refl, refl, refl, refl)
Move-counts (sleep r f) = (refl, refl, refl, refl, refl)
Move-counts (wake_spuriously r f) = (refl, refl, refl, refl, refl)
Move-counts (lock_again r) = (refl, refl, refl, refl, refl)
Move-counts (wake f) = (refl, refl, refl, refl, refl)
Move-counts (count_in r f) = (refl, refl, refl, refl, refl)
Move-counts (leave r f) = (refl, refl, refl, refl, refl)
Move-counts (fail_reading r f) = (refl, refl, refl, refl, refl)
Move-counts (fail_depleting r f) = (refl, refl, refl, refl, refl)

pub changed_lem :
    (c : Change) (n old new : ℕ) (b b' : Bool)
    → bit b' + taken c ≡ bit b + given c
    → new + bit b ≡ old + bit b'
    → n ≡ old
    → changed c n ≡ new
changed_lem same n old new b b' e r h = omega arith
changed_lem minus n old new b b' e r h = omega arith
changed_lem plus n old new b b' e r h = omega arith

pub not_then : (a b : Bool) → implies a b ≡ true → b ≡ false → a ≡ false
not_then true b e f = cc
not_then false b e f = refl

pub or_false : {a b : Bool} → a ≡ false → b ≡ false → (a || b) ≡ false
or_false e f = rw (e, f) refl

pub free_lem : (ws : List Stage) → is_free ws ≡ true → number is_dozing ws ≡ 0
unfolding is_free
free_lem [] f = refl
free_lem (w ∷ ws) f =
    let (free, others) = both (holds_lock w) (is_free ws) f in
    omega (arith, ap bit (undozed w free), free_lem ws others)
  where
    both : (a b : Bool) → (if a then false else b) ≡ true → (a ≡ false) × (b ≡ true)
    both true b e = absurd (cc)
    both false b e = (refl, e)

    undozed : (x : Stage) → holds_lock x ≡ false → is_dozing x ≡ false
    undozed x e = ground arith

-- To wake those who are asleep changes the counts of no others.
pub number-notified :
    (f : Stage → Bool) (ws : List Stage)
    → ((w : Stage) → f (notified_by w) ≡ f w)
    → number f (map notified_by ws) ≡ number f ws
number-notified f [] h = refl
number-notified f (w ∷ ws) h = omega (arith, ap bit (h w), number-notified f ws h)

pub nobody_asleep : (ws : List Stage) → number is_asleep (map notified_by ws) ≡ 0
nobody_asleep [] = refl
nobody_asleep (w ∷ ws) = omega (arith, ap bit (awake w), nobody_asleep ws)
  where
    awake : (x : Stage) → is_asleep (notified_by x) ≡ false
    awake x = ground arith

pub all_read : (n : ℕ) → number is_counted (replicate n reads) ≡ n
all_read zero = refl
all_read (suc n) = omega (arith, all_read n)

pub none_at_start : (f : Stage → Bool) (n : ℕ) → f reads ≡ false → number f (replicate n reads) ≡ 0
none_at_start f zero e = refl
none_at_start f (suc n) e = omega (arith, ap bit e, none_at_start f n e)
