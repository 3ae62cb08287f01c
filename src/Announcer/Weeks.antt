-- ===== src/Announcer/Weeks.antt =====
-- When the rating of a week is dropped (service/rating_announcer.cpp), and whom a minute's
-- announcements are for.
use iqoption_test_task.Prelude.{
  ℕ, zero, suc, ◌⊎◌, inl, inr, some, get_or, ◌++◌, sym, ap, subst, Bool-cases, ltb, ◌+◌, ◌≤◌, ◌<◌,
  ◌≡◌, refl, ◌∙◌, Bool, true, false, List, [], ◌∷◌, arith, lt→ltb, le→ltb_false,
}
use iqoption_test_task.Core.{IterationData}
use iqoption_test_task.Queue.{next_index, enqueue_user_data}
use iqoption_test_task.Announcer.{
  Announcer, Jobs, after_recalculate, finish_minute, minute, announce, announce_seconds,
  announce_minute,
}

-- Serving the rating of the week that is on.
pub record IsCurrent (a : Announcer) : Type 0 where
  pub kept : a.drop_old_rating ≡ false
  pub settled : a.week_just_turned ≡ false

-- While the week start does not pass the expiration date, no rating is dropped, and the date stays.
pub minute-IsCurrent :
    (a : Announcer) (week week_later second : ℕ)
    → IsCurrent a
    → week_later ≤ a.rating_expiration_date
    → IsCurrent (minute week week_later second a)
      × ((minute week week_later second a).rating_expiration_date ≡ a.rating_expiration_date)
unfolding minute finish_minute after_recalculate
minute-IsCurrent a week week_later second c h =
    let le = le→ltb_false a.rating_expiration_date week_later h in
    rw (c.kept, c.settled, le) (record { kept = refl; settled = refl }, refl)

-- When a minute ends in a new week, the next minute still has the old rating, the one after it begins
-- with a recalculation that drops it, and from then on the rating is that of the new week.
pub minute-new_week :
    (a : Announcer) (w₀ w₁ w s₁ s₂ s₃ : ℕ)
    → IsCurrent a
    → a.rating_expiration_date < w
    → let a₁ = minute w₀ w s₁ a in
      let a₂ = minute w₁ w s₂ a₁ in
      let a₃ = minute w w s₃ a₂ in
      (a₁.drop_old_rating ≡ false)
      × (a₂.drop_old_rating ≡ true)
      × IsCurrent a₃
      × (a₃.rating_expiration_date ≡ w)
unfolding minute finish_minute after_recalculate
minute-new_week a w₀ w₁ w s₁ s₂ s₃ c h =
    let lt = lt→ltb a.rating_expiration_date w h in
    let same = le→ltb_false w w (omega arith) in
    rw (c.kept, c.settled, lt, same) (refl, refl, record { kept = refl; settled = refl }, refl)

-- The users who are to be told at so many seconds, from one on.
abbrev pub users_from : IterationData → ℕ → ℕ → List ℕ
users_from it second zero = []
users_from it second (suc n) = get_or it.users_online second [] ++ users_from it (suc second) n

-- A job for each user: each goes to the queue whose turn it is.
abbrev pub enqueue_all : List ℕ → Jobs → Jobs
enqueue_all [] j = j
enqueue_all (id ∷ ids) j = enqueue_all ids (record {
  index = next_index j.index j.queues;
  queues = enqueue_user_data (some id) j.index j.queues;
})

announce-enqueue_all :
    (users rest : List ℕ) (j : Jobs)
    → enqueue_all rest (announce users j) ≡ enqueue_all (users ++ rest) j
unfolding announce
announce-enqueue_all [] rest j = refl
announce-enqueue_all (u ∷ users) rest j = announce-enqueue_all users rest _

-- No turn is taken at the end of the minute or at a signal.
stops :
    (it : IterationData) (bad_flag : ℕ → Bool) (fuel second : ℕ) (j : Jobs)
    → (second ≡ 60) ⊎ (bad_flag second ≡ true)
    → announce_seconds bad_flag it fuel second j ≡ (second, j)
unfolding announce_seconds
stops it flag zero second j end = refl
stops it flag (suc fuel) second j (inl e) =
    let over : ltb second 60 ≡ false = le→ltb_false second 60 (omega arith) in rw over refl
stops it flag (suc fuel) second j (inr e) = elim (Bool-cases (ltb second 60)) [
  | inl y ↦ rw (y, e) refl
  | inr y ↦ rw y refl
]

-- The loop ends after n seconds.
announce_seconds_lem :
    (it : IterationData) (bad_flag : ℕ → Bool) (n fuel second : ℕ) (j : Jobs)
    → n ≤ fuel
    → second + n ≤ 60
    → ((k : ℕ) → second ≤ k → k < second + n → bad_flag k ≡ false)
    → (second + n ≡ 60) ⊎ (bad_flag (second + n) ≡ true)
    → announce_seconds bad_flag it fuel second j
      ≡ (second + n, enqueue_all (users_from it second n) j)
unfolding announce_seconds
announce_seconds_lem it flag zero fuel second j enough le calm end =
    let same : second + 0 ≡ second = omega arith in
    subst (λ k. announce_seconds flag it fuel second j ≡ (k, j)) (sym same)
      (stops it flag fuel second j (subst (λ k. (k ≡ 60) ⊎ (flag k ≡ true)) same end))
announce_seconds_lem it flag (suc n) zero second j enough le calm end = absurd (omega arith)
announce_seconds_lem it flag (suc n) (suc fuel) second j enough le calm end =
    let on : ltb second 60 ≡ true = lt→ltb second 60 (omega arith) in
    let later : suc second + n ≡ second + suc n = omega arith in
    let users = get_or it.users_online second [] in
    let rest =
      announce_seconds_lem it flag n fuel (suc second) (announce users j) (omega arith)
        (omega arith) (λ k from lt. calm k (omega arith) (omega arith))
        (subst (λ k. (k ≡ 60) ⊎ (flag k ≡ true)) (sym later) end) in
    rw (on, calm second (omega arith) (omega arith))
      (rest
        ∙ rw later (
            ap (λ x. (second + suc n, x))
              (announce-enqueue_all users (users_from it (suc second) n) j)))

-- From the second of the announcer's index, let n seconds pass until the end of the minute or until a
-- stop signal is read, and none be read before. Then the loop ends there, and it has put a job for
-- each user of these seconds into the queues, in their order, and no other.
pub announce_minute_lem :
    (it : IterationData) (a : Announcer) (j : Jobs) (bad_flag : ℕ → Bool) (n : ℕ)
    → a.chrono_set_index + n ≤ 60
    → ((k : ℕ) → a.chrono_set_index ≤ k → k < a.chrono_set_index + n → bad_flag k ≡ false)
    → (a.chrono_set_index + n ≡ 60) ⊎ (bad_flag (a.chrono_set_index + n) ≡ true)
    → announce_minute bad_flag it a j
      ≡ (a.chrono_set_index + n, enqueue_all (users_from it a.chrono_set_index n) j)
unfolding announce_minute
announce_minute_lem it a j flag n le calm end =
    announce_seconds_lem it flag n 60 a.chrono_set_index j (omega arith) le calm end
