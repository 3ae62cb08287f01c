-- ===== src/Calculator/Phases.antt =====
-- processRegistrations, processRenames and processConnectionChanges (service/rating_calculator.cpp)
-- leave the rating alone.
use iqoption_test_task.Prelude.{
  ℕ, ◌≡◌, refl, sym, ap, subst, ◌∙◌, inl, inr, List, [], ◌∷◌, Option-cases, Bool-cases, Every,
}
use iqoption_test_task.Failures.{ok}
use iqoption_test_task.Maps.{find, assign}
use iqoption_test_task.Core.{IncomingDataBuffer}
use iqoption_test_task.Protocol.Service.{user_unrecognized_error}
use iqoption_test_task.Calculator.Users.{
  Impl, reconnected_user, move_online, reconnected_silent, enqueue_error_job, user_exists,
  process_registration, registrations_loop, process_registrations, process_rename, renames_loop,
  process_renames, process_connection_change, connection_changes_loop, process_connection_changes,
}
use iqoption_test_task.Calculator.Buffers.{registrations_loop-changes, renames_loop-changes}
use iqoption_test_task.Calculator.Kept.{Kept, Kept-refl, Kept-trans, standing-assign, IsSecond}

process_registration-Kept : (r : ℕ × List ℕ) (s : Impl) → Kept s (process_registration r s)
unfolding process_registration user_exists
process_registration-Kept (i, name) s = elim (Bool-cases (user_exists i s)) [
  | inl e ↦
      rw e (record {
        rating = refl;
        patches = refl;
        fresh = refl;
        deals = refl;
        standings = λ i. refl;
      })
  | inr e ↦
      rw e (record {
        rating = refl;
        patches = refl;
        fresh = refl;
        deals = refl;
        standings = λ i. refl;
      })
]

process_rename-Kept : (r : ℕ × List ℕ) (s : Impl) → Kept s (process_rename r s)
unfolding process_rename
process_rename-Kept (i, name) s = elim (Option-cases (find i s.active_users)) [
  | inr (u, e) ↦
      rw (e, process_rename)
        (record {
          rating = refl;
          patches = refl;
          fresh = refl;
          deals = refl;
          standings = standing-assign i u _ s.active_users e refl refl;
        })
  | inl e ↦ elim (Option-cases (find i s.silent_users)) [
    | inr (b, f) ↦
        rw (e, process_rename)
          (rw (f, process_rename)
            (record {
              rating = refl;
              patches = refl;
              fresh = refl;
              deals = refl;
              standings = λ i. refl;
            }))
    | inl f ↦
        rw (e, process_rename)
          (rw (f, process_rename)
            (record {
              rating = refl;
              patches = refl;
              fresh = refl;
              deals = refl;
              standings = λ i. refl;
            }))
  ]
]

-- What one connection change leads to.
abbrev Connects : ℕ → ℕ → Impl → Type 0
Connects i second s = (s' : Impl) × (process_connection_change (i, second) s ≡ ok s') × Kept s s'

process_connection_change-Kept : (i second : ℕ) (s : Impl) → IsSecond second → Connects i second s
unfolding process_connection_change
process_connection_change-Kept i second s valid = elim (Option-cases (find i s.active_users)) [
  | inr (u, e) ↦ (
    record s {
      active_users = assign i (reconnected_user second u) s.active_users;
      users_online = move_online i u.second_connected second s.users_online;
    },
    rw (valid, e) refl,
    record {
      rating = refl;
      patches = refl;
      fresh = refl;
      deals = refl;
      standings = standing-assign i u (reconnected_user second u) s.active_users e refl refl;
    },
  )
  | inl e ↦ elim (Option-cases (find i s.silent_users)) [
    | inr (b, f) ↦ (
      record s { silent_users = assign i (reconnected_silent second b) s.silent_users },
      rw (valid, e) (rw f refl),
      record { rating = refl; patches = refl; fresh = refl; deals = refl; standings = λ j. refl },
    )
    | inl f ↦ (
      enqueue_error_job (user_unrecognized_error i) s,
      rw (valid, e) (rw f refl),
      record { rating = refl; patches = refl; fresh = refl; deals = refl; standings = λ j. refl },
    )
  ]
]

registrations_loop-Kept : (rs : List (ℕ × List ℕ)) (s : Impl) → Kept s (registrations_loop rs s)
unfolding registrations_loop
registrations_loop-Kept [] s = Kept-refl s
registrations_loop-Kept (r ∷ rs) s =
    let t = process_registration r s in
    Kept-trans s t (registrations_loop rs t) (process_registration-Kept r s)
      (registrations_loop-Kept rs t)

renames_loop-Kept : (rs : List (ℕ × List ℕ)) (s : Impl) → Kept s (renames_loop rs s)
unfolding renames_loop
renames_loop-Kept [] s = Kept-refl s
renames_loop-Kept (r ∷ rs) s =
    let t = process_rename r s in
    Kept-trans s t (renames_loop rs t) (process_rename-Kept r s) (renames_loop-Kept rs t)

connection_changes_loop-Kept :
    (cs : List (ℕ × ℕ)) (s : Impl)
    → Every (λ c. IsSecond c.1) cs
    → (s' : Impl) × (connection_changes_loop cs s ≡ ok s') × Kept s s'
unfolding connection_changes_loop
connection_changes_loop-Kept [] s valid = (s, refl, Kept-refl s)
connection_changes_loop-Kept ((i, second) ∷ cs) s valid =
    let (t, first, kept) = process_connection_change-Kept i second s valid.0 in
    let (s', rest, kept') = connection_changes_loop-Kept cs t valid.1 in
    (s', rw first rest, Kept-trans s t s' kept kept')

process_registrations-Kept : (s : Impl) → Kept s (process_registrations s)
unfolding process_registrations
process_registrations-Kept s =
    let k = registrations_loop-Kept s.buffer.users_registered s in
    record {
      rating = k.rating;
      patches = k.patches;
      fresh = k.fresh;
      deals = k.deals;
      standings = k.standings;
    }

process_renames-Kept : (s : Impl) → Kept s (process_renames s)
unfolding process_renames
process_renames-Kept s =
    let k = renames_loop-Kept s.buffer.users_renamed s in
    record {
      rating = k.rating;
      patches = k.patches;
      fresh = k.fresh;
      deals = k.deals;
      standings = k.standings;
    }

process_connection_changes-Kept :
    (s : Impl)
    → Every (λ c. IsSecond c.1) s.buffer.connection_changes
    → (s' : Impl) × (process_connection_changes s ≡ ok s') × Kept s s'
unfolding process_connection_changes
process_connection_changes-Kept s valid =
    let (t, run, k) = connection_changes_loop-Kept s.buffer.connection_changes s valid in
    (
      record t { buffer = record t.buffer { connection_changes = [] } },
      rw run refl,
      record {
        rating = k.rating;
        patches = k.patches;
        fresh = k.fresh;
        deals = k.deals;
        standings = k.standings;
      },
    )

-- What happens to a minute's data before the deals.
abbrev pub Prepares : Impl → Type 0
Prepares s =
    (t : Impl) × (process_connection_changes (process_renames (process_registrations s)) ≡ ok t)
    × Kept s t

-- If each second of the connection changes is that of a minute or the mark of a disconnected user,
-- then registrations, renames and connection changes, one after the other, fail no assertion, and leave
-- the rating and what each user has won as they were.
pub prepare-Kept : (s : Impl) → Every (λ c. IsSecond c.1) s.buffer.connection_changes → Prepares s
unfolding process_registrations process_renames
prepare-Kept s valid =
    let a = process_registrations s in
    let b = process_renames a in
    let same : b.buffer.connection_changes ≡ s.buffer.connection_changes =
      ap (λ (w : IncomingDataBuffer). w.connection_changes)
        (renames_loop-changes a.buffer.users_renamed a)
      ∙ ap (λ (w : IncomingDataBuffer). w.connection_changes)
          (registrations_loop-changes s.buffer.users_registered s) in
    let (t, run, kept) =
      process_connection_changes-Kept b (subst (Every (λ c. IsSecond c.1)) (sym same) valid) in
    (
      t,
      run,
      Kept-trans s b t (Kept-trans s a b (process_registrations-Kept s) (process_renames-Kept a))
          kept,
    )
