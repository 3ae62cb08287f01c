-- ===== src/Calculator/Buffers.antt =====
-- Registrations and renames (service/rating_calculator.cpp) do not touch the buffer that they come
-- from before its part is cleared.
use iqoption_test_task.Prelude.{
  ℕ, ◌≡◌, refl, ◌∙◌, inl, inr, List, [], ◌∷◌, Option-cases, Bool-cases,
}
use iqoption_test_task.Maps.{find}
use iqoption_test_task.Calculator.Users.{
  Impl, user_exists, process_registration, registrations_loop, process_rename, renames_loop,
}

-- The connection changes wait while the registrations are processed.
pub registrations_loop-changes :
    (rs : List (ℕ × List ℕ)) (s : Impl) → (registrations_loop rs s).buffer ≡ s.buffer
unfolding registrations_loop process_registration
registrations_loop-changes [] s = refl
registrations_loop-changes ((i, name) ∷ rs) s =
    registrations_loop-changes rs (process_registration (i, name) s) ∙ same
  where
    same : (process_registration (i, name) s).buffer ≡ s.buffer
    same = elim (Bool-cases (user_exists i s)) [ inr e ↦ rw e refl | inl e ↦ rw e refl ]

pub renames_loop-changes :
    (rs : List (ℕ × List ℕ)) (s : Impl) → (renames_loop rs s).buffer ≡ s.buffer
unfolding renames_loop process_rename
renames_loop-changes [] s = refl
renames_loop-changes ((i, name) ∷ rs) s =
    renames_loop-changes rs (process_rename (i, name) s) ∙ same
  where
    same : (process_rename (i, name) s).buffer ≡ s.buffer
    same = elim (Option-cases (find i s.active_users)) [
      | inr (u, e) ↦ rw e refl
      | inl e ↦ elim (Option-cases (find i s.silent_users)) [
        | inr (b, f) ↦ rw e (rw f refl)
        | inl f ↦ rw e (rw f refl)
      ]
    ]
