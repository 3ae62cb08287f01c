-- ===== src/Calculator/Users.antt =====
-- dropRating, processRegistrations, processRenames, processConnectionChanges and processDeals of
-- service/rating_calculator.cpp. The calls of `enqueueErrorJob` are kept in order in `errors`.
use iqoption_test_task.Prelude.{
  ℕ, Bool, false, ◌||◌, Option, none, some, List, [], ◌∷◌, ◌++◌, ltb, ◌==◌, if◌then◌else◌, add32,
  add64, sub32, length, map, set, get_or,
}
use iqoption_test_task.Failures.{Result, ok, ◌>>=◌, ◌>>◌, assert}
use iqoption_test_task.Maps.{find, contains, emplace, assign, erase}
use iqoption_test_task.Protocol.Service.{
  GenericProtocolError, user_unrecognized_error, multiple_registration_error,
}
use iqoption_test_task.Core.{
  BasicUserData, FullUserData, new_full, SilentUsersMap, ActiveUsersMap, RatingVector, ChronoSet,
  IncomingDataBuffer, invalid_second,
}
use iqoption_test_task.Calculator.Patches.{
  RatingPatchEntry, old_entry, new_entry, emplace_patch, rating_elements_after,
}

-- The object with what it refers to: users, rating, iteration data, the buffer that is processed.
pub record Impl : Type 0 where
  pub silent_users : SilentUsersMap
  pub active_users : ActiveUsersMap
  pub rating : RatingVector
  pub users_online : List ChronoSet
  pub buffer : IncomingDataBuffer
  pub errors : List GenericProtocolError
  pub patches : List RatingPatchEntry
  pub fresh_ratings : ℕ

abbrev pub enqueue_error_job : GenericProtocolError → Impl → Impl
enqueue_error_job e s = record s { errors = s.errors ++ (e ∷ []) }

-- std::unordered_set of pointers: emplace and erase.
unfoldable pub chrono_contains : ℕ → ChronoSet → Bool
chrono_contains i [] = false
chrono_contains i (j ∷ js) = i == j || chrono_contains i js

unfoldable pub chrono_emplace : ℕ → ChronoSet → ChronoSet
chrono_emplace i js = if chrono_contains i js then js else i ∷ js

unfoldable pub chrono_erase : ℕ → ChronoSet → ChronoSet
chrono_erase i [] = []
chrono_erase i (j ∷ js) = if i == j then js else j ∷ chrono_erase i js

-- usersOnline[second].emplace(...) and .erase(...)
unfoldable pub put_online : ℕ → ℕ → List ChronoSet → List ChronoSet
put_online second i sets = set sets second (chrono_emplace i (get_or sets second []))

unfoldable pub take_offline : ℕ → ℕ → List ChronoSet → List ChronoSet
take_offline second i sets = set sets second (chrono_erase i (get_or sets second []))

-- dropRating
unfoldable pub silence_all : ActiveUsersMap → SilentUsersMap → SilentUsersMap
silence_all [] silent = silent
silence_all ((i, u) ∷ us) silent = silence_all us (emplace i u.basic silent)

unfoldable pub drop_rating : Impl → Impl
drop_rating s = record s {
  silent_users = silence_all s.active_users s.silent_users;
  active_users = [];
  users_online = map (λ online. []) s.users_online;
  rating = [];
}

unfoldable pub user_exists : ℕ → Impl → Bool
user_exists i s = contains i s.silent_users || contains i s.active_users

-- processRegistrations
unfoldable pub process_registration : ℕ × List ℕ → Impl → Impl
process_registration (i, name) s =
    if user_exists i s then enqueue_error_job (multiple_registration_error i) s else record s {
      silent_users =
          emplace i (record { second_connected = invalid_second; name = name }) s.silent_users;
    }

unfoldable pub registrations_loop : List (ℕ × List ℕ) → Impl → Impl
registrations_loop [] s = s
registrations_loop (r ∷ rs) s = registrations_loop rs (process_registration r s)

unfoldable pub process_registrations : Impl → Impl
process_registrations s =
    let t = registrations_loop s.buffer.users_registered s in
    record t { buffer = record t.buffer { users_registered = [] } }

-- processRenames
abbrev pub renamed_user : List ℕ → FullUserData → FullUserData
renamed_user new_name u = record u { basic = record u.basic { name = new_name } }

abbrev pub renamed_silent : List ℕ → BasicUserData → BasicUserData
renamed_silent new_name b = record b { name = new_name }

rename_silent : ℕ → List ℕ → Option BasicUserData → Impl → Impl
rename_silent i new_name (some b) s = record s {
  silent_users = assign i (renamed_silent new_name b) s.silent_users;
}
rename_silent i new_name none s = enqueue_error_job (user_unrecognized_error i) s

rename_active : ℕ → List ℕ → Option FullUserData → Impl → Impl
unfolding rename_silent
rename_active i new_name (some u) s = record s {
  active_users = assign i (renamed_user new_name u) s.active_users;
}
rename_active i new_name none s = rename_silent i new_name (find i s.silent_users) s

unfoldable pub process_rename : ℕ × List ℕ → Impl → Impl
unfolding rename_active
process_rename (i, new_name) s = rename_active i new_name (find i s.active_users) s

unfoldable pub renames_loop : List (ℕ × List ℕ) → Impl → Impl
renames_loop [] s = s
renames_loop (r ∷ rs) s = renames_loop rs (process_rename r s)

unfoldable pub process_renames : Impl → Impl
process_renames s =
    let t = renames_loop s.buffer.users_renamed s in
    record t { buffer = record t.buffer { users_renamed = [] } }

-- processConnectionChanges
abbrev pub reconnected_user : ℕ → FullUserData → FullUserData
reconnected_user second u = record u { basic = record u.basic { second_connected = second } }

abbrev pub reconnected_silent : ℕ → BasicUserData → BasicUserData
reconnected_silent second b = record b { second_connected = second }

-- Out of the set of the old second, into the set of the new one.
unfoldable pub move_online : ℕ → ℕ → ℕ → List ChronoSet → List ChronoSet
move_online i old new sets =
    let out = if ltb old 60 then take_offline old i sets else sets in
    if ltb new 60 then put_online new i out else out

reconnect_silent : ℕ → ℕ → Option BasicUserData → Impl → Impl
reconnect_silent i second (some b) s = record s {
  silent_users = assign i (reconnected_silent second b) s.silent_users;
}
reconnect_silent i second none s = enqueue_error_job (user_unrecognized_error i) s

reconnect_active : ℕ → ℕ → Option FullUserData → Impl → Impl
unfolding reconnect_silent
reconnect_active i second (some u) s = record s {
  active_users = assign i (reconnected_user second u) s.active_users;
  users_online = move_online i u.second_connected second s.users_online;
}
reconnect_active i second none s = reconnect_silent i second (find i s.silent_users) s

unfoldable pub process_connection_change : ℕ × ℕ → Impl → Result Impl
unfolding reconnect_active
process_connection_change (i, second) s = do
  assert (ltb second 60 || second == invalid_second)
  ok (reconnect_active i second (find i s.active_users) s)

unfoldable pub connection_changes_loop : List (ℕ × ℕ) → Impl → Result Impl
connection_changes_loop [] s = ok s
connection_changes_loop (c ∷ cs) s = do
  s' ← process_connection_change c s
  connection_changes_loop cs s'

unfoldable pub process_connection_changes : Impl → Result Impl
process_connection_changes s = do
  t ← connection_changes_loop s.buffer.connection_changes s
  ok (record t { buffer = record t.buffer { connection_changes = [] } })

-- processDeals
-- A user who has a place: one patch takes him out of it, one puts him into the new one.
unfoldable pub deal_of_active : ℕ → ℕ → FullUserData → Impl → Impl
deal_of_active i amount u s =
    let old = old_entry (sub32 (sub32 (length s.rating) u.rating) 1) in
    let total = add64 u.amount_won amount in
    let new = new_entry i (rating_elements_after s.active_users s.rating total) total in
    record s { patches = emplace_patch new (emplace_patch old s.patches) }

-- A user with no place yet becomes active.
unfoldable pub deal_of_silent : ℕ → ℕ → BasicUserData → Impl → Impl
deal_of_silent i amount b s =
    let new = new_entry i (rating_elements_after s.active_users s.rating amount) amount in
    record s {
      users_online =
          if b.second_connected == invalid_second
          then s.users_online
          else put_online b.second_connected i s.users_online;
      fresh_ratings = add32 s.fresh_ratings 1;
      patches = emplace_patch new s.patches;
      active_users = emplace i (new_full i amount b) s.active_users;
      silent_users = erase i s.silent_users;
    }

deal_silent : ℕ → ℕ → Option BasicUserData → Impl → Impl
deal_silent i amount (some b) s = deal_of_silent i amount b s
deal_silent i amount none s = enqueue_error_job (user_unrecognized_error i) s

deal_active : ℕ → ℕ → Option FullUserData → Impl → Impl
unfolding deal_silent
deal_active i amount (some u) s = deal_of_active i amount u s
deal_active i amount none s = deal_silent i amount (find i s.silent_users) s

unfoldable pub process_deal : ℕ × ℕ → Impl → Impl
unfolding deal_active
process_deal (i, amount) s = deal_active i amount (find i s.active_users) s

unfoldable pub deals_loop : List (ℕ × ℕ) → Impl → Impl
deals_loop [] s = s
deals_loop (d ∷ ds) s = deals_loop ds (process_deal d s)

unfoldable pub process_deals : Impl → Impl
process_deals s =
    let t = deals_loop s.buffer.deals_won s in
    record t { buffer = record t.buffer { deals_won = [] } }
