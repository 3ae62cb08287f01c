-- ===== src/Storage/Users.antt =====
-- UserDataStorage::Impl of test/storage.cpp: users are made, renamed, connected and disconnected, and
-- win. What a function returns is the address of the user. The counter of `generateNewUser` is shared
-- by all storages, and the name comes from the name generator: both are arguments.
use iqoption_test_task.Prelude.{
  ℕ, suc, false, none, some, List, [], ◌∷◌, ◌++◌, length, drop, ltb, ◌==◌, if◌then◌else◌, add64,
}
use iqoption_test_task.Failures.{
  throws, undefined_behaviour, Result, ok, throws, assertion_failed, ◌>>=◌,
}
use iqoption_test_task.Maps.{find, contains, emplace_ordered, insert_ordered, erase}
use iqoption_test_task.Core.{invalid_second}
use iqoption_test_task.Storage.{
  FullUserDataEx, new_user, history_length, Group, active_connected, active_disconnected,
  silent_connected, silent_disconnected, put_group, put_object, Impl, object_at, edit,
}

-- mapTo.insert: a node that finds its id taken is destroyed with its object.
unfoldable pub insert_node : Group → ℕ → ℕ → Impl → Impl
insert_node to id p s =
    if contains id (s.users to)
    then record s { objects = put_object p none s.objects }
    else record s { users = put_group to (insert_ordered id p (s.users to)) s.users }

unfoldable pub find_and_migrate : Group → Group → ℕ → Impl → Result Impl
find_and_migrate from to id s = elim (find id (s.users from)) [
  | none ↦ throws assertion_failed
  | some p ↦
      ok (
        insert_node to id p (record s { users = put_group from (erase id (s.users from)) s.users }))
]

-- A new object under an id: it joins the silent and disconnected users, unless the id stands there
-- already (then it is destroyed), and the index.
unfoldable pub add_user : ℕ → List ℕ → Impl → ℕ × Impl
add_user id name s =
    let p = s.next_address in
    let made : FullUserDataEx = record new_user { id = id; name = name } in
    let known = contains id (s.users silent_disconnected) in
    (
      p,
      record s {
        objects = if known then s.objects else put_object p (some made) s.objects;
        next_address = suc p;
        users =
            put_group silent_disconnected (emplace_ordered id p (s.users silent_disconnected))
              s.users;
        index = emplace_ordered id p s.index;
      },
    )

unfoldable pub generate_new_user : ℕ → List ℕ → Impl → ℕ × Impl
generate_new_user new_user_id new_name s = add_user new_user_id new_name s

unfoldable pub import_new_user : FullUserDataEx → Impl → Impl
import_new_user ud s = (add_user ud.id ud.name s).1

-- push_back, and pop_front of what is beyond the history length.
unfoldable pub push_history {ℓ} : {A : Type ℓ} → A → List A → List A
push_history a past =
    let longer = past ++ (a ∷ []) in
    if ltb history_length (length longer) then drop 1 longer else longer

-- m_index.find with the assertion that follows it.
unfoldable pub find_index : ℕ → Impl → Result ℕ
find_index id s = elim (find id s.index) [ none ↦ throws assertion_failed | some p ↦ ok p ]

unfoldable pub rename_user : ℕ → List ℕ → Impl → Result (ℕ × Impl)
rename_user id new_name s = do
  p ← find_index id s
  ok (p, edit p (λ u. record u { name_list = push_history u.name u.name_list; name = new_name }) s)

-- Which maps a user moves between, by whether he has winnings.
abbrev pub connected_group : ℕ → Group
connected_group winnings = if winnings == 0 then silent_connected else active_connected

abbrev pub disconnected_group : ℕ → Group
disconnected_group winnings = if winnings == 0 then silent_disconnected else active_disconnected

unfoldable pub connect_user : ℕ → ℕ → Impl → Result (ℕ × Impl)
connect_user id second s = do
  p ← find_index id s
  let w = (object_at s p).winnings
  s' ←
      find_and_migrate (disconnected_group w) (connected_group w) id
        (edit p (λ u. record u { second_connected = second }) s)
  ok (p, s')

-- An active user loses his mark of a rating received.
unfoldable pub disconnect_user : ℕ → Impl → Result (ℕ × Impl)
disconnect_user id s = do
  p ← find_index id s
  let w = (object_at s p).winnings
  s' ←
      find_and_migrate (connected_group w) (disconnected_group w) id
        (edit p (λ u. record u { second_connected = invalid_second }) s)
  ok (p, if w == 0 then s' else edit p (λ u. record u { rating_received = false }) s')

-- The move of a user who wins for the first time.
unfoldable pub activate : ℕ → FullUserDataEx → Impl → Result Impl
activate id u s =
    if u.winnings == 0
    then if u.second_connected == invalid_second
      then find_and_migrate silent_disconnected active_disconnected id s
      else find_and_migrate silent_connected active_connected id s
    else ok s

-- The statements of fixUserWinnings.
unfoldable pub fix_winnings : ℕ → ℕ → Impl → Result Impl
fix_winnings id won s = do
  p ← find_index id s
  s' ← activate id (object_at s p) s
  ok (
      edit p
        (λ u. record u {
          winnings_history = push_history u.winnings u.winnings_history;
          winnings = add64 u.winnings won;
        })
        s')

-- fixUserWinnings has a result and no return statement: its end is undefined behaviour.
unfoldable pub fix_user_winnings : ℕ → ℕ → Impl → Result Impl
fix_user_winnings id won s = do _ ← fix_winnings id won s; throws undefined_behaviour
