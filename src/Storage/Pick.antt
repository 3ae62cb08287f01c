-- ===== src/Storage/Pick.antt =====
-- UserDataStorage of test/storage.cpp: users are counted and drawn by flags. `m_users` is walked in the
-- order of its indexes, each map in the order of its ids.
use iqoption_test_task.Prelude.{
  ℕ, zero, suc, ◌-◌, ◌/◌, ◌%◌, ◌^◌, Bool, not, Option, none, some, List, [], ◌∷◌, length, leb, ◌==◌,
  if◌then◌else◌, add32, sub32,
}
use iqoption_test_task.Failures.{Result, ok, throws, assertion_failed}
use iqoption_test_task.Core.{invalid_id}
use iqoption_test_task.Storage.{
  Group, active_connected, active_disconnected, silent_connected, silent_disconnected, same_group,
  UserDataMap, UserArray, Impl,
}

-- UserFlags, and those of them that are made of others.
pub data UserFlag : Type 0 where
  connected disconnected active silent : UserFlag

abbrev pub flag_bit : UserFlag → ℕ
flag_bit connected = 0
flag_bit disconnected = 1
flag_bit active = 2
flag_bit silent = 3

abbrev pub connected_any : ℕ
connected_any = 13

abbrev pub disconnected_any : ℕ
disconnected_any = 14

abbrev pub active_any : ℕ
active_any = 7

abbrev pub silent_any : ℕ
silent_any = 11

-- UINT_MAX
abbrev pub anyone : ℕ
anyone = 2 ^ 32 - 1

-- userFlags & flag
abbrev pub has_flag : ℕ → UserFlag → Bool
has_flag user_flags f = user_flags / 2 ^ flag_bit f % 2 == 1

-- A `std::set` of indexes, in ascending order.
abbrev pub MapIndexSet : Type 0
MapIndexSet = List Group

abbrev pub all_maps : MapIndexSet
all_maps =
    active_connected ∷ (active_disconnected ∷ (silent_connected ∷ (silent_disconnected ∷ [])))

abbrev pub erase_index : Group → MapIndexSet → MapIndexSet
erase_index g [] = []
erase_index g (h ∷ maps) = if same_group g h then maps else h ∷ erase_index g maps

-- Two indexes leave the set unless a flag is given.
abbrev pub unless_flag : Bool → Group → Group → MapIndexSet → MapIndexSet
unless_flag given g h maps = if not given then erase_index h (erase_index g maps) else maps

-- The maps that `getUserGroupSize` counts: it does not test for the silent users.
abbrev pub maps_tested : Bool → Bool → Bool → MapIndexSet
maps_tested c d a = unless_flag a active_connected active_disconnected (
    unless_flag d active_disconnected silent_disconnected
      (unless_flag c active_connected silent_connected all_maps))

unfoldable pub maps_counted : ℕ → MapIndexSet
maps_counted user_flags =
    maps_tested (has_flag user_flags connected) (has_flag user_flags disconnected)
      (has_flag user_flags active)

-- The maps that `getRandomUser` draws from.
unfoldable pub maps_drawn : ℕ → MapIndexSet
unfolding maps_counted
maps_drawn user_flags =
    unless_flag (has_flag user_flags silent) silent_connected silent_disconnected
      (maps_counted user_flags)

unfoldable pub get_cumulative_size : MapIndexSet → UserArray → ℕ
get_cumulative_size [] users = 0
get_cumulative_size (g ∷ maps) users = add32 (length (users g)) (get_cumulative_size maps users)

-- The inner loop of `getUserByIndex`: it counts down to the user.
unfoldable pub nth_user : UserDataMap → ℕ → Option ℕ
nth_user [] i = none
nth_user ((id, p) ∷ m) zero = some id
nth_user ((id, p) ∷ m) (suc i) = nth_user m i

abbrev pub or_later : Result ℕ → Option ℕ → Result ℕ
or_later later none = later
or_later later (some id) = ok id

unfoldable pub get_user_by_index : MapIndexSet → ℕ → UserArray → Result ℕ
get_user_by_index [] user_index users = throws assertion_failed
get_user_by_index (g ∷ maps) user_index users =
    let later = get_user_by_index maps (user_index - length (users g)) users in
    if leb (length (users g)) user_index
    then later
    else or_later later (nth_user (users g) user_index)

-- `draw n` is what a uniform distribution over 0 to n - 1 gives.
unfoldable pub get_random_user : (draw : ℕ → ℕ) → ℕ → Impl → Result ℕ
get_random_user draw user_flags s =
    let maps = maps_drawn user_flags in
    get_user_by_index maps (draw (get_cumulative_size maps s.users)) s.users

unfoldable pub get_user_group_size : ℕ → Impl → ℕ
get_user_group_size user_flags s = get_cumulative_size (maps_counted user_flags) s.users

-- The id, and the counter of the function, which falls from 0.
unfoldable pub get_fake_user_id : ℕ → ℕ × ℕ
get_fake_user_id count = (add32 invalid_id count, sub32 count 1)
