-- ===== src/Storage/Reference.antt =====
-- UserDataStorage::Impl of test/storage.cpp: the reference rating is made from the winnings, and at the
-- start of a minute a storage takes over the users of another one.
use iqoption_test_task.Prelude.{
  ℕ, suc, Bool, true, false, not, List, [], ◌∷◌, ◌++◌, none, some, if◌then◌else◌, lt_s64, sub32,
}
use iqoption_test_task.Maps.{find, contains, emplace_ordered}
use iqoption_test_task.Core.{invalid_rating}
use iqoption_test_task.Storage.{
  FullUserDataEx, Group, active_connected, active_disconnected, silent_connected,
  silent_disconnected, put_group, put_object, edit_object, UserDataMap, UserArray, Objects, Impl,
  or_new, object_at, no_report, increment,
}
use iqoption_test_task.Storage.Pick.{MapIndexSet}

-- The addresses in a map, and in the maps that `forEachInMaps` walks.
abbrev pub addresses : UserDataMap → List ℕ
addresses [] = []
addresses ((id, p) ∷ m) = p ∷ addresses m

abbrev pub in_maps : MapIndexSet → UserArray → List ℕ
in_maps [] users = []
in_maps (g ∷ maps) users = addresses (users g) ++ in_maps maps users

-- `std::multimap` over winnings, greatest first: a new element stands behind its equals.
abbrev pub RatingMultimap : Type 0
RatingMultimap = List (ℕ × ℕ)

unfoldable pub emplace_multi : ℕ → ℕ → RatingMultimap → RatingMultimap
emplace_multi w p [] = (w, p) ∷ []
emplace_multi w p ((v, q) ∷ m) =
    if lt_s64 v w then (w, p) ∷ ((v, q) ∷ m) else (v, q) ∷ emplace_multi w p m

unfoldable pub build_rating : Impl → List ℕ → RatingMultimap → RatingMultimap
build_rating s [] m = m
build_rating s (p ∷ ps) m = build_rating s ps (emplace_multi (object_at s p).winnings p m)

-- The pointers of the multimap in their order, which become `m_rating`.
abbrev pub pointers : RatingMultimap → List ℕ
pointers [] = []
pointers ((w, p) ∷ m) = p ∷ pointers m

abbrev pub set_rating : ℕ → FullUserDataEx → FullUserDataEx
set_rating place u = record u { rating = place }

-- The loop over the multimap, from a place on.
unfoldable pub place_users : ℕ → List ℕ → Objects → Objects
place_users rating_place [] objects = objects
place_users rating_place (p ∷ ps) objects =
    place_users (increment rating_place) ps (edit_object p (set_rating rating_place) objects)

unfoldable pub unrate : List ℕ → Objects → Objects
unrate [] objects = objects
unrate (p ∷ ps) objects = unrate ps (edit_object p (set_rating invalid_rating) objects)

abbrev pub active_maps : MapIndexSet
active_maps = active_connected ∷ (active_disconnected ∷ [])

abbrev pub silent_maps : MapIndexSet
silent_maps = silent_connected ∷ (silent_disconnected ∷ [])

unfoldable pub recalculate_rating : Impl → Impl
recalculate_rating s =
    let builder = build_rating s (in_maps active_maps s.users) [] in
    record s {
      rating = pointers builder;
      objects = unrate (in_maps silent_maps s.users) (place_users 0 (pointers builder) s.objects);
    }

-- `clear` of a map that owns its users.
unfoldable pub free_objects : List ℕ → Objects → Objects
free_objects [] objects = objects
free_objects (p ∷ ps) objects = free_objects ps (put_object p none objects)

unfoldable pub clear_map : Group → Impl → Impl
clear_map g s = record s {
  users = put_group g [] s.users;
  objects = free_objects (addresses (s.users g)) s.objects;
}

abbrev pub or_address : ℕ → List (ℕ × ℕ) → ℕ → ℕ
or_address id m p = elim (find id m) [ none ↦ p | some q ↦ q ]

-- A deep copy of a user joins a map and the index.
unfoldable pub copy_user : Group → ℕ → FullUserDataEx → Impl → Impl
copy_user g id copied s =
    let p = s.next_address in
    let m = emplace_ordered id p (s.users g) in
    record s {
      objects = if contains id (s.users g) then s.objects else put_object p (some copied) s.objects;
      next_address = suc p;
      users = put_group g m s.users;
      index = emplace_ordered id (or_address id m p) s.index;
    }

unfoldable pub copy_users : Group → Objects → UserDataMap → Impl → Impl
copy_users g from [] s = s
copy_users g from ((id, p) ∷ m) s = copy_users g from m (copy_user g id (or_new (from p)) s)

unfoldable pub copy_map : Group → Impl → Impl → Impl
copy_map g new_data s = copy_users g new_data.objects (new_data.users g) (clear_map g s)

-- setNextMinuteData
unfoldable pub set_next_minute_data : Impl → Impl → Impl
set_next_minute_data new_data s =
    let s₁ = copy_map active_connected new_data (record s { index = [] }) in
    let s₂ = copy_map active_disconnected new_data s₁ in
    let s₃ = copy_map silent_connected new_data s₂ in
    let s₄ = copy_map silent_disconnected new_data s₃ in
    recalculate_rating (record s₄ { report = no_report })

-- What `publishValidationReport` prints besides the counters of the report.
pub record MinuteSummary : Type 0 where
  pub invalid_ratings : ℕ
  pub invalid_errors : ℕ
  pub unsolicited_ratings_received : ℕ
  pub requested_ratings_missed : ℕ

abbrev pub count_received : Impl → Bool → List ℕ → ℕ
count_received s received [] = 0
count_received s received (p ∷ ps) =
    let others = count_received s received ps in
    let mark = (object_at s p).rating_received in
    if (if received then mark else not mark) then increment others else others

unfoldable pub publish_validation_report : Impl → MinuteSummary
publish_validation_report s = record {
  invalid_ratings = sub32 s.report.incoming_ratings s.report.valid_ratings;
  invalid_errors = sub32 s.report.incoming_errors s.report.valid_errors;
  unsolicited_ratings_received =
      count_received s true (in_maps (active_disconnected ∷ (silent_disconnected ∷ [])) s.users);
  requested_ratings_missed = count_received s false (in_maps (active_connected ∷ []) s.users);
}
