-- ===== src/Storage.antt =====
-- test/storage.h and test/storage.cpp: the users as the test client knows them, and the reference
-- rating against which it checks what the service sends. The objects of the users stand in a store
-- under addresses, which `m_users`, `m_index` and `m_rating` share.
pub mod Users
pub mod Pick
pub mod Methods
pub mod Reference
pub mod Checks
pub mod Invariant
pub mod Changes
pub mod Connections
pub mod Wins
pub mod Returns
pub mod Joins
pub mod Addresses
pub mod Multimap
pub mod Members
pub mod Rated
pub mod Tally
pub mod Accepts
pub mod Agreed
pub mod Answered
pub mod Drawn
pub mod Copying
pub mod CopiedUsers
pub mod Copied
pub mod NextMinute
use iqoption_test_task.Prelude.{
  ℕ, ◌-◌, ◌^◌, Bool, false, Option, none, some, List, [], ◌==◌, if◌then◌else◌, add32,
}
use iqoption_test_task.Core.{invalid_id, invalid_rating, invalid_second}

-- FullUserDataEx, with the fields that it inherits.
pub record FullUserDataEx : Type 0 where
  pub id : ℕ
  pub name : List ℕ
  pub second_connected : ℕ
  pub winnings : ℕ
  pub rating : ℕ
  pub rating_received : Bool
  pub winnings_history : List ℕ
  pub name_list : List (List ℕ)

abbrev pub new_user : FullUserDataEx
new_user = record {
  id = invalid_id;
  name = [];
  second_connected = invalid_second;
  winnings = 0;
  rating = invalid_rating;
  rating_received = false;
  winnings_history = [];
  name_list = [];
}

abbrev pub history_length : ℕ
history_length = 6

-- The counters are of type `int`.
pub record ValidationReport : Type 0 where
  pub incoming_ratings : ℕ
  pub incoming_errors : ℕ
  pub valid_ratings : ℕ
  pub valid_errors : ℕ
  pub outdated_winnings : ℕ
  pub rating_fully_messed : ℕ
  pub rating_size_wrong : ℕ
  pub user_not_found : ℕ
  pub user_position_wrong : ℕ
  pub top_positions_wrong : ℕ
  pub surroundings_wrong : ℕ
  pub failures : ℕ

abbrev pub no_report : ValidationReport
no_report = record {
  incoming_ratings = 0;
  incoming_errors = 0;
  valid_ratings = 0;
  valid_errors = 0;
  outdated_winnings = 0;
  rating_fully_messed = 0;
  rating_size_wrong = 0;
  user_not_found = 0;
  user_position_wrong = 0;
  top_positions_wrong = 0;
  surroundings_wrong = 0;
  failures = 0;
}

abbrev pub increment : ℕ → ℕ
increment n = add32 n 1

-- The indexes of `m_users`, 0 to 3.
pub data Group : Type 0 where
  active_connected active_disconnected silent_connected silent_disconnected : Group

abbrev pub group_number : Group → ℕ
group_number active_connected = 0
group_number active_disconnected = 1
group_number silent_connected = 2
group_number silent_disconnected = 3

abbrev pub same_group : Group → Group → Bool
same_group g h = group_number g == group_number h

-- `std::map<id_t, FullUserDataPtr>`: ids with the addresses of what they own.
abbrev pub UserDataMap : Type 0
UserDataMap = List (ℕ × ℕ)

abbrev pub UserArray : Type 0
UserArray = Group → UserDataMap

abbrev pub put_group : Group → UserDataMap → UserArray → UserArray
put_group g m users h = if same_group g h then m else users h

-- The store; no object stands at an address that was freed, or not given out yet.
abbrev pub Objects : Type 0
Objects = ℕ → Option FullUserDataEx

abbrev pub put_object : ℕ → Option FullUserDataEx → Objects → Objects
put_object p u objects q = if p == q then u else objects q

pub record Impl : Type 0 where
  pub objects : Objects
  pub next_address : ℕ
  pub users : UserArray
  pub index : List (ℕ × ℕ)
  pub rating : List ℕ
  pub report : ValidationReport

-- A storage as it is constructed.
abbrev pub new_impl : Impl
new_impl = record {
  objects = λ p. none;
  next_address = 0;
  users = λ g. [];
  index = [];
  rating = [];
  report = no_report;
}

-- Reading through a dangling pointer is undefined in C++; here it reads a new user.
abbrev pub or_new : Option FullUserDataEx → FullUserDataEx
or_new none = new_user
or_new (some u) = u

abbrev pub object_at : Impl → ℕ → FullUserDataEx
object_at s p = or_new (s.objects p)

abbrev pub edited :
    (FullUserDataEx → FullUserDataEx) → Option FullUserDataEx → Option FullUserDataEx
edited f none = none
edited f (some u) = some (f u)

-- A write to fields of the object at an address.
abbrev pub edit_object : ℕ → (FullUserDataEx → FullUserDataEx) → Objects → Objects
edit_object p f objects = put_object p (edited f (objects p)) objects

abbrev pub edit : ℕ → (FullUserDataEx → FullUserDataEx) → Impl → Impl
edit p f s = record s { objects = edit_object p f s.objects }
