-- ===== src/Core.antt =====
-- service/core_data.h: the users, the rating and the incoming data. A `FullUserData*` is the id of
-- the user that it points to, since `activeUsers` owns each such object under its id; `none` is the
-- null pointer. Times are numbers of ticks since the epoch.
use iqoption_test_task.Prelude.{
  ℕ, ◌-◌, ◌^◌, Bool, false, true, Option, none, some, List, [], replicate,
}
use iqoption_test_task.Protocol.Constants.{invalid_user_id}
use iqoption_test_task.Maps.{find}

-- UserDataConstants
abbrev pub invalid_second : ℕ
invalid_second = 60

abbrev pub invalid_id : ℕ
invalid_id = invalid_user_id

-- -1
abbrev pub invalid_rating : ℕ
invalid_rating = 2 ^ 32 - 1

pub record BasicUserData : Type 0 where
  pub second_connected : ℕ
  pub name : List ℕ

pub record FullUserData : Type 0 where
  pub basic : BasicUserData
  pub open basic use *
  pub id : ℕ
  pub amount_won : ℕ
  pub rating : ℕ

-- FullUserData(userId, winnings, basicData)
abbrev pub new_full : ℕ → ℕ → BasicUserData → FullUserData
new_full user_id winnings basic_data = record {
  basic = basic_data;
  id = user_id;
  amount_won = winnings;
  rating = invalid_rating;
}

abbrev pub new_basic : BasicUserData
new_basic = record { second_connected = invalid_second; name = [] }

abbrev pub SilentUsersMap : Type 0
SilentUsersMap = List (ℕ × BasicUserData)

abbrev pub ActiveUsersMap : Type 0
ActiveUsersMap = List (ℕ × FullUserData)

abbrev pub Pointer : Type 0
Pointer = Option ℕ

abbrev pub RatingVector : Type 0
RatingVector = List Pointer

-- Reading through a null or dangling pointer is undefined in C++; here it reads a blank user.
abbrev pub user_or_blank : Option FullUserData → FullUserData
user_or_blank none = new_full invalid_id 0 new_basic
user_or_blank (some u) = u

unfoldable pub deref : ActiveUsersMap → Pointer → FullUserData
deref users none = new_full invalid_id 0 new_basic
deref users (some i) = user_or_blank (find i users)

pub record CoreRatingData : Type 0 where
  pub silent_users : SilentUsersMap
  pub active_users : ActiveUsersMap
  pub rating : RatingVector
  pub expiration_date : ℕ

-- SystemStopSignals
pub record SystemStopSignals : Type 0 where
  pub unrecoverable_error : Bool
  pub bad_flag : Bool

unfoldable pub signal_error : Bool → SystemStopSignals → SystemStopSignals
signal_error true s = record { unrecoverable_error = true; bad_flag = true }
signal_error false s = record s { bad_flag = true }

unfoldable pub reset : SystemStopSignals → SystemStopSignals
reset s = record { unrecoverable_error = false; bad_flag = false }

-- ChronoSet and IterationData: for each second of a minute the users to be told of their rating.
abbrev pub ChronoSet : Type 0
ChronoSet = List ℕ

pub record IterationData : Type 0 where
  pub users_online : List ChronoSet

abbrev pub nobody_online : IterationData
nobody_online = record { users_online = replicate 60 [] }

-- IncomingDataBuffer
pub record IncomingDataBuffer : Type 0 where
  pub users_registered : List (ℕ × List ℕ)
  pub users_renamed : List (ℕ × List ℕ)
  pub connection_changes : List (ℕ × ℕ)
  pub deals_won : List (ℕ × ℕ)
  pub buffer_writer_count : ℕ

abbrev pub empty_buffer : IncomingDataBuffer
empty_buffer = record {
  users_registered = [];
  users_renamed = [];
  connection_changes = [];
  deals_won = [];
  buffer_writer_count = 0;
}
