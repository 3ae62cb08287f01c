-- ===== src/Strategy.antt =====
-- test/strategy.cpp and test/name_generator.cpp: the test client draws requests, makes messages of them,
-- and keeps what the service should know. Random numbers and the second of the minute are arguments.
pub mod Names
pub mod Minute
pub mod Responses
pub mod Mirrored
pub mod Drawing
pub mod Visits
pub mod Gains
pub mod Judged
pub mod Turns
use iqoption_test_task.Prelude.{ℕ, Option, none, some, List, [], ◌∷◌, ◌==◌, if◌then◌else◌, add32}
use iqoption_test_task.Failures.{Result, ok, throws, assertion_failed, ◌>>=◌}
use iqoption_test_task.Protocol.Client.{
  UserMsg, registered, renamed, connected, disconnected, deal_won,
}
use iqoption_test_task.Storage.{Impl, object_at}
use iqoption_test_task.Storage.Users.{
  generate_new_user, import_new_user, rename_user, connect_user, disconnect_user, fix_user_winnings,
}
use iqoption_test_task.Storage.Methods.{get_random_user}
use iqoption_test_task.Storage.Pick.{get_fake_user_id, anyone, connected_any, disconnected_any}
use Names.{NameGenerator, new_name}

-- MessageCode, the kinds of requests.
pub data MessageCode : Type 0 where
  user_registered user_renamed user_connected user_disconnected user_deal_won fake_user :
      MessageCode

-- What is drawn for a request: the number in a new name, one of n users, winnings, and an action.
pub record Chance : Type 0 where
  pub number : ℕ
  pub draw : ℕ → ℕ
  pub won : ℕ
  pub action : ℕ

-- The two storages of a Strategy, with the counters of the functions that it calls.
pub record Strategy : Type 0 where
  pub prev_min_data : Impl
  pub cur_min_data : Impl
  pub new_user_id : ℕ
  pub fake_count : ℕ
  pub names : NameGenerator

-- MC_USER_REGISTERED; the initial registration makes users in the same way.
unfoldable pub register_user : Chance → Strategy → UserMsg × Strategy
register_user r c =
    let (name, names) = new_name r.number c.names in
    let (p, cur) = generate_new_user c.new_user_id name c.cur_min_data in
    let new_user = object_at cur p in
    (
      registered (record { user_id = new_user.id; user_name = new_user.name }),
      record c {
        prev_min_data = import_new_user new_user c.prev_min_data;
        cur_min_data = cur;
        new_user_id = add32 c.new_user_id 1;
        names = names;
      },
    )

-- MC_USER_RENAMED, with the user that was drawn.
unfoldable pub rename_someone : ℕ → Chance → Strategy → Result (UserMsg × Strategy)
rename_someone user_id r c = do
  let made = new_name r.number c.names
  (_, cur) ← rename_user user_id made.0 c.cur_min_data
  (_, prev) ← rename_user user_id made.0 c.prev_min_data
  ok (
    renamed (record { user_id = user_id; user_name = made.0 }),
    record c { prev_min_data = prev; cur_min_data = cur; names = made.1 },
  )

-- MC_USER_CONNECTED, with the user that was drawn.
unfoldable pub connect_someone : ℕ → ℕ → Strategy → Result (UserMsg × Strategy)
connect_someone user_id second c = do
  (_, cur) ← connect_user user_id second c.cur_min_data
  (_, prev) ← connect_user user_id second c.prev_min_data
  ok (
    connected (record { user_id = user_id }),
    record c { prev_min_data = prev; cur_min_data = cur },
  )

-- MC_USER_DISCONNECTED, with the user that was drawn.
unfoldable pub disconnect_someone : ℕ → Strategy → Result (UserMsg × Strategy)
disconnect_someone user_id c = do
  (_, cur) ← disconnect_user user_id c.cur_min_data
  (_, prev) ← disconnect_user user_id c.prev_min_data
  ok (
    disconnected (record { user_id = user_id }),
    record c { prev_min_data = prev; cur_min_data = cur },
  )

-- MC_USER_DEAL_WON, with the user that was drawn; the storage of the previous minute is not told.
unfoldable pub win_deal : ℕ → Chance → Strategy → Result (UserMsg × Strategy)
win_deal user_id r c = do
  cur ← fix_user_winnings user_id r.won c.cur_min_data
  ok (deal_won (record { user_id = user_id; winnings = r.won }), record c { cur_min_data = cur })

-- "Mr Fake"
abbrev pub mr_fake : List ℕ
mr_fake = 77 ∷ 114 ∷ 32 ∷ 70 ∷ 97 ∷ 107 ∷ 101 ∷ []

-- The message of MC_FAKE_USER for an id that nobody has.
unfoldable pub fake_message : ℕ → ℕ → Result UserMsg
fake_message action fake_id =
    if action == 1
    then ok (renamed (record { user_id = fake_id; user_name = mr_fake }))
    else if action == 2
    then ok (connected (record { user_id = fake_id }))
    else if action == 3
    then ok (disconnected (record { user_id = fake_id }))
    else if action == 4
    then ok (deal_won (record { user_id = fake_id; winnings = 666 }))
    else throws assertion_failed

-- MC_FAKE_USER
unfoldable pub act_fake : Chance → Strategy → Result (UserMsg × Strategy)
act_fake r c = do
  let fake = get_fake_user_id c.fake_count
  m ← fake_message r.action fake.0
  ok (m, record c { fake_count = fake.1 })

-- The cases of the switch of `run`, with the user that was drawn: the message of a request, and the
-- storages after it.
unfoldable pub perform_for : MessageCode → ℕ → ℕ → Chance → Strategy → Result (UserMsg × Strategy)
perform_for user_registered second user_id r c = ok (register_user r c)
perform_for user_renamed second user_id r c = rename_someone user_id r c
perform_for user_connected second user_id r c = connect_someone user_id second c
perform_for user_disconnected second user_id r c = disconnect_someone user_id c
perform_for user_deal_won second user_id r c = win_deal user_id r c
perform_for fake_user second user_id r c = act_fake r c

-- Among whom a request draws a user, if it does.
unfoldable pub flags_of : MessageCode → Option ℕ
flags_of user_registered = none
flags_of user_renamed = some anyone
flags_of user_connected = some disconnected_any
flags_of user_disconnected = some connected_any
flags_of user_deal_won = some connected_any
flags_of fake_user = none

-- The switch of `run`: first of all a case draws its user, if it needs one.
unfoldable pub perform : MessageCode → ℕ → Chance → Strategy → Result (UserMsg × Strategy)
perform code second r c = elim (flags_of code) [
  | none ↦ perform_for code second 0 r c
  | some user_flags ↦ (do
    user_id ← get_random_user r.draw user_flags c.cur_min_data
    perform_for code second user_id r c)
]
