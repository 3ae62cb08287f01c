-- ===== src/Storage/Methods.antt =====
-- test/storage.cpp: the methods of UserDataStorage that call the implementation and do not return what it
-- returns, though they have a result. Their end is undefined behaviour.
use iqoption_test_task.Prelude.{ℕ}
use iqoption_test_task.Failures.{Result, throws, undefined_behaviour, ◌>>=◌}
use iqoption_test_task.Storage.{Impl}
use iqoption_test_task.Storage.Pick

-- UserDataStorage::getRandomUser
unfoldable pub get_random_user : (draw : ℕ → ℕ) → ℕ → Impl → Result ℕ
get_random_user draw user_flags s = do
  _ ← Pick.get_random_user draw user_flags s
  throws undefined_behaviour

-- UserDataStorage::getUserGroupSize
unfoldable pub get_user_group_size : ℕ → Impl → Result ℕ
get_user_group_size user_flags s =
    let size = Pick.get_user_group_size user_flags s in throws undefined_behaviour
