-- ===== src/Examples/Storages.antt =====
-- The storage of test/storage.cpp at concrete inputs: two users are known, and one of them has won.
use iqoption_test_task.Prelude.{
  ℕ, ◌^◌, ◌<◌, ◌≡◌, refl, false, some, [], ◌∷◌, length, arith, ◌==◌, if◌then◌else◌,
}
use iqoption_test_task.Failures.{ok}
use iqoption_test_task.Maps.{find, emplace_ordered, contains, insert_ordered}
use iqoption_test_task.Storage.{Impl, new_impl, FullUserDataEx, Group}
use iqoption_test_task.Storage.Users.{connect_user, disconnect_user, connected_group}
use iqoption_test_task.Storage.Pick.{disconnected_any, maps_drawn}
use iqoption_test_task.Storage.Invariant.{IsStored, group_of}
use iqoption_test_task.Storage.Joins.{joined, newcomer, joined-IsStored, new_impl-IsStored}
use iqoption_test_task.Storage.Members.{actives}
use iqoption_test_task.Storage.Returns.{disconnect_user-connect_user}
use iqoption_test_task.Storage.Drawn.{sum_sizes}

abbrev pub poor : FullUserDataEx
poor = newcomer 0 (65 ∷ [])

abbrev pub rich : FullUserDataEx
rich = record (newcomer 1 (66 ∷ [])) { winnings = 300 }

abbrev pub one_user : Impl
one_user = joined (group_of poor) 0 poor new_impl

abbrev pub two_users : Impl
two_users = joined (group_of rich) 1 rich one_user

pub one_user-IsStored : IsStored one_user
unfolding find
one_user-IsStored = joined-IsStored new_impl 0 poor new_impl-IsStored refl refl

pub two_users-IsStored : IsStored two_users
unfolding find emplace_ordered insert_ordered contains
two_users-IsStored = joined-IsStored one_user 1 rich one_user-IsStored refl refl

pub in_index : find 1 two_users.index ≡ some 1
unfolding find emplace_ordered insert_ordered contains
in_index = refl

pub few : length (actives two_users two_users-IsStored) < 2 ^ 31
unfolding emplace_ordered insert_ordered contains find
few = omega arith

-- Both users are disconnected.
pub sizes :
    (0 < sum_sizes (maps_drawn disconnected_any) two_users.users)
    × (sum_sizes (maps_drawn disconnected_any) two_users.users < 2 ^ 32)
unfolding emplace_ordered insert_ordered contains find maps_drawn
sizes = (omega arith, omega arith)

disconnect_user-connect_user_example :
    (t v : Impl) × (connect_user 1 5 two_users ≡ ok (1, t))
    × (disconnect_user 1 t ≡ ok (1, v))
    × IsStored t
    × IsStored v
    × (find 1 (t.users (connected_group rich.winnings)) ≡ some 1)
    × ((g : Group) (j : ℕ) → find j (v.users g) ≡ find j (two_users.users g))
    × (v.objects 1
        ≡ some (record rich {
          rating_received = if rich.winnings == 0 then rich.rating_received else false;
        }))
disconnect_user-connect_user_example =
    disconnect_user-connect_user two_users 1 1 5 rich two_users-IsStored in_index refl refl
      (λ e. omega arith)
