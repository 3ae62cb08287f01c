-- ===== src/Strategy/Gains.antt =====
-- The requests of test/strategy.cpp: how each ends, and what it leaves of the two storages.
use iqoption_test_task.Prelude.{ℕ, ◌+◌, ◌^◌, ◌<◌, ◌≡◌, ◌≢◌, some}
use iqoption_test_task.Maps.{find}
use iqoption_test_task.Storage.{object_at}
use iqoption_test_task.Strategy.{
  perform_for, Strategy, Chance, MessageCode, user_registered, user_renamed, user_connected,
  user_disconnected, user_deal_won, fake_user,
}
use iqoption_test_task.Strategy.Mirrored.{Mirrored, second_at}
use iqoption_test_task.Failures.{throws, undefined_behaviour}
use iqoption_test_task.Core.{invalid_second}
use iqoption_test_task.Strategy.Drawing.{Done}

-- Whom a request can be about; a deal does not take him past 64 bits.
abbrev pub CanPerform : MessageCode → ℕ → Strategy → Type 0
CanPerform user_registered i c = Unit {0}
CanPerform user_renamed i c = (p : ℕ) × (find i c.cur_min_data.index ≡ some p)
CanPerform user_connected i c =
    (p : ℕ) × (find i c.cur_min_data.index ≡ some p) × (second_at c.cur_min_data p ≡ invalid_second)
CanPerform user_disconnected i c =
    (p : ℕ) × (find i c.cur_min_data.index ≡ some p) × (second_at c.cur_min_data p ≢ invalid_second)
CanPerform user_deal_won i c =
    (p : ℕ) × (find i c.cur_min_data.index ≡ some p)
    × ((object_at c.cur_min_data p).winnings + 500 < 2 ^ 64)
CanPerform fake_user i c = Unit {0}

-- What a request ends in: a deal, in undefined behaviour.
abbrev pub Ends : MessageCode → ℕ → ℕ → Chance → Strategy → Type 0
Ends user_deal_won second i r c =
    perform_for user_deal_won second i r c ≡ throws undefined_behaviour
Ends code second i r c = Done code second i r c
