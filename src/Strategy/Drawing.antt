-- ===== src/Strategy/Drawing.antt =====
-- Whom a request of test/strategy.cpp is about: a user whom both storages know.
use iqoption_test_task.Prelude.{ℕ, ◌+◌, ◌^◌, ◌<◌, ◌≤◌, ◌≡◌, sym, ap, ◌∙◌, some}
use iqoption_test_task.Failures.{ok}
use iqoption_test_task.Maps.{find}
use iqoption_test_task.Protocol.Client.{UserMsg}
use iqoption_test_task.Protocol.RoundTrip.{MsgFits}
use iqoption_test_task.Storage.{FullUserDataEx, Impl, or_new}
use iqoption_test_task.Storage.Pick.{maps_drawn}
use iqoption_test_task.Storage.Drawn.{sum_sizes}
use iqoption_test_task.Strategy.{Strategy, Chance, MessageCode, perform_for}
use iqoption_test_task.Strategy.Mirrored.{Mirrored, second_at}

-- What may be drawn: a number below the count, small winnings, and one of four actions.
pub record IsFair (r : Chance) : Type 0 where
  pub draws : (n : ℕ) → 0 < n → r.draw n < n
  pub wins : (0 < r.won) × (r.won ≤ 500)
  pub acts : (1 ≤ r.action) × (r.action ≤ 4)

-- Some user can be drawn by these flags.
abbrev pub Someone : ℕ → Impl → Type 0
Someone user_flags s =
    (0 < sum_sizes (maps_drawn user_flags) s.users)
    × (sum_sizes (maps_drawn user_flags) s.users < 2 ^ 32)

-- A user of both storages.
pub record Known (i p : ℕ) (c : Strategy) : Type 0 where
  pub q : ℕ
  pub u : FullUserDataEx
  pub v : FullUserDataEx
  pub in_cur : find i c.cur_min_data.index ≡ some p
  pub in_prev : find i c.prev_min_data.index ≡ some q
  pub cur_object : c.cur_min_data.objects p ≡ some u
  pub prev_object : c.prev_min_data.objects q ≡ some v
  pub at : second_at c.cur_min_data p ≡ u.second_connected
  pub same_second : u.second_connected ≡ v.second_connected

pub knows-both :
    (i p : ℕ) (c : Strategy) → Mirrored c → find i c.cur_min_data.index ≡ some p → Known i p c
knows-both i p c m e =
    let (u, o, _, _) = m.cur.indexed i p e in
    let (q, e', sec) = m.follows i p e in
    let (v, o', _, _) = m.prev.indexed i q e' in
    let at = ap (λ x. (or_new x).second_connected) o in
    record {
      q = q;
      u = u;
      v = v;
      in_cur = e;
      in_prev = e';
      cur_object = o;
      prev_object = o';
      at = at;
      same_second = sym at ∙ (sec ∙ ap (λ x. (or_new x).second_connected) o');
    }

-- What a request about a user ends in.
abbrev pub Done : MessageCode → ℕ → ℕ → Chance → Strategy → Type 0
Done code second i r c =
    (m : UserMsg) × (c' : Strategy) × (perform_for code second i r c ≡ ok (m, c'))
    × Mirrored c'
    × MsgFits m
    × (c'.new_user_id ≤ c.new_user_id + 1)
