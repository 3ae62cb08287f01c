-- ===== src/Strategy/Visits.antt =====
-- Users of test/strategy.cpp connect, disconnect and get new names: no assertion fails, and the two
-- storages stay as one.
use iqoption_test_task.Prelude.{
  ℕ, ◌^◌, ◌<◌, ◌≡◌, ◌≢◌, refl, sym, ap, ◌∙◌, arith, ◌==◌, if◌then◌else◌,
}
use iqoption_test_task.Core.{invalid_second}
use iqoption_test_task.Protocol.Client.{renamed, connected, disconnected}
use iqoption_test_task.Storage.Changes.{rewritten}
use iqoption_test_task.Storage.Connections.{
  with_second, moved_to, left, renamed_user, connect_user_lem, disconnect_user_lem, rename_user_lem,
}
use iqoption_test_task.Strategy.{
  Strategy, Chance, user_renamed, user_connected, user_disconnected, perform_for, rename_someone,
  connect_someone, disconnect_someone,
}
use iqoption_test_task.Strategy.Names.{new_name, new_name-InRange}
use iqoption_test_task.Strategy.Mirrored.{Mirrored, Follows-after, second_at, second_at-rewritten}
use iqoption_test_task.Strategy.Drawing.{Known, Done}

module _ (second : ℕ) (r : Chance) (c : Strategy) (m : Mirrored c) (small : c.new_user_id < 2 ^ 31)
    (i p : ℕ) (d : Known i p c) where
  pub connect-Done :
      second < 60 → d.u.second_connected ≡ invalid_second → Done user_connected second i r c
  unfolding perform_for connect_someone
  connect-Done early away =
      let new : second ≢ invalid_second = omega arith in
      let (e, h) =
        connect_user_lem c.cur_min_data m.cur i p d.u d.in_cur d.cur_object second away new in
      let (e', h') =
        connect_user_lem c.prev_min_data m.prev i d.q d.v d.in_prev d.prev_object second
          (sym d.same_second ∙ away) new in
      let s' = moved_to c.cur_min_data i p d.u (with_second second d.u) in
      let t' = moved_to c.prev_min_data i d.q d.v (with_second second d.v) in
      let id = m.cur_given_out i p d.in_cur in
      (
        connected (record { user_id = i }),
        record c { prev_min_data = t'; cur_min_data = s' },
        rw (connect_someone, e, e') refl,
        record {
          cur = h;
          prev = h';
          follows =
              Follows-after c.cur_min_data c.prev_min_data s' t' i p d.q second m.cur m.prev
                m.follows d.in_cur d.in_prev refl refl
                (second_at-rewritten c.cur_min_data p (with_second second d.u) s'.users)
                (second_at-rewritten c.prev_min_data d.q (with_second second d.v) t'.users);
          cur_given_out = m.cur_given_out;
          prev_given_out = m.prev_given_out;
          in_range = m.in_range;
        },
        omega arith,
        omega arith,
      )

  pub disconnect-Done : d.u.second_connected ≢ invalid_second → Done user_disconnected second i r c
  unfolding perform_for disconnect_someone
  disconnect-Done here =
      let here' : d.v.second_connected ≢ invalid_second = λ z. here (d.same_second ∙ z) in
      let (e, h) = disconnect_user_lem c.cur_min_data m.cur i p d.u d.in_cur d.cur_object here in
      let (e', h') =
        disconnect_user_lem c.prev_min_data m.prev i d.q d.v d.in_prev d.prev_object here' in
      let gone = left c.cur_min_data m.cur i p d.u d.in_cur d.cur_object in
      let gone' = left c.prev_min_data m.prev i d.q d.v d.in_prev d.prev_object in
      let s' = moved_to c.cur_min_data i p d.u gone in
      let t' = moved_to c.prev_min_data i d.q d.v gone' in
      let id = m.cur_given_out i p d.in_cur in
      (
        disconnected (record { user_id = i }),
        record c { prev_min_data = t'; cur_min_data = s' },
        rw (disconnect_someone, e, e') refl,
        record {
          cur = h;
          prev = h';
          follows =
              Follows-after c.cur_min_data c.prev_min_data s' t' i p d.q invalid_second m.cur m.prev
                m.follows d.in_cur d.in_prev refl refl
                (second_at-rewritten c.cur_min_data p gone s'.users)
                (second_at-rewritten c.prev_min_data d.q gone' t'.users);
          cur_given_out = m.cur_given_out;
          prev_given_out = m.prev_given_out;
          in_range = m.in_range;
        },
        omega arith,
        omega arith,
      )

  pub rename-Done : Done user_renamed second i r c
  unfolding perform_for rename_someone
  rename-Done =
      let name = (new_name r.number c.names).0 in
      let (ranged, short) = new_name-InRange r.number c.names m.in_range in
      let (e, h) = rename_user_lem c.cur_min_data m.cur i p d.u d.in_cur d.cur_object name in
      let (e', h') =
        rename_user_lem c.prev_min_data m.prev i d.q d.v d.in_prev d.prev_object name in
      let u' = renamed_user c.cur_min_data m.cur i p d.u d.in_cur d.cur_object name in
      let v' = renamed_user c.prev_min_data m.prev i d.q d.v d.in_prev d.prev_object name in
      let s' = rewritten c.cur_min_data p u' c.cur_min_data.users in
      let t' = rewritten c.prev_min_data d.q v' c.prev_min_data.users in
      let id = m.cur_given_out i p d.in_cur in
      (
        renamed (record { user_id = i; user_name = name }),
        record c { prev_min_data = t'; cur_min_data = s'; names = (new_name r.number c.names).1 },
        rw (rename_someone, e, e') refl,
        record {
          cur = h;
          prev = h';
          follows =
              Follows-after c.cur_min_data c.prev_min_data s' t' i p d.q d.u.second_connected m.cur
                m.prev m.follows d.in_cur d.in_prev refl refl
                (second_at-rewritten c.cur_min_data p u' s'.users)
                (λ b.
                  second_at-rewritten c.prev_min_data d.q v' t'.users b
                  ∙ ap (λ x. if d.q == b then x else second_at c.prev_min_data b)
                      (sym d.same_second));
          cur_given_out = m.cur_given_out;
          prev_given_out = m.prev_given_out;
          in_range = ranged;
        },
        (omega arith, short),
        omega arith,
      )
