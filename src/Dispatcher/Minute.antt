-- ===== src/Dispatcher/Minute.antt =====
-- What the messages of a minute leave in the incoming data (service/message_dispatcher.cpp).
use iqoption_test_task.Prelude.{
  ℕ, ◌≡◌, refl, ap, ◌∙◌, inl, inr, Option, some, List, [], ◌∷◌, add64, ◌==◌, if◌then◌else◌,
  Bool-cases, ==_iff,
}
use iqoption_test_task.Maps.{find, or_fresh, find-update_at}
use iqoption_test_task.Protocol.Client.{
  UserMsg, registered, renamed, connected, disconnected, deal_won,
}
use iqoption_test_task.Dispatcher.{MessageDispatcher, dispatch, dispatch_all}

-- What user i has won in these messages, in the arithmetic of `long`, on top of `sum`.
abbrev pub won : ℕ → Option ℕ → UserMsg → Option ℕ
won i sum (registered m) = sum
won i sum (renamed m) = sum
won i sum (connected m) = sum
won i sum (disconnected m) = sum
won i sum (deal_won m) = if m.user_id == i then some (add64 (or_fresh 0 sum) m.winnings) else sum

unfoldable pub won_all : ℕ → Option ℕ → List (ℕ × UserMsg) → Option ℕ
won_all i sum [] = sum
won_all i sum (m ∷ ms) = won_all i (won i sum m.1) ms

dispatch-won :
    (second i : ℕ) (m : UserMsg) (d : MessageDispatcher)
    → find i (dispatch second m d).buffer.deals_won ≡ won i (find i d.buffer.deals_won) m
unfolding dispatch
dispatch-won second i (registered m) d = refl
dispatch-won second i (renamed m) d = refl
dispatch-won second i (connected m) d = refl
dispatch-won second i (disconnected m) d = refl
dispatch-won second i (deal_won m) d = elim (Bool-cases (m.user_id == i)) [
  | inl e ↦
      let same : m.user_id ≡ i = (==_iff m.user_id i).0 e in
      rw e (
        find-update_at m.user_id i 0 (λ old. add64 old m.winnings) d.buffer.deals_won
        ∙ rw (e, same) refl)
  | inr e ↦
      rw (find-update_at m.user_id i 0 (λ old. add64 old m.winnings) d.buffer.deals_won, e) refl
]

-- Whatever the other messages of a minute are, the deal of a user is the sum of his winnings.
pub dispatch_all-won :
    (ms : List (ℕ × UserMsg)) (i : ℕ) (d : MessageDispatcher)
    → find i (dispatch_all ms d).buffer.deals_won ≡ won_all i (find i d.buffer.deals_won) ms
unfolding dispatch_all won_all
dispatch_all-won [] i d = refl
dispatch_all-won ((second, m) ∷ ms) i d =
    dispatch_all-won ms i (dispatch second m d)
    ∙ ap (λ s. won_all i s ms) (dispatch-won second i m d)
