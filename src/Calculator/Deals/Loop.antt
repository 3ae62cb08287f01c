-- ===== src/Calculator/Deals/Loop.antt =====
-- The loop of processDeals (service/rating_calculator.cpp).
use iqoption_test_task.Prelude.{
  ℕ, ◌+◌, ◌^◌, ◌≤◌, ◌<◌, ◌≡◌, ◌≢◌, refl, sym, ap, ◌∙◌, inl, inr, List, [], ◌∷◌, arith, some, none,
  Option-cases, length, Every, ◌==◌,
}
use iqoption_test_task.Maps.{find}
use iqoption_test_task.Core.{FullUserData, BasicUserData}
use iqoption_test_task.Protocol.Service.{user_unrecognized_error}
use iqoption_test_task.Calculator.Users.{
  Impl, deal_of_active, deal_of_silent, process_deal, deals_loop, enqueue_error_job,
}
use iqoption_test_task.Calculator.Content.{one_if}
use iqoption_test_task.Calculator.Deals.Pending.{Pending, Ready}
use iqoption_test_task.Calculator.Deals.Active.{
  deal_of_active-Pending, deal_of_active-outs, deal_of_active-ins,
}
use iqoption_test_task.Calculator.Deals.Silent.{
  deal_of_silent-Pending, deal_of_silent-outs, deal_of_silent-ins, find_after,
}

-- The three ways of a deal.
pub process_deal_cases :
    (P : Impl → Type 0) (i amount : ℕ) (s : Impl)
    → ((u : FullUserData) → find i s.active_users ≡ some u → P (deal_of_active i amount u s))
    → ((b : BasicUserData)
        → find i s.active_users ≡ none
        → find i s.silent_users ≡ some b
        → P (deal_of_silent i amount b s))
    → (find i s.active_users ≡ none
        → find i s.silent_users ≡ none
        → P (enqueue_error_job (user_unrecognized_error i) s))
    → P (process_deal (i, amount) s)
unfolding process_deal
process_deal_cases P i amount s active silent unknown =
    elim (Option-cases (find i s.active_users)) [
      | inr (u, e) ↦ rw (e, process_deal) (active u e)
      | inl e ↦ elim (Option-cases (find i s.silent_users)) [
        | inr (b, f) ↦ rw (e, process_deal) (rw (f, process_deal) (silent b e f))
        | inl f ↦ rw (e, process_deal) (rw (f, process_deal) (unknown e f))
      ]
    ]

-- What a deal of user i leaves behind.
pub record After (i : ℕ) (s s' : Impl) : Type 0 where
  pub pending : Pending s'
  pub same_rating : s'.rating ≡ s.rating
  pub one_more : s'.fresh_ratings ≤ s.fresh_ratings + 1
  pub others : (j a : ℕ) → j ≢ i → Ready s (j, a) → Ready s' (j, a)

other_user : (i j : ℕ) → j ≢ i → one_if (j == i) ≡ 0
other_user i j h = ground arith

module _ (s : Impl) (v : Pending s) (small : length s.rating < 2 ^ 31)
    (room : s.fresh_ratings < 2 ^ 31) (i amount : ℕ) (r : Ready s (i, amount)) where
  active-After :
      (u : FullUserData) → find i s.active_users ≡ some u → After i s (deal_of_active i amount u s)
  unfolding deal_of_active
  active-After u e = record {
    pending = deal_of_active-Pending s v small i amount r u e;
    same_rating = refl;
    one_more = omega arith;
    others = λ j a ne rj. record {
      not_out =
          omega
            (arith, deal_of_active-outs s v small i amount r u e j, other_user i j ne, rj.not_out);
      not_in =
          omega
            (arith, deal_of_active-ins s v small i amount r u e j, other_user i j ne, rj.not_in);
      raises = rj.raises;
    };
  }

  silent-After :
      (b : BasicUserData) → find i s.active_users ≡ none → After i s (deal_of_silent i amount b s)
  unfolding deal_of_silent
  silent-After b e = record {
    pending = deal_of_silent-Pending s v small i amount r b e room;
    same_rating = refl;
    one_more = omega arith;
    others = λ j a ne rj. record {
      not_out = deal_of_silent-outs s v small i amount r b e room j ∙ rj.not_out;
      not_in =
          omega (
            arith,
            deal_of_silent-ins s v small i amount r b e room j,
            other_user i j ne,
            rj.not_in,
          );
      raises = λ u f. rj.raises u (sym (unchanged j ne) ∙ f);
    };
  }
    where
      unchanged :
          (j : ℕ)
          → j ≢ i
          → find j (deal_of_silent i amount b s).active_users ≡ find j s.active_users
      unchanged j ne = ground (arith, find_after s v small i amount r b e room j)

  unknown-After : After i s (enqueue_error_job (user_unrecognized_error i) s)
  unknown-After = record {
    pending = record {
      spaced = v.spaced;
      balanced = v.balanced;
      ordered = v.ordered;
      splits = v.splits;
      falling = v.falling;
      no_null = v.no_null;
      no_null_in = v.no_null_in;
      placed = v.placed;
      positions = v.positions;
    };
    same_rating = refl;
    one_more = omega arith;
    others = λ j a ne rj. record { not_out = rj.not_out; not_in = rj.not_in; raises = rj.raises };
  }

  pub process_deal-After : After i s (process_deal (i, amount) s)
  process_deal-After =
      process_deal_cases (After i s) i amount s active-After (λ b e f. silent-After b e)
        (λ e f. unknown-After)

-- No user has two deals: `dealsWon` is a map.
abbrev pub Distinct {ℓ} : {V : Type ℓ} → List (ℕ × V) → Type 0
Distinct [] = Unit {0}
Distinct ((i, a) ∷ ds) = Every (λ d. d.0 ≢ i) ds × Distinct ds

Ready-rest :
    (i : ℕ) (s s' : Impl) (ds : List (ℕ × ℕ))
    → After i s s'
    → Every (λ d. d.0 ≢ i) ds
    → Every (Ready s) ds
    → Every (Ready s') ds
Ready-rest i s s' [] f ne r = tt
Ready-rest i s s' ((j, a) ∷ ds) f ne r = (f.others j a ne.0 r.0, Ready-rest i s s' ds f ne.1 r.1)

-- The deals of a minute keep the patches in step with the rating, and do not touch it.
pub deals_loop-Pending :
    (ds : List (ℕ × ℕ)) (s : Impl)
    → Pending s
    → Distinct ds
    → Every (Ready s) ds
    → length s.rating + s.fresh_ratings + length ds < 2 ^ 31
    → Pending (deals_loop ds s)
      × ((deals_loop ds s).rating ≡ s.rating)
      × (length s.rating + (deals_loop ds s).fresh_ratings < 2 ^ 31)
unfolding deals_loop
deals_loop-Pending [] s v d r h = (v, refl, omega arith)
deals_loop-Pending ((i, a) ∷ ds) s v d r h =
    let s' = process_deal (i, a) s in
    let f = process_deal-After s v (omega arith) (omega arith) i a r.0 in
    let (v', same, fits) =
      deals_loop-Pending ds s' f.pending d.1 (Ready-rest i s s' ds f d.0 r.1)
        (omega (arith, f.one_more, ap length f.same_rating)) in
    (v', same ∙ f.same_rating, omega (arith, fits, ap length f.same_rating))
