-- ===== src/Calculator/Minute.antt =====
-- A whole run of RatingCalculatorImpl::recalculate (service/rating_calculator.cpp), from a correct
-- rating to the next correct rating.
use iqoption_test_task.Prelude.{
  ℕ, ◌+◌, ◌^◌, ◌<◌, ◌≡◌, refl, sym, ap, subst, ◌∙◌, Bool, true, false, [], ◌∷◌, arith, Option, some,
  none, length, get_elem?, if◌then◌else◌, Every, Every-map, bias64, add64,
}
use iqoption_test_task.Failures.{ok}
use iqoption_test_task.Maps.{find, is_some}
use iqoption_test_task.Core.{
  FullUserData, ActiveUsersMap, Pointer, RatingVector, deref, user_or_blank, IncomingDataBuffer,
}
use iqoption_test_task.Calculator.Users.{Impl, deals_loop, process_deals, drop_rating}
use iqoption_test_task.Calculator.Recalculate.{recalculate, process_buffer, rebuild_rating}
use iqoption_test_task.Calculator.Content.{one_if}
use iqoption_test_task.Calculator.Order.{Falling}
use iqoption_test_task.Calculator.Rated.{IsRated, winnings, places, amount_of}
use iqoption_test_task.Calculator.Deals.Pending.{Pending, Ready}
use iqoption_test_task.Calculator.Deals.Loop.{Distinct, deals_loop-Pending}
use iqoption_test_task.Calculator.Kept.{Kept, standing, standing_of, IsSecond}
use iqoption_test_task.Calculator.Phases.{prepare-Kept}
use iqoption_test_task.Calculator.Rating.{rebuild_rating-IsRated}

-- The deal adds to what the user has, and does not overflow.
abbrev pub Raises : ActiveUsersMap → ℕ × ℕ → Type 0
Raises users deal =
    (u : FullUserData)
    → find deal.0 users ≡ some u
    → bias64 u.amount_won < bias64 (add64 u.amount_won deal.1)

-- A correct rating and the data of a minute, before it is processed.
pub record IsDue (s : Impl) : Type 0 where
  pub rated : IsRated s.active_users s.rating
  pub no_patches : s.patches ≡ []
  pub none_fresh : s.fresh_ratings ≡ 0
  pub distinct : Distinct s.buffer.deals_won
  pub raises : Every (Raises s.active_users) s.buffer.deals_won
  pub small : length s.rating + length s.buffer.deals_won < 2 ^ 31

-- Users of the same standing.
standing_cases :
    (a b : Option FullUserData)
    → standing_of a ≡ standing_of b
    → (bias64 (user_or_blank a).amount_won ≡ bias64 (user_or_blank b).amount_won)
      × (one_if (is_some a) ≡ one_if (is_some b))
standing_cases none none h = (refl, refl)
standing_cases none (some b) h = absurd (cc)
standing_cases (some a) none h = absurd (cc)
standing_cases (some a) (some b) h = let e : a.amount_won ≡ b.amount_won = cc in (ap bias64 e, refl)

standing_found :
    (a : Option FullUserData) (u : FullUserData)
    → standing_of (some u) ≡ standing_of a
    → (v : FullUserData) × (a ≡ some v) × (u.amount_won ≡ v.amount_won) × (u.rating ≡ v.rating)
standing_found none u h = absurd (cc)
standing_found (some v) u h = (v, refl, cc, cc)

module _ (users users' : ActiveUsersMap)
    (same : (i : ℕ) → standing i users' ≡ standing i users) where
  amount_kept : (p : Pointer) → amount_of users' p ≡ amount_of users p
  unfolding deref
  amount_kept none = refl
  amount_kept (some i) = (standing_cases (find i users') (find i users) (same i)).0

  places_kept : (v : RatingVector) → places users' v ≡ places users v
  places_kept [] = refl
  places_kept (p ∷ ps) = rw (amount_kept p, places_kept ps) refl

  found_kept :
      (i : ℕ) (u : FullUserData)
      → find i users' ≡ some u
      → (v : FullUserData) × (find i users ≡ some v)
        × (u.amount_won ≡ v.amount_won)
        × (u.rating ≡ v.rating)
  found_kept i u e = standing_found (find i users) u (ap standing_of (sym e) ∙ same i)

  IsRated-kept : (v : RatingVector) → IsRated users v → IsRated users' v
  IsRated-kept v r = record {
    placed = λ i. r.placed i ∙ sym (standing_cases (find i users') (find i users) (same i)).1;
    positions = λ i u e.
        let (w, there, amount, place) = found_kept i u e in
        ap (get_elem? v) place ∙ r.positions i w there;
    falling = subst (Falling winnings) (sym (places_kept v)) r.falling;
    no_null = r.no_null;
  }

  Raises-kept : (d : ℕ × ℕ) → Raises users d → Raises users' d
  Raises-kept d r u e = let (w, there, amount, place) = found_kept d.0 u e in rw amount (r w there)

IsDue-Kept : (s s' : Impl) → IsDue s → Kept s s' → IsDue s'
IsDue-Kept s s' due k =
    let raises =
      Every-map (Raises-kept s.active_users s'.active_users k.standings) s.buffer.deals_won
        due.raises in
    record {
      rated =
          subst (IsRated s'.active_users) (sym k.rating)
            (IsRated-kept s.active_users s'.active_users k.standings s.rating due.rated);
      no_patches = k.patches ∙ due.no_patches;
      none_fresh = k.fresh ∙ due.none_fresh;
      distinct = subst Distinct (sym k.deals) due.distinct;
      raises = subst (Every (Raises s'.active_users)) (sym k.deals) raises;
      small = omega (arith, due.small, ap length k.rating, ap length k.deals);
    }

-- Before the deals, no change is pending.
pub Pending-start : (s : Impl) → IsDue s → Pending s
Pending-start s due = record {
  spaced = rw due.no_patches tt;
  balanced = rw due.no_patches due.none_fresh;
  ordered = rw due.no_patches tt;
  splits = rw due.no_patches tt;
  falling = due.rated.falling;
  no_null = due.rated.no_null;
  no_null_in = rw due.no_patches refl;
  placed = λ i. rw due.no_patches (omega (arith, due.rated.placed i));
  positions = λ i u e out. due.rated.positions i u e;
}

pub Ready-start : (s : Impl) → s.patches ≡ [] → (d : ℕ × ℕ) → Raises s.active_users d → Ready s d
Ready-start s clear d r = record { not_out = rw clear refl; not_in = rw clear refl; raises = r }

deals_step :
    (s : Impl)
    → IsDue s
    → (s' : Impl) × (rebuild_rating (process_deals s) ≡ ok s') × IsRated s'.active_users s'.rating
unfolding process_deals
deals_step s due =
    let (v, same, small) =
      deals_loop-Pending s.buffer.deals_won s (Pending-start s due) due.distinct
        (Every-map (Ready-start s due.no_patches) s.buffer.deals_won due.raises)
        (omega (arith, due.small, due.none_fresh)) in
    let t = deals_loop s.buffer.deals_won s in
    rebuild_rating-IsRated (record t { buffer = record t.buffer { deals_won = [] } })
      (record {
        spaced = v.spaced;
        balanced = v.balanced;
        ordered = v.ordered;
        splits = v.splits;
        falling = v.falling;
        no_null = v.no_null;
        no_null_in = v.no_null_in;
        placed = v.placed;
        positions = v.positions;
      })
      (omega (arith, small, ap length same))

IsDue-drop_rating : (s : Impl) → IsDue s → IsDue (drop_rating s)
unfolding drop_rating find
IsDue-drop_rating s due = record {
  rated = record {
    placed = λ i. refl;
    positions = λ i u e. absurd (cc);
    falling = tt;
    no_null = refl;
  };
  no_patches = due.no_patches;
  none_fresh = due.none_fresh;
  distinct = due.distinct;
  raises = Every-map (λ d r u e. absurd (cc)) s.buffer.deals_won due.raises;
  small = omega (arith, due.small);
}

IsDue-or_dropped : (drop : Bool) (s : Impl) → IsDue s → IsDue (if drop then drop_rating s else s)
IsDue-or_dropped true s due = IsDue-drop_rating s due
IsDue-or_dropped false s due = due

same_buffer : (drop : Bool) (s : Impl) → (if drop then drop_rating s else s).buffer ≡ s.buffer
unfolding drop_rating
same_buffer true s = refl
same_buffer false s = refl

-- A run of `recalculate`, from a correct rating, on a minute's data in which every second is that of
-- a minute or the mark of a disconnected user, no user has two deals, each deal of a user who has a
-- place raises what he has, and the rating and the deals together are fewer than 2 ^ 31: it fails no
-- assertion, whether the old rating is dropped first or not, and leaves a correct rating.
pub recalculate-IsRated :
    (drop : Bool) (s : Impl)
    → IsDue s
    → Every (λ c. IsSecond c.1) s.buffer.connection_changes
    → (s' : Impl) × (recalculate drop s ≡ ok s') × IsRated s'.active_users s'.rating
unfolding recalculate process_buffer
recalculate-IsRated drop s due valid =
    let kept = if drop then drop_rating s else s in
    let seconds =
      subst (λ (b : IncomingDataBuffer). Every (λ c. IsSecond c.1) b.connection_changes)
        (sym (same_buffer drop s)) valid in
    let (t, run, k) = prepare-Kept kept seconds in
    let (s', rebuilt, rated) = deals_step t (IsDue-Kept kept t (IsDue-or_dropped drop s due) k) in
    (s', rw run rebuilt, rated)
