-- ===== src/Storage/Rated.antt =====
-- What `recalculateRating` of test/storage.cpp makes of a well formed storage: its reference rating.
use iqoption_test_task.Prelude.{
  ℕ, ◌+◌, ◌^◌, ◌<◌, ◌≤◌, ◌≡◌, ◌≢◌, refl, sym, ap, ◌∙◌, subst, Bool, Bool-cases, inl, inr, true,
  false, Option, none, some, List, [], ◌∷◌, arith, ◌==◌, if◌then◌else◌, ==_iff, Option-cases,
  length, get_elem?, bias64, Every-map,
}
use iqoption_test_task.Core.{invalid_rating}
use iqoption_test_task.Calculator.Order.{Falling}
use iqoption_test_task.Maps.{find}
use iqoption_test_task.Storage.{FullUserDataEx, Impl, object_at, or_new, edited}
use iqoption_test_task.Storage.Reference.{
  pointers, build_rating, recalculate_rating, set_rating, place_users, RatingMultimap,
}
use iqoption_test_task.Storage.Invariant.{group_of, IsStored}
use iqoption_test_task.Storage.Addresses.{
  mem, NoTwice, place_of, place_of-mem, place_of-lt, place_of-get_elem?, get_elem?-place_of,
  get_elem?-mem, placed_from, place_users_lem, unrate_lem,
}
use iqoption_test_task.Storage.Multimap.{
  amount, build_rating-Falling, mem-build_rating, build_rating-NoTwice, length-build_rating,
}
use iqoption_test_task.Storage.Members.{
  actives, silents, mem-actives, mem-silents, actives-NoTwice, id_of_active,
}

-- Every user with winnings stands in the rating, at the place that his `rating` says, and nobody else
-- does; who has no winnings has no place; the winnings, as signed numbers, fall.
pub record IsReference (s : Impl) : Type 0 where
  pub placed :
      (i p : ℕ) (u : FullUserDataEx)
      → find i s.index ≡ some p
      → s.objects p ≡ some u
      → u.winnings ≢ 0
      → (get_elem? s.rating u.rating ≡ some p) × (u.rating < length s.rating)
  pub unplaced :
      (i p : ℕ) (u : FullUserDataEx)
      → find i s.index ≡ some p
      → s.objects p ≡ some u
      → u.winnings ≡ 0
      → u.rating ≡ invalid_rating
  pub standing :
      (j p : ℕ)
      → get_elem? s.rating j ≡ some p
      → (u : FullUserDataEx) × (find u.id s.index ≡ some p)
        × (s.objects p ≡ some u)
        × (u.rating ≡ j)
        × (u.winnings ≢ 0)
  pub falling : Falling (λ p. bias64 (object_at s p).winnings) s.rating

Falling-same : (f g : ℕ → ℕ) (ps : List ℕ) → ((p : ℕ) → f p ≡ g p) → Falling f ps → Falling g ps
Falling-same f g [] e h = tt
Falling-same f g (p ∷ ps) e h =
    (Every-map (λ y (b : f y ≤ f p). omega (arith, e y, e p)) ps h.0, Falling-same f g ps e h.1)

module _ (s : Impl) (h : IsStored s) (small : length (actives s h) < 2 ^ 31) where
  abbrev builder : RatingMultimap
  builder = build_rating s (actives s h) []

  abbrev order : List ℕ
  order = pointers builder

  length-order : length order ≡ length (actives s h)
  length-order = omega (arith, length-build_rating s (actives s h) [])

  order-NoTwice : NoTwice order
  order-NoTwice = build_rating-NoTwice s (actives s h) [] (actives-NoTwice s h) tt (λ q b. refl)

  mem-order : (q : ℕ) → mem q order ≡ mem q (actives s h)
  mem-order q = mem-build_rating s q (actives s h) [] ∙ ground arith

  -- An object after both loops.
  object_after :
      (q : ℕ)
      → (recalculate_rating s).objects q ≡ (
          if mem q (silents s h)
          then edited (set_rating invalid_rating) (placed_from 0 (place_of q order) (s.objects q))
          else placed_from 0 (place_of q order) (s.objects q))
  unfolding recalculate_rating
  object_after q =
      unrate_lem (silents s h) (place_users 0 order s.objects) q
      ∙ rw (place_users_lem 0 order s.objects q order-NoTwice (omega (arith, length-order))) refl

  -- The new `rating` of a user.
  pub recalculated :
      (i p : ℕ) (u : FullUserDataEx)
      → find i s.index ≡ some p
      → s.objects p ≡ some u
      → (r : ℕ) × ((recalculate_rating s).objects p ≡ some (set_rating r u))
        × (u.winnings ≡ 0 → r ≡ invalid_rating)
        × (u.winnings ≢ 0 → place_of p order ≡ some r)
  recalculated i p u e o =
      let a = mem-order p ∙ mem-actives s h i p u e o in
      let b = mem-silents s h i p u e o in
      let c = place_of-mem p order in
      elim (Bool-cases (u.winnings == 0)) [
        | inl y ↦
            let none_there : place_of p order ≡ none = ground arith in
            (
              invalid_rating,
              object_after p ∙ rw (b, y, none_there, o) refl,
              λ z. refl,
              λ n. absurd (n ((==_iff u.winnings 0).0 y)),
            )
        | inr y ↦ elim (Option-cases (place_of p order)) [
          | inl n ↦ absurd (ground arith)
          | inr (j, f) ↦
              let start : 0 + j ≡ j = omega arith in
              (j, object_after p ∙ rw (b, y, f, o, start) refl, λ z. absurd (ground arith), λ n. f)
        ]
      ]

  same_winnings : (q : ℕ) → (object_at (recalculate_rating s) q).winnings ≡ (object_at s q).winnings
  same_winnings q =
      ap (λ x. (or_new x).winnings) (object_after q)
      ∙ only_rating (mem q (silents s h)) (place_of q order) (s.objects q)
    where
      only_rating :
          (b : Bool) (j : Option ℕ) (x : Option FullUserDataEx)
          → (or_new (
              if b
              then edited (set_rating invalid_rating) (placed_from 0 j x)
              else placed_from 0 j x)).winnings
            ≡ (or_new x).winnings
      only_rating true none none = refl
      only_rating true none (some u) = refl
      only_rating true (some j) none = refl
      only_rating true (some j) (some u) = refl
      only_rating false none none = refl
      only_rating false none (some u) = refl
      only_rating false (some j) none = refl
      only_rating false (some j) (some u) = refl

  pub recalculate_rating-IsStored : IsStored (recalculate_rating s)
  unfolding recalculate_rating
  recalculate_rating-IsStored = record {
    distinct = h.distinct;
    distinct_index = h.distinct_index;
    indexed = λ i p e.
        let (u, o, a, w) = h.indexed i p e in
        let (r, o', _, _) = recalculated i p u e o in (set_rating r u, o', a, w);
    owned = λ g i p f.
        let (e, its) = h.owned g i p f in
        let (u, o, _, _) = h.indexed i p e in
        let (r, o', _, _) = recalculated i p u e o in
        (e, ap (λ x. group_of (or_new x)) o' ∙ (sym (ap (λ x. group_of (or_new x)) o) ∙ its));
    unused = λ q le.
        object_after q ∙ rw (h.unused q le) (still_none (mem q (silents s h)) (place_of q order));
  }
    where
      still_none :
          (b : Bool) (j : Option ℕ)
          → (if b
              then edited (set_rating invalid_rating) (placed_from 0 j none)
              else placed_from 0 j none)
            ≡ none
      still_none true none = refl
      still_none true (some j) = refl
      still_none false none = refl
      still_none false (some j) = refl

  -- A user of the new storage is one of the old storage with a new `rating`.
  before :
      (i p : ℕ) (v : FullUserDataEx)
      → find i s.index ≡ some p
      → (recalculate_rating s).objects p ≡ some v
      → (r : ℕ) × (u : FullUserDataEx) × (s.objects p ≡ some u)
        × (v ≡ set_rating r u)
        × (u.winnings ≡ 0 → r ≡ invalid_rating)
        × (u.winnings ≢ 0 → place_of p order ≡ some r)
  before i p v e o' =
      let (u, o, a, w) = h.indexed i p e in
      let (r, o'', z, n) = recalculated i p u e o in (r, u, o, cc, z, n)

  pub recalculate_rating-IsReference : IsReference (recalculate_rating s)
  unfolding recalculate_rating
  recalculate_rating-IsReference = record {
    placed = λ i p v e o' has.
        let (r, u, o, same, _, there) = before i p v e o' in
        let its : v.rating ≡ r = ap (λ (x : FullUserDataEx). x.rating) same in
        let had : u.winnings ≢ 0 = λ z. has (ap (λ (x : FullUserDataEx). x.winnings) same ∙ z) in
        (
          get_elem?-place_of p v.rating order (there had ∙ ap some (sym its)),
          place_of-lt order v.rating p (there had ∙ ap some (sym its)),
        );
    unplaced = λ i p v e o' lacks.
        let (r, u, o, same, gone, _) = before i p v e o' in
        ap (λ (x : FullUserDataEx). x.rating) same
        ∙ gone (sym (ap (λ (x : FullUserDataEx). x.winnings) same) ∙ lacks);
    standing = λ j p at.
        let known : mem p (actives s h) ≡ true = sym (mem-order p) ∙ get_elem?-mem order j p at in
        let (i, e) = id_of_active s h p known in
        let (u, o, a, _) = h.indexed i p e in
        let (r, o', _, there) = recalculated i p u e o in
        let had : u.winnings ≢ 0 = λ z. absurd (ground (arith, mem-actives s h i p u e o)) in
        (
          set_rating r u,
          subst (λ k. find k s.index ≡ some p) (sym a) e,
          o',
          cc (there had, place_of-get_elem? order j p order-NoTwice at),
          had,
        );
    falling =
        Falling-same (amount s) (amount (recalculate_rating s)) order
          (λ p. sym (ap bias64 (same_winnings p))) (build_rating-Falling s (actives s h) [] tt tt);
  }
