-- ===== src/Storage/Addresses.antt =====
-- Lists of addresses of test/storage.cpp: the ones in a map, and what the loops that write places into
-- the objects do to each.
use iqoption_test_task.Prelude.{
  ℕ, zero, suc, ◌+◌, ◌^◌, ◌<◌, ◌≡◌, refl, ap, ◌∙◌, subst, Bool, Bool-cases, inl, inr, true, false,
  Option, none, some, List, [], ◌∷◌, arith, ◌==◌, if◌then◌else◌, ==_iff, Option-cases, length,
  get_elem?,
}
use iqoption_test_task.Maps.{is_some}
use iqoption_test_task.Core.{invalid_rating}
use iqoption_test_task.Storage.{FullUserDataEx, Objects, edited, edit_object, increment}
use iqoption_test_task.Storage.Reference.{place_users, unrate, set_rating}

abbrev pub mem : ℕ → List ℕ → Bool
mem q [] = false
mem q (p ∷ ps) = if p == q then true else mem q ps

abbrev pub NoTwice : List ℕ → Type 0
NoTwice [] = Unit {0}
NoTwice (p ∷ ps) = (mem p ps ≡ false) × NoTwice ps

abbrev shifted : Option ℕ → Option ℕ
shifted none = none
shifted (some j) = some (suc j)

-- The first place of an address.
abbrev pub place_of : ℕ → List ℕ → Option ℕ
place_of q [] = none
place_of q (p ∷ ps) = if p == q then some 0 else shifted (place_of q ps)

pub place_of-mem : (q : ℕ) (ps : List ℕ) → is_some (place_of q ps) ≡ mem q ps
place_of-mem q [] = refl
place_of-mem q (p ∷ ps) = ground (arith, place_of-mem q ps)

pub get_elem?-place_of : (q j : ℕ) (ps : List ℕ) → place_of q ps ≡ some j → get_elem? ps j ≡ some q
get_elem?-place_of q j [] e = absurd (cc)
get_elem?-place_of q zero (p ∷ ps) e = ground arith
get_elem?-place_of q (suc j) (p ∷ ps) e = ground (arith, get_elem?-place_of q j ps)

pub get_elem?-mem : (ps : List ℕ) (j q : ℕ) → get_elem? ps j ≡ some q → mem q ps ≡ true
get_elem?-mem [] j q e = absurd (cc)
get_elem?-mem (p ∷ ps) zero q e = ground arith
get_elem?-mem (p ∷ ps) (suc j) q e = ground (arith, get_elem?-mem ps j q)

pub place_of-get_elem? :
    (ps : List ℕ) (j q : ℕ) → NoTwice ps → get_elem? ps j ≡ some q → place_of q ps ≡ some j
place_of-get_elem? [] j q n e = absurd (cc)
place_of-get_elem? (p ∷ ps) zero q n e = ground arith
place_of-get_elem? (p ∷ ps) (suc j) q n e =
    ground (arith, place_of-get_elem? ps j q n.1, get_elem?-mem ps j q e)

pub place_of-lt : (ps : List ℕ) (j q : ℕ) → place_of q ps ≡ some j → j < length ps
place_of-lt [] j q e = absurd (cc)
place_of-lt (p ∷ ps) zero q e = omega arith
place_of-lt (p ∷ ps) (suc j) q e = ground (arith, place_of-lt ps j q)

place_of-none : (p : ℕ) (ps : List ℕ) → mem p ps ≡ false → place_of p ps ≡ none
place_of-none p ps e = ground (arith, place_of-mem p ps)

unrated_twice :
    (u : Option FullUserDataEx)
    → edited (set_rating invalid_rating) (edited (set_rating invalid_rating) u)
      ≡ edited (set_rating invalid_rating) u
unrated_twice none = refl
unrated_twice (some u) = refl

-- What the loop over the multimap makes of an object.
abbrev pub placed_from : ℕ → Option ℕ → Option FullUserDataEx → Option FullUserDataEx
placed_from n none u = u
placed_from n (some j) u = edited (set_rating (n + j)) u

pub place_users_lem :
    (n : ℕ) (ps : List ℕ) (objects : Objects) (q : ℕ)
    → NoTwice ps
    → n + length ps < 2 ^ 32
    → place_users n ps objects q ≡ placed_from n (place_of q ps) (objects q)
unfolding place_users
place_users_lem n [] objects q nt small = refl
place_users_lem n (p ∷ ps) objects q nt small =
    let next : increment n ≡ suc n = omega arith in
    let rest =
      place_users_lem (suc n) ps (edit_object p (set_rating n) objects) q nt.1 (omega arith) in
    rw next (
      rest ∙ elim (Bool-cases (p == q)) [
        | inl y ↦
            let same : p ≡ q = (==_iff p q).0 y in
            let gone : place_of q ps ≡ none =
              subst (λ x. place_of x ps ≡ none) same (place_of-none p ps nt.0) in
            let start : n + 0 ≡ n = omega arith in
            rw (y, gone, start) (ap (λ x. edited (set_rating n) (objects x)) same)
        | inr y ↦ rw y (elim (Option-cases (place_of q ps)) [
          | inl e ↦ rw e refl
          | inr (j, e) ↦
              let later : suc n + j ≡ n + suc j = omega arith in
              rw e (ap (λ k. edited (set_rating k) (objects q)) later)
        ])
      ])

pub unrate_lem :
    (ps : List ℕ) (objects : Objects) (q : ℕ)
    → unrate ps objects q
      ≡ (if mem q ps then edited (set_rating invalid_rating) (objects q) else objects q)
unfolding unrate
unrate_lem [] objects q = refl
unrate_lem (p ∷ ps) objects q =
    unrate_lem ps (edit_object p (set_rating invalid_rating) objects) q
    ∙ elim (Bool-cases (p == q)) [
      | inl y ↦
          let same : p ≡ q = (==_iff p q).0 y in
          let once = ap (λ x. edited (set_rating invalid_rating) (objects x)) same in
          elim (Bool-cases (mem q ps)) [
            | inl z ↦
                rw (y, z) (ap (edited (set_rating invalid_rating)) once ∙ unrated_twice (objects q))
            | inr z ↦ rw (y, z) once
          ]
      | inr y ↦ rw y refl
    ]
