-- ===== src/Storage/Accepts.antt =====
-- Entries of a rating message that agree with the reference rating of test/storage.cpp pass its checks.
use iqoption_test_task.Prelude.{
  ℕ, zero, suc, ◌+◌, ◌^◌, ◌<◌, ◌≡◌, refl, subst, Bool, true, false, some, List, [], ◌∷◌, arith,
  ==-refl, length, get_elem?, take, drop, map, add32,
}
use iqoption_test_task.Maps.{find}
use iqoption_test_task.Protocol.Rating.{RatingEntry}
use iqoption_test_task.Storage.{FullUserDataEx, Impl, ValidationReport, object_at}
use iqoption_test_task.Storage.Checks.{
  same_name, compare_entry, validate_single_rating, check_entries, SingleResult,
}

-- What the reference rating holds about a user.
abbrev pub entry_at : Impl → ℕ → RatingEntry
entry_at s p = let u = object_at s p in record { id = u.id; name = u.name; winnings = u.winnings }

abbrev pub entries_at : Impl → List ℕ → List RatingEntry
entries_at s ps = map (entry_at s) ps

-- Each place of the rating has a user who is known and has this place.
abbrev pub Stands : Impl → Type 0
Stands s =
    (j p : ℕ)
    → get_elem? s.rating j ≡ some p
    → (u : FullUserDataEx) × (find u.id s.index ≡ some p) × (s.objects p ≡ some u) × (u.rating ≡ j)

same_name_refl : (n : List ℕ) → same_name n n ≡ true
unfolding same_name
same_name_refl [] = refl
same_name_refl (x ∷ xs) = ground (arith, same_name_refl xs)

abbrev nothing_wrong : SingleResult
nothing_wrong = record {
  not_found = false;
  wrong_position = false;
  wrong_winnings = false;
  wrong_name = false;
}

validate_single_rating-entry_at :
    (s : Impl) (j p : ℕ)
    → Stands s
    → get_elem? s.rating j ≡ some p
    → validate_single_rating (entry_at s p) j s ≡ (nothing_wrong, s)
unfolding validate_single_rating compare_entry
validate_single_rating-entry_at s j p st e =
    let (u, at, o, place) = st j p e in
    rw
      (
        o,
        validate_single_rating,
        at,
        o,
        ==-refl u.winnings,
        same_name_refl u.name,
        place,
        ==-refl j,
      )
      refl

-- A part of the rating, from place j on.
pub check_entries-part :
    (count : ValidationReport → ValidationReport) (s : Impl) (failure : Bool) (ps : List ℕ) (j : ℕ)
    → Stands s
    → ((k p : ℕ) → get_elem? ps k ≡ some p → get_elem? s.rating (j + k) ≡ some p)
    → j + length ps < 2 ^ 32
    → check_entries count (entries_at s ps) j (failure, s) ≡ (failure, s)
unfolding check_entries
check_entries-part count s failure [] j st part small = refl
check_entries-part count s failure (p ∷ ps) j st part small =
    let here : get_elem? s.rating j ≡ some p =
      subst (λ i. get_elem? s.rating i ≡ some p) (omega arith) (part 0 p refl) in
    let next : add32 j 1 ≡ suc j = omega arith in
    let rest =
      check_entries-part count s failure ps (suc j) st
        (λ k q f. subst (λ i. get_elem? s.rating i ≡ some q) (omega arith) (part (suc k) q f))
        (omega arith) in
    rw (validate_single_rating-entry_at s j p st here, check_entries, next, rest) refl

pub get_elem?-take-drop :
    (n j : ℕ) (v : List ℕ) (k p : ℕ)
    → get_elem? (take n (drop j v)) k ≡ some p
    → get_elem? v (j + k) ≡ some p
get_elem?-take-drop n j v k p e = get_elem?-drop j v k p (get_elem?-take n (drop j v) k p e)
  where
    get_elem?-take :
        (n : ℕ) (v : List ℕ) (k p : ℕ) → get_elem? (take n v) k ≡ some p → get_elem? v k ≡ some p
    get_elem?-take zero v k p e = absurd (cc)
    get_elem?-take (suc n) [] k p e = absurd (cc)
    get_elem?-take (suc n) (x ∷ v) zero p e = e
    get_elem?-take (suc n) (x ∷ v) (suc k) p e = get_elem?-take n v k p e

    get_elem?-drop :
        (j : ℕ) (v : List ℕ) (k p : ℕ)
        → get_elem? (drop j v) k ≡ some p
        → get_elem? v (j + k) ≡ some p
    get_elem?-drop zero v k p e = subst (λ i. get_elem? v i ≡ some p) (omega arith) e
    get_elem?-drop (suc j) [] k p e = absurd (cc)
    get_elem?-drop (suc j) (x ∷ v) k p e =
        let next : suc (j + k) ≡ suc j + k = omega arith in
        subst (λ i. get_elem? (x ∷ v) i ≡ some p) next (get_elem?-drop j v k p e)
