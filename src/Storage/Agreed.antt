-- ===== src/Storage/Agreed.antt =====
-- Where the service and the client of test/storage.cpp agree about the rating, the size, the top and the
-- surroundings that a worker of service/worker_pool.cpp answers pass their checks.
use native.Mathlib.Decide.{dec_lt}
use iqoption_test_task.Prelude.{
  ℕ, zero, suc, ◌-◌, ◌^◌, ◌<◌, ◌≤◌, ◌≡◌, refl, sym, ap, ◌∙◌, Bool, true, false, List, [], ◌∷◌, ◌++◌,
  arith, ◌==◌, if◌then◌else◌, length, take, drop, map, min, length-take, length-drop, length-append,
  length-map, take-append_eq, drop-append_eq, drop_all, lt_s32,
}
use iqoption_test_task.Core.{CoreRatingData, invalid_rating, Pointer}
use iqoption_test_task.Workers.{entry_of, range_begin, range_end}
use iqoption_test_task.Workers.Answers.{answer, tops, near, entries_of}
use iqoption_test_task.Storage.{FullUserDataEx, Impl}
use iqoption_test_task.Storage.Checks.{
  check_size, check_tops, check_surroundings, count_top, count_surroundings, first_near, as_size,
}
use iqoption_test_task.Storage.Accepts.{
  entry_at, entries_at, Stands, check_entries-part, get_elem?-take-drop,
}

map-take {ℓ κ} :
    {A : Type ℓ} {B : Type κ} (f : A → B) (n : ℕ) (xs : List A)
    → map f (take n xs) ≡ take n (map f xs)
map-take f zero xs = refl
map-take f (suc n) [] = refl
map-take f (suc n) (x ∷ xs) = ap (◌∷◌ (f x)) (map-take f n xs)

map-drop {ℓ κ} :
    {A : Type ℓ} {B : Type κ} (f : A → B) (n : ℕ) (xs : List A)
    → map f (drop n xs) ≡ drop n (map f xs)
map-drop f zero xs = refl
map-drop f (suc n) [] = refl
map-drop f (suc n) (x ∷ xs) = map-drop f n xs

take_nil : (n : ℕ) → take n (let none_left : List Pointer = [] in none_left) ≡ []
take_nil zero = refl
take_nil (suc n) = refl

-- The service and the client have the same users at the same places.
abbrev pub Agree : CoreRatingData → Impl → Type 0
Agree d s = entries_of d d.rating ≡ entries_at s s.rating

-- The place that the client expects of a user.
abbrev pub expected_place : Impl → FullUserDataEx → ℕ
expected_place s u = if u.rating == invalid_rating then length s.rating else u.rating

module _ (d : CoreRatingData) (s : Impl) (agree : Agree d s) where
  pub same_length : length d.rating ≡ length s.rating
  same_length =
      sym (length-map d.rating (entry_of d.active_users))
      ∙ (ap length agree ∙ length-map s.rating (entry_at s))

  -- A part of the one rating is that part of the other.
  same_part :
      (n j : ℕ) → entries_of d (take n (drop j d.rating)) ≡ entries_at s (take n (drop j s.rating))
  same_part n j =
      map-take (entry_of d.active_users) n (drop j d.rating)
      ∙ (ap (take n) (
            map-drop (entry_of d.active_users) j d.rating
            ∙ (ap (drop j) agree ∙ sym (map-drop (entry_at s) j s.rating)))
          ∙ sym (map-take (entry_at s) n (drop j s.rating)))

  top_part : List ℕ
  top_part = take 10 s.rating

  near_part : ℕ → List ℕ
  near_part pos =
      take (range_end (length s.rating) pos - range_begin pos) (drop (range_begin pos) s.rating)

  same_tops : tops d ≡ entries_at s (take 10 s.rating)
  same_tops = same_part 10 0

  same_near : (pos : ℕ) → near d pos ≡ entries_at s (near_part pos)
  unfolding near_part
  same_near pos =
      rw same_length
        (same_part (range_end (length s.rating) pos - range_begin pos) (range_begin pos))

  length-tops : length (tops d) ≡ min 10 (length s.rating)
  length-tops =
      ap length same_tops ∙ (length-map (take 10 s.rating) (entry_at s) ∙ length-take 10 s.rating)

  near_empty : (pos : ℕ) → length s.rating ≤ 10 → near d pos ≡ []
  near_empty pos le =
      rw
        (
          drop_all (range_begin pos) d.rating (omega (arith, same_length)),
          take_nil (range_end (length d.rating) pos - range_begin pos),
        )
        refl

  checked_tops :
      (pos : ℕ) (id : ℕ)
      → take (min (length (answer d id pos).ratings) 10) (answer d id pos).ratings
        ≡ entries_at s (take 10 s.rating)
  checked_tops pos id =
      take-append_eq (min (length (tops d ++ near d pos)) 10) (tops d) (near d pos)
        (elim (dec_lt 10 (length s.rating)) [
          | yes more ↦ omega (arith, length-tops, length-append (tops d) (near d pos))
          | no few ↦ omega (
            arith,
            length-tops,
            length-append (tops d) (near d pos),
            ap length (near_empty pos (omega arith)),
          )
        ])
      ∙ same_tops

  checked_near :
      (pos : ℕ) (id : ℕ)
      → 10 < length s.rating
      → drop 10 (answer d id pos).ratings ≡ entries_at s (near_part pos)
  checked_near pos id lt =
      drop-append_eq 10 (tops d) (near d pos) (omega (arith, length-tops)) ∙ same_near pos

first_near_lem : (pos : ℕ) → pos < 2 ^ 31 → first_near pos ≡ range_begin pos
first_near_lem pos small = ground arith

module _ (d : CoreRatingData) (s : Impl) (agree : Agree d s) (stands : Stands s)
    (small : length s.rating < 2 ^ 31) where
  pub check_size-answer :
      (id pos : ℕ) (failure : Bool) → check_size (answer d id pos) (failure, s) ≡ (failure, s)
  unfolding check_size
  check_size-answer id pos failure =
      rw (same_length d s agree, check_size)
        (let e : (as_size (length s.rating) == length s.rating) ≡ true = ground arith in rw e refl)

  pub check_tops-answer :
      (id pos : ℕ) (failure : Bool) → check_tops (answer d id pos) (failure, s) ≡ (failure, s)
  unfolding check_tops
  check_tops-answer id pos failure =
      rw (checked_tops d s agree pos id, check_tops)
        (check_entries-part count_top s failure (take 10 s.rating) 0 stands
          (get_elem?-take-drop 10 0 s.rating) (omega (arith, length-take 10 s.rating)))

  pub check_surroundings-answer :
      (id pos : ℕ) (failure : Bool)
      → pos ≤ length s.rating
      → check_surroundings (answer d id pos) (failure, s) ≡ (failure, s)
  unfolding check_surroundings near_part
  check_surroundings-answer id pos failure le = elim (dec_lt 10 (length s.rating)) [
    | yes more ↦
        let test : lt_s32 10 (length s.rating) ≡ true = ground arith in
        let n = range_end (length s.rating) pos - range_begin pos in
        rw
          (
            check_surroundings,
            checked_near d s agree pos id more,
            first_near_lem pos (omega arith),
            same_length d s agree,
            test,
          )
          (check_entries-part count_surroundings s failure
            (take n (drop (range_begin pos) s.rating)) (range_begin pos) stands
            (get_elem?-take-drop n (range_begin pos) s.rating)
            (omega (
              arith,
              length-take n (drop (range_begin pos) s.rating),
              length-drop (range_begin pos) s.rating,
            )))
    | no few ↦
        let test : lt_s32 10 (length s.rating) ≡ false = ground arith in
        rw (same_length d s agree, test, check_surroundings) refl
  ]
