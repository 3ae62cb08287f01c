-- ===== src/Storage/Drawn.antt =====
-- Who is drawn by `getRandomUser` of test/storage.cpp.
use iqoption_test_task.Prelude.{
  ℕ, zero, suc, ◌+◌, ◌-◌, ◌^◌, ◌<◌, ◌≡◌, refl, sym, ◌∙◌, subst, Bool, Bool-cases, inl, inr, true,
  false, none, some, Every-map, [], ◌∷◌, arith, ◌==◌, ==_iff, ==-refl, length, Every, leb,
}
use iqoption_test_task.Failures.{ok}
use iqoption_test_task.Maps.{find}
use iqoption_test_task.Maps.Distinct.{Distinct}
use iqoption_test_task.Storage.{
  Impl, Group, active_connected, active_disconnected, silent_connected, silent_disconnected,
  UserDataMap, UserArray,
}
use iqoption_test_task.Storage.Pick.{
  UserFlag, connected, disconnected, active, silent, has_flag, MapIndexSet, maps_drawn,
  maps_counted, get_cumulative_size, nth_user, get_user_by_index, get_random_user, unless_flag,
  maps_tested,
}

-- The two flags of a map.
abbrev pub flags_of : Group → UserFlag × UserFlag
flags_of active_connected = (active, connected)
flags_of active_disconnected = (active, disconnected)
flags_of silent_connected = (silent, connected)
flags_of silent_disconnected = (silent, disconnected)

abbrev pub Flagged : ℕ → Group → Type 0
Flagged user_flags g =
    (has_flag user_flags (flags_of g).0 ≡ true) × (has_flag user_flags (flags_of g).1 ≡ true)

-- The flags, each given or not.
abbrev given : Bool → Bool → Bool → Bool → UserFlag → Bool
given c d a s connected = c
given c d a s disconnected = d
given c d a s active = a
given c d a s silent = s

abbrev Given : Bool → Bool → Bool → Bool → Group → Type 0
Given c d a s g = (given c d a s (flags_of g).0 ≡ true) × (given c d a s (flags_of g).1 ≡ true)

maps-Given :
    (c d a s : Bool)
    → Every (Given c d a s) (unless_flag s silent_connected silent_disconnected (maps_tested c d a))
maps-Given true true true true = ((refl, refl), ((refl, refl), ((refl, refl), ((refl, refl), tt))))
maps-Given true true true false = ((refl, refl), ((refl, refl), tt))
maps-Given true true false true = ((refl, refl), ((refl, refl), tt))
maps-Given true true false false = tt
maps-Given true false true true = ((refl, refl), ((refl, refl), tt))
maps-Given true false true false = ((refl, refl), tt)
maps-Given true false false true = ((refl, refl), tt)
maps-Given true false false false = tt
maps-Given false true true true = ((refl, refl), ((refl, refl), tt))
maps-Given false true true false = ((refl, refl), tt)
maps-Given false true false true = ((refl, refl), tt)
maps-Given false true false false = tt
maps-Given false false true true = tt
maps-Given false false true false = tt
maps-Given false false false true = tt
maps-Given false false false false = tt

given-has_flag :
    (user_flags : ℕ) (f : UserFlag)
    → given
        (has_flag user_flags connected)
        (has_flag user_flags disconnected)
        (has_flag user_flags active)
        (has_flag user_flags silent)
        f
      ≡ has_flag user_flags f
given-has_flag user_flags connected = refl
given-has_flag user_flags disconnected = refl
given-has_flag user_flags active = refl
given-has_flag user_flags silent = refl

maps_drawn-Flagged : (user_flags : ℕ) → Every (Flagged user_flags) (maps_drawn user_flags)
unfolding maps_drawn maps_counted
maps_drawn-Flagged f =
    let c = has_flag f connected in
    let d = has_flag f disconnected in
    let a = has_flag f active in
    let s = has_flag f silent in
    Every-map
      (λ g (h : Given c d a s g).
        (sym (given-has_flag f (flags_of g).0) ∙ h.0, sym (given-has_flag f (flags_of g).1) ∙ h.1))
      (maps_drawn f) (maps-Given c d a s)

nth_user-find :
    (m : UserDataMap) (i : ℕ)
    → Distinct m
    → i < length m
    → (id p : ℕ) × (nth_user m i ≡ some id) × (find id m ≡ some p)
unfolding nth_user find
nth_user-find [] i d h = absurd (omega arith)
nth_user-find ((k, q) ∷ m) zero d h = (k, q, refl, rw (==-refl k) refl)
nth_user-find ((k, q) ∷ m) (suc i) d h =
    let (id, p, e, f) = nth_user-find m i d.1 (omega arith) in
    (
      id,
      p,
      e,
      elim (Bool-cases (k == id)) [
        | inl y ↦
            let same : k ≡ id = (==_iff k id).0 y in
            absurd (let r = subst (λ x. find x m ≡ none) same d.0 in cc)
        | inr y ↦ rw y f
      ],
    )

abbrev pub sum_sizes : MapIndexSet → UserArray → ℕ
sum_sizes [] users = 0
sum_sizes (g ∷ maps) users = length (users g) + sum_sizes maps users

pub get_cumulative_size_lem :
    (maps : MapIndexSet) (users : UserArray)
    → sum_sizes maps users < 2 ^ 32
    → get_cumulative_size maps users ≡ sum_sizes maps users
unfolding get_cumulative_size
get_cumulative_size_lem [] users h = refl
get_cumulative_size_lem (g ∷ maps) users h = ground (arith, get_cumulative_size_lem maps users)

get_user_by_index_lem :
    (P : Group → Type 0) (maps : MapIndexSet) (i : ℕ) (users : UserArray)
    → ((g : Group) → Distinct (users g))
    → Every P maps
    → i < sum_sizes maps users
    → (g : Group) × (id : ℕ) × (p : ℕ) × (get_user_by_index maps i users ≡ ok id)
      × P g
      × (find id (users g) ≡ some p)
unfolding get_user_by_index
get_user_by_index_lem P [] i users d h lt = absurd (omega arith)
get_user_by_index_lem P (g ∷ maps) i users d h lt = elim (Bool-cases (leb (length (users g)) i)) [
  | inl y ↦
      let (k, id, p, e, a, f) =
        get_user_by_index_lem P maps (i - length (users g)) users d h.1 (ground arith) in
      (k, id, p, rw y e, a, f)
  | inr y ↦
      let (id, p, e, f) = nth_user-find (users g) i (d g) (ground arith) in
      (g, id, p, rw (y, e) refl, h.0, f)
]

-- Let no map hold an id twice and the count of those who may be drawn fit 32 bits. If the number
-- that is drawn is below the count, then a user is drawn, without a failed assertion, from a map
-- of which both flags are among those given.
pub get_random_user_lem :
    (draw : ℕ → ℕ) (user_flags : ℕ) (s : Impl)
    → ((g : Group) → Distinct (s.users g))
    → sum_sizes (maps_drawn user_flags) s.users < 2 ^ 32
    → draw (sum_sizes (maps_drawn user_flags) s.users) < sum_sizes (maps_drawn user_flags) s.users
    → (g : Group) × (id : ℕ) × (p : ℕ) × (get_random_user draw user_flags s ≡ ok id)
      × Flagged user_flags g
      × (find id (s.users g) ≡ some p)
unfolding get_random_user
get_random_user_lem draw user_flags s d small lt =
    rw (get_cumulative_size_lem (maps_drawn user_flags) s.users small) (
      get_user_by_index_lem (Flagged user_flags) (maps_drawn user_flags)
        (draw (sum_sizes (maps_drawn user_flags) s.users)) s.users d (maps_drawn-Flagged user_flags)
        lt)
