-- ===== src/Storage/Returns.antt =====
-- Users of test/storage.cpp who come and go, and new ones.
use iqoption_test_task.Prelude.{
  ℕ, ◌≡◌, ◌≢◌, refl, sym, ◌∙◌, subst, Bool-cases, inl, inr, false, some, arith, ◌==◌, if◌then◌else◌,
  ==_iff, ==-refl, Option-cases,
}
use iqoption_test_task.Failures.{ok}
use iqoption_test_task.Core.{invalid_second}
use iqoption_test_task.Maps.{find}
use iqoption_test_task.Storage.{FullUserDataEx, Group, Impl, object_at}
use iqoption_test_task.Storage.Users.{
  connect_user, disconnect_user, connected_group, disconnected_group,
}
use iqoption_test_task.Storage.Invariant.{group_of, IsStored}
use iqoption_test_task.Storage.Changes.{home}
use iqoption_test_task.Storage.Connections.{
  with_second, moved_to, left, connect_user_lem, disconnect_user_lem,
}

-- The index and the users themselves settle what stands in the maps.
maps_follow :
    (s v : Impl)
    → IsStored s
    → IsStored v
    → v.index ≡ s.index
    → ((q : ℕ) → group_of (object_at v q) ≡ group_of (object_at s q))
    → (g : Group) (j q : ℕ) → find j (s.users g) ≡ some q
    → find j (v.users g) ≡ some q
maps_follow s v hs hv same groups g j q f =
    let (at, own) = hs.owned g j q f in
    let (w, o, _, there) = hv.indexed j q (rw same at) in
    let its : group_of (object_at v q) ≡ group_of w = rw o refl in
    subst (λ k. find j (v.users k) ≡ some q) (sym its ∙ (groups q ∙ own)) there

same_maps :
    (s v : Impl)
    → IsStored s
    → IsStored v
    → v.index ≡ s.index
    → ((q : ℕ) → group_of (object_at v q) ≡ group_of (object_at s q))
    → (g : Group) (j : ℕ) → find j (v.users g) ≡ find j (s.users g)
same_maps s v hs hv same groups g j = elim (Option-cases (find j (s.users g))) [
  | inr (q, f) ↦ maps_follow s v hs hv same groups g j q f ∙ sym f
  | inl n ↦ elim (Option-cases (find j (v.users g))) [
    | inl m ↦ m ∙ sym n
    | inr (q, f) ↦ let back = maps_follow v s hv hs (sym same) (λ r. sym (groups r)) g j q f in cc
  ]
]

-- In a well-formed storage, a user who is not connected connects at a second other than the mark
-- of one who left, and disconnects. Both calls succeed and leave the storage well formed; between
-- them he stands in the map of the connected, and after them every map finds what it found
-- before. His object is as it was, except that a user who has won something has received no
-- rating.
pub disconnect_user-connect_user :
    (s : Impl) (i p second : ℕ) (u : FullUserDataEx)
    → IsStored s
    → find i s.index ≡ some p
    → s.objects p ≡ some u
    → u.second_connected ≡ invalid_second
    → second ≢ invalid_second
    → (t v : Impl) × (connect_user i second s ≡ ok (p, t))
      × (disconnect_user i t ≡ ok (p, v))
      × IsStored t
      × IsStored v
      × (find i (t.users (connected_group u.winnings)) ≡ some p)
      × ((g : Group) (j : ℕ) → find j (v.users g) ≡ find j (s.users g))
      × (v.objects p
          ≡ some
              (record u { rating_received = if u.winnings == 0 then u.rating_received else false }))
disconnect_user-connect_user s i p second u h e o out into =
    let u' = with_second second u in
    let (c, ht) = connect_user_lem s h i p u e o second out into in
    let t = moved_to s i p u u' in
    let o' : t.objects p ≡ some u' = rw (==-refl p) refl in
    let (d, hv) = disconnect_user_lem t ht i p u' e o' into in
    let v = moved_to t i p u' (left t ht i p u' e o') in
    let joined : group_of u' ≡ connected_group u.winnings = ground arith in
    let groups : (q : ℕ) → group_of (object_at v q) ≡ group_of (object_at s q) = λ q.
      elim (Bool-cases (p == q)) [
        | inl y ↦
            let same : p ≡ q = (==_iff p q).0 y in
            rw y (
              subst (λ r. disconnected_group u.winnings ≡ group_of (object_at s r)) same
                (rw (o, out) refl))
        | inr y ↦ rw y refl
      ] in
    (
      t,
      v,
      c,
      d,
      ht,
      hv,
      subst (λ g. find i (t.users g) ≡ some p) joined (home t ht i p u' u' e o' refl),
      same_maps s v h hv refl groups,
      rw (==-refl p, out) refl,
    )
