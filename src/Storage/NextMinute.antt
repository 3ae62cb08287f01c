-- ===== src/Storage/NextMinute.antt =====
-- `setNextMinuteData` of test/storage.cpp, whole: the storage becomes a copy of the other one, with its
-- own reference rating.
use iqoption_test_task.Prelude.{
  ℕ, suc, ◌+◌, ◌^◌, ◌<◌, ◌≤◌, ◌≡◌, refl, sym, ap, ◌∙◌, subst, false, some, [], ◌∷◌, ◌++◌, arith,
  ltb, length, length-append,
}
use iqoption_test_task.Maps.{find}
use iqoption_test_task.Maps.Distinct.{Distinct}
use iqoption_test_task.Storage.{
  FullUserDataEx, Impl, Group, active_connected, active_disconnected, silent_connected,
  silent_disconnected, group_number, or_new, no_report, UserDataMap,
}
use iqoption_test_task.Storage.Reference.{
  copy_map, set_next_minute_data, recalculate_rating, set_rating, addresses,
}
use iqoption_test_task.Storage.Invariant.{IsStored, group_of}
use iqoption_test_task.Storage.Members.{actives}
use iqoption_test_task.Storage.Copying.{view, n0, Copying}
use iqoption_test_task.Storage.Copied.{copy_map-Copying}
use iqoption_test_task.Storage.Rated.{
  IsReference, recalculated, recalculate_rating-IsStored, recalculate_rating-IsReference,
}

-- Every user of the one storage is in the other one, the same but for his `rating`, and nobody else is.
pub record Copies (n f : Impl) : Type 0 where
  pub copied :
      (i p : ℕ) (u : FullUserDataEx)
      → find i n.index ≡ some p
      → n.objects p ≡ some u
      → (q : ℕ) × (r : ℕ) × (find i f.index ≡ some q) × (f.objects q ≡ some (set_rating r u))
  pub no_others : (i q : ℕ) → find i f.index ≡ some q → (p : ℕ) × (find i n.index ≡ some p)

module _ (n s : Impl) (hn : IsStored n) (hs : IsStored s) where
  start : Impl
  start = record s { index = [] }

  none_yet : (h : Group) → (view (n0 n s) 0 start).users h ≡ []
  none_yet active_connected = refl
  none_yet active_disconnected = refl
  none_yet silent_connected = refl
  none_yet silent_disconnected = refl

  Copying-start : Copying n s 0 start
  unfolding start find
  Copying-start = record {
    stored = record {
      distinct = λ g. subst Distinct (sym (none_yet g)) tt;
      distinct_index = tt;
      indexed = λ i p e. absurd (cc);
      owned = λ g i p e. absurd (let e' = ap (find i) (sym (none_yet g)) ∙ e in cc);
      unused = λ p le. ground (arith, hs.unused p le);
    };
    later = omega arith;
    old = λ h le. refl;
    content = λ i q f. absurd (cc);
  }

  all_done : (t : Impl) (h : Group) → (view (n0 n s) 4 t).users h ≡ t.users h
  all_done t active_connected = refl
  all_done t active_disconnected = refl
  all_done t silent_connected = refl
  all_done t silent_disconnected = refl

  -- The view on all maps is the storage itself, but for what was left of the old one.
  all-IsStored : (t : Impl) → Copying n s 4 t → IsStored t
  all-IsStored t c = record {
    distinct = λ g. subst Distinct (all_done t g) (c.stored.distinct g);
    distinct_index = c.stored.distinct_index;
    indexed = λ i p e.
        let (u, o, a, w) = c.stored.indexed i p e in
        (u, own i p e ∙ o, a, ap (find i) (sym (all_done t (group_of u))) ∙ w);
    owned = λ g i p e.
        let (at, its) = c.stored.owned g i p (ap (find i) (all_done t g) ∙ e) in
        (at, ap (λ x. group_of (or_new x)) (own i p at) ∙ its);
    unused = λ p le. let free = c.stored.unused p le in ground (arith, c.later);
  }
    where
      own : (i p : ℕ) → find i t.index ≡ some p → t.objects p ≡ (view (n0 n s) 4 t).objects p
      own i p e =
          let (_, _, _, _, _, above) = c.content i p e in
          let off : ltb p (n0 n s) ≡ false = ground arith in rw off refl

length-addresses : (m : UserDataMap) → length (addresses m) ≡ length m
length-addresses [] = refl
length-addresses ((i, p) ∷ m) = ap suc (length-addresses m)

length-actives :
    (s : Impl) (h : IsStored s)
    → length (actives s h)
      ≡ length (s.users active_connected) + length (s.users active_disconnected)
length-actives s h =
    let c = addresses (s.users active_connected) in
    let d = addresses (s.users active_disconnected) in
    omega (
      arith,
      length-append c (d ++ []),
      length-append d [],
      length-addresses (s.users active_connected),
      length-addresses (s.users active_disconnected),
    )

-- All four maps are copied.
copied_all :
    (n s : Impl) (hn : IsStored n) (hs : IsStored s)
    → (t : Impl) × (set_next_minute_data n s ≡ recalculate_rating (record t { report = no_report }))
      × Copying n s 4 t
      × ((g : Group) (i p : ℕ) → find i (n.users g) ≡ some p → (q : ℕ) × (find i t.index ≡ some q))
      × (length (t.users active_connected) ≡ length (n.users active_connected))
      × (length (t.users active_disconnected) ≡ length (n.users active_disconnected))
unfolding set_next_minute_data start
copied_all n s hn hs =
    let t₀ = start n s hn hs in
    let (c₁, keep₁, all₁, size₁) =
      copy_map-Copying n s hn hs active_connected t₀ (Copying-start n s hn hs) in
    let t₁ = copy_map active_connected n t₀ in
    let (c₂, keep₂, all₂, size₂) = copy_map-Copying n s hn hs active_disconnected t₁ c₁ in
    let t₂ = copy_map active_disconnected n t₁ in
    let (c₃, keep₃, all₃, size₃) = copy_map-Copying n s hn hs silent_connected t₂ c₂ in
    let t₃ = copy_map silent_connected n t₂ in
    let (c₄, keep₄, all₄, size₄) = copy_map-Copying n s hn hs silent_disconnected t₃ c₃ in
    let t₄ = copy_map silent_disconnected n t₃ in
    let from₃ = λ (i q : ℕ) (e : find i t₃.index ≡ some q). keep₄ i q e in
    let from₂ =
      λ (i q : ℕ) (e : find i t₂.index ≡ some q). let (q', e') = keep₃ i q e in from₃ i q' e' in
    let from₁ =
      λ (i q : ℕ) (e : find i t₁.index ≡ some q). let (q', e') = keep₂ i q e in from₂ i q' e' in
    let every : (g : Group) (i p : ℕ)
        → find i (n.users g) ≡ some p
        → (q : ℕ) × (find i t₄.index ≡ some q) =
      λ g i p. elim g as (λ k. find i (n.users k) ≡ some p → (q : ℕ) × (find i t₄.index ≡ some q)) [
        | active_connected ↦ λ e. let (q, e') = all₁ i p e in from₁ i q e'
        | active_disconnected ↦ λ e. let (q, e') = all₂ i p e in from₂ i q e'
        | silent_connected ↦ λ e. let (q, e') = all₃ i p e in from₃ i q e'
        | silent_disconnected ↦ λ e. all₄ i p e
      ] in
    (
      t₄,
      refl,
      c₄,
      every,
      size₄ active_connected
          ∙ (size₃ active_connected ∙ (size₂ active_connected ∙ size₁ active_connected)),
      size₄ active_disconnected ∙ (size₃ active_disconnected ∙ size₂ active_disconnected),
    )

copies :
    (n : Impl) (hn : IsStored n) (v : Impl) (hv : IsStored v) (few : length (actives v hv) < 2 ^ 31)
    (least : ℕ)
    → ((i q : ℕ)
        → find i v.index ≡ some q
        → (h : Group) × (p : ℕ) × (group_number h < 4)
          × (find i (n.users h) ≡ some p)
          × (v.objects q ≡ n.objects p)
          × (least ≤ q))
    → ((g : Group) (i p : ℕ) → find i (n.users g) ≡ some p → (q : ℕ) × (find i v.index ≡ some q))
    → Copies n (recalculate_rating v)
unfolding recalculate_rating
copies n hn v hv few least content every = record {
  copied = λ i p u e o.
      let (u', o₁, _, w) = hn.indexed i p e in
      let (q, f) = every (group_of u') i p w in
      let (h, p', _, e', same_object, _) = content i q f in
      let (at, _) = hn.owned h i p' e' in
      let same : p' ≡ p = cc in
      let here : v.objects q ≡ some u = same_object ∙ (ap n.objects same ∙ o) in
      let (r, o', _, _) = recalculated v hv few i q u f here in (q, r, f, o');
  no_others = λ i q f. let (h, p, _, e, _, _) = content i q f in (p, (hn.owned h i p e).0);
}

-- From two well-formed storages, with fewer than 2 ^ 31 users that have won in the new one, the
-- old one becomes well formed, its rating is the reference rating of its users, and it has a user
-- exactly where the new one has one, with the same values up to his place in the rating.
pub set_next_minute_data-Copies :
    (n s : Impl) (hn : IsStored n)
    → IsStored s
    → length (actives n hn) < 2 ^ 31
    → IsStored (set_next_minute_data n s)
      × IsReference (set_next_minute_data n s)
      × Copies n (set_next_minute_data n s)
set_next_minute_data-Copies n s hn hs small =
    let (t, e, c, every, size, size') = copied_all n s hn hs in
    let v : Impl = record t { report = no_report } in
    let ht = all-IsStored n s hn hs t c in
    let hv : IsStored v = record {
      distinct = ht.distinct;
      distinct_index = ht.distinct_index;
      indexed = ht.indexed;
      owned = ht.owned;
      unused = ht.unused;
    } in
    let few : length (actives v hv) < 2 ^ 31 =
      omega (arith, length-actives v hv, length-actives n hn, size, size') in
    let P = λ (f : Impl). IsStored f × IsReference f × Copies n f in
    subst P (sym e) (
      recalculate_rating-IsStored v hv few,
      recalculate_rating-IsReference v hv few,
      copies n hn v hv few (n0 n s) c.content every,
    )
