-- ===== src/Storage/Copied.antt =====
-- The loops of `setNextMinuteData` in test/storage.cpp: every user of the other storage is copied.
use mathlib.Core.Path.{fun_ext}
use iqoption_test_task.Prelude.{
  ℕ, suc, ◌+◌, ◌≤◌, ◌≡◌, refl, sym, ap, ◌∙◌, subst, Bool-cases, inl, inr, true, false, none, some,
  Option-cases, List, [], ◌∷◌, arith, if◌then◌else◌, ltb, length,
}
use iqoption_test_task.Maps.{find}
use iqoption_test_task.Storage.{
  Impl, Group, same_group, group_number, put_object, object_at, Objects,
}
use iqoption_test_task.Storage.Reference.{clear_map, copy_map, free_objects, addresses}
use iqoption_test_task.Storage.Invariant.{IsStored, group_of, same_group-eq}
use iqoption_test_task.Storage.Addresses.{mem}
use iqoption_test_task.Storage.Members.{id_of}
use iqoption_test_task.Storage.Copying.{view, n0, Copying}
use iqoption_test_task.Storage.CopiedUsers.{copy_users_lem}

mem-free_objects :
    (ps : List ℕ) (objects : Objects) (q : ℕ)
    → free_objects ps objects q ≡ (if mem q ps then none else objects q)
unfolding free_objects
mem-free_objects [] objects q = refl
mem-free_objects (p ∷ ps) objects q =
    mem-free_objects ps (put_object p none objects) q ∙ ground arith

-- A map that a well formed storage had is cleared: its objects stood before all that was copied.
clear_map-Copying :
    (n s : Impl) (hs : IsStored s) (g : Group) (t : Impl)
    → Copying n s (group_number g) t
    → Copying n s (suc (group_number g)) (clear_map g t)
unfolding clear_map
clear_map-Copying n s hs g t c =
    let kept : (q : ℕ) → n0 n s ≤ q → (clear_map g t).objects q ≡ t.objects q =
      λ q le. mem-free_objects (addresses (t.users g)) t.objects q ∙ rw (not_there q le) refl in
    let same : view (n0 n s) (group_number g) t
        ≡ view (n0 n s) (suc (group_number g)) (clear_map g t) =
      let objects : (view (n0 n s) (group_number g) t).objects
          ≡ (view (n0 n s) (suc (group_number g)) (clear_map g t)).objects =
        fun_ext (λ q. elim (Bool-cases (ltb q (n0 n s))) [
          | inl y ↦ rw y refl
          | inr y ↦ rw y (sym (kept q (ground arith)))
        ]) in
      let users : (view (n0 n s) (group_number g) t).users
          ≡ (view (n0 n s) (suc (group_number g)) (clear_map g t)).users =
        fun_ext (λ h. ground arith) in
      (λ i. record t { objects = objects i; users = users i }) in
    record {
      stored = subst IsStored same c.stored;
      later = c.later;
      old =
          λ h le. let off : same_group g h ≡ false = ground arith in rw off (c.old h (omega arith));
      content = λ i q f.
          let (h, p, lt, e, o, above) = c.content i q f in
          (h, p, omega arith, e, kept q above ∙ o, above);
    }
  where
    not_there : (q : ℕ) → n0 n s ≤ q → mem q (addresses (t.users g)) ≡ false
    not_there q le = elim (Bool-cases (mem q (addresses (t.users g)))) [
      | inr y ↦ y
      | inl y ↦
          let y' : mem q (addresses (s.users g)) ≡ true =
            subst (λ m. mem q (addresses m) ≡ true) (c.old g (omega arith)) y in
          let (i, f) = id_of q (s.users g) (hs.distinct g) y' in
          let (u, o, _, _) = hs.indexed i q (hs.owned g i q f).0 in
          let free = hs.unused q le in absurd (cc)
    ]

-- A map of the other storage, cleared and copied.
pub copy_map-Copying :
    (n s : Impl) (hn : IsStored n) (hs : IsStored s) (g : Group) (t : Impl)
    → Copying n s (group_number g) t
    → Copying n s (suc (group_number g)) (copy_map g n t)
      × ((i q : ℕ) → find i t.index ≡ some q → (q' : ℕ) × (find i (copy_map g n t).index ≡ some q'))
      × ((i p : ℕ)
          → find i (n.users g) ≡ some p
          → (q' : ℕ) × (find i (copy_map g n t).index ≡ some q'))
      × ((h : Group)
          → length ((copy_map g n t).users h)
            ≡ (if same_group g h then length (n.users h) else length (t.users h)))
unfolding copy_map clear_map
copy_map-Copying n s hn hs g t c =
    let (c', ext) =
      copy_users_lem n s hn g (n.users g) (clear_map g t) (hn.distinct g)
        ((λ i p e. e), (λ i p e. not_yet i p e)) (clear_map-Copying n s hs g t c) in
    (
      c',
      ext.0,
      ext.1,
      λ h. elim (Bool-cases (same_group g h)) [
        | inl y ↦
            let same = same_group-eq g h y in
            ext.2 h ∙ (rw y (zero-plus (length (n.users g)) ∙ ap (λ x. length (n.users x)) same))
        | inr y ↦ ext.2 h ∙ (rw y refl)
      ],
    )
  where
    not_yet : (i p : ℕ) → find i (n.users g) ≡ some p → find i t.index ≡ none
    not_yet i p e = elim (Option-cases (find i t.index)) [
      | inl y ↦ y
      | inr (q, f) ↦
          let (h, r, lt, e', _, _) = c.content i q f in
          let (at, its) = hn.owned g i p e in
          let (at', its') = hn.owned h i r e' in
          let same : p ≡ r = cc in
          let home : g ≡ h = sym its ∙ (ap (λ x. group_of (object_at n x)) same ∙ its') in
          absurd (omega (arith, ap group_number home))
    ]

    zero-plus : (x : ℕ) → 0 + x ≡ x
    zero-plus x = omega arith
