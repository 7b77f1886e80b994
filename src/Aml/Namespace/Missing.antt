-- ===== src/Aml/Namespace/Missing.antt =====
-- aml/src/namespace.rs: `Namespace::remove_level` on a level that is not there.
use acpi_rs.Prelude.{
  ◌≡◌, refl, sym, ap, ◌∙◌, List, [], ◌∷◌, ◌++◌, some, none, ok, err, Option-cases, inl, inr, arith,
}
use acpi_rs.Aml.Types.{NameSeg, AmlName, Result, level_does_not_exist, cmp_seg_refl}
use acpi_rs.Aml.Name.{root_name}
use acpi_rs.Aml.Level.{Level, level, children_of, find_child, remove_child, get_level_for_path_mut}
use acpi_rs.Aml.Level.Laws.{
  level_at, update_at, absolute, find_child-set_child, find_child-remove_child, split_path-absolute,
  descend_mut-missing,
}
use acpi_rs.Aml.Namespace.{Namespace, delete_level, remove_level}
use acpi_rs.Aml.Namespace.Values.{absolute_normal-absolute}
use acpi_rs.Aml.Namespace.Removal.{not_root, remove_level-found}

-- The changed level stands where the old one did.
level_at-update_at :
    (ss : List NameSeg) (f : Level → Level) (l m : Level)
    → level_at ss l ≡ some m
    → level_at ss (update_at ss f l) ≡ some (f m)
unfolding level_at update_at
level_at-update_at [] f l m h = ground (arith)
level_at-update_at (s ∷ ss) f l m h = elim (Option-cases (find_child s (children_of l))) [
  | inl e ↦ cc (rw (e, level_at) at h)
  | inr (next, e) ↦
      let found = find_child-set_child s s (update_at ss f next) l e in
      rw (e, update_at)
        (rw (found, level_at)
          (rw (cmp_seg_refl s) (level_at-update_at ss f next m (rw (e, level_at) at h))))
]

module _ {ℓ} {V : Type ℓ} where
  remove_level-missing :
      (ns : Namespace V) (ss : List NameSeg) (s : NameSeg)
      → level_at ss ns.root_level ≡ none
      → (p : AmlName) × ((remove_level ns (absolute (ss ++ s ∷ []))).0
          ≡ err (level_does_not_exist p))
  unfolding remove_level get_level_for_path_mut
  remove_level-missing ns ss s h =
      let path = absolute (ss ++ s ∷ []) in
      let (p, e, _) =
        descend_mut-missing ns.root_level root_name ss (λ l. delete_level path s l) h in
      (
        p,
        rw (absolute_normal-absolute (ss ++ s ∷ []), remove_level)
            (rw (not_root ss s)
              (rw (split_path-absolute ss s, get_level_for_path_mut) (rw e refl))),
      )

delete_level-twice :
    (p : AmlName) (s : NameSeg) (m : Level)
    → (delete_level p s m).0 ≡ ok tt
    → (delete_level p s (delete_level p s m).1).0 ≡ err (level_does_not_exist p)
unfolding delete_level
delete_level-twice p s (level t cs vs) h = elim (Option-cases (find_child s cs)) [
  | inl e ↦ cc (rw (e, delete_level) at h)
  | inr (next, e) ↦
      let gone : find_child s (remove_child s cs) ≡ none =
        find_child-remove_child s s cs ∙ (rw (cmp_seg_refl s) refl) in
      rw (e, delete_level) (rw (gone, delete_level) refl)
]

module _ {ℓ} {V : Type ℓ} where
  -- A level that `remove_level` has removed is not there any more: removing it again fails with
  -- `LevelDoesNotExist`.
  pub remove_level_again :
      (ns ns' : Namespace V) (ss : List NameSeg) (s : NameSeg)
      → remove_level ns (absolute (ss ++ s ∷ [])) ≡ (ok tt, ns')
      → (remove_level ns' (absolute (ss ++ s ∷ []))).0
        ≡ err (level_does_not_exist (absolute (ss ++ s ∷ [])))
  remove_level_again ns ns' ss s h =
      let path = absolute (ss ++ s ∷ []) in
      elim (Option-cases (level_at ss ns.root_level)) [
        | inl e ↦
            let (p, missing) = remove_level-missing ns ss s e in
            cc (missing, ap (λ (x : Result (Unit {0}) × Namespace V). x.0) h)
        | inr (m, e) ↦
            let found = remove_level-found ns ss s m e in
            let done : (delete_level path s m).0 ≡ ok tt =
              sym (ap (λ (x : Result (Unit {0}) × Namespace V). x.0) found)
              ∙ ap (λ (x : Result (Unit {0}) × Namespace V). x.0) h in
            let top : update_at ss (λ x. (delete_level path s x).1) ns.root_level ≡ ns'.root_level =
              sym (ap (λ (x : Result (Unit {0}) × Namespace V). x.1.root_level) found)
              ∙ ap (λ (x : Result (Unit {0}) × Namespace V). x.1.root_level) h in
            let there : level_at ss ns'.root_level ≡ some (delete_level path s m).1 =
              ap (level_at ss) (sym top)
              ∙ level_at-update_at ss (λ x. (delete_level path s x).1) ns.root_level m e in
            ap (λ (x : Result (Unit {0}) × Namespace V). x.0)
              (remove_level-found ns' ss s (delete_level path s m).1 there)
            ∙ delete_level-twice path s m done
      ]
