-- ===== src/Tools/Policy/Laws.antt =====
-- What a policy made from two lists allows.
use mouse.Prelude.{
  ◌≡◌, refl, ap, ◌∙◌, ◌≢◌, inl, inr, Bool, not, ◌&&◌, ◌||◌, Option, none, some, List, [], ◌∷◌,
  arith, Text, text_eq, text_eq_iff, Bool-cases, any, all, is_empty,
}
use mouse.Strings.{Unicode, IsLawful, is_space, to_lower, trim_space, trim_left, trim_right}
use mouse.Strings.Trim.{trim_space_idem}
use mouse.Tools.Policy.{Policy, member, normalize, add_all, new_policy, allowed}

module _ ⦃u : Unicode⦄ where
  -- Some item of the list is this name, but for case and the space around it.
  abbrev pub mentions : List Text → Text → Bool
  mentions items name = any (λ item. text_eq (normalize item) name) items

  -- No item of the list is a name.
  abbrev pub all_blank : List Text → Bool
  all_blank items = all (λ item. text_eq (normalize item) []) items

  member-add_all :
      (name : Text) (set items : List Text)
      → name ≢ []
      → member name (add_all set items) ≡ (member name set || mentions items name)
  unfolding add_all
  member-add_all name set [] h = ground arith
  member-add_all name set (item ∷ items) h = ground (
    arith,
    member-add_all name set items h,
    member-add_all name (normalize item ∷ set) items h,
    text_eq_iff (normalize item) [],
    text_eq_iff (normalize item) name,
  )

  is_empty-add_all :
      (set items : List Text) → is_empty (add_all set items) ≡ (is_empty set && all_blank items)
  unfolding add_all
  is_empty-add_all set [] = ground arith
  is_empty-add_all set (item ∷ items) =
      ground (arith, is_empty-add_all set items, is_empty-add_all (normalize item ∷ set) items)

  -- A tool may run exactly if its name is not blank, the deny list does not mention it, and the
  -- allow list mentions it or holds no name at all.
  pub allowed-new_policy :
      (allow deny : List Text) (tool : Text)
      → allowed (some (new_policy allow deny)) tool ≡ (
          not (text_eq (normalize tool) [])
          && not (mentions deny (normalize tool))
          && (all_blank allow || mentions allow (normalize tool)))
  unfolding allowed new_policy
  allowed-new_policy allow deny tool = elim (Bool-cases (text_eq (normalize tool) [])) [
    | inl blank ↦ rw blank refl
    | inr named ↦
        let ne : normalize tool ≢ [] = λ e. cc ((text_eq_iff (normalize tool) []).1 e) in
        ground (
          arith,
          member-add_all (normalize tool) [] allow ne,
          member-add_all (normalize tool) [] deny ne,
          is_empty-add_all [] allow,
        )
  ]

module _ ⦃u : Unicode⦄ (law : IsLawful u) where
  trim_left-lower : (s : Text) → trim_left is_space (to_lower s) ≡ to_lower (trim_left is_space s)
  unfolding trim_left
  trim_left-lower [] = refl
  trim_left-lower (c ∷ s) = ground (arith, trim_left-lower s, law.lower_space c)

  lower_empty : (s : Text) → text_eq (to_lower s) [] ≡ text_eq s []
  unfolding text_eq
  lower_empty [] = refl
  lower_empty (c ∷ s) = refl

  trim_right-lower :
      (s : Text) → trim_right is_space (to_lower s) ≡ to_lower (trim_right is_space s)
  unfolding trim_right
  trim_right-lower [] = refl
  trim_right-lower (c ∷ s) =
      rw (trim_right-lower s, lower_empty (trim_right is_space s), law.lower_space c) (ground arith)

  trim_space-lower : (s : Text) → trim_space (to_lower s) ≡ to_lower (trim_space s)
  unfolding trim_space
  trim_space-lower s =
      ap (trim_right is_space) (trim_left-lower s) ∙ trim_right-lower (trim_left is_space s)

  lower_idem : (s : Text) → to_lower (to_lower s) ≡ to_lower s
  lower_idem [] = refl
  lower_idem (c ∷ s) = cc (law.lower_idem c, lower_idem s)

  normalize_idem : (s : Text) → normalize (normalize s) ≡ normalize s
  unfolding normalize
  normalize_idem s =
      ap to_lower (trim_space-lower (trim_space s))
      ∙ lower_idem (trim_space (trim_space s))
      ∙ ap to_lower (trim_space_idem s)

  -- Over a lawful case mapping, neither case nor the space around a name makes a difference to what
  -- is allowed.
  pub allowed-normalize :
      (p : Option Policy) (tool : Text) → allowed p (normalize tool) ≡ allowed p tool
  unfolding allowed
  allowed-normalize none tool = refl
  allowed-normalize (some p) tool = rw (normalize_idem tool)
