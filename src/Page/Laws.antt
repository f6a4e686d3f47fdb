-- ===== src/Page/Laws.antt =====
-- src/pt-page.c: what a property is after another was set.
use furios_initial_setup.Common.{
  Bool, List, Option, Option-cases, [], ap, arith, if◌then◌else◌, inl, inr, is_some, length, none,
  refl, some, true, ℕ, ◌∷◌, ◌≡◌, ◌≢◌, ◌≤◌,
}
use furios_initial_setup.Common.Bytes.{Bytes}
use furios_initial_setup.Page.{PtPage}
use furios_initial_setup.Page.Properties.{
  Property, ValueOf, prop_can_proceed, prop_explanation, prop_image_uri, prop_subpage, prop_summary,
  prop_widget, pt_page_get_property, pt_page_set_property, pt_page_set_subpage,
}

-- A value that can be read back as it was set: labels are not NULL, the widget neither, and a subpage is
-- set where there is none, or taken away where there is at most one.
abbrev pub IsKept : (p : Property) → ValueOf p → PtPage → Type 0
IsKept prop_summary v s = is_some v ≡ true
IsKept prop_explanation v s = is_some v ≡ true
IsKept prop_image_uri v s = Unit
IsKept prop_widget v s = is_some v ≡ true
IsKept prop_subpage v s = if is_some v then s.subpages ≡ [] else length s.subpages ≤ 1
IsKept prop_can_proceed v s = Unit

module _ (named : List ℕ → Option ℕ) (named_none : named [] ≡ none)
    (named_one : (page : ℕ) → named (page ∷ []) ≡ some page) where
  -- A stack with one subpage or none has none after it was taken away.
  removed :
      (pages : List ℕ) (s : PtPage)
      → s.subpages ≡ pages
      → length pages ≤ 1
      → named (pt_page_set_subpage named none s).subpages ≡ none
  unfolding pt_page_set_subpage
  removed [] s e h = rw (e, pt_page_set_subpage, named_none, e) named_none
  removed (page ∷ []) s e h = rw (e, pt_page_set_subpage, named_one, e) (ground (arith, named_none))
  removed (page ∷ q ∷ r) s e h = absurd (omega (arith, h))

  abbrev others : PtPage → Bytes × (Bytes × (Option Bytes × (Option ℕ × Bool)))
  others s = (s.lbl_summary, (s.lbl_explanation, (s.image_uri, (s.widget, s.can_proceed))))

  set_subpage-others : (s : PtPage) → others (pt_page_set_subpage named none s) ≡ others s
  unfolding pt_page_set_subpage
  set_subpage-others s = elim (Option-cases (named s.subpages)) [
    | inl e ↦ rw (e, pt_page_set_subpage) refl
    | inr (page, e) ↦ rw (e, pt_page_set_subpage) refl
  ]

  -- A property is left alone by the others.
  get-set_other :
      (p q : Property) (v : ValueOf p) (s : PtPage)
      → p ≢ q
      → pt_page_get_property named q (pt_page_set_property named p v s)
        ≡ pt_page_get_property named q s
  unfolding pt_page_get_property pt_page_set_property
  get-set_other prop_summary prop_summary v s h = absurd (h refl)
  get-set_other prop_summary prop_explanation v s h = refl
  get-set_other prop_summary prop_image_uri v s h = refl
  get-set_other prop_summary prop_widget v s h = refl
  get-set_other prop_summary prop_subpage v s h = refl
  get-set_other prop_summary prop_can_proceed v s h = refl
  get-set_other prop_explanation prop_summary v s h = refl
  get-set_other prop_explanation prop_explanation v s h = absurd (h refl)
  get-set_other prop_explanation prop_image_uri v s h = refl
  get-set_other prop_explanation prop_widget v s h = refl
  get-set_other prop_explanation prop_subpage v s h = refl
  get-set_other prop_explanation prop_can_proceed v s h = refl
  get-set_other prop_image_uri prop_summary none s h = refl
  get-set_other prop_image_uri prop_summary (some uri) s h = refl
  get-set_other prop_image_uri prop_explanation none s h = refl
  get-set_other prop_image_uri prop_explanation (some uri) s h = refl
  get-set_other prop_image_uri prop_image_uri v s h = absurd (h refl)
  get-set_other prop_image_uri prop_widget none s h = refl
  get-set_other prop_image_uri prop_widget (some uri) s h = refl
  get-set_other prop_image_uri prop_subpage none s h = refl
  get-set_other prop_image_uri prop_subpage (some uri) s h = refl
  get-set_other prop_image_uri prop_can_proceed none s h = refl
  get-set_other prop_image_uri prop_can_proceed (some uri) s h = refl
  get-set_other prop_widget prop_summary none s h = refl
  get-set_other prop_widget prop_summary (some w) s h = refl
  get-set_other prop_widget prop_explanation none s h = refl
  get-set_other prop_widget prop_explanation (some w) s h = refl
  get-set_other prop_widget prop_image_uri none s h = refl
  get-set_other prop_widget prop_image_uri (some w) s h = refl
  get-set_other prop_widget prop_widget v s h = absurd (h refl)
  get-set_other prop_widget prop_subpage none s h = refl
  get-set_other prop_widget prop_subpage (some w) s h = refl
  get-set_other prop_widget prop_can_proceed none s h = refl
  get-set_other prop_widget prop_can_proceed (some w) s h = refl
  get-set_other prop_subpage prop_summary none s h = ap (λ o. some o.0) (set_subpage-others s)
  get-set_other prop_subpage prop_summary (some page) s h = refl
  get-set_other prop_subpage prop_explanation none s h = ap (λ o. some o.1.0) (set_subpage-others s)
  get-set_other prop_subpage prop_explanation (some page) s h = refl
  get-set_other prop_subpage prop_image_uri none s h = ap (λ o. o.1.1.0) (set_subpage-others s)
  get-set_other prop_subpage prop_image_uri (some page) s h = refl
  get-set_other prop_subpage prop_widget none s h = ap (λ o. o.1.1.1.0) (set_subpage-others s)
  get-set_other prop_subpage prop_widget (some page) s h = refl
  get-set_other prop_subpage prop_subpage v s h = absurd (h refl)
  get-set_other prop_subpage prop_can_proceed none s h = ap (λ o. o.1.1.1.1) (set_subpage-others s)
  get-set_other prop_subpage prop_can_proceed (some page) s h = refl
  get-set_other prop_can_proceed prop_summary v s h = refl
  get-set_other prop_can_proceed prop_explanation v s h = refl
  get-set_other prop_can_proceed prop_image_uri v s h = refl
  get-set_other prop_can_proceed prop_widget v s h = refl
  get-set_other prop_can_proceed prop_subpage v s h = refl
  get-set_other prop_can_proceed prop_can_proceed v s h = absurd (h refl)

  get-set_same :
      (p : Property) (v : ValueOf p) (s : PtPage)
      → IsKept p v s
      → pt_page_get_property named p (pt_page_set_property named p v s) ≡ v
  unfolding pt_page_get_property pt_page_set_property
  get-set_same prop_summary v s h = ground (arith, h)
  get-set_same prop_explanation v s h = ground (arith, h)
  get-set_same prop_image_uri none s h = refl
  get-set_same prop_image_uri (some uri) s h = refl
  get-set_same prop_widget v s h = ground (arith, h)
  get-set_same prop_subpage (some page) s h = rw h (named_one page)
  get-set_same prop_subpage none s h = removed s.subpages s refl h
  get-set_same prop_can_proceed v s h = refl

  -- The properties of a page do not interfere: after a property was set, the others read as before, and
  -- it reads as it was set, where the value is a label that is not NULL, a widget that is not NULL, or a
  -- subpage where there is none, or none where there is at most one. The stack finds no child by a name
  -- that none has, and the child that alone has it.
  pub get-set :
      (p q : Property) (v : ValueOf p) (s : PtPage)
      → (p ≢ q
          → pt_page_get_property named q (pt_page_set_property named p v s)
            ≡ pt_page_get_property named q s)
        × (IsKept p v s → pt_page_get_property named p (pt_page_set_property named p v s) ≡ v)
  get-set p q v s = (get-set_other p q v s, get-set_same p v s)
