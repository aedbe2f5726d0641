-- ===== src/Organizations/Slugs.antt =====
-- The slug of a new organization (store.py, `_generate_unique_slug`): its loop ends, with a slug that
-- no organization has.
use text.Mathlib.TextLemmas.{append_cancel_left, append_cancel_right, append-nil, append-eq-nil_iff}
use real_voice_agent_free.Prelude.{
  ℕ, zero, suc, ◌+◌, ◌≤◌, ◌<◌, String, ◌==◌, ◌≡◌, refl, sym, ◌∙◌, true, false, not, none, some,
  List, [], ◌∷◌, filter, length, arith, Bool-cases, inl, inr, Option-cases, eq_iff, filter_all,
}
use real_voice_agent_free.Models.{OrganizationModel}
use real_voice_agent_free.Errors.{ok}
use real_voice_agent_free.Session.{World, ◌>>=◌, pure, select}
use real_voice_agent_free.Organizations.{
  Words, WritesNumbers, candidate, is_taken, first_free, generate_unique_slug,
}

module _ (words : Words) (writes : WritesNumbers words) (base : String) where
  base_not_longer : (n : ℕ) → base ≡ candidate words base (suc n) → ⊥
  base_not_longer n h =
      let tail = append_cancel_left base "" _ (append-nil base ∙ h) in
      let dash = ((append-eq-nil_iff {p = "-"}).0 (sym tail)).0 in cc

  candidate_inj : (m n : ℕ) → candidate words base m ≡ candidate words base n → m ≡ n
  candidate_inj zero zero h = refl
  candidate_inj zero (suc n) h = absurd (base_not_longer n h)
  candidate_inj (suc m) zero h = absurd (base_not_longer m (sym h))
  candidate_inj (suc m) (suc n) h =
      let numbers = append_cancel_left "-" _ _ (append_cancel_left base _ _ h) in
      let same : words.decimal (m + 2) ≡ words.decimal (n + 2) =
        append_cancel_right _ _ "" numbers in
      omega (arith, writes.decimal_inj (m + 2) (n + 2) same)

  candidate_ne : (m n : ℕ) → m < n → (candidate words base m == candidate words base n) ≡ false
  candidate_ne m n less = elim (Bool-cases (candidate words base m == candidate words base n)) [
    | inl e ↦ absurd (omega (arith, candidate_inj m n ((eq_iff _ _).0 e)))
    | inr e ↦ e
  ]

  -- The organizations that do not have a slug.
  abbrev others : String → List OrganizationModel → List OrganizationModel
  others slug rows = filter (λ o. not (o.slug == slug)) rows

  taken-others :
      (slug other : String) (rows : List OrganizationModel)
      → (slug == other) ≡ false
      → is_taken other (others slug rows) ≡ is_taken other rows
  taken-others slug other [] ne = refl
  taken-others slug other (o ∷ rows) ne = ground (
    arith,
    taken-others slug other rows ne,
    eq_iff o.slug slug,
    eq_iff o.slug other,
    eq_iff slug other,
  )

  length-others_le :
      (slug : String) (rows : List OrganizationModel) → length (others slug rows) ≤ length rows
  length-others_le slug [] = omega arith
  length-others_le slug (o ∷ rows) = ground (arith, length-others_le slug rows)

  length-others_lt :
      (slug : String) (rows : List OrganizationModel)
      → is_taken slug rows ≡ true
      → length (others slug rows) < length rows
  length-others_lt slug [] h = absurd (ground arith)
  length-others_lt slug (o ∷ rows) h =
      ground (arith, length-others_lt slug rows, length-others_le slug rows)

  -- A candidate that is behind does not matter any more.
  first_free-others :
      (m : ℕ) (rows : List OrganizationModel) (rounds n : ℕ)
      → m < n
      → first_free words base (others (candidate words base m) rows) rounds n
        ≡ first_free words base rows rounds n
  unfolding first_free
  first_free-others m rows zero n less = refl
  first_free-others m rows (suc rounds) n less =
      let same =
        taken-others (candidate words base m) (candidate words base n) rows
          (candidate_ne m n less) in
      elim (Bool-cases (is_taken (candidate words base n) rows)) [
        | inl taken ↦
            rw (first_free, same, taken) (first_free-others m rows rounds (n + 1) (omega arith))
        | inr free ↦ rw (first_free, same, free) refl
      ]

  -- Where the loop has found nothing, there is another organization for each round.
  first_free-none :
      (rows : List OrganizationModel) (rounds n : ℕ)
      → first_free words base rows rounds n ≡ none
      → rounds ≤ length rows
  unfolding first_free
  first_free-none rows zero n h = omega arith
  first_free-none rows (suc rounds) n h =
      elim (Bool-cases (is_taken (candidate words base n) rows)) [
        | inl taken ↦
            let fewer = others (candidate words base n) rows in
            let rest : rounds ≤ length fewer = first_free-none fewer rounds (n + 1) (
              first_free-others n rows rounds (n + 1) (omega arith)
              ∙ rw (first_free, taken) at h) in
            omega (arith, length-others_lt (candidate words base n) rows taken)
        | inr free ↦ absurd (let no = rw (first_free, free) at h in cc)
      ]

  first_free-some :
      (rows : List OrganizationModel) (rounds n : ℕ) (slug : String)
      → first_free words base rows rounds n ≡ some slug
      → (is_taken slug rows ≡ false) × ((k : ℕ) × (slug ≡ candidate words base k))
  unfolding first_free
  first_free-some rows zero n slug h = absurd (cc)
  first_free-some rows (suc rounds) n slug h =
      elim (Bool-cases (is_taken (candidate words base n) rows)) [
        | inl taken ↦ first_free-some rows rounds (n + 1) slug (rw (first_free, taken) at h)
        | inr free ↦
            let is : some (candidate words base n) ≡ some slug = rw (first_free, free) at h in
            let same : candidate words base n ≡ slug = cc in (rw (sym same) free, (n, sym same))
      ]

  -- The loop over the slugs `base`, `base-2`, `base-3`, ... ends: its rounds are enough for any set
  -- of organizations. What it returns is one of these slugs, and no organization has it.
  pub generate_unique_slug-free :
      (w : World)
      → (slug : String) × ((generate_unique_slug words base w).0 ≡ ok slug)
        × (is_taken slug w.view.organizations ≡ false)
        × ((k : ℕ) × (slug ≡ candidate words base k))
  unfolding generate_unique_slug select pure ◌>>=◌
  generate_unique_slug-free w =
      let rows = w.view.organizations in
      elim (Option-cases (first_free words base rows (suc (length rows)) 0)) [
        | inl nothing ↦ absurd (omega (arith, first_free-none rows (suc (length rows)) 0 nothing))
        | inr (slug, e) ↦
            let (free, k) = first_free-some rows (suc (length rows)) 0 slug e in
            (slug, rw (filter_all rows, e) refl, free, k)
      ]
