-- ===== src/Gen/Registers/Free.antt =====
-- src/gen/asm.rs: what `free_reg` hands out, and that it does not run out too early.
use enumc.Prelude.{
  ◌≤◌, ◌<◌, ◌≡◌, ◌≢◌, refl, sym, ap, ◌∙◌, Bool, true, false, not, ◌||◌, List, [], ◌∷◌, Option, none,
  some, arith, subst, if◌then◌else◌, length, Bool-cases, Option-cases, inl, inr,
}
use enumc.Gen.Registers.{same, contains, use_reg, first_free, taken, free_reg, free_reg_except}

module _ {R : Type 0} (eq : Discrete R) where
  same-eq : (a b : R) → same eq a b ≡ true → a ≡ b
  same-eq a b h = ground (arith, eq a b)

  same_self : (a : R) → same eq a a ≡ true
  same_self a = ground (arith, eq a a)

  same_comm : (a b : R) → same eq a b ≡ false → same eq b a ≡ false
  same_comm a b h = ground (arith, eq a b, eq b a)

  -- `set` without `r`
  unfoldable remove : R → List R → List R
  remove r [] = []
  remove r (x ∷ set) = if same eq x r then remove r set else x ∷ remove r set

  contains-remove :
      (r x : R) (set : List R)
      → same eq r x ≡ false
      → contains eq (remove r set) x ≡ contains eq set x
  unfolding remove contains
  contains-remove r x [] h = refl
  contains-remove r x (y ∷ set) h =
      let rest = contains-remove r x set h in ground (arith, eq y r, eq y x, eq r x)

  length-remove : (r : R) (set : List R) → length (remove r set) ≤ length set
  unfolding remove
  length-remove r [] = omega arith
  length-remove r (y ∷ set) = let rest = length-remove r set in ground arith

  length-remove_contained :
      (r : R) (set : List R) → contains eq set r ≡ true → length (remove r set) < length set
  unfolding remove contains
  length-remove_contained r [] h = ground arith
  length-remove_contained r (y ∷ set) h =
      let shorter = length-remove r set in let rest = length-remove_contained r set in ground arith

  first_free-usable :
      (test : R → Bool) (usable used : List R) (r : R)
      → first_free eq test usable used ≡ some r
      → contains eq usable r ≡ true
  unfolding first_free contains
  first_free-usable test [] used r h = ground arith
  first_free-usable test (u ∷ usable) used r h =
      let rest = first_free-usable test usable used r in ground (arith, eq u r)

  first_free-unused :
      (test : R → Bool) (usable used : List R) (r : R)
      → first_free eq test usable used ≡ some r
      → (contains eq used r || not (test r)) ≡ false
  unfolding first_free
  first_free-unused test [] used r h = ground arith
  first_free-unused test (u ∷ usable) used r h =
      let rest = first_free-unused test usable used r in grind arith

  contains-use_reg :
      (r x : R) (used : List R)
      → contains eq (use_reg eq r used) x ≡ (same eq r x || contains eq used x)
  unfolding use_reg contains
  contains-use_reg r x used = elim (Bool-cases (contains eq used r)) [
    | inl there ↦
        rw there
          (elim (eq r x)
            as (λ d.
              contains eq used x ≡ (elim d [ yes e ↦ true | no n ↦ false ] || contains eq used x)) [
                | yes e ↦ subst (λ y. contains eq used y ≡ true) e there
                | no n ↦ refl
              ])
    | inr absent ↦ rw absent (ground (arith, eq r x))
  ]

  -- No register stands twice in a set.
  unfoldable pub AllDistinct : List R → Type 0
  AllDistinct [] = Unit {0}
  AllDistinct (r ∷ usable) = (contains eq usable r ≡ false) × AllDistinct usable

  -- What contains every register of a set is as long.
  length-contained :
      (usable used : List R)
      → AllDistinct usable
      → ((x : R) → contains eq usable x ≡ true → contains eq used x ≡ true)
      → length usable ≤ length used
  unfolding AllDistinct contains
  length-contained [] used d every = omega arith
  length-contained (r ∷ usable) used d every =
      let self = same_self r in
      let shorter = length-remove_contained r used (every r (ground arith)) in
      let rest = length-contained usable (remove r used) d.1 (λ x c.
        contains-remove r x used (ground (arith, eq r x, eq x r))
        ∙ every x (ground (arith, eq r x))) in
      omega arith

  first_free-none :
      (usable used : List R) (x : R)
      → first_free eq (λ r. true) usable used ≡ none
      → contains eq usable x ≡ true
      → contains eq used x ≡ true
  unfolding first_free contains
  first_free-none [] used x h c = ground arith
  first_free-none (r ∷ usable) used x h c =
      let rest = first_free-none usable used x in ground (arith, eq r x)

  -- The register is usable and new, and the only one that is new.
  unfoldable pub Fresh : List R → List R → R → List R → Type 0
  Fresh usable used r used' =
      (contains eq usable r ≡ true)
      × (contains eq used r ≡ false)
      × ((x : R) → contains eq used' x ≡ (same eq r x || contains eq used x))

  taken-Fresh :
      (test : R → Bool) (usable used : List R) (o : Option R) (r : R) (used' : List R)
      → first_free eq test usable used ≡ o
      → taken eq used o ≡ some (r, used')
      → Fresh usable used r used' × (test r ≡ true)
  unfolding Fresh
  taken-Fresh test usable used none r used' found h = absurd (ground arith)
  taken-Fresh test usable used (some s) r used' found h =
      let s-r : s ≡ r = ground arith in
      let used'-eq : use_reg eq s used ≡ used' = ground arith in
      let unused = first_free-unused test usable used r (found ∙ ap some s-r) in
      let there = first_free-usable test usable used r (found ∙ ap some s-r) in
      (
        (
          there,
          ground arith,
          λ x.
              ap (λ u. contains eq u x) (sym used'-eq)
              ∙ contains-use_reg s x used
              ∙ ap (λ y. same eq y x || contains eq used x) s-r,
        ),
        ground arith,
      )

  -- A register that `free_reg` hands out may be used, was not in use, and is now in use as the only one
  -- that is new.
  pub free_reg-Fresh :
      (usable used : List R) (r : R) (used' : List R)
      → free_reg eq usable used ≡ some (r, used')
      → Fresh usable used r used'
  unfolding free_reg
  free_reg-Fresh usable used r used' h =
      (taken-Fresh (λ x. true) usable used (first_free eq (λ x. true) usable used) r used' refl h).0

  -- So is one that `free_reg_except` hands out, and it is not the register to avoid.
  pub free_reg_except-Fresh :
      (usable used : List R) (reg r : R) (used' : List R)
      → free_reg_except eq usable used reg ≡ some (r, used')
      → Fresh usable used r used' × (r ≢ reg)
  unfolding free_reg_except
  free_reg_except-Fresh usable used reg r used' h =
      let (fresh, passes) =
        taken-Fresh (λ x. not (same eq reg x)) usable used
          (first_free eq (λ x. not (same eq reg x)) usable used) r used' refl h in
      (fresh, λ e. absurd (ground (arith, eq reg r)))

  -- `free_reg` does not panic while fewer registers are in use than there are usable ones, all different. The one
  -- that it returns may be used and was not in use, and it is now in use as the only one that is new.
  pub free_reg_enough :
      (usable used : List R)
      → AllDistinct usable
      → length used < length usable
      → (r : R) × (free_reg eq usable used ≡ some (r, use_reg eq r used))
        × Fresh usable used r (use_reg eq r used)
  unfolding free_reg
  free_reg_enough usable used d less = elim (Option-cases (first_free eq (λ r. true) usable used)) [
    | inl panics ↦
        let long = length-contained usable used d (λ x. first_free-none usable used x panics) in
        absurd (ground arith)
    | inr (r, found) ↦
        let returned : free_reg eq usable used ≡ some (r, use_reg eq r used) = rw found refl in
        (r, returned, free_reg-Fresh usable used r (use_reg eq r used) returned)
  ]
