-- ===== src/Memory/Frames/Copy.antt =====
-- A copied address space: the copy reads as the original, which is left as it was.
use yalnix_operating_system.Base.{
  ℕ, ◌≡◌, ◌≢◌, refl, ◌∙◌, subst, Bool, true, false, Bool-cases, inl, inr, List, [], ◌∷◌, arith,
}
use yalnix_operating_system.Kernel.State.{Pte}
use yalnix_operating_system.Memory.Frames.{pfn_to_fnum, write_frame, copy_pages}
use yalnix_operating_system.Memory.Frames.Conserve.{frames_of}

abbrev pub Apart : ℕ → List ℕ → Type 0
Apart f [] = Unit {0}
Apart f (g ∷ gs) = (f ≢ g) × Apart f gs

abbrev pub AllDistinct : List ℕ → Type 0
AllDistinct [] = Unit {0}
AllDistinct (f ∷ fs) = Apart f fs × AllDistinct fs

abbrev pub AllApart : List Pte → List ℕ → Type 0
AllApart [] fs = Unit {0}
AllApart (s ∷ ss) fs = Apart (pfn_to_fnum s.pfn) fs × AllApart ss fs

-- Each wanted page reads in `phys'` as the page of the source did in `phys`.
abbrev pub Copied : (Pte → Bool) → (from to : List Pte) → (phys phys' : ℕ → ℕ) → Type 0
Copied want [] to phys phys' = Unit {0}
Copied want (s ∷ ss) [] phys phys' = Unit {0}
Copied want (s ∷ ss) (d ∷ ds) phys phys' =
    (want d ≡ true → phys' (pfn_to_fnum d.pfn) ≡ phys (pfn_to_fnum s.pfn))
    × Copied want ss ds phys phys'

frames_of-true :
    (want : Pte → Bool) (d : Pte) (ds : List Pte)
    → want d ≡ true
    → frames_of want (d ∷ ds) ≡ pfn_to_fnum d.pfn ∷ frames_of want ds
frames_of-true want d ds w = rw w refl

frames_of-false :
    (want : Pte → Bool) (d : Pte) (ds : List Pte)
    → want d ≡ false
    → frames_of want (d ∷ ds) ≡ frames_of want ds
frames_of-false want d ds w = rw w refl

-- A frame that no wanted page of the destination maps keeps its contents.
pub copy_pages_other :
    (want : Pte → Bool) (from to : List Pte) (phys : ℕ → ℕ) (f : ℕ)
    → Apart f (frames_of want to)
    → copy_pages want from to phys f ≡ phys f
unfolding copy_pages
copy_pages_other want [] to phys f h = refl
copy_pages_other want (s ∷ ss) [] phys f h = refl
copy_pages_other want (s ∷ ss) (d ∷ ds) phys f h = elim (Bool-cases (want d)) [
  | inl w ↦
      let phys₁ : ℕ → ℕ = write_frame phys (pfn_to_fnum d.pfn) (phys (pfn_to_fnum s.pfn)) in
      let h' : Apart f (pfn_to_fnum d.pfn ∷ frames_of want ds) =
        subst (Apart f) (frames_of-true want d ds w) h in
      simp w (copy_pages_other want ss ds phys₁ f h'.1 ∙ ground (arith, h'.0))
  | inr w ↦
      simp w (copy_pages_other want ss ds phys f (subst (Apart f) (frames_of-false want d ds w) h))
]

AllApart-tail : (ss : List Pte) (f : ℕ) (fs : List ℕ) → AllApart ss (f ∷ fs) → AllApart ss fs
AllApart-tail [] f fs h = tt
AllApart-tail (s ∷ ss) f fs (h, r) = (h.1, AllApart-tail ss f fs r)

-- A write to a frame that no source page maps does not matter to what is copied.
Copied-write :
    (want : Pte → Bool) (ss ds : List Pte) (f v : ℕ) (fs : List ℕ) (phys phys' : ℕ → ℕ)
    → AllApart ss (f ∷ fs)
    → Copied want ss ds (write_frame phys f v) phys'
    → Copied want ss ds phys phys'
Copied-write want [] ds f v fs phys phys' a c = tt
Copied-write want (s ∷ ss) [] f v fs phys phys' a c = tt
Copied-write want (s ∷ ss) (d ∷ ds) f v fs phys phys' (a, ar) (c, cr) =
    (λ w. c w ∙ ground (arith, a.0), Copied-write want ss ds f v fs phys phys' ar cr)

-- If the frames of the wanted destination pages are distinct, and none of them is mapped by the
-- source, each wanted destination page reads after the copy as the source page of the same index
-- did before.
pub copy_pages_lem :
    (want : Pte → Bool) (from to : List Pte) (phys : ℕ → ℕ)
    → AllDistinct (frames_of want to)
    → AllApart from (frames_of want to)
    → Copied want from to phys (copy_pages want from to phys)
unfolding copy_pages
copy_pages_lem want [] to phys dis q = tt
copy_pages_lem want (s ∷ ss) [] phys dis q = tt
copy_pages_lem want (s ∷ ss) (d ∷ ds) phys dis q = elim (Bool-cases (want d)) [
  | inl w ↦
      let f : ℕ = pfn_to_fnum d.pfn in
      let v : ℕ = phys (pfn_to_fnum s.pfn) in
      let dis' : AllDistinct (f ∷ frames_of want ds) =
        subst AllDistinct (frames_of-true want d ds w) dis in
      let aps : AllApart (s ∷ ss) (f ∷ frames_of want ds) =
        subst (AllApart (s ∷ ss)) (frames_of-true want d ds w) q in
      simp w (
        λ _. copy_pages_other want ss ds (write_frame phys f v) f dis'.0 ∙ ground arith,
        Copied-write want ss ds f v (frames_of want ds) phys _ aps.1 (
            copy_pages_lem want ss ds (write_frame phys f v) dis'.1
              (AllApart-tail ss f (frames_of want ds) aps.1)),
      )
  | inr w ↦ simp w (
    λ z. absurd (ground (arith, z, w)),
    copy_pages_lem want ss ds phys (subst AllDistinct (frames_of-false want d ds w) dis)
        (subst (AllApart ss) (frames_of-false want d ds w) q.1),
  )
]
