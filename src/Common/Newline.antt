-- ===== src/Common/Newline.antt =====
-- `strings.TrimSpace` on a line: the newline behind a text without white space at its ends.
use fleetmind.Common.{
  ◌∷◌, ◌≡◌, [], false, refl, ◌++◌, arith, reverse-append, reverse, reverse-reverse,
}
use fleetmind.Common.Text.{Bytes, is_empty}
use fleetmind.Common.Space.{
  drop_spaces, space_width, space_width_back, trim_space, IsTrimmed, drop_spaces_none,
}

space_width-newline :
    (s : Bytes) → IsTrimmed s → is_empty s ≡ false → space_width (s ++ (10 ∷ [])) ≡ 0
unfolding space_width
space_width-newline [] t h = ground arith
space_width-newline (a ∷ []) t h = ground (arith, t.front)
space_width-newline (a ∷ b ∷ []) t h = ground (arith, t.front)
space_width-newline (a ∷ b ∷ c ∷ s) t h = t.front

space_width_back-newline : (s : Bytes) → space_width_back (10 ∷ s) ≡ 1
unfolding space_width_back
space_width_back-newline [] = refl
space_width_back-newline (a ∷ []) = refl
space_width_back-newline (a ∷ b ∷ s) = refl

drop_spaces-newline :
    (s : Bytes) → drop_spaces space_width_back 0 (10 ∷ s) ≡ drop_spaces space_width_back 0 s
unfolding drop_spaces
drop_spaces-newline s = rw (space_width_back-newline s, drop_spaces)

pub trim_space-newline :
    (s : Bytes) → IsTrimmed s → is_empty s ≡ false → trim_space (s ++ (10 ∷ [])) ≡ s
unfolding trim_space
trim_space-newline s t h =
    rw
      (
        drop_spaces_none space_width (s ++ (10 ∷ [])) (space_width-newline s t h),
        reverse-append s (10 ∷ []),
        drop_spaces-newline (reverse s),
        drop_spaces_none space_width_back (reverse s) t.back,
      )
      (reverse-reverse s)
