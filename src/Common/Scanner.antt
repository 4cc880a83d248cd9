-- ===== src/Common/Scanner.antt =====
-- `bufio.Scanner` splitting a text into lines, with the size that its buffer may have.
use fleetmind.Common.{
  ℕ, ◌+◌, ◌<◌, Bool, true, false, List, [], ◌∷◌, ◌++◌, ◌≡◌, refl, ◌∙◌, All, arith, ltb, ◌==◌,
  if◌then◌else◌, length, length-append, append-nil, append_assoc,
}
use fleetmind.Common.Text.{Bytes, is_empty, trim_suffix}

-- A carriage return before the newline is dropped.
unfoldable pub drop_cr : Bytes → Bytes
unfolding trim_suffix
drop_cr line = trim_suffix line (13 ∷ [])

-- The lines behind what `line` has of the first of them, and whether the scanner gave up at a line
-- that fills its buffer. The last line need not have a newline.
unfoldable pub scan_from : ℕ → Bytes → Bytes → List Bytes × Bool
scan_from size line [] = (if is_empty line then [] else drop_cr line ∷ [], false)
scan_from size line (c ∷ s) =
    let next = scan_from size [] s in
    let more = scan_from size (line ++ (c ∷ [])) s in
    if c == 10
    then (drop_cr line ∷ next.0, next.1)
    else if ltb (length line + 1) size
    then more
    else ([], true)

unfoldable pub scan_lines : ℕ → Bytes → List Bytes × Bool
scan_lines size = scan_from size []

-- Each line with a newline behind it.
abbrev pub unlines : List Bytes → Bytes
unlines [] = []
unlines (l ∷ ls) = l ++ (10 ∷ unlines ls)

-- A line that a scanner hands over as it is.
pub record IsScannable (size : ℕ) (line : Bytes) : Type 0 where
  pub one_line : All (λ c. (c == 10) ≡ false) line
  pub fits : length line < size
  pub no_cr : drop_cr line ≡ line

scan_from_more :
    (size : ℕ) (line : Bytes) (c : ℕ) (s : Bytes)
    → (c == 10) ≡ false
    → length line + 1 < size
    → scan_from size line (c ∷ s) ≡ scan_from size (line ++ (c ∷ [])) s
unfolding scan_from
scan_from_more size line c s h k = ground arith

scan_from_next :
    (size : ℕ) (line s : Bytes)
    → scan_from size line (10 ∷ s)
      ≡ (drop_cr line ∷ (scan_from size [] s).0, (scan_from size [] s).1)
unfolding scan_from
scan_from_next size line s = refl

scan_from-append :
    (size : ℕ) (line l s : Bytes)
    → All (λ c. (c == 10) ≡ false) l
    → length line + length l < size
    → scan_from size line (l ++ s) ≡ scan_from size (line ++ l) s
scan_from-append size line [] s h k = rw (append-nil line)
scan_from-append size line (c ∷ l) s h k =
    scan_from_more size line c (l ++ s) h.0 (omega arith)
    ∙ scan_from-append size (line ++ (c ∷ [])) l s h.1 (omega (arith, length-append line (c ∷ [])))
    ∙ (rw (append_assoc line (c ∷ []) l))

-- Lines that are written with a newline each are read back, and the scanner does not give up.
pub scan_lines-unlines :
    (size : ℕ) (ls : List Bytes)
    → All (IsScannable size) ls
    → scan_lines size (unlines ls) ≡ (ls, false)
unfolding scan_lines scan_from
scan_lines-unlines size [] h = refl
scan_lines-unlines size (l ∷ ls) h =
    scan_from-append size [] l (10 ∷ unlines ls) h.0.one_line (omega (arith, h.0.fits))
    ∙ scan_from_next size l (unlines ls)
    ∙ (rw (h.0.no_cr, scan_lines-unlines size ls h.1))
