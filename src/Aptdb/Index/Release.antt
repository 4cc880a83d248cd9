-- ===== src/Aptdb/Index/Release.antt =====
-- internal/aptdb/aptdb.go, `parseReleaseFile`: the signature's envelope does not matter.
use fleetmind.Common.{Bool, true, false, List, [], ◌∷◌, ◌++◌, ◌≡◌, refl, sym, ◌∙◌, All, arith}
use fleetmind.Common.Text.{Bytes, codes, is_empty, has_prefix}
use fleetmind.Aptdb.Index.{
  ReleaseInfo, no_info, begin_pgp, begin_signature, read_info, release_lines,
}

has_prefix-append : (s p q : Bytes) → has_prefix s p ≡ false → has_prefix s (p ++ q) ≡ false
unfolding has_prefix
has_prefix-append s [] q h = ground arith
has_prefix-append [] (y ∷ p) q h = refl
has_prefix-append (x ∷ s) (y ∷ p) q h = ground (arith, has_prefix-append s p q)

-- A line of a Release file's header: not blank, and no part of an envelope.
abbrev pub IsInfoLine : Bytes → Type 0
IsInfoLine line = (is_empty line ≡ false) × (has_prefix line begin_pgp ≡ false)

not_signature : (line : Bytes) → IsInfoLine line → has_prefix line begin_signature ≡ false
not_signature line h = has_prefix-append line begin_pgp (codes " SIGNATURE-----") h.1

-- A line is read the same within the envelope, behind its header, and outside of any.
release_lines-info :
    (t : Bool) (out : ReleaseInfo) (line : Bytes) (lines : List Bytes)
    → IsInfoLine line
    → release_lines t t out (line ∷ lines) ≡ release_lines t t (read_info line out) lines
unfolding release_lines
release_lines-info true out line lines h = rw (h.0, not_signature line h)
release_lines-info false out line lines h = rw (h.0, h.1, not_signature line h)

-- The headers of the envelope are skipped up to the blank line.
release_lines-headers :
    (out : ReleaseInfo) (headers lines : List Bytes)
    → All (λ l. is_empty l ≡ false) headers
    → release_lines true false out (headers ++ ([] ∷ lines)) ≡ release_lines true true out lines
unfolding release_lines
release_lines-headers out [] lines h = refl
release_lines-headers out (l ∷ headers) lines h =
    rw (h.0) (release_lines-headers out headers lines h.1)

release_lines-signature :
    (out : ReleaseInfo) (signature : Bytes) (rest : List Bytes)
    → has_prefix signature begin_signature ≡ true
    → (release_lines true true out (signature ∷ rest)).0 ≡ out
unfolding release_lines
release_lines-signature out signature rest h = ground arith

release_lines_end : (out : ReleaseInfo) → (release_lines false false out []).0 ≡ out
unfolding release_lines
release_lines_end out = refl

release_lines-armor :
    (out : ReleaseInfo) (armor : Bytes) (lines : List Bytes)
    → has_prefix armor begin_pgp ≡ true
    → release_lines false false out (armor ∷ lines) ≡ release_lines true false out lines
unfolding release_lines
release_lines-armor out armor lines h = rw h

release_lines-signed_body :
    (out : ReleaseInfo) (body : List Bytes) (signature : Bytes) (rest : List Bytes)
    → All IsInfoLine body
    → has_prefix signature begin_signature ≡ true
    → (release_lines true true out (body ++ (signature ∷ rest))).0
      ≡ (release_lines false false out body).0
release_lines-signed_body out [] signature rest h k =
    release_lines-signature out signature rest k ∙ sym (release_lines_end out)
release_lines-signed_body out (l ∷ body) signature rest h k =
    rw
      (
        release_lines-info true out l (body ++ (signature ∷ rest)) h.0,
        release_lines-info false out l body h.0,
      )
      (release_lines-signed_body (read_info l out) body signature rest h.1 k)

-- A signed InRelease file gives the same origin and suite as the plain Release file of the same
-- lines: the armor line and the headers up to the first blank line, in front of them, and the
-- signature, behind them, do not show. The lines are not blank and do not begin like an armor line.
pub release_lines_signed :
    (armor : Bytes) (headers body : List Bytes) (signature : Bytes) (rest : List Bytes)
    → has_prefix armor begin_pgp ≡ true
    → All (λ l. is_empty l ≡ false) headers
    → All IsInfoLine body
    → has_prefix signature begin_signature ≡ true
    → (release_lines false false no_info
        (armor ∷ (headers ++ ([] ∷ (body ++ (signature ∷ rest)))))).0
      ≡ (release_lines false false no_info body).0
release_lines_signed armor headers body signature rest a h b s =
    rw
      (
        release_lines-armor no_info armor (headers ++ ([] ∷ (body ++ (signature ∷ rest)))) a,
        release_lines-headers no_info headers (body ++ (signature ∷ rest)) h,
      )
      (release_lines-signed_body no_info body signature rest b s)
