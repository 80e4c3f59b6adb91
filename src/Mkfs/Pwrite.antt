-- ===== src/Mkfs/Pwrite.antt =====
-- `safe_pwrite` against the documented behaviour of `pwrite`.
use logfsprogs.Common.{
  ℕ, zero, suc, ◌+◌, ◌-◌, ◌%◌, ◌≤◌, ◌<◌, ◌≡◌, ◌≢◌, ◌⊎◌, inl, inr, refl, arith, ◌&&◌, ltb, leb,
  if◌then◌else◌, List, [], ◌∷◌, length, get_or, drop, length-drop, ap, ◌∙◌, Bool-cases,
}
use logfsprogs.Common.Outcome.{Returns, Returns-mono}
use logfsprogs.Kerncompat.{u64_mod}
use logfsprogs.Mkfs.Device.{Pwrite, wrote, interrupted, failed, Os, after_pwrite, safe_pwrite}

-- The bytes of a file after `bytes` were written at `ofs`.
abbrev pub overlay : (ℕ → ℕ) → ℕ → List ℕ → ℕ → ℕ
overlay old ofs bytes q =
    if leb ofs q && ltb q (ofs + length bytes) then get_or bytes (q - ofs) 0 else old q

-- What one call of `pwrite` may do to the content, as its manual page says.
abbrev pub Documented : {F : Type 0} → (F → ℕ → ℕ) → (F → ℕ) → List ℕ → ℕ → F → Pwrite × F → Type 0
Documented content patience buf ofs file (wrote n, file') =
    (0 < n)
    × (n ≤ length buf)
    × ((q : ℕ)
        → content file' q
          ≡ (if leb ofs q && ltb q (ofs + n) then get_or buf (q - ofs) 0 else content file q))
    × (patience file' ≤ patience file)
Documented content patience buf ofs file (interrupted, file') =
    ((q : ℕ) → content file' q ≡ content file q) × (patience file' < patience file)
Documented content patience buf ofs file (failed e, file') = e ≢ 0

-- Success with the content overlaid, or an error.
abbrev pub Written : {F : Type 0} → (F → ℕ → ℕ) → List ℕ → ℕ → F → ℕ → F → Type 0
Written content buf ofs file e file' =
    (e ≢ 0) ⊎ ((e ≡ 0) × ((q : ℕ) → content file' q ≡ overlay (content file) ofs buf q))

get_or-drop : (xs : List ℕ) (n i : ℕ) → get_or (drop n xs) i 0 ≡ get_or xs (n + i) 0
get_or-drop xs zero i = let e : 0 + i ≡ i = omega arith in rw e
get_or-drop [] (suc n) i = refl
get_or-drop (x ∷ xs) (suc n) i =
    let e : suc n + i ≡ suc (n + i) = omega arith in rw e (get_or-drop xs n i)

-- Two writes, the second of what the first left, are one write.
overlay_split :
    (old new : ℕ → ℕ) (buf : List ℕ) (ofs n : ℕ)
    → n ≤ length buf
    → ((q : ℕ) → new q ≡ (if leb ofs q && ltb q (ofs + n) then get_or buf (q - ofs) 0 else old q))
    → (q : ℕ) → overlay new (ofs + n) (drop n buf) q ≡ overlay old ofs buf q
overlay_split old new buf ofs n le h q = elim (Bool-cases (leb (ofs + n) q)) [
  | inl behind ↦
      let e : n + (q - (ofs + n)) ≡ q - ofs = ground arith in
      ground (
        arith,
        h q,
        length-drop n buf,
        get_or-drop buf n (q - (ofs + n)) ∙ ap (λ i. get_or buf i 0) e,
      )
  | inr front ↦ ground (arith, h q, length-drop n buf)
]

module _ {F : Type 0} (os : Os F) (content : F → ℕ → ℕ) (patience : F → ℕ) where
  -- The rest of the loop, at less fuel, does its part.
  abbrev RestWrites : ℕ → Type 0
  RestWrites f =
      (buf : List ℕ) (ofs : ℕ) (file : F)
      → length buf + patience file ≤ f
      → ofs + length buf < u64_mod
      → Returns (Written content buf ofs file) (safe_pwrite os f buf ofs file)

  after_pwrite_lem :
      (f : ℕ) (buf : List ℕ) (ofs : ℕ) (file : F) (r : Pwrite × F)
      → Documented content patience buf ofs file r
      → RestWrites f
      → length buf + patience file ≤ suc f
      → ofs + length buf < u64_mod
      → Returns (Written content buf ofs file) (after_pwrite (safe_pwrite os f) buf ofs r)
  after_pwrite_lem f buf ofs file (wrote n, file') (pos, le, h, less) rest fuel fits =
      let wrap : (ofs + n) % u64_mod ≡ ofs + n = omega arith in
      rw wrap (
        Returns-mono (Written content (drop n buf) (ofs + n) file') (Written content buf ofs file)
          (safe_pwrite os f (drop n buf) (ofs + n) file')
          (rest (drop n buf) (ofs + n) file' (omega (arith, length-drop n buf))
            (omega (arith, length-drop n buf)))
          (Written-wrote n le h))
    where
      Written-wrote :
          (n : ℕ)
          → n ≤ length buf
          → ((q : ℕ)
              → content file' q
                ≡ (if leb ofs q && ltb q (ofs + n) then get_or buf (q - ofs) 0 else content file q))
          → (e : ℕ) (g : F) → Written content (drop n buf) (ofs + n) file' e g
          → Written content buf ofs file e g
      Written-wrote n le h e g (inl bad) = inl bad
      Written-wrote n le h e g (inr (good, same)) =
          inr (good, λ q. same q ∙ overlay_split (content file) (content file') buf ofs n le h q)
  after_pwrite_lem f buf ofs file (interrupted, file') (h, less) rest fuel fits =
      Returns-mono (Written content buf ofs file') (Written content buf ofs file)
        (safe_pwrite os f buf ofs file') (rest buf ofs file' (omega arith) fits) Written-again
    where
      Written-again :
          (e : ℕ) (g : F) → Written content buf ofs file' e g → Written content buf ofs file e g
      Written-again e g (inl bad) = inl bad
      Written-again e g (inr (good, same)) = inr (good, λ q. same q ∙ ground (arith, h q))
  after_pwrite_lem f buf ofs file (failed e, file') d rest fuel fits = inl d

  safe_pwrite_lem :
      ((buf : List ℕ) (ofs : ℕ) (file : F)
        → 0 < length buf
        → Documented content patience buf ofs file (os.pwrite buf ofs file))
      → (f : ℕ) → RestWrites f
  unfolding safe_pwrite
  safe_pwrite_lem law f [] ofs file fuel fits = inr (refl, λ q. ground arith)
  safe_pwrite_lem law zero (b ∷ bs) ofs file fuel fits = absurd (omega arith)
  safe_pwrite_lem law (suc f) (b ∷ bs) ofs file fuel fits =
      after_pwrite_lem f (b ∷ bs) ofs file (os.pwrite (b ∷ bs) ofs file)
        (law (b ∷ bs) ofs file (omega arith)) (safe_pwrite_lem law f) fuel fits

  -- `pwrite` does what its manual page says: it writes at least one byte and at most all of them, as
  -- given, or is interrupted, which happens at most `patience` times, or fails. The range does not
  -- pass 2 ^ 64. Then `safe_pwrite` returns, with a fuel of the bytes and `patience`: with 0, and the
  -- file has the bytes at the offset and is as before everywhere else, or with an error.
  pub safe_pwrite-overlay :
      ((buf : List ℕ) (ofs : ℕ) (file : F)
        → 0 < length buf
        → Documented content patience buf ofs file (os.pwrite buf ofs file))
      → (f : ℕ) (buf : List ℕ) (ofs : ℕ) (file : F) → length buf + patience file ≤ f
      → ofs + length buf < u64_mod
      → Returns (Written content buf ofs file) (safe_pwrite os f buf ofs file)
  safe_pwrite-overlay law f = safe_pwrite_lem law f
