-- ===== src/Segment/Alloc.antt =====
-- `get_segment`: which segment it takes, what it leaves, and when it gives up.
use logfsprogs.Common.{
  ℕ, zero, suc, ◌+◌, ◌-◌, ◌*◌, ◌%◌, ◌≤◌, ◌<◌, ◌≡◌, refl, ◌≢◌, ◌⊎◌, inl, inr, arith, ◌==◌, ltb,
  le→leb, Bool-cases, length, set, get_or, length-set, get_or-set_self, get_or-set_ne, ◌∙◌,
}
use logfsprogs.Common.Outcome.{Stop, ok, exit, no_more_free_segments, Ends, Ends-mono}
use logfsprogs.Kerncompat.{u32_mod, u64_mod}
use logfsprogs.Abi.{SegmentEntry}
use logfsprogs.Super.{Super, Env, set_entry}
use logfsprogs.Segment.{bad_entry, get_segment_loop, get_segment}

-- The erase of one segment.
abbrev pub erase_segment : {D : Type 0} → Env D → ℕ → ℕ → D → ℕ × D
erase_segment env segsize segno d = env.dev_erase (segno * segsize % u64_mod) segsize d

-- The erases of the segments from `n` up to `m`, without `m`, all fail.
pub data Failures {D : Type 0} (env : Env D) (segsize : ℕ) (m : ℕ) (e : D) : ℕ → D → Type 0 where
  here : Failures env segsize m e m e
  fails :
      {n : ℕ} {d : D}
      → (erase_segment env segsize n d).0 ≢ 0
      → Failures env segsize m e (n + 1) (erase_segment env segsize n d).1
      → Failures env segsize m e n d

-- Segment `segno` was taken in state `s`, and `t` is the state after that.
pub record Taken {D : Type 0} (env : Env D) (s : Super D) (segno : ℕ) (t : Super D) : Type 0 where
  pub before : s.lastseg ≤ segno
  pub inside : segno < s.no_segs
  pub next : t.lastseg ≡ segno + 1
  pub dev : D
  pub skipped : Failures env s.segsize segno dev s.lastseg s.dev
  pub erased : erase_segment env s.segsize segno dev ≡ (0, t.dev)
  pub width : length t.segment_entry ≡ length s.segment_entry
  pub bad :
      (i : ℕ) (d : SegmentEntry)
      → s.lastseg ≤ i
      → i < segno
      → get_or t.segment_entry i d ≡ bad_entry
  pub kept :
      (i : ℕ) (d : SegmentEntry)
      → (i < s.lastseg) ⊎ (segno ≤ i)
      → get_or t.segment_entry i d ≡ get_or s.segment_entry i d
  pub frame : t ≡ record s { lastseg = t.lastseg; segment_entry = t.segment_entry; dev = t.dev }

-- The program gave up: no segment from `lastseg` on could be erased.
abbrev pub Exhausted : {D : Type 0} → Env D → Super D → Stop → Type 0
Exhausted {D} env s r =
    (r ≡ exit no_more_free_segments)
    × ((d : D) × Failures env s.segsize s.no_segs d s.lastseg s.dev)

-- The state fits: the next segment is at most the end, and each segment has an entry.
pub record HasRoom {D : Type 0} (s : Super D) : Type 0 where
  pub last : s.lastseg ≤ s.no_segs
  pub small : s.no_segs + 1 < u32_mod
  pub entries : length s.segment_entry ≡ s.no_segs

pair_eq : {D : Type 0} (p : ℕ × D) → p.0 ≡ 0 → p ≡ (0, p.1)
pair_eq p h = λ i. (h i, p.1)

module _ {D : Type 0} (env : Env D) where
  -- The state behind a failed erase.
  abbrev after_bad : Super D → Super D
  after_bad s = record s {
    lastseg = (s.lastseg + 1) % u32_mod;
    segment_entry = set s.segment_entry s.lastseg bad_entry;
    dev = (erase_segment env s.segsize s.lastseg s.dev).1;
  }

  after_bad-HasRoom : (s : Super D) → HasRoom s → s.lastseg < s.no_segs → HasRoom (after_bad s)
  after_bad-HasRoom s v lt = record {
    last = omega arith;
    small = v.small;
    entries = length-set s.segment_entry s.lastseg bad_entry ∙ v.entries;
  }

  Taken-after_bad :
      (s : Super D)
      → HasRoom s
      → s.lastseg < s.no_segs
      → (erase_segment env s.segsize s.lastseg s.dev).0 ≢ 0
      → (segno : ℕ) (t : Super D) → Taken env (after_bad s) segno t
      → Taken env s segno t
  Taken-after_bad s v lt err segno t g =
      let e : (s.lastseg + 1) % u32_mod ≡ s.lastseg + 1 = omega arith in
      record {
        before = omega arith;
        inside = g.inside;
        next = g.next;
        dev = g.dev;
        skipped = fails err (rw e at g.skipped);
        erased = g.erased;
        width = g.width ∙ length-set s.segment_entry s.lastseg bad_entry;
        bad = λ i d lo hi. elim (Bool-cases (i == s.lastseg)) [
          | inl same ↦
              let e' : i ≡ s.lastseg = ground arith in
              g.kept i d (inl (omega arith))
              ∙ rw e' (get_or-set_self s.segment_entry s.lastseg bad_entry d (omega arith))
          | inr other ↦ g.bad i d (ground arith) hi
        ];
        kept = λ i d h.
            g.kept i d (ground arith)
            ∙ get_or-set_ne s.segment_entry s.lastseg i bad_entry d (ground arith);
        frame = g.frame;
      }

  Exhausted-after_bad :
      (s : Super D)
      → HasRoom s
      → s.lastseg < s.no_segs
      → (erase_segment env s.segsize s.lastseg s.dev).0 ≢ 0
      → (r : Stop) → Exhausted env (after_bad s) r
      → Exhausted env s r
  Exhausted-after_bad s v lt err r (e, (d, all)) =
      let e' : (s.lastseg + 1) % u32_mod ≡ s.lastseg + 1 = omega arith in
      (e, (d, fails err (rw e' at all)))

  set_bad :
      (s : Super D)
      → HasRoom s
      → s.lastseg < s.no_segs
      → set_entry s.lastseg bad_entry (record s {
        lastseg = (s.lastseg + 1) % u32_mod;
        dev = (erase_segment env s.segsize s.lastseg s.dev).1;
      })
        ≡ ok tt (after_bad s)
  unfolding set_entry
  set_bad s v lt = rw (le→leb (s.lastseg + 1) (length s.segment_entry) (omega arith))

  get_segment_loop_lem :
      (f : ℕ) (s : Super D)
      → HasRoom s
      → s.no_segs - s.lastseg < f
      → Ends (Taken env s) (Exhausted env s) (get_segment_loop env f s)
  unfolding get_segment_loop
  get_segment_loop_lem zero s v h = absurd (omega arith)
  get_segment_loop_lem (suc f) s v h =
      elim (Bool-cases (ltb s.no_segs ((s.lastseg + 1) % u32_mod))) [
        | inl full ↦
            let e : s.lastseg ≡ s.no_segs = ground arith in rw full (refl, (s.dev, rw e here))
        | inr room ↦
            let lt : s.lastseg < s.no_segs = ground arith in
            rw room (elim (Bool-cases ((erase_segment env s.segsize s.lastseg s.dev).0 == 0)) [
              | inl good ↦ rw good (record {
                before = omega arith;
                inside = lt;
                next = omega arith;
                dev = s.dev;
                skipped = here;
                erased = pair_eq _ (ground arith);
                width = refl;
                bad = λ i d lo hi. absurd (omega arith);
                kept = λ i d k. refl;
                frame = refl;
              })
              | inr bad ↦
                  let err : (erase_segment env s.segsize s.lastseg s.dev).0 ≢ 0 = ground arith in
                  rw (bad, set_bad s v lt)
                    (Ends-mono (Taken env (after_bad s)) (Taken env s) (Exhausted env (after_bad s))
                      (Exhausted env s) (get_segment_loop env f (after_bad s))
                      (get_segment_loop_lem f (after_bad s) (after_bad-HasRoom s v lt)
                        (omega arith))
                      (Taken-after_bad s v lt err) (Exhausted-after_bad s v lt err))
            ])
      ]

  -- While the next segment is at most the end, no_segs + 1 is below 2 ^ 32 and each segment has an
  -- entry, `get_segment` ends, in one of two ways. It returns the first segment from `lastseg` on
  -- whose erase succeeds, which is below no_segs; `lastseg` stands behind it, the segments that it
  -- skipped have the entries of bad segments, the other entries and fields are as before. Or it
  -- fails with "no more free segments", and then the erase of every segment from `lastseg` to
  -- the end failed.
  pub get_segment-first_good :
      (s : Super D) → HasRoom s → Ends (Taken env s) (Exhausted env s) (get_segment env s)
  unfolding get_segment
  get_segment-first_good s v = get_segment_loop_lem (s.no_segs - s.lastseg + 1) s v (omega arith)
