-- ===== src/Segment/Flush.antt =====
-- What `flush_segments` leaves on the device and in the table of entries.
use logfsprogs.Common.{
  ℕ, zero, suc, ◌+◌, ◌-◌, ◌*◌, ◌%◌, ◌≤◌, ◌<◌, ◌≡◌, refl, sym, ap, ◌∙◌, ◌≢◌, inl, inr, arith, ◌==◌,
  false, Bool-cases, Option-cases, List, none, some, length, get_elem?, get_elem?-total, get_or,
  get_or-set_self, get_or-set_ne,
}
use mathlib.Core.Path.{subst}
use mathlib.Core.Option.{some-injective}
use logfsprogs.Common.Outcome.{ok, Returns, Returns-mono, Errno}
use logfsprogs.Kerncompat.{u32_mod, u64_mod}
use logfsprogs.Abi.{SegmentEntry, logfs_segment_headersize, logfs_no_areas}
use logfsprogs.Super.{Area, Super, Env, ec_level, get_area}
use logfsprogs.Segment.{
  dev_write, finish_area, finish_buf, finish_entry, flush_buf, flush_loop, flush_segments,
}
use logfsprogs.Segment.Areas.{Open, IsValid}
use logfsprogs.Segment.Opening.{closed_state, closed-IsValid}
use logfsprogs.Segment.Closing.{set_entry_lem}

module _ {D : Type 0} (env : Env D) where
  -- The write of a whole segment.
  abbrev pub write_segment : ℕ → Area → List ℕ → D → ℕ × D
  write_segment z a b d = env.dev_write (a.segno * z % u64_mod) z b d

  -- The writes of the buffers of areas `i` to `i + r`, in order, up to the first that fails: its error,
  -- or 0, and the device after them.
  pub data Writes (z : ℕ) (areas : List Area) : ℕ → ℕ → D → Errno → D → Type 0 where
    done : {i : ℕ} {d : D} → Writes z areas i zero d 0 d
    closed :
        {i r e : ℕ} {d d' : D} (a : Area)
        → get_elem? areas i ≡ some a
        → a.buf ≡ none
        → Writes z areas (i + 1) r d e d'
        → Writes z areas i (suc r) d e d'
    written :
        {i r e : ℕ} {d d' : D} (a : Area) (b : List ℕ)
        → get_elem? areas i ≡ some a
        → a.buf ≡ some b
        → (write_segment z a b d).0 ≡ 0
        → Writes z areas (i + 1) r (write_segment z a b d).1 e d'
        → Writes z areas i (suc r) d e d'
    failed :
        {i r : ℕ} {d : D} (a : Area) (b : List ℕ)
        → get_elem? areas i ≡ some a
        → a.buf ≡ some b
        → (write_segment z a b d).0 ≢ 0
        → Writes z areas i (suc r) d (write_segment z a b d).0 (write_segment z a b d).1

  abbrev pub entry_of : ℕ → ℕ → SegmentEntry
  entry_of level bytes = record { ec_level = ec_level 1 level; valid = bytes }

  -- Areas `i` to `i + r` were written, and if all went well each segment has its entry: erase count 1,
  -- the area's number as level, and the bytes behind the header. Other entries are as before.
  pub record Flushed (i r : ℕ) (s : Super D) (e : Errno) (t : Super D) : Type 0 where
    pub writes : Writes s.segsize s.area i r s.dev e t.dev
    pub entries :
        e ≡ 0
        → (j : ℕ) (a : Area) (b : List ℕ) (d : SegmentEntry) → Open s j a b
        → i ≤ j
        → j < i + r
        → get_or t.segment_entry a.segno d ≡ entry_of j (a.used_bytes - logfs_segment_headersize)
    pub kept :
        (k : ℕ) (d : SegmentEntry)
        → ((j : ℕ) (a : Area) (b : List ℕ) → Open s j a b → i ≤ j → j < i + r → a.segno ≢ k)
        → get_or t.segment_entry k d ≡ get_or s.segment_entry k d
    pub frame : t ≡ record s { segment_entry = t.segment_entry; dev = t.dev }

  done-Flushed : (i : ℕ) (s : Super D) → Flushed i zero s 0 s
  done-Flushed i s = record {
    writes = done;
    entries = λ z j a b d o le lt. absurd (omega arith);
    kept = λ k d apart. refl;
    frame = refl;
  }

  closed-Flushed :
      (i r : ℕ) (s : Super D) (a : Area)
      → get_elem? s.area i ≡ some a
      → a.buf ≡ none
      → (e : Errno) (t : Super D) → Flushed (i + 1) r s e t
      → Flushed i (suc r) s e t
  closed-Flushed i r s a there shut e t f = record {
    writes = closed a there shut f.writes;
    entries = λ z j x y d o le lt. elim (Bool-cases (i == j)) [
      | inl here ↦
          let same : i ≡ j = ground arith in
          let both : some a ≡ some x = sym there ∙ ap (λ n. get_elem? s.area n) same ∙ o.there in
          absurd (open_shut x y (sym (ap (λ q. q.buf) (some-injective a x both)) ∙ shut) o.filled)
      | inr later ↦ f.entries z j x y d o (ground arith) (omega arith)
    ];
    kept = λ k d apart. f.kept k d (λ j x y o le lt. apart j x y o (omega arith) (omega arith));
    frame = f.frame;
  }
    where
      open_shut : (x : Area) (y : List ℕ) → x.buf ≡ none → x.buf ≡ some y → ⊥
      open_shut x y shut filled = absurd (cc (shut, filled))

  failed-Flushed :
      (i r : ℕ) (s : Super D) (a : Area) (b : List ℕ)
      → Open s i a b
      → (write_segment s.segsize a b s.dev).0 ≢ 0
      → Flushed i
          (suc r)
          s
          (write_segment s.segsize a b s.dev).0
          (record s { dev = (write_segment s.segsize a b s.dev).1 })
  failed-Flushed i r s a b o bad = record {
    writes = failed a b o.there o.filled bad;
    entries = λ z. absurd (bad z);
    kept = λ k d apart. refl;
    frame = refl;
  }

  written-Flushed :
      (i r : ℕ) (s : Super D)
      → IsValid s
      → (a : Area) (b : List ℕ) → Open s i a b
      → (write_segment s.segsize a b s.dev).0 ≡ 0
      → (e : Errno) (t : Super D) → Flushed (i + 1) r (closed_state env s i a b) e t
      → Flushed i (suc r) s e t
  written-Flushed i r s v a b o good e t f =
      let fit = v.fits i a b o in
      record {
        writes = written a b o.there o.filled good f.writes;
        entries = λ z j x y d p le lt. elim (Bool-cases (i == j)) [
          | inr later ↦
              f.entries z j x y d (record { there = p.there; filled = p.filled }) (ground arith)
                (omega arith)
          | inl here ↦
              let same : i ≡ j = ground arith in
              let both : some a ≡ some x =
                sym o.there ∙ ap (λ n. get_elem? s.area n) same ∙ p.there in
              let one = some-injective a x both in
              subst
                (λ q.
                  get_or t.segment_entry q.segno d
                  ≡ entry_of j (q.used_bytes - logfs_segment_headersize))
                one
                (f.kept a.segno d (λ l c w u low high h.
                    v.apart i l a c b w o (record { there = u.there; filled = u.filled })
                      (λ m. absurd (omega arith)) (sym h))
                  ∙ get_or-set_self s.segment_entry a.segno _ d
                      (omega (arith, fit.taken, v.room.last, v.room.entries))
                  ∙ subst
                      (λ n.
                        entry_of i ((a.used_bytes + u32_mod - logfs_segment_headersize) % u32_mod)
                        ≡ entry_of n (a.used_bytes - logfs_segment_headersize))
                      same (ap (entry_of i) (omega (arith, fit.low, fit.high, v.small))))
        ];
        kept = λ k d apart.
            f.kept k d (λ j x y p le lt.
              apart j x y (record { there = p.there; filled = p.filled }) (omega arith)
                (omega arith))
            ∙ get_or-set_ne s.segment_entry a.segno k _ d
                (apart i a b o (omega arith) (omega arith));
        frame = λ n. record (f.frame n) { segment_entry = t.segment_entry; dev = t.dev };
      }

  flush_buf-good :
      (s : Super D)
      → IsValid s
      → (i : ℕ) (a : Area) (b : List ℕ) → Open s i a b
      → (write_segment s.segsize a b s.dev).0 ≡ 0
      → flush_buf env i (some b) s ≡ ok 0 (closed_state env s i a b)
  unfolding flush_buf finish_area get_area finish_buf dev_write finish_entry
  flush_buf-good s v i a b o good =
      let entry =
        set_entry_lem a.segno
          (entry_of i ((a.used_bytes + u32_mod - logfs_segment_headersize) % u32_mod))
          (record s { dev = (write_segment s.segsize a b s.dev).1 })
          (omega (arith, (v.fits i a b o).taken, v.room.last, v.room.entries)) in
      rw o.there (rw o.filled (rw good (rw entry refl)))

  flush_buf-bad :
      (s : Super D) (i : ℕ) (a : Area) (b : List ℕ)
      → Open s i a b
      → ((write_segment s.segsize a b s.dev).0 == 0) ≡ false
      → flush_buf env i (some b) s
        ≡ ok
            (write_segment s.segsize a b s.dev).0
            (record s { dev = (write_segment s.segsize a b s.dev).1 })
  unfolding flush_buf finish_area get_area finish_buf dev_write
  flush_buf-bad s i a b o bad = rw o.there (rw o.filled (rw bad refl))

  flush_loop_lem :
      (r i : ℕ) (s : Super D)
      → IsValid s
      → i + r ≤ length s.area
      → Returns (Flushed i r s) (flush_loop env r i s)
  unfolding flush_loop get_area
  flush_loop_lem zero i s v le = done-Flushed i s
  flush_loop_lem (suc r) i s v le =
      let (a, there) = get_elem?-total s.area i (omega arith) in
      rw there (elim (Option-cases a.buf) [
        | inl shut ↦ rw shut (
            Returns-mono (Flushed (i + 1) r s) (Flushed i (suc r) s) (flush_loop env r (i + 1) s)
              (flush_loop_lem r (i + 1) s v (omega arith)) (closed-Flushed i r s a there shut))
        | inr (b, filled) ↦
            let o : Open s i a b = record { there = there; filled = filled } in
            elim (Bool-cases ((write_segment s.segsize a b s.dev).0 == 0)) [
              | inl good ↦
                  let t = closed_state env s i a b in
                  let zero_result : (write_segment s.segsize a b s.dev).0 ≡ 0 = ground arith in
                  rw filled (
                    rw (flush_buf-good s v i a b o zero_result) (
                      Returns-mono (Flushed (i + 1) r t) (Flushed i (suc r) s)
                        (flush_loop env r (i + 1) t)
                        (flush_loop_lem r (i + 1) t (closed-IsValid env s v i a b) (omega arith))
                        (written-Flushed i r s v a b o zero_result)))
              | inr bad ↦ rw filled (
                  rw (flush_buf-bad s i a b o bad)
                    (rw bad (failed-Flushed i r s a b o (ground arith))))
            ]
      ])

  -- In a valid state with at least as many areas as `flush_segments` goes through, it returns. The
  -- buffers of the open areas were written to their segments, in the order of the areas, up to the
  -- first write that fails; the result is its error, or 0. With 0 the entry of every open area's
  -- segment has erase count 1, the area's number as level and the bytes behind the header. The
  -- entries of all other segments are as before, and nothing else of the state changes.
  pub flush_segments-Flushed :
      (s : Super D)
      → IsValid s
      → logfs_no_areas ≤ length s.area
      → Returns (Flushed 0 logfs_no_areas s) (flush_segments env s)
  unfolding flush_segments
  flush_segments-Flushed s v enough = flush_loop_lem logfs_no_areas 0 s v enough
