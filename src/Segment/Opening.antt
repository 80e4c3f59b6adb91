-- ===== src/Segment/Opening.antt =====
-- `__init_area`, `init_area`, `finish_area` and the test for room: when an area is closed and a
-- fresh segment is opened for it.
use logfsprogs.Common.{
  ℕ, ◌+◌, ◌-◌, ◌*◌, ◌%◌, ◌≤◌, ◌<◌, ◌≡◌, refl, sym, ap, ◌∙◌, ◌≢◌, ◌⊎◌, inl, inr, arith, le→leb,
  Option-cases, List, some, length, set, splice, replicate, get_or, get_or-set_self, get_or-set_ne,
  length-set, get_elem?-total, length-replicate, length-splice,
}
use logfsprogs.Common.Outcome.{ok, Ends, Ends-bind, Ends-mono}
use logfsprogs.Kerncompat.{u32_mod, u64_mod}
use logfsprogs.Abi.{SegmentEntry, logfs_segment_headersize, encode_segment_header}
use logfsprogs.Abi.Sizes.{length-encode_segment_header}
use logfsprogs.Super.{Area, Super, Env, ec_level, get_area, set_area}
use logfsprogs.Segment.{area_header, memcpy, get_segment, reset_area, init_area, init_buf}
use logfsprogs.Segment.Alloc.{Taken, Exhausted, Failures, erase_segment, get_segment-first_good}
use logfsprogs.Segment.Areas.{
  Fits, Open, IsValid, Fresh, Refreshed, Kept, with_area, Continues, with_area-IsValid,
  with_area-Open, with_area_other,
}

pub memcpy_lem :
    {S : Type 0} (buf src : List ℕ) (ofs : ℕ) (s : S)
    → ofs + length src ≤ length buf
    → memcpy buf ofs src s ≡ ok (splice buf ofs src) s
unfolding memcpy
memcpy_lem buf src ofs s h = rw (le→leb (ofs + length src) (length buf) h)

module _ {D : Type 0} (env : Env D) where
  pub Taken-Continues :
      (s : Super D) → IsValid s → (segno : ℕ) (t : Super D) → Taken env s segno t → Continues s t
  Taken-Continues s v segno t g = record {
    area = ap (λ x. x.area) g.frame;
    segsize = ap (λ x. x.segsize) g.frame;
    blocksize = ap (λ x. x.blocksize) g.frame;
    taken = omega (arith, g.before, g.next);
    room = record {
      last = omega (arith, g.inside, g.next, ap (λ x. x.no_segs) g.frame);
      small = omega (arith, v.room.small, ap (λ x. x.no_segs) g.frame);
      entries = g.width ∙ v.room.entries ∙ sym (ap (λ x. x.no_segs) g.frame);
    };
  }

  abbrev pub fresh_area : ℕ → List ℕ → Area
  fresh_area segno b = record { segno = segno; used_bytes = logfs_segment_headersize; buf = some b }

  fresh_Fits :
      (s : Super D)
      → IsValid s
      → (i segno : ℕ) (t : Super D) → Taken env s segno t
      → (b : List ℕ) → length b ≡ s.segsize
      → Fits (with_area t i (fresh_area segno b)) (fresh_area segno b) b
  fresh_Fits s v i segno t g b width = record {
    width = width ∙ sym (ap (λ x. x.segsize) g.frame);
    low = omega arith;
    high = omega (arith, v.wide, ap (λ x. x.segsize) g.frame);
    taken = omega (arith, g.next);
  }

  pub state-Fresh :
      (s : Super D)
      → IsValid s
      → (i : ℕ) → i < length s.area
      → (segno : ℕ) (t : Super D) → Taken env s segno t
      → (b : List ℕ) → length b ≡ s.segsize
      → Fresh i s (with_area t i (fresh_area segno b)) (fresh_area segno b) b
  state-Fresh s v i lt segno t g b width =
      let c = Taken-Continues s v segno t g in
      record {
        valid =
            with_area-IsValid s t v c i lt (fresh_area segno b) b refl
              (fresh_Fits s v i segno t g b width)
              (λ j x y ne o h. absurd (omega (arith, g.before, (v.fits j x y o).taken)));
        opened = with_area-Open s t v c i lt (fresh_area segno b) b refl;
        start = refl;
        new = g.before;
        only = record {
          other = with_area_other s t v c i lt (fresh_area segno b) b refl;
          count = length-set t.area i (fresh_area segno b) ∙ ap length c.area;
          frame = λ k. record (g.frame k) {
            lastseg = t.lastseg;
            area = set t.area i (fresh_area segno b);
            segment_entry = t.segment_entry;
            dev = t.dev;
          };
        };
      }

  -- The device of `t` is that of `s` after erases of the segments from `lastseg` on, of which the last
  -- one alone succeeded.
  abbrev pub Erased : Super D → Super D → Type 0
  Erased s t =
      (segno : ℕ) × (dev : D) × Failures env s.segsize segno dev s.lastseg s.dev
      × (erase_segment env s.segsize segno dev ≡ (0, t.dev))

  pub reset_area_lem :
      (s : Super D)
      → IsValid s
      → (i level : ℕ) → i < length s.area
      → Ends
          (λ _ t. Refreshed i s t × Kept s t × Erased s t)
          (Exhausted env s)
          (reset_area env i level s)
  unfolding reset_area set_area
  reset_area_lem s v i level lt =
      Ends-bind (Taken env s) (Exhausted env s) (λ _ t. Refreshed i s t × Kept s t × Erased s t)
        (get_segment env s) _ (get_segment-first_good env s v.room)
        λ segno t g.
          let header = encode_segment_header (area_header env segno level) in
          let fits : 0 + length header ≤ length (replicate s.segsize 0xff) = omega (
            arith,
            length-encode_segment_header (area_header env segno level),
            v.wide,
            length-replicate {A = ℕ} s.segsize 0xff,
          ) in
          let copied = memcpy_lem (replicate s.segsize 0xff) header 0 t fits in
          rw copied (
            (
              _,
              _,
              state-Fresh s v i lt segno t g _ (
                  length-splice (replicate s.segsize 0xff) 0 header fits
                  ∙ length-replicate s.segsize 0xff),
            ),
            λ j d old. g.kept j d (inl old),
            (segno, g.dev, g.skipped, g.erased),
          )

  -- An area without a buffer gets one; an open area stays as it is.
  abbrev pub Opened : ℕ → Super D → Super D → Type 0
  Opened i s t = ((a : Area) × (b : List ℕ) × Open s i a b × (t ≡ s)) ⊎ (Refreshed i s t × Kept s t)

  pub init_area_lem :
      (s : Super D)
      → IsValid s
      → (i level : ℕ) → i < length s.area
      → Ends (λ _ t. Opened i s t) (Exhausted env s) (init_area env i level s)
  unfolding init_area get_area init_buf
  init_area_lem s v i level lt =
      let (a, there) = get_elem?-total s.area i lt in
      elim (Option-cases a.buf) [
        | inl closed ↦
            rw (there, closed)
              (Ends-mono (λ _ t. Refreshed i s t × Kept s t × Erased s t) (λ _ t. Opened i s t)
                (Exhausted env s) (Exhausted env s) (reset_area env i level s)
                (reset_area_lem s v i level lt) (λ _ t (r, k, e). inr (r, k)) (λ x q. q))
        | inr (b, filled) ↦
            rw (there, filled) (inl (a, b, record { there = there; filled = filled }, refl))
      ]

  -- The state after the buffer was written and its segment's entry filled in.
  abbrev pub closed_state : Super D → ℕ → Area → List ℕ → Super D
  closed_state s level a b = record s {
    segment_entry = set s.segment_entry a.segno (record {
      ec_level = ec_level 1 level;
      valid = (a.used_bytes + u32_mod - logfs_segment_headersize) % u32_mod;
    });
    dev = (env.dev_write (a.segno * s.segsize % u64_mod) s.segsize b s.dev).1;
  }

  pub closed-IsValid :
      (s : Super D)
      → IsValid s
      → (level : ℕ) (a : Area) (b : List ℕ) → IsValid (closed_state s level a b)
  closed-IsValid s v level a b = record {
    room = record {
      last = v.room.last;
      small = v.room.small;
      entries = length-set s.segment_entry a.segno _ ∙ v.room.entries;
    };
    wide = v.wide;
    small = v.small;
    fits = λ j x y o.
        let f = v.fits j x y (record { there = o.there; filled = o.filled }) in
        record { width = f.width; low = f.low; high = f.high; taken = f.taken };
    apart = λ j k x z y w o u.
        v.apart j k x z y w (record { there = o.there; filled = o.filled })
          (record { there = u.there; filled = u.filled });
  }

  -- Area `i` was closed: its buffer went to its segment on the device, and only erases of later
  -- segments followed; the segment's entry has erase count 1, the level, and the bytes behind the
  -- header, and a fresh segment is open.
  pub record Closed (i level : ℕ) (s : Super D) (a : Area) (b : List ℕ) (t : Super D) : Type 0 where
    pub written : (env.dev_write (a.segno * s.segsize % u64_mod) s.segsize b s.dev).0 ≡ 0
    pub device : Erased (closed_state s level a b) t
    pub entry :
        (d : SegmentEntry)
        → get_or t.segment_entry a.segno d
          ≡ record { ec_level = ec_level 1 level; valid = a.used_bytes - logfs_segment_headersize }
    pub fresh : Refreshed i s t
    pub kept :
        (j : ℕ) (d : SegmentEntry)
        → j < s.lastseg
        → a.segno ≢ j
        → get_or t.segment_entry j d ≡ get_or s.segment_entry j d

  pub Closed-of_fresh :
      (s : Super D)
      → IsValid s
      → (i level : ℕ) (a : Area) (b : List ℕ) → Open s i a b
      → (env.dev_write (a.segno * s.segsize % u64_mod) s.segsize b s.dev).0 ≡ 0
      → (t : Super D) → Refreshed i (closed_state s level a b) t
      → Kept (closed_state s level a b) t
      → Erased (closed_state s level a b) t
      → Closed i level s a b t
  Closed-of_fresh s v i level a b o err t (a', b', f) kept erased =
      let fit = v.fits i a b o in
      record {
        written = err;
        device = erased;
        entry = λ d.
            kept a.segno d fit.taken
            ∙ get_or-set_self s.segment_entry a.segno _ d
                (omega (arith, fit.taken, v.room.last, v.room.entries))
            ∙ ap (λ n. record { ec_level = ec_level 1 level; valid = n })
                (omega (arith, fit.low, fit.high, v.small));
        fresh = (
          a',
          b',
          record {
            valid = f.valid;
            opened = f.opened;
            start = f.start;
            new = f.new;
            only = record { other = f.only.other; count = f.only.count; frame = f.only.frame };
          },
        );
        kept = λ j d old ne. kept j d old ∙ get_or-set_ne s.segment_entry a.segno j _ d ne;
      }
