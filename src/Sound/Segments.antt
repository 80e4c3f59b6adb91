-- ===== src/Sound/Segments.antt =====
-- Segments and areas keep the invariant.
use logfsprogs.Common.{
  ℕ, ◌+◌, ◌*◌, ◌%◌, ◌≤◌, ◌<◌, ◌≡◌, refl, sym, ap, ◌∙◌, arith, Bool, Bool-cases, Option-cases, inl,
  inr, List, some, ◌==◌, leb, get_elem?, get_elem?-lt, length, length-set, length-splice,
  length-replicate, replicate,
}
use mathlib.Core.Path.{subst}
use logfsprogs.Common.Outcome.{Cmd, Ends, Ends-mono, ◌>>=◌}
use logfsprogs.Common.Keeps.{AnyStop, Safe, Keeps, Safe-bind}
use logfsprogs.Kerncompat.{u64_mod}
use logfsprogs.Abi.{SegmentEntry, encode_segment_header}
use logfsprogs.Abi.Sizes.{length-encode_segment_header}
use logfsprogs.Super.{Super, Area, Env, get_area, set_area, set_entry}
use logfsprogs.Segment.{
  area_header, get_segment, reset_area, init_area, init_buf, finish_area, finish_buf, finish_entry,
  dev_write,
}
use logfsprogs.Segment.Alloc.{
  Failures, here, fails, erase_segment, Taken, Exhausted, get_segment-first_good,
}
use logfsprogs.Segment.Areas.{Open, IsValid, with_area}
use logfsprogs.Segment.Opening.{memcpy_lem, Taken-Continues, state-Fresh}
use logfsprogs.Sound.{Sound, Reaches, written, erased, core-IsValid, IsValid-of_core, total}

module _ {D : Type 0} (env : Env D) (n z : ℕ) (d0 : D) where
  abbrev Inv : Super D → Type 0
  Inv = Sound env n z d0

  Failures-le : (m : ℕ) (e d : D) (k : ℕ) → Failures env z m e k d → k ≤ m
  Failures-le m e d k here = omega arith
  Failures-le m e d k (fails bad rest) = omega (arith, Failures-le m e _ (k + 1) rest)

  Failures-Reaches :
      (m : ℕ) (e d : D) (k : ℕ)
      → m ≤ n
      → Failures env z m e k d
      → Reaches env n z d0 d
      → Reaches env n z d0 e
  Failures-Reaches m e d k low here r = r
  Failures-Reaches m e d k low (fails bad rest) r =
      let lt : k < n = omega (arith, Failures-le m e _ (k + 1) rest) in
      Failures-Reaches m e _ (k + 1) low rest (erased d r k lt)

  -- A segment was taken: the areas are as they were, and fit as before.
  Taken-IsValid :
      (s : Super D) → IsValid s → (segno : ℕ) (t : Super D) → Taken env s segno t → IsValid t
  Taken-IsValid s v segno t g =
      let c = Taken-Continues env s v segno t g in
      let back : (i : ℕ) (a : Area) (b : List ℕ) → Open t i a b → Open s i a b = λ i a b o. record {
        there = ap (λ x. get_elem? x i) (sym c.area) ∙ o.there;
        filled = o.filled;
      } in
      record {
        room = c.room;
        wide = omega (arith, v.wide, c.segsize, c.blocksize);
        small = omega (arith, v.small, c.segsize);
        fits = λ i a b o.
            let f = v.fits i a b (back i a b o) in
            record {
              width = f.width ∙ sym c.segsize;
              low = f.low;
              high = omega (arith, f.high, c.segsize);
              taken = omega (arith, f.taken, c.taken);
            };
        apart = λ i j a x b d o u. v.apart i j a x b d (back i a b o) (back j x d u);
      }

  Taken-Sound : (s : Super D) → Inv s → (segno : ℕ) (t : Super D) → Taken env s segno t → Inv t
  Taken-Sound s v segno t g =
      let inside : segno < n = omega (arith, g.inside, v.segs) in
      let r0 =
        Failures-Reaches segno g.dev s.dev s.lastseg (omega arith)
          (subst (λ q. Failures env q segno g.dev s.lastseg s.dev) v.size g.skipped) v.reach in
      let r1 = erased g.dev r0 segno inside in
      record {
        valid = core-IsValid t (Taken-IsValid s (IsValid-of_core s v.valid) segno t g);
        segs = ap (λ x. x.no_segs) g.frame ∙ v.segs;
        size = ap (λ x. x.segsize) g.frame ∙ v.size;
        bytes =
            ap (λ x. total x.inodes % u64_mod) g.frame
            ∙ v.bytes
            ∙ sym (ap (λ x. x.used_bytes) g.frame);
        reach =
            subst (Reaches env n z d0)
              (ap (λ q. (erase_segment env q segno g.dev).1) (sym v.size) ∙ ap (λ p. p.1) g.erased)
              r1;
      }

  abbrev Got : Super D → ℕ → Super D → Type 0
  Got s segno t = Taken env s segno t × Inv t

  get_segment-Got : (s : Super D) → Inv s → Ends (Got s) AnyStop (get_segment env s)
  get_segment-Got s v =
      Ends-mono (Taken env s) (Got s) (Exhausted env s) AnyStop (get_segment env s)
        (get_segment-first_good env s (IsValid-of_core s v.valid).room)
        (λ segno t g. (g, Taken-Sound s v segno t g)) (λ x h. tt)

  pub get_segment-Keeps : Keeps Inv (get_segment env)
  get_segment-Keeps s v =
      Ends-mono (Got s) (λ _ t. Inv t) AnyStop AnyStop (get_segment env s) (get_segment-Got s v)
        (λ segno t g. g.1) (λ x h. h)

  pub set_entry-Keeps : (segno : ℕ) (e : SegmentEntry) → Keeps Inv (set_entry segno e)
  unfolding set_entry
  set_entry-Keeps segno e s v = elim (Bool-cases (leb (segno + 1) (length s.segment_entry))) [
    | inr outside ↦ rw outside tt
    | inl inside ↦ rw inside (record {
      valid = record {
        room = record {
          last = v.valid.room.last;
          small = v.valid.room.small;
          entries = length-set s.segment_entry segno e ∙ v.valid.room.entries;
        };
        wide = v.valid.wide;
        small = v.valid.small;
        fits = λ i a b o.
            let f = v.valid.fits i a b (record { there = o.there; filled = o.filled }) in
            record { width = f.width; low = f.low; high = f.high; taken = f.taken };
        apart = λ i j a c b d o u.
            v.valid.apart i j a c b d (record { there = o.there; filled = o.filled })
              (record { there = u.there; filled = u.filled });
      };
      segs = v.segs;
      size = v.size;
      bytes = v.bytes;
      reach = v.reach;
    })
  ]

  -- An area of a valid state replaced, where its segment is its own.
  pub with_area-Sound :
      (t : Super D) → Inv t → (i : ℕ) (a : Area) → IsValid (with_area t i a) → Inv (with_area t i a)
  with_area-Sound t v i a fine = record {
    valid = core-IsValid (with_area t i a) fine;
    segs = v.segs;
    size = v.size;
    bytes = v.bytes;
    reach = v.reach;
  }

  pub reset_area-Sound :
      (i level : ℕ) (s : Super D) → Inv s → i < length s.area → Safe Inv (reset_area env i level s)
  unfolding reset_area set_area
  reset_area-Sound i level s v lt =
      Safe-bind Inv (Got s) (get_segment env s) _ (get_segment-Got s v) (λ segno t (g, w).
        let valid = IsValid-of_core s v.valid in
        let header = encode_segment_header (area_header env segno level) in
        let fits : 0 + length header ≤ length (replicate s.segsize 0xff) = omega (
          arith,
          length-encode_segment_header (area_header env segno level),
          valid.wide,
          length-replicate {A = ℕ} s.segsize 0xff,
        ) in
        let copied = memcpy_lem (replicate s.segsize 0xff) header 0 t fits in
        let width =
          length-splice (replicate s.segsize 0xff) 0 header fits
          ∙ length-replicate s.segsize 0xff in
        rw copied (with_area-Sound t w i _ (state-Fresh env s valid i lt segno t g _ width).valid))

  -- What stands at an index of the areas.
  abbrev pub At : ℕ → Super D → Area → Super D → Type 0
  At i s a t = (t ≡ s) × (get_elem? s.area i ≡ some a)

  get_area-At : (i : ℕ) (s : Super D) → Ends (At i s) AnyStop (get_area i s)
  unfolding get_area
  get_area-At i s = elim (Option-cases (get_elem? s.area i)) [
    | inl absent ↦ rw absent tt
    | inr (a, found) ↦ rw found (refl, found)
  ]

  -- The area is read, and the command that follows starts in the state it was read from.
  pub at_area :
      {B : Type 0} (i : ℕ) (k : Area → Cmd (Super D) B) (s : Super D)
      → ((a : Area) → get_elem? s.area i ≡ some a → Safe Inv (k a s))
      → Safe Inv ((get_area i >>= k) s)
  at_area i k s next =
      Safe-bind Inv (At i s) (get_area i s) k (get_area-At i s)
        (λ a t (same, found). subst (λ u. Safe Inv (k a u)) (sym same) (next a found))

  pub init_area-Keeps : (i level : ℕ) → Keeps Inv (init_area env i level)
  unfolding init_area init_buf
  init_area-Keeps i level s v = at_area i _ s (λ a found. elim (Option-cases a.buf) [
    | inl closed ↦ rw closed (reset_area-Sound i level s v (get_elem?-lt s.area i found))
    | inr (b, filled) ↦ rw filled v
  ])

  -- The write of an open area's buffer.
  area_write-Sound :
      (s : Super D)
      → Inv s
      → (i : ℕ) (a : Area) (b : List ℕ) → Open s i a b
      → Inv (record s { dev = (env.dev_write (a.segno * s.segsize % u64_mod) s.segsize b s.dev).1 })
  area_write-Sound s v i a b o =
      let valid = IsValid-of_core s v.valid in
      let f = valid.fits i a b o in
      record {
        valid = v.valid;
        segs = v.segs;
        size = v.size;
        bytes = v.bytes;
        reach =
            subst (λ q. Reaches env n z d0 (env.dev_write (a.segno * q % u64_mod) q b s.dev).1)
              (sym v.size)
              (written s.dev v.reach a.segno (omega (arith, f.taken, valid.room.last, v.segs)) b
                (f.width ∙ v.size));
      }

  -- After the entry the areas are still there.
  set_entry-length :
      (segno : ℕ) (e : SegmentEntry) (s : Super D)
      → Inv s
      → Ends (λ _ t. Inv t × (length t.area ≡ length s.area)) AnyStop (set_entry segno e s)
  unfolding set_entry
  set_entry-length segno e s v =
      let kept = set_entry-Keeps segno e s v in
      elim (Bool-cases (leb (segno + 1) (length s.segment_entry))) [
        | inr outside ↦ rw outside tt
        | inl inside ↦ rw inside ((rw inside at kept), refl)
      ]

  pub finish_area-Keeps :
      (i : ℕ) (final : Bool) (level : ℕ) → Keeps Inv (finish_area env i final level)
  unfolding finish_area finish_buf finish_entry dev_write
  finish_area-Keeps i final level s v = at_area i _ s (λ a found. elim (Option-cases a.buf) [
    | inl closed ↦ rw closed tt
    | inr (b, filled) ↦
        let w = area_write-Sound s v i a b (record { there = found; filled = filled }) in
        rw filled
          (elim (Bool-cases
            ((env.dev_write (a.segno * s.segsize % u64_mod) s.segsize b s.dev).0 == 0)) [
              | inr failed ↦ rw failed w
              | inl good ↦ rw good (
                  Safe-bind Inv (λ _ t. Inv t × (length t.area ≡ length s.area))
                    (set_entry a.segno _ _) _ (set_entry-length a.segno _ _ w)
                    (λ _ t (x, same). elim (Bool-cases final) [
                      | inl last ↦ rw last x
                      | inr more ↦ rw more (
                          Safe-bind Inv (λ _ u. Inv u) (reset_area env i level t) _
                            (reset_area-Sound i level t x
                              (omega (arith, same, get_elem?-lt s.area i found)))
                            (λ _ u y. y))
                    ]))
            ])
  ])
