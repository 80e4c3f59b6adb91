-- ===== src/Segment/Areas.antt =====
-- The areas: what holds of them between operations, and that opening an area keeps it.
use logfsprogs.Common.{
  ℕ, ◌+◌, ◌≤◌, ◌<◌, ◌≡◌, sym, ap, ◌∙◌, ◌≢◌, inl, inr, arith, ◌==◌, Bool-cases, List, some, length,
  set, get_or, get_elem?, get_elem?-set_self, get_elem?-set_ne,
}
use logfsprogs.Kerncompat.{u32_mod}
use logfsprogs.Abi.{SegmentEntry, logfs_segment_headersize, logfs_object_headersize}
use logfsprogs.Super.{Area, Super}
use logfsprogs.Segment.Alloc.{HasRoom}

-- An open area: the buffer is one segment, filled from behind its header up to `used_bytes`, and
-- the segment was taken before.
pub record Fits {D : Type 0} (s : Super D) (a : Area) (b : List ℕ) : Type 0 where
  pub width : length b ≡ s.segsize
  pub low : logfs_segment_headersize ≤ a.used_bytes
  pub high : a.used_bytes ≤ s.segsize
  pub taken : a.segno < s.lastseg

-- Area `i` is open: it has the state `a` and the buffer `b`.
pub record Open {D : Type 0} (s : Super D) (i : ℕ) (a : Area) (b : List ℕ) : Type 0 where
  pub there : get_elem? s.area i ≡ some a
  pub filled : a.buf ≡ some b

pub record IsValid {D : Type 0} (s : Super D) : Type 0 where
  pub room : HasRoom s
  pub wide : logfs_segment_headersize + logfs_object_headersize + s.blocksize ≤ s.segsize
  pub small : s.segsize < u32_mod
  pub fits : (i : ℕ) (a : Area) (b : List ℕ) → Open s i a b → Fits s a b
  pub apart :
      (i j : ℕ) (a c : Area) (b d : List ℕ)
      → Open s i a b
      → Open s j c d
      → i ≢ j
      → a.segno ≢ c.segno

-- Only area `i`, the segments and the device differ.
pub record OnlyArea {D : Type 0} (i : ℕ) (s t : Super D) : Type 0 where
  pub other : (j : ℕ) → i ≢ j → get_elem? t.area j ≡ get_elem? s.area j
  pub count : length t.area ≡ length s.area
  pub frame : t ≡ record s {
    lastseg = t.lastseg;
    area = t.area;
    segment_entry = t.segment_entry;
    dev = t.dev;
  }

-- Area `i` was given the fresh segment of state `a`, with nothing behind its header.
pub record Fresh {D : Type 0} (i : ℕ) (s t : Super D) (a : Area) (b : List ℕ) : Type 0 where
  pub valid : IsValid t
  pub opened : Open t i a b
  pub start : a.used_bytes ≡ logfs_segment_headersize
  pub new : s.lastseg ≤ a.segno
  pub only : OnlyArea i s t

abbrev pub Refreshed : {D : Type 0} → ℕ → Super D → Super D → Type 0
Refreshed i s t = (a : Area) × (b : List ℕ) × Fresh i s t a b

-- The entries of the segments that were taken before are as they were.
abbrev pub Kept : {D : Type 0} → Super D → Super D → Type 0
Kept s t =
    (j : ℕ) (d : SegmentEntry)
    → j < s.lastseg
    → get_or t.segment_entry j d ≡ get_or s.segment_entry j d

-- The state in which area `i` is `a`.
abbrev pub with_area : {D : Type 0} → Super D → ℕ → Area → Super D
with_area t i a = record t { area = set t.area i a }

-- `t` has the areas and sizes of `s`, and at least its segments taken.
pub record Continues {D : Type 0} (s t : Super D) : Type 0 where
  pub area : t.area ≡ s.area
  pub segsize : t.segsize ≡ s.segsize
  pub blocksize : t.blocksize ≡ s.blocksize
  pub taken : s.lastseg ≤ t.lastseg
  pub room : HasRoom t

module _ {D : Type 0} (s t : Super D) (v : IsValid s) (c : Continues s t) (i : ℕ)
    (lt : i < length s.area) (a : Area) (b : List ℕ) (filled : a.buf ≡ some b) where
  Open-self : (x : Area) (y : List ℕ) → Open (with_area t i a) i x y → (x ≡ a) × (y ≡ b)
  Open-self x y o =
      let here : get_elem? (set t.area i a) i ≡ some a =
        get_elem?-set_self t.area i a (omega (arith, ap length c.area)) in
      let same : x ≡ a = cc (here, o.there) in (same, cc (filled, o.filled, ap (λ z. z.buf) same))

  Open-other : (j : ℕ) (x : Area) (y : List ℕ) → i ≢ j → Open (with_area t i a) j x y → Open s j x y
  Open-other j x y ne o = record {
    there = ap (λ z. get_elem? z j) (sym c.area) ∙ sym (get_elem?-set_ne t.area i j a ne) ∙ o.there;
    filled = o.filled;
  }

  other_Fits : (x : Area) (y : List ℕ) → Fits s x y → Fits (with_area t i a) x y
  other_Fits x y f = record {
    width = omega (arith, f.width, c.segsize);
    low = f.low;
    high = omega (arith, f.high, c.segsize);
    taken = omega (arith, f.taken, c.taken);
  }

  with_area-Fits :
      Fits (with_area t i a) a b
      → (j : ℕ) (x : Area) (y : List ℕ) → Open (with_area t i a) j x y
      → Fits (with_area t i a) x y
  with_area-Fits f j x y o = elim (Bool-cases (i == j)) [
    | inl same ↦
        let e : j ≡ i = ground arith in let (p, q) = Open-self x y (rw e at o) in rw (p, q) f
    | inr other ↦ other_Fits x y (v.fits j x y (Open-other j x y (ground arith) o))
  ]

  with_area_apart :
      ((j : ℕ) (x : Area) (y : List ℕ) → i ≢ j → Open s j x y → a.segno ≢ x.segno)
      → (j k : ℕ) (x z : Area) (y w : List ℕ) → Open (with_area t i a) j x y
      → Open (with_area t i a) k z w
      → j ≢ k
      → x.segno ≢ z.segno
  with_area_apart own j k x z y w o u ne = elim (Bool-cases (i == j)) [
    | inl same ↦
        let e : j ≡ i = ground arith in
        let (p, q) = Open-self x y (rw e at o) in
        let ne' : i ≢ k = ground arith in rw p (own k z w ne' (Open-other k z w ne' u))
    | inr other ↦ elim (Bool-cases (i == k)) [
      | inl same ↦
          let e : k ≡ i = ground arith in
          let (p, q) = Open-self z w (rw e at u) in
          let ne' : i ≢ j = ground arith in
          let apart = own j x y ne' (Open-other j x y ne' o) in
          λ h. apart (sym (h ∙ ap (λ r. r.segno) p))
      | inr other' ↦
          v.apart j k x z y w (Open-other j x y (ground arith) o)
            (Open-other k z w (ground arith) u) ne
    ]
  ]

  -- One area replaced by an open one that fits and has a segment of its own.
  pub with_area-IsValid :
      Fits (with_area t i a) a b
      → ((j : ℕ) (x : Area) (y : List ℕ) → i ≢ j → Open s j x y → a.segno ≢ x.segno)
      → IsValid (with_area t i a)
  with_area-IsValid f own = record {
    room = record { last = c.room.last; small = c.room.small; entries = c.room.entries };
    wide = omega (arith, v.wide, c.segsize, c.blocksize);
    small = omega (arith, v.small, c.segsize);
    fits = with_area-Fits f;
    apart = with_area_apart own;
  }

  pub with_area-Open : Open (with_area t i a) i a b
  with_area-Open = record {
    there = get_elem?-set_self t.area i a (omega (arith, ap length c.area));
    filled = filled;
  }

  pub with_area_other : (j : ℕ) → i ≢ j → get_elem? (set t.area i a) j ≡ get_elem? s.area j
  with_area_other j ne = get_elem?-set_ne t.area i j a ne ∙ ap (λ z. get_elem? z j) c.area
