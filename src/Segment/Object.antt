-- ===== src/Segment/Object.antt =====
-- Objects in an area: where `logfs_segment_write` puts them.
use logfsprogs.Common.{
  ℕ, ◌+◌, ◌*◌, ◌%◌, ◌≤◌, ◌≡◌, refl, ap, ◌∙◌, ◌≢◌, arith, List, ◌++◌, some, length, get_elem?,
  get_elem?-lt, take, drop, splice, length-take, length-splice, length-append,
}
use logfsprogs.Common.Splice.{take-splice, read-splice, splice-splice}
use logfsprogs.Common.Outcome.{ok, Returns}
use logfsprogs.Kerncompat.{u32_mod}
use logfsprogs.Abi.{encode_object_header, logfs_object_headersize}
use logfsprogs.Abi.Sizes.{length-encode_object_header}
use logfsprogs.Super.{Area, Super, Env, get_area, set_area}
use logfsprogs.Segment.{object_header, copy_into, copybuf, put_object}
use logfsprogs.Segment.Areas.{
  Fits, Open, IsValid, with_area, Continues, with_area-IsValid, with_area-Open, with_area_other,
}
use logfsprogs.Segment.Opening.{memcpy_lem}

-- What the segment holds for an object: its header and its data.
abbrev pub object_bytes : {D : Type 0} → Env D → List ℕ → ℕ → ℕ → ℕ → ℕ → List ℕ
object_bytes env buf len type ino bix =
    encode_object_header (object_header env buf len type ino bix) ++ take len buf

-- The bytes `bytes` were put into area `i`, which was `a` with the buffer `b` in state `s`.
pub record Stored {D : Type 0} (i : ℕ) (bytes : List ℕ) (s : Super D) (a : Area) (b : List ℕ)
    (ofs : ℕ) (t : Super D) : Type 0 where
  pub after : Area
  pub content : List ℕ
  pub opened : Open t i after content
  pub same_segment : after.segno ≡ a.segno
  pub used : after.used_bytes ≡ a.used_bytes + length bytes
  pub read : take (length bytes) (drop a.used_bytes content) ≡ bytes
  pub earlier : take a.used_bytes content ≡ take a.used_bytes b
  pub offset : ofs ≡ (a.segno * s.segsize + a.used_bytes) % u32_mod
  pub valid : IsValid t
  pub only : t ≡ record s { area = t.area }
  pub other : (j : ℕ) → i ≢ j → get_elem? t.area j ≡ get_elem? s.area j

copybuf_lem :
    {S : Type 0} (a : Area) (b src : List ℕ) (s : S)
    → a.buf ≡ some b
    → a.used_bytes + length src ≤ length b
    → copybuf a src s
      ≡ ok
          (record {
            segno = a.segno;
            used_bytes = (a.used_bytes + length src) % u32_mod;
            buf = some (splice b a.used_bytes src);
          })
          s
unfolding copybuf copy_into
copybuf_lem a b src s filled h =
    let copied = memcpy_lem b src a.used_bytes s h in
    ap (λ x. copy_into a x src s) filled ∙ rw copied

module _ {D : Type 0} (env : Env D) where
  -- The area after both copies.
  abbrev stored_area : Area → List ℕ → List ℕ → List ℕ → Area
  stored_area a b header body = record {
    segno = a.segno;
    used_bytes = ((a.used_bytes + length header) % u32_mod + length body) % u32_mod;
    buf =
        some
          (splice (splice b a.used_bytes header) ((a.used_bytes + length header) % u32_mod) body);
  }

  put_object_run :
      (s : Super D)
      → IsValid s
      → (i : ℕ) (a : Area) (b : List ℕ) → Open s i a b
      → (buf : List ℕ) (len type ino bix : ℕ) → len ≤ length buf
      → a.used_bytes + logfs_object_headersize + len ≤ s.segsize
      → put_object env i buf len type ino bix s
        ≡ ok ((a.segno * s.segsize + a.used_bytes) % u32_mod) (
            with_area s i (
              stored_area a b
                (encode_object_header (object_header env buf len type ino bix))
                (take len buf)))
  unfolding put_object get_area set_area
  put_object_run s v i a b o buf len type ino bix enough room =
      let header = encode_object_header (object_header env buf len type ino bix) in
      let f = v.fits i a b o in
      let size : length header ≡ 28 =
        length-encode_object_header (object_header env buf len type ino bix) in
      let size' : length (take len buf) ≡ len = omega (arith, length-take len buf) in
      let first = copybuf_lem a b header s o.filled (omega (arith, f.width)) in
      let second =
        copybuf_lem
          (record {
            segno = a.segno;
            used_bytes = (a.used_bytes + length header) % u32_mod;
            buf = some (splice b a.used_bytes header);
          })
          (splice b a.used_bytes header) (take len buf) s refl
          (omega (
            arith,
            f.width,
            v.small,
            length-splice b a.used_bytes header (omega (arith, f.width)),
          )) in
      rw (o.there, first, second)

  pub put_object-Stored :
      (s : Super D)
      → IsValid s
      → (i : ℕ) (a : Area) (b : List ℕ) → Open s i a b
      → (buf : List ℕ) (len type ino bix : ℕ) → len ≤ length buf
      → a.used_bytes + logfs_object_headersize + len ≤ s.segsize
      → Returns
          (Stored i (object_bytes env buf len type ino bix) s a b)
          (put_object env i buf len type ino bix s)
  put_object-Stored s v i a b o buf len type ino bix enough room =
      let header = encode_object_header (object_header env buf len type ino bix) in
      let body = take len buf in
      let f = v.fits i a b o in
      let size : length header ≡ 28 =
        length-encode_object_header (object_header env buf len type ino bix) in
      let size' : length body ≡ len = omega (arith, length-take len buf) in
      let total : length (header ++ body) ≡ 28 + len = omega (arith, length-append header body) in
      let below : a.used_bytes ≤ length b = omega (arith, f.width) in
      let used1 : (a.used_bytes + length header) % u32_mod ≡ a.used_bytes + length header =
        omega (arith, v.small) in
      let after = stored_area a b header body in
      let content =
        splice (splice b a.used_bytes header) ((a.used_bytes + length header) % u32_mod) body in
      let one : content ≡ splice b a.used_bytes (header ++ body) =
        ap (λ n. splice (splice b a.used_bytes header) n body) used1
        ∙ splice-splice b a.used_bytes below header body in
      let used2 : after.used_bytes ≡ a.used_bytes + length (header ++ body) =
        omega (arith, v.small) in
      let c : Continues s s = record {
        area = refl;
        segsize = refl;
        blocksize = refl;
        taken = omega arith;
        room = v.room;
      } in
      let lt = get_elem?-lt s.area i o.there in
      let fit : Fits (with_area s i after) after content = record {
        width =
            ap length one
            ∙ length-splice b a.used_bytes (header ++ body) (omega (arith, f.width))
            ∙ f.width;
        low = omega (arith, f.low);
        high = omega arith;
        taken = f.taken;
      } in
      rw (put_object_run s v i a b o buf len type ino bix enough room) (record {
        after = after;
        content = content;
        opened = with_area-Open s s v c i lt after content refl;
        same_segment = refl;
        used = used2;
        read = rw one (read-splice b a.used_bytes below (header ++ body));
        earlier = rw one (take-splice b a.used_bytes below (header ++ body));
        offset = refl;
        valid =
            with_area-IsValid s s v c i lt after content refl fit
              (λ j x y ne u. v.apart i j a x b y o u ne);
        only = refl;
        other = with_area_other s s v c i lt after content refl;
      })
