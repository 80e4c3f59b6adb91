-- ===== src/Sound/Objects.antt =====
-- Objects put into areas, the bytes of their inodes, and the flush of the areas.
use logfsprogs.Common.{
  ℕ, zero, suc, ◌+◌, ◌-◌, ◌%◌, ◌≤◌, ◌<◌, ◌≡◌, refl, sym, ap, ◌∙◌, arith, Bool-cases, Option-cases,
  inl, inr, List, none, some, Option, not, ◌==◌, ltb, leb, leb→le, true, false, get_elem?-lt,
  length, length-splice, splice, take,
}
use mathlib.Core.Path.{subst}
use logfsprogs.Common.Outcome.{Ends, stop, pure, fault, halt, value, error}
use logfsprogs.Common.Keeps.{
  AnyStop, Keeps, Safe-bind, Keeps-bind, Keeps-then, Keeps-if, Keeps-result,
}
use logfsprogs.Kerncompat.{u16_mod, u32_mod, u64_mod}
use logfsprogs.Abi.{
  encode_object_header, logfs_object_headersize, logfs_no_areas, obj_dentry, obj_inode, obj_block,
}
use logfsprogs.Super.{Super, Area, Env, Inode, set_area, set_inode}
use logfsprogs.Inodes.{find_or_create_inode}
use logfsprogs.Segment.{
  memcpy, copybuf, copy_into, object_header, area_level, init_area, finish_area, grow_inode,
  obj_len, make_room, put_object, store_object, logfs_segment_write, flush_segments, flush_loop,
  flush_buf,
}
use logfsprogs.Segment.Areas.{Open, with_area, Continues, with_area-IsValid}
use logfsprogs.Sound.{Sound, Sound-same, IsValid-of_core, total-set}
use logfsprogs.Sound.Inodes.{find_or_create_inode-Keeps, change_inode}
use logfsprogs.Sound.Segments.{at_area, with_area-Sound, init_area-Keeps, finish_area-Keeps}

-- An area after bytes were copied behind its fill: within a buffer as long as before.
pub record Filled {S : Type 0} (w : ℕ) (s : S) (a c : Area) (t : S) : Type 0 where
  pub content : List ℕ
  pub buffer : c.buf ≡ some content
  pub width : length content ≡ w
  pub segment : c.segno ≡ a.segno
  pub grown : a.used_bytes ≤ c.used_bytes
  pub inside : c.used_bytes ≤ w
  pub same : t ≡ s

memcpy_step :
    {S : Type 0} (a : Area) (b src : List ℕ) (s : S)
    → length b < u32_mod
    → Ends (Filled (length b) s a) AnyStop (copy_into a (some b) src s)
unfolding copy_into memcpy
memcpy_step a b src s small = elim (Bool-cases (leb (a.used_bytes + length src) (length b))) [
  | inr outside ↦ rw outside tt
  | inl fits ↦
      let le = leb→le (a.used_bytes + length src) (length b) fits in
      rw fits (record {
        content = splice b a.used_bytes src;
        buffer = refl;
        width = length-splice b a.used_bytes src le;
        segment = refl;
        grown = omega arith;
        inside = omega arith;
        same = refl;
      })
]

copybuf-Filled :
    {S : Type 0} (a : Area) (b src : List ℕ) (s : S)
    → a.buf ≡ some b
    → length b < u32_mod
    → Ends (Filled (length b) s a) AnyStop (copybuf a src s)
unfolding copybuf
copybuf-Filled a b src s e small =
    subst (λ o. Ends (Filled (length b) s a) AnyStop (copy_into a o src s)) (sym e)
      (memcpy_step a b src s small)

copybuf_closed :
    {S : Type 0} (a : Area) (src : List ℕ) (s : S) → a.buf ≡ none → copybuf a src s ≡ stop fault
unfolding copybuf copy_into
copybuf_closed a src s e = ap (λ o. copy_into a o src s) e

-- Two copies, one behind the other, are within the buffer too.
Filled-trans :
    {S : Type 0} (w : ℕ) (s t u : S) (a c d : Area)
    → Filled w s a c t
    → Filled w t c d u
    → Filled w s a d s
Filled-trans w s t u a c d f g = record {
  content = g.content;
  buffer = g.buffer;
  width = g.width;
  segment = g.segment ∙ f.segment;
  grown = omega (arith, f.grown, g.grown);
  inside = g.inside;
  same = refl;
}

module _ {D : Type 0} (env : Env D) (n z : ℕ) (d0 : D) where
  abbrev Inv : Super D → Type 0
  Inv = Sound env n z d0

  set_area-Sound :
      (s : Super D)
      → Inv s
      → (i : ℕ) (a c : Area) (b : List ℕ) → Open s i a b
      → Filled (length b) s a c s
      → Inv (with_area s i c)
  set_area-Sound s v i a c b o f =
      let valid = IsValid-of_core s v.valid in
      let fit = valid.fits i a b o in
      let go : Continues s s = record {
        area = refl;
        segsize = refl;
        blocksize = refl;
        taken = omega arith;
        room = valid.room;
      } in
      with_area-Sound env n z d0 s v i c (
        with_area-IsValid s s valid go i (get_elem?-lt s.area i o.there) c f.content f.buffer
          (record {
            width = f.width ∙ fit.width;
            low = omega (arith, fit.low, f.grown);
            high = omega (arith, fit.width, f.inside);
            taken = omega (arith, fit.taken, f.segment);
          })
          (λ j x y ne u h. valid.apart i j a x b y o u ne (sym f.segment ∙ h)))

  pub put_object-Keeps :
      (i : ℕ) (buf : List ℕ) (len type ino bix : ℕ)
      → Keeps Inv (put_object env i buf len type ino bix)
  unfolding put_object set_area
  put_object-Keeps i buf len type ino bix s v = at_area env n z d0 i _ s (λ a found.
      elim (Option-cases a.buf) [
        | inl closed ↦
            rw
              (copybuf_closed a (encode_object_header (object_header env buf len type ino bix)) s
                closed)
              tt
        | inr (b, filled) ↦
            let valid = IsValid-of_core s v.valid in
            let o : Open s i a b = record { there = found; filled = filled } in
            let small : length b < u32_mod =
              omega (arith, (valid.fits i a b o).width, valid.small) in
            Safe-bind Inv (Filled (length b) s a)
              (copybuf a (encode_object_header (object_header env buf len type ino bix)) s) _
              (copybuf-Filled a b _ s filled small)
              (λ c t f.
                Safe-bind Inv (Filled (length b) t c) (copybuf c (take len buf) t) _
                  (subst (λ w. Ends (Filled w t c) AnyStop (copybuf c (take len buf) t)) f.width
                    (copybuf-Filled c f.content (take len buf) t f.buffer (omega (arith, f.width))))
                  (λ d u g.
                    subst (λ x. Inv (with_area x i d)) (sym (g.same ∙ f.same))
                      (set_area-Sound s v i a d b o (Filled-trans (length b) s t u a c d f g))))
      ])

  pub make_room-Keeps : (i level : ℕ) → Keeps Inv (make_room env i level)
  unfolding make_room
  make_room-Keeps i level s v = at_area env n z d0 i _ s (λ a found.
      Keeps-if Inv (ltb s.segsize (a.used_bytes + logfs_object_headersize + s.blocksize))
        (finish_area env i false level) (pure 0) (finish_area-Keeps env n z d0 i false level)
        (λ _ w. w) s v)

  pub store_object-Keeps :
      (i : ℕ) (buf : List ℕ) (len type ino bix : ℕ)
      → Keeps Inv (store_object env i buf len type ino bix)
  unfolding store_object
  store_object-Keeps i buf len type ino bix =
      Keeps-then Inv (init_area env i i) _ (init_area-Keeps env n z d0 i i) (
        Keeps-bind Inv (make_room env i i) _ (make_room-Keeps i i) (λ err.
          Keeps-if Inv (not (err == 0)) (pure (error err)) _ (λ _ w. w)
            (Keeps-bind Inv (put_object env i buf len type ino bix) _
              (put_object-Keeps i buf len type ino bix) (λ ofs. λ _ w. w))))

  -- The inode's bytes and the file system's count grow by one number.
  pub grow_inode-Keeps : (ino len : ℕ) → Keeps Inv (grow_inode ino len)
  unfolding grow_inode set_inode
  grow_inode-Keeps ino len =
      Keeps-bind Inv (find_or_create_inode ino) _ (find_or_create_inode-Keeps env n z d0 ino) (λ p.
        Keeps-if Inv (p == 0) (pure _) _ (λ _ w. w)
          (λ s v. change_inode env n z d0 p _ s v (λ x found.
            let y : Inode = record x {
              di = record (x.di) { di_used_bytes = (len + x.di.di_used_bytes) % u64_mod };
            } in
            Sound-same env n z d0 s _ v refl
              (omega (arith, total-set s.inodes (p - 1) x y found, v.bytes)) refl)))

  pub obj_len-Keeps : (type : ℕ) → Keeps Inv (obj_len type)
  unfolding obj_len
  obj_len-Keeps type s v = elim (Bool-cases (type == obj_dentry)) [
    | inl dentry ↦ rw dentry v
    | inr not_dentry ↦ rw not_dentry (elim (Bool-cases (type == obj_inode)) [
      | inl inode ↦ rw inode v
      | inr not_inode ↦ rw not_inode (elim (Bool-cases (type == obj_block)) [
        | inl block ↦ rw block v
        | inr other ↦ rw other tt
      ])
    ])
  ]

  -- Whatever object is written: the state stays sound.
  pub logfs_segment_write-Keeps :
      (buf : List ℕ) (type ino bix level : ℕ)
      → Keeps Inv (logfs_segment_write env buf type ino bix level)
  unfolding logfs_segment_write
  logfs_segment_write-Keeps buf type ino bix level =
      Keeps-bind Inv (obj_len type) _ (obj_len-Keeps type) (λ l.
        Keeps-if Inv (ltb (length buf) (l % u16_mod)) (halt fault) _ (λ _ _. tt)
          (Keeps-bind Inv (store_object env (area_level ino level) buf (l % u16_mod) type ino bix) _
            (store_object-Keeps (area_level ino level) buf (l % u16_mod) type ino bix)
            (Keeps-result Inv _ _ (λ e. λ _ w. w)
              (λ ofs.
                Keeps-bind Inv (grow_inode ino (logfs_object_headersize + l % u16_mod)) _
                  (grow_inode-Keeps ino (logfs_object_headersize + l % u16_mod))
                  (λ err.
                    Keeps-if Inv (err == 0) (pure (value ofs)) (pure (error err)) (λ _ w. w)
                      (λ _ w. w))))))

  flush_buf-Keeps : (i : ℕ) (o : Option (List ℕ)) → Keeps Inv (flush_buf env i o)
  unfolding flush_buf
  flush_buf-Keeps i none s v = v
  flush_buf-Keeps i (some b) s v = finish_area-Keeps env n z d0 i true i s v

  flush_loop-Keeps : (r i : ℕ) → Keeps Inv (flush_loop env r i)
  unfolding flush_loop
  flush_loop-Keeps zero i s v = v
  flush_loop-Keeps (suc r) i s v = at_area env n z d0 i _ s (λ a found.
      Keeps-bind Inv (flush_buf env i a.buf) _ (flush_buf-Keeps i a.buf)
        (λ err.
          Keeps-if Inv (err == 0) (flush_loop env r (i + 1)) (pure err) (flush_loop-Keeps r (i + 1))
            (λ _ w. w))
        s v)

  pub flush_segments-Keeps : Keeps Inv (flush_segments env)
  unfolding flush_segments
  flush_segments-Keeps = flush_loop-Keeps logfs_no_areas 0

  -- From a state that satisfies the invariant, `logfs_segment_write` of any object ends in one that
  -- does, or the program stops, as for a buffer shorter than the object.
  pub logfs_segment_write-Sound :
      (buf : List ℕ) (type ino bix level : ℕ) (s : Super D)
      → Sound env n z d0 s
      → Ends (λ _ t. Sound env n z d0 t) AnyStop (logfs_segment_write env buf type ino bix level s)
  logfs_segment_write-Sound buf type ino bix level =
      logfs_segment_write-Keeps buf type ino bix level
