-- ===== src/Segment.antt =====
-- `segment.c`: segments are taken from the device in order, each area fills one segment at a time
-- with objects, and a full segment is written out.
pub mod Alloc
pub mod Areas
pub mod Opening
pub mod Closing
pub mod Object
pub mod Store
pub mod Flush
use logfsprogs.Common.{
  ℕ, zero, suc, ◌+◌, ◌-◌, ◌*◌, ◌%◌, List, [], ◌∷◌, ◌++◌, Bool, true, false, Option, none, some,
  ◌==◌, ltb, leb, not, if◌then◌else◌, length, splice, replicate, take,
}
use logfsprogs.Common.Outcome.{
  Cmd, ok, stop, exit, no_more_free_segments, abort, fault, out_of_fuel, pure, halt, get, put,
  Errno, enomem, Result, value, error, ◌>>=◌, ◌>>◌,
}
use logfsprogs.Kerncompat.{u8_mod, u16_mod, u32_mod, u64_mod}
use logfsprogs.Abi.{
  SegmentHeader, encode_segment_header, ObjectHeader, encode_object_header, SegmentEntry, badseg,
  reserved, seg_ostore, compr_none, obj_block, obj_inode, obj_dentry, logfs_segment_headersize,
  logfs_object_headersize, logfs_max_levels, logfs_no_areas, logfs_ino_master,
}
use logfsprogs.Super.{
  Area, Super, Env, logfs_crc32, ec_level, set_entry, get_area, set_area, get_inode, set_inode,
}
use logfsprogs.Inodes.{find_or_create_inode}

-- `memcpy(buf + ofs, src, len)`, a fault where it leaves the buffer
unfoldable pub memcpy : {S : Type 0} → List ℕ → ℕ → List ℕ → Cmd S (List ℕ)
memcpy buf ofs src =
    if leb (ofs + length src) (length buf) then pure (splice buf ofs src) else halt fault

unfoldable pub copy_into : {S : Type 0} → Area → Option (List ℕ) → List ℕ → Cmd S Area
unfolding memcpy
copy_into area none src = halt fault
copy_into area (some b) src = do
  b' ← memcpy b area.used_bytes src
  pure (record area { used_bytes = (area.used_bytes + length src) % u32_mod; buf = some b' })

-- `copybuf(area, buf, len)`, a fault at a NULL buffer
unfoldable pub copybuf : {S : Type 0} → Area → List ℕ → Cmd S Area
unfolding copy_into
copybuf area src = copy_into area area.buf src

-- The two entries of a bad segment.
abbrev pub bad_entry : SegmentEntry
bad_entry = record { ec_level = badseg; valid = reserved }

-- `sh->crc` is set last, over the header behind it.
unfoldable pub area_header : {D : Type 0} → Env D → ℕ → ℕ → SegmentHeader
unfolding logfs_crc32 encode_segment_header
area_header env segno level =
    let h : SegmentHeader = record {
      crc = 0;
      pad = 0;
      type = seg_ostore;
      level = level;
      segno = segno;
      ec = 1;
      gec = segno;
    } in
    record h { crc = logfs_crc32 env (encode_segment_header h) logfs_segment_headersize 4 }

unfoldable pub object_header : {D : Type 0} → Env D → List ℕ → ℕ → ℕ → ℕ → ℕ → ObjectHeader
unfolding logfs_crc32 encode_object_header
object_header env buf len type ino bix =
    let h : ObjectHeader = record {
      crc = 0;
      len = len;
      type = type;
      compr = compr_none;
      ino = ino;
      bix = bix;
      data_crc = 0;
    } in
    record h {
      crc = logfs_crc32 env (encode_object_header h) (logfs_object_headersize - 4) 4;
      data_crc = logfs_crc32 env buf len 0;
    }

-- The 8-bit `level` after `level += LOGFS_MAX_LEVELS` for the inode file
unfoldable pub area_level : ℕ → ℕ → ℕ
area_level ino level =
    if ino == logfs_ino_master then (level + logfs_max_levels) % u8_mod else level

module _ {D : Type 0} where
  -- One round of the loop in `get_segment`, behind the test for the end of the device.
  unfoldable pub get_segment_loop : Env D → ℕ → Cmd (Super D) ℕ
  unfolding set_entry
  get_segment_loop env zero s = stop out_of_fuel
  get_segment_loop env (suc f) s =
      let segno = s.lastseg in
      let s1 = record s { lastseg = (s.lastseg + 1) % u32_mod } in
      let (err, dev') = env.dev_erase (segno * s.segsize % u64_mod) s.segsize s.dev in
      let bad = (set_entry segno bad_entry >> get_segment_loop env f) (record s1 { dev = dev' }) in
      if ltb s1.no_segs s1.lastseg
      then stop (exit no_more_free_segments)
      else if err == 0
      then ok segno (record s1 { dev = dev' })
      else bad

  -- Each round takes a segment, so one round more than there are segments left is enough.
  unfoldable pub get_segment : Env D → Cmd (Super D) ℕ
  unfolding get_segment_loop
  get_segment env s = get_segment_loop env (s.no_segs - s.lastseg + 1) s

  -- `__init_area`
  unfoldable pub reset_area : Env D → ℕ → ℕ → Cmd (Super D) (Unit {0})
  unfolding get_segment memcpy area_header set_area
  reset_area env i level = do
    s ← get
    segno ← get_segment env
    b ← memcpy (replicate s.segsize 0xff) 0 (encode_segment_header (area_header env segno level))
    set_area i (record { segno = segno; used_bytes = logfs_segment_headersize; buf = some b })

  -- `if (area->buf) return;`
  unfoldable pub init_buf : Env D → ℕ → ℕ → Option (List ℕ) → Cmd (Super D) (Unit {0})
  init_buf env i level (some b) = pure tt
  init_buf env i level none = reset_area env i level

  unfoldable pub init_area : Env D → ℕ → ℕ → Cmd (Super D) (Unit {0})
  unfolding get_area reset_area init_buf
  init_area env i level = do a ← get_area i; init_buf env i level a.buf

  -- `sb->dev_ops->write(sb, ofs, size, buf)`
  unfoldable pub dev_write : Env D → ℕ → ℕ → List ℕ → Cmd (Super D) Errno
  dev_write env ofs size buf s =
      let (err, dev') = env.dev_write ofs size buf s.dev in ok err (record s { dev = dev' })

  -- `finish_area` behind the write of the buffer
  unfoldable pub finish_entry : Env D → ℕ → Area → Bool → ℕ → Cmd (Super D) Errno
  unfolding set_entry
  finish_entry env i a final level = do
    set_entry a.segno (record {
      ec_level = ec_level 1 level;
      valid = (a.used_bytes + u32_mod - logfs_segment_headersize) % u32_mod;
    })
    if final then pure 0 else (do reset_area env i level; pure 0)

  -- The write of the buffer; a NULL buffer would be read by the device.
  unfoldable pub finish_buf : Env D → ℕ → Area → Option (List ℕ) → Bool → ℕ → Cmd (Super D) Errno
  unfolding dev_write finish_entry
  finish_buf env i a none final level = halt fault
  finish_buf env i a (some b) final level = do
    s ← get
    err ← dev_write env (a.segno * s.segsize % u64_mod) s.segsize b
    if err == 0 then finish_entry env i a final level else pure err

  unfoldable pub finish_area : Env D → ℕ → Bool → ℕ → Cmd (Super D) Errno
  unfolding get_area finish_buf
  finish_area env i final level = do a ← get_area i; finish_buf env i a a.buf final level

  -- `di_used_bytes` and the file system's count grow together.
  unfoldable pub grow_inode : ℕ → ℕ → Cmd (Super D) Errno
  unfolding get_inode set_inode
  grow_inode ino len = do
    p ← find_or_create_inode ino
    if p == 0 then pure enomem else do
      inode ← get_inode p
      set_inode p (record inode {
        di = record (inode.di) { di_used_bytes = (len + inode.di.di_used_bytes) % u64_mod };
      })
      s ← get
      put (record s { used_bytes = (s.used_bytes + len) % u64_mod })
      pure 0

  unfoldable pub obj_len : ℕ → Cmd (Super D) ℕ
  obj_len type s =
      if type == obj_dentry
      then ok 266 s
      else if type == obj_inode
      then ok 200 s
      else if type == obj_block
      then ok s.blocksize s
      else stop abort

  -- `if (area->used_bytes + sizeof(oh) + sb->blocksize > sb->segsize)`, the sum in 64 bits
  unfoldable pub make_room : Env D → ℕ → ℕ → Cmd (Super D) Errno
  unfolding get_area finish_area
  make_room env i level = do
    a ← get_area i
    s ← get
    if ltb s.segsize (a.used_bytes + logfs_object_headersize + s.blocksize)
        then finish_area env i false level
        else pure 0

  -- The object itself: the offset, in 32 bits as in the source, the header and the data.
  unfoldable pub put_object : Env D → ℕ → List ℕ → ℕ → ℕ → ℕ → ℕ → Cmd (Super D) ℕ
  unfolding get_area copybuf object_header set_area
  put_object env i buf len type ino bix = do
    a ← get_area i
    s ← get
    a1 ← copybuf a (encode_object_header (object_header env buf len type ino bix))
    a2 ← copybuf a1 (take len buf)
    set_area i a2
    pure ((a.segno * s.segsize + a.used_bytes) % u32_mod)

  -- The middle of `logfs_segment_write`, from `init_area` to the second `copybuf`
  unfoldable pub store_object : Env D → ℕ → List ℕ → ℕ → ℕ → ℕ → ℕ → Cmd (Super D) (Result ℕ)
  unfolding init_area make_room put_object
  store_object env i buf len type ino bix = do
    init_area env i i
    err ← make_room env i i
    if not (err == 0)
        then pure (error err)
        else do ofs ← put_object env i buf len type ino bix; pure (value ofs)

  -- A buffer shorter than the object is read past its end.
  unfoldable pub logfs_segment_write : Env D → List ℕ → ℕ → ℕ → ℕ → ℕ → Cmd (Super D) (Result ℕ)
  unfolding obj_len area_level store_object grow_inode
  logfs_segment_write env buf type ino bix level = do
    l ← obj_len type
    let len = l % u16_mod
    if ltb (length buf) len then halt fault else do
      r ← store_object env (area_level ino level) buf len type ino bix
      elim r [
        | error e ↦ pure (error e)
        | value ofs ↦ (do
          err ← grow_inode ino (logfs_object_headersize + len)
          if err == 0 then pure (value ofs) else pure (error err))
      ]

  -- `if (area->buf)` in `flush_segments`
  unfoldable pub flush_buf : Env D → ℕ → Option (List ℕ) → Cmd (Super D) Errno
  flush_buf env i none = pure 0
  flush_buf env i (some b) = finish_area env i true i

  -- The loop from area `i` on, with `r` rounds left
  unfoldable pub flush_loop : Env D → ℕ → ℕ → Cmd (Super D) Errno
  unfolding get_area finish_area flush_buf
  flush_loop env zero i = pure 0
  flush_loop env (suc r) i = do
    a ← get_area i
    err ← flush_buf env i a.buf
    if err == 0 then flush_loop env r (i + 1) else pure err

  unfoldable pub flush_segments : Env D → Cmd (Super D) Errno
  unfolding flush_loop
  flush_segments env = flush_loop env logfs_no_areas 0
