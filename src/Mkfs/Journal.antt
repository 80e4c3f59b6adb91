-- ===== src/Mkfs/Journal.antt =====
-- The journal's first segment: headers, compression, and the sequence of entries.
use logfsprogs.Common.{
  ℕ, ◌+◌, ◌-◌, ◌*◌, ◌%◌, Bool, ◌&&◌, List, [], ◌∷◌, ◌++◌, ◌||◌, not, ◌==◌, ltb, if◌then◌else◌,
  length, drop, replicate, get_elem?,
}
use logfsprogs.Common.Outcome.{Cmd, abort, pure, halt, get, Errno, ◌>>=◌}
use logfsprogs.Kerncompat.{u16_mod, u32_mod, u64_mod, align}
use logfsprogs.Abi.{
  SegmentHeader, encode_segment_header, JournalHeader, encode_journal_header, je_type_commit,
  compr_none, compr_zlib, seg_journal, logfs_segment_headersize,
}
use logfsprogs.Super.{Super, Env, logfs_crc32, some_or_fault}
use logfsprogs.Segment.{memcpy, dev_write}
use logfsprogs.Mkfs.Entries.{Entry, je_anchor, je_dynsb, je_alias, je_commit}

-- What zlib left in the output buffer, and whether `deflateInit`, `deflate` and `deflateEnd` all
-- went well. `total_out` is the number of bytes.
pub record Deflated : Type 0 where
  pub done : Bool
  pub out : List ℕ

-- `deflate input avail_out`
abbrev pub Zlib : Type 0
Zlib = List ℕ → ℕ → Deflated

-- `logfs_compress` succeeds only where the output is smaller.
unfoldable pub is_smaller : List ℕ → Deflated → Bool
is_smaller input d = d.done && ltb (length d.out) (length input)

abbrev pub journal_headersize : ℕ
journal_headersize = 16

-- `__write_header` at `pos`: the size of the entry with its padding, and the journal
unfoldable pub write_header :
    {S D : Type 0} → Env D → List ℕ → ℕ → ℕ → ℕ → ℕ → ℕ → Cmd S (ℕ × List ℕ)
unfolding memcpy logfs_crc32 encode_journal_header align
write_header env journal pos len datalen type compr = do
  let h : JournalHeader = record {
    h_crc = 0;
    h_len = len % u16_mod;
    h_datalen = datalen % u16_mod;
    h_type = type;
    h_compr = compr;
    h_pad = 0x68 ∷ 0x65 ∷ 0x61 ∷ 0x64 ∷ 0x72 ∷ [];
  }
  j ← memcpy journal pos (encode_journal_header h)
  let crc = logfs_crc32 env (drop pos j) (len + journal_headersize) 4
  j' ← memcpy j pos (encode_journal_header (record h { h_crc = crc }))
  pure (align len 16 + journal_headersize, j')

-- `set_segment_header(sh, type, level, segno)`
unfoldable pub set_segment_header : {D : Type 0} → Env D → ℕ → ℕ → ℕ → SegmentHeader
unfolding logfs_crc32 encode_segment_header
set_segment_header env type level segno =
    let h : SegmentHeader = record {
      crc = 0;
      pad = 0;
      type = type;
      level = level;
      segno = segno;
      ec = 0;
      gec = segno;
    } in
    record h { crc = logfs_crc32 env (encode_segment_header h) logfs_segment_headersize 4 }

-- The journal as it grows: its bytes, `jpos`, and `je_array`.
pub record Journal : Type 0 where
  pub bytes : List ℕ
  pub jpos : ℕ
  pub je_array : List ℕ

module _ {D : Type 0} (env : Env D) (deflate : Zlib) where
  -- The body of `write_je` from `max` on. Past the first block `max` is negative: zlib gets it as the
  -- 32-bit `avail_out`, and `BUG_ON(len > max)` holds of any length.
  unfoldable pub write_data : List ℕ → ℕ → ℕ → Entry → Cmd (Super D) (ℕ × List ℕ)
  unfolding is_smaller write_header memcpy
  write_data journal pos blocksize e = do
    let d = deflate e.bytes ((blocksize + u64_mod - pos) % u32_mod)
    j ← memcpy journal (pos + journal_headersize) d.out
    let plain = not (is_smaller e.bytes d) || (e.type == je_type_commit)
    if plain && ltb blocksize (pos + length e.bytes) then halt abort else do
      let bytes = if plain then e.bytes else d.out
      j1 ← memcpy j (pos + journal_headersize) bytes
      j2 ←
          memcpy j1 (pos + journal_headersize + length bytes)
            (replicate (align (length bytes) 16 - length bytes) 0)
      write_header env j2 pos (length bytes) (length e.bytes) e.type
          (if plain then compr_none else compr_zlib)

  unfoldable pub write_je : Journal → ℕ → Cmd (Super D) Entry → Cmd (Super D) Journal
  unfolding write_data
  write_je j segno write = do
    e ← write
    s ← get
    let offsets =
        if e.type == je_type_commit
        then j.je_array
        else j.je_array ++ (segno * s.segsize + j.jpos) % u64_mod ∷ []
    (size, bytes) ←
        if length e.bytes == 0
        then write_header env j.bytes j.jpos 0 0 e.type compr_none
        else write_data j.bytes j.jpos s.blocksize e
    pure (record { bytes = bytes; jpos = j.jpos + size; je_array = offsets })

  -- The journal's bytes, before they are written.
  unfoldable pub build_journal : ℕ → ℕ → Cmd (Super D) Journal
  unfolding write_je memcpy align set_segment_header je_anchor je_dynsb je_alias je_commit
  build_journal blockshift seg = do
    s ← get
    j ←
        memcpy (replicate s.segsize 0) 0
          (encode_segment_header (set_segment_header env seg_journal 0 seg))
    a ←
        write_je (record { bytes = j; jpos = align logfs_segment_headersize 16; je_array = [] }) seg
          je_anchor
    b ← write_je a seg je_dynsb
    c ← write_je b seg (je_alias blockshift)
    write_je c seg (je_commit c.je_array)

  -- The write's offset is a product of two 32-bit numbers.
  unfoldable pub make_journal : ℕ → Cmd (Super D) Errno
  unfolding build_journal dev_write
  make_journal blockshift = do
    s ← get
    seg ← some_or_fault (get_elem? s.journal_seg 0)
    j ← build_journal blockshift seg
    dev_write env (seg * s.segsize % u32_mod) s.segsize j.bytes
