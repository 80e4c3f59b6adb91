-- ===== src/Mkfs/Entries.antt =====
-- What the journal entries of `make_journal` say: `je_anchor`, `je_dynsb`, `je_alias`, `je_commit`.
-- Each gives the type and the bytes that it leaves in the scratch buffer.
use logfsprogs.Common.{
  ℕ, ◌+◌, ◌-◌, ◌*◌, ◌/◌, ◌%◌, ◌^◌, bit_and, bit_or, List, [], ◌∷◌, ◌||◌, not, ◌==◌, ltb,
  if◌then◌else◌, length, replicate,
}
use mathlib.Core.List.{flat_map}
use logfsprogs.Common.Outcome.{Cmd, fault, pure, halt, get, ◌>>=◌}
use logfsprogs.Kerncompat.{u16_mod, be64}
use logfsprogs.Abi.{
  encode_je_anchor, encode_je_dynsb, ObjAlias, encode_obj_alias, SegmentEntry, je_type_anchor,
  je_type_dynsb, je_type_obj_alias, je_type_commit, logfs_reserved_inos, logfs_ino_master,
  logfs_ino_segfile,
}
use logfsprogs.Super.{Super, get_inode}
use logfsprogs.Inodes.{find_or_create_inode}

pub record Entry : Type 0 where
  pub type : ℕ
  pub bytes : List ℕ

-- The aliases from segment `i` on; `ashift` is `blockshift - 3`.
unfoldable pub alias_loop : ℕ → ℕ → List SegmentEntry → List ObjAlias
alias_loop ashift i [] = []
alias_loop ashift i (se ∷ rest) =
    let a : ObjAlias = record {
      ino = logfs_ino_segfile;
      bix = i / 2 ^ ashift;
      val = bit_or (se.ec_level * 2 ^ 32) se.valid;
      level = 0;
      pad = replicate 5 0;
      child_no = bit_and i (2 ^ ashift - 1) % u16_mod;
    } in
    if not (se.ec_level == 0) || not (se.valid == 0)
    then a ∷ alias_loop ashift (i + 1) rest
    else alias_loop ashift (i + 1) rest

module _ {D : Type 0} where
  -- Without memory for the inode the type stays undefined, and the caller reads it.
  unfoldable pub je_anchor : Cmd (Super D) Entry
  unfolding find_or_create_inode get_inode encode_je_anchor
  je_anchor = do
    p ← find_or_create_inode logfs_ino_master
    if p == 0 then halt fault else do
      inode ← get_inode p
      s ← get
      pure (record {
        type = je_type_anchor;
        bytes = encode_je_anchor (record {
          da_size = logfs_reserved_inos * s.blocksize;
          da_last_ino = logfs_reserved_inos;
          da_used_bytes = inode.di.di_used_bytes;
          da_height = 0;
          pad = replicate 7 0;
          da_data = inode.di.di_data;
        });
      })

  unfoldable pub je_dynsb : Cmd (Super D) Entry
  unfolding encode_je_dynsb
  je_dynsb = do
    s ← get
    pure (record {
      type = je_type_dynsb;
      bytes = encode_je_dynsb (record {
        ds_gec = 0x1000;
        ds_sweeper = 0;
        ds_rename_dir = 0;
        ds_rename_pos = 0;
        ds_victim_ino = 0;
        ds_victim_parent = 0;
        ds_used_bytes = s.used_bytes;
        ds_generation = 0;
        pad = 0;
      });
    })

  -- The scratch buffer has two blocks.
  unfoldable pub je_alias : ℕ → Cmd (Super D) Entry
  unfolding alias_loop encode_obj_alias
  je_alias blockshift = do
    s ← get
    let bytes = flat_map encode_obj_alias (alias_loop (blockshift - 3) 0 s.segment_entry)
    if ltb (2 * s.blocksize) (length bytes)
        then halt fault
        else pure (record { type = je_type_obj_alias; bytes = bytes })

  -- `je_array` holds the offsets of the entries so far.
  unfoldable pub je_commit : List ℕ → Cmd (Super D) Entry
  je_commit je_array = pure (record { type = je_type_commit; bytes = flat_map be64 je_array })
