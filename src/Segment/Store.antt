-- ===== src/Segment/Store.antt =====
-- The middle of `logfs_segment_write` as a whole: an object finds room in its area.
use logfsprogs.Common.{ℕ, ◌+◌, ◌<◌, ◌≡◌, ◌⊎◌, ◌==◌, List, not, if◌then◌else◌}
use logfsprogs.Common.Outcome.{Cmd, pure, ◌>>=◌, Result, value, error}
use logfsprogs.Abi.{logfs_object_headersize}
use logfsprogs.Super.{Area, Super, Env}
use logfsprogs.Segment.{put_object}
use logfsprogs.Segment.Areas.{Open, Refreshed, Kept}
use logfsprogs.Segment.Opening.{Closed}
use logfsprogs.Segment.Closing.{WriteFailed}
use logfsprogs.Segment.Object.{Stored}

-- Area `i` had too little room for another block.
abbrev pub IsFull : {D : Type 0} → Super D → Area → Type 0
IsFull s a = s.segsize < a.used_bytes + logfs_object_headersize + s.blocksize

-- The state `u` in which the object is put down, from `s`: `s` itself, `s` with the area's first
-- segment, or `s` with the full area written out and a fresh segment for it.
abbrev pub From : {D : Type 0} → Env D → ℕ → Super D → Super D → Type 0
From env i s u =
    (u ≡ s)
    ⊎ ((Refreshed i s u × Kept s u)
        ⊎ ((a : Area) × (b : List ℕ) × Open s i a b × IsFull s a × Closed env i i s a b u))

-- The two results: the object stands in the area, or the write of the full area failed.
abbrev pub Placed : {D : Type 0} → Env D → ℕ → List ℕ → Super D → Result ℕ → Super D → Type 0
Placed {D} env i bytes s (value ofs) t =
    (u : Super D) × (a : Area) × (b : List ℕ) × From env i s u × Stored i bytes u a b ofs t
Placed env i bytes s (error e) t =
    (a : Area) × (b : List ℕ) × Open s i a b × IsFull s a × WriteFailed env s a b e t

module _ {D : Type 0} (env : Env D) where
  -- `put_object` as the last step.
  abbrev finish_store : ℕ → List ℕ → ℕ → ℕ → ℕ → ℕ → ℕ → Cmd (Super D) (Result ℕ)
  finish_store i buf len type ino bix err =
      if not (err == 0)
      then pure (error err)
      else do ofs ← put_object env i buf len type ino bix; pure (value ofs)
