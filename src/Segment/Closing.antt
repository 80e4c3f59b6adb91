-- ===== src/Segment/Closing.antt =====
-- `finish_area` and the test for room in `logfs_segment_write`.
use logfsprogs.Common.{ℕ, ◌+◌, ◌*◌, ◌%◌, ◌<◌, ◌≡◌, ◌≢◌, ◌⊎◌, arith, le→leb, List, length, set}
use logfsprogs.Common.Outcome.{Stop, exit, no_more_free_segments, ok}
use logfsprogs.Kerncompat.{u64_mod}
use logfsprogs.Abi.{SegmentEntry}
use logfsprogs.Super.{Area, Super, Env, set_entry}
use logfsprogs.Segment.{dev_write}
use logfsprogs.Segment.Opening.{Closed}

pub set_entry_lem :
    {D : Type 0} (segno : ℕ) (e : SegmentEntry) (s : Super D)
    → segno < length s.segment_entry
    → set_entry segno e s ≡ ok tt (record s { segment_entry = set s.segment_entry segno e })
unfolding set_entry
set_entry_lem segno e s h = rw (le→leb (segno + 1) (length s.segment_entry) (omega arith))

abbrev pub NoMore : Stop → Type 0
NoMore r = r ≡ exit no_more_free_segments

module _ {D : Type 0} (env : Env D) where
  abbrev write_result : Super D → Area → List ℕ → ℕ × D
  write_result s a b = env.dev_write (a.segno * s.segsize % u64_mod) s.segsize b s.dev

  -- A failed write of the buffer: its error, and nothing else changed but the device.
  pub record WriteFailed (s : Super D) (a : Area) (b : List ℕ) (e : ℕ) (t : Super D) : Type 0 where
    pub failed : e ≢ 0
    pub result : e ≡ (write_result s a b).0
    pub frame : t ≡ record s { dev = (write_result s a b).1 }

  abbrev pub Finished : ℕ → ℕ → Super D → Area → List ℕ → ℕ → Super D → Type 0
  Finished i level s a b e t = ((e ≡ 0) × Closed env i level s a b t) ⊎ WriteFailed s a b e t
