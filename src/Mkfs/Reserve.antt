-- ===== src/Mkfs/Reserve.antt =====
-- The segments that `prepare_journal` reserves.
use logfsprogs.Common.{
  ℕ, zero, suc, ◌+◌, ◌≤◌, ◌<◌, ◌≡◌, inl, inr, refl, sym, ap, ◌∙◌, arith, true, ◌==◌, ltb,
  Bool-cases, length, get_or, set, length-set, get_or-set_self, get_or-set_ne,
}
use logfsprogs.Common.Outcome.{Ends, Ends-bind, Ends-mono}
use logfsprogs.Abi.{SegmentEntry}
use logfsprogs.Super.{Super, Env}
use logfsprogs.Segment.{get_segment}
use logfsprogs.Segment.Alloc.{Taken, Exhausted, HasRoom, get_segment-first_good}
use logfsprogs.Segment.Closing.{set_entry_lem, NoMore}
use logfsprogs.Mkfs.Prepare.{reserved_entry, set_journal_seg, prepare_loop, prepare_journal}

-- From state `s` to `t`, elements `i` up to `i + r` of `journal_seg` were filled.
pub record Reserved {D : Type 0} (i r : ℕ) (s t : Super D) : Type 0 where
  pub room : HasRoom t
  pub later : s.lastseg ≤ t.lastseg
  pub kept_seg : (q : ℕ) → q < i → get_or t.journal_seg q 0 ≡ get_or s.journal_seg q 0
  pub kept_entry :
      (q : ℕ) (d : SegmentEntry)
      → q < s.lastseg
      → get_or t.segment_entry q d ≡ get_or s.segment_entry q d
  pub low : (k : ℕ) → i ≤ k → k < i + r → s.lastseg ≤ get_or t.journal_seg k 0
  pub high : (k : ℕ) → i ≤ k → k < i + r → get_or t.journal_seg k 0 < t.lastseg
  pub entry :
      (k : ℕ) (d : SegmentEntry)
      → i ≤ k
      → k < i + r
      → get_or t.segment_entry (get_or t.journal_seg k 0) d ≡ reserved_entry
  pub rising :
      (k m : ℕ) → i ≤ k → k < m → m < i + r → get_or t.journal_seg k 0 < get_or t.journal_seg m 0

module _ {D : Type 0} (env : Env D) where
  -- The state behind one round.
  abbrev after_round : ℕ → ℕ → Super D → Super D
  after_round i segno u = record u {
    journal_seg = set u.journal_seg i segno;
    segment_entry = set u.segment_entry segno reserved_entry;
  }

  after_round-HasRoom :
      (s : Super D)
      → HasRoom s
      → (i segno : ℕ) (u : Super D) → Taken env s segno u
      → HasRoom (after_round i segno u)
  after_round-HasRoom s v i segno u taken =
      let n : u.no_segs ≡ s.no_segs = ap (λ x. x.no_segs) taken.frame in
      record {
        last = omega (arith, taken.next, taken.inside);
        small = omega (arith, v.small);
        entries = length-set u.segment_entry segno reserved_entry ∙ taken.width ∙ v.entries ∙ sym n;
      }

  Reserved-round :
      (s : Super D)
      → HasRoom s
      → (i r segno : ℕ) (u t : Super D) → Taken env s segno u
      → i < length s.journal_seg
      → Reserved (i + 1) r (after_round i segno u) t
      → Reserved i (suc r) s t
  Reserved-round s v i r segno u t taken lt f =
      let j : u.journal_seg ≡ s.journal_seg = ap (λ x. x.journal_seg) taken.frame in
      let mine : get_or t.journal_seg i 0 ≡ segno =
        f.kept_seg i (omega arith)
        ∙ get_or-set_self u.journal_seg i segno 0 (omega (arith, ap length j)) in
      record {
        room = f.room;
        later = omega (arith, f.later, taken.next, taken.before);
        kept_seg = λ q h.
            f.kept_seg q (omega arith)
            ∙ get_or-set_ne u.journal_seg i q segno 0 (λ e. absurd (omega arith))
            ∙ ap (λ x. get_or x q 0) j;
        kept_entry = λ q d h.
            f.kept_entry q d (omega (arith, taken.next, taken.before))
            ∙ get_or-set_ne u.segment_entry segno q reserved_entry d
                (λ e. absurd (omega (arith, taken.before)))
            ∙ taken.kept q d (inl h);
        low = λ k a b. elim (Bool-cases (k == i)) [
          | inl same ↦ let e : k ≡ i = ground arith in rw e (omega (arith, taken.before))
          | inr other ↦
              omega (arith, f.low k (ground arith) (omega arith), taken.next, taken.before)
        ];
        high = λ k a b. elim (Bool-cases (k == i)) [
          | inl same ↦ let e : k ≡ i = ground arith in rw e (omega (arith, f.later, taken.next))
          | inr other ↦ f.high k (ground arith) (omega arith)
        ];
        entry = λ k d a b. elim (Bool-cases (k == i)) [
          | inl same ↦
              let e : k ≡ i = ground arith in
              ap (λ q. get_or t.segment_entry (get_or t.journal_seg q 0) d) e
              ∙ ap (λ q. get_or t.segment_entry q d) mine
              ∙ f.kept_entry segno d (omega (arith, taken.next))
              ∙ get_or-set_self u.segment_entry segno reserved_entry d
                  (omega (arith, taken.inside, taken.width, v.entries))
          | inr other ↦ f.entry k d (ground arith) (omega arith)
        ];
        rising = λ k m a b c. elim (Bool-cases (k == i)) [
          | inl same ↦
              let e : k ≡ i = ground arith in
              rw e (omega (arith, f.low m (omega arith) (omega arith), taken.next))
          | inr other ↦ f.rising k m (ground arith) b (omega arith)
        ];
      }

  prepare_loop_lem :
      (r i : ℕ) (s : Super D)
      → HasRoom s
      → i + r ≤ length s.journal_seg
      → Ends (λ _ t. Reserved i r s t) NoMore (prepare_loop env r i s)
  unfolding prepare_loop set_journal_seg
  prepare_loop_lem zero i s v fits = record {
    room = v;
    later = omega arith;
    kept_seg = λ q h. refl;
    kept_entry = λ q d h. refl;
    low = λ k a b. absurd (omega arith);
    high = λ k a b. absurd (omega arith);
    entry = λ k d a b. absurd (omega arith);
    rising = λ k m a b c. absurd (omega arith);
  }
  prepare_loop_lem (suc r) i s v fits =
      Ends-bind (Taken env s) NoMore (λ _ t. Reserved i (suc r) s t) (get_segment env s) _
        (Ends-mono (Taken env s) (Taken env s) (Exhausted env s) NoMore (get_segment env s)
          (get_segment-first_good env s v) (λ _ t h. h) (λ x h. h.0))
        (λ segno u taken.
          let j : u.journal_seg ≡ s.journal_seg = ap (λ x. x.journal_seg) taken.frame in
          let inside : ltb i (length u.journal_seg) ≡ true = ground (arith, ap length j) in
          let entry =
            set_entry_lem segno reserved_entry
              (record u { journal_seg = set u.journal_seg i segno })
              (omega (arith, taken.inside, taken.width, v.entries)) in
          rw (inside, entry)
            (Ends-mono (λ _ t. Reserved (i + 1) r (after_round i segno u) t)
              (λ _ t. Reserved i (suc r) s t) NoMore NoMore
              (prepare_loop env r (i + 1) (after_round i segno u))
              (prepare_loop_lem r (i + 1) (after_round i segno u)
                (after_round-HasRoom s v i segno u taken)
                (omega (arith, length-set u.journal_seg i segno, ap length j)))
              (λ _ t f. Reserved-round s v i r segno u t taken (omega arith) f) (λ x h. h)))

  -- Where `get_segment` has room as in `HasRoom`, and with no more journal segments than the array has
  -- elements, `prepare_journal` returns or fails with "no more free segments". If it returns, the
  -- elements hold rising numbers of segments that were not taken before and are now, with reserved
  -- entries, and the entries of segments taken before are as they were.
  pub prepare_journal-Reserved :
      (n : ℕ) (s : Super D)
      → HasRoom s
      → n ≤ length s.journal_seg
      → Ends (λ _ t. Reserved 0 n s t) NoMore (prepare_journal env n s)
  unfolding prepare_journal
  prepare_journal-Reserved n s v fits = prepare_loop_lem n 0 s v (omega arith)
