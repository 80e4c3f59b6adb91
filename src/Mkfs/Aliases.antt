-- ===== src/Mkfs/Aliases.antt =====
-- The aliases of `__je_obj_alias` carry the segment entries: a reader gets them back.
use logfsprogs.Common.{
  ℕ, zero, suc, ◌+◌, ◌-◌, ◌*◌, ◌/◌, ◌%◌, ◌^◌, ◌<◌, ◌≡◌, inl, inr, refl, ◌∙◌, arith, false, not,
  ◌&&◌, ◌||◌, ◌==◌, if◌then◌else◌, bit_and, Bool-cases, List, [], ◌∷◌, get_or,
}
use logfsprogs.Common.Bits.{ones, bit_and-ones, bit_or-shifted}
use logfsprogs.Kerncompat.{u16_mod, u32_mod}
use logfsprogs.Abi.{SegmentEntry, ObjAlias}
use logfsprogs.Mkfs.Entries.{alias_loop}

-- The value that the first alias for a slot of an indirect block gives, 0 where there is none.
abbrev pub read_alias : List ObjAlias → ℕ → ℕ → ℕ
read_alias [] bix child = 0
read_alias (a ∷ rest) bix child =
    if a.bix == bix && a.child_no == child then a.val else read_alias rest bix child

abbrev pub no_entry : SegmentEntry
no_entry = record { ec_level = 0; valid = 0 }

-- Both fields of the entry of segment `i`, as the 64-bit word of the segment file.
abbrev pub entry_word : List SegmentEntry → ℕ → ℕ
entry_word entries i =
    (get_or entries i no_entry).ec_level * 2 ^ 32 + (get_or entries i no_entry).valid

-- The alias of one entry, as the loop makes it.
alias_lem :
    (i : ℕ) (se : SegmentEntry) (rest : List SegmentEntry) (m : ℕ)
    → se.valid < u32_mod
    → read_alias (alias_loop 9 i (se ∷ rest)) (m / 512) (m % 512) ≡ (
        if m == i && not (se.ec_level * 2 ^ 32 + se.valid == 0)
        then se.ec_level * 2 ^ 32 + se.valid
        else read_alias (alias_loop 9 (i + 1) rest) (m / 512) (m % 512))
unfolding alias_loop ones
alias_lem i se rest m fits =
    let child : bit_and i (2 ^ 9 - 1) % u16_mod ≡ i % 512 = omega (arith, bit_and-ones 9 i) in
    let value = bit_or-shifted 32 se.ec_level se.valid fits in
    rw (child, value)
      (elim (Bool-cases (not (se.ec_level == 0) || not (se.valid == 0))) [
        | inl some_value ↦ rw some_value (ground arith)
        | inr no_value ↦ rw no_value (ground arith)
      ])

-- The aliases of the entries from segment `i` on say nothing of an earlier segment.
earlier_lem :
    (entries : List SegmentEntry) (i m : ℕ)
    → m < i
    → ((q : ℕ) → (get_or entries q no_entry).valid < u32_mod)
    → read_alias (alias_loop 9 i entries) (m / 512) (m % 512) ≡ 0
unfolding alias_loop
earlier_lem [] i m lt fits = refl
earlier_lem (se ∷ rest) i m lt fits =
    let other : (m == i) ≡ false = ground arith in
    alias_lem i se rest m (fits 0)
    ∙ rw other (earlier_lem rest (i + 1) m (omega arith) (λ q. fits (suc q)))

from_lem :
    (entries : List SegmentEntry) (i j : ℕ)
    → ((q : ℕ) → (get_or entries q no_entry).valid < u32_mod)
    → read_alias (alias_loop 9 i entries) ((i + j) / 512) ((i + j) % 512) ≡ entry_word entries j
unfolding alias_loop
from_lem [] i j fits = refl
from_lem (se ∷ rest) i zero fits =
    let e : i + 0 ≡ i = omega arith in
    rw e (
      alias_lem i se rest i (fits 0)
      ∙ ground (arith, earlier_lem rest (i + 1) i (omega arith) (λ q. fits (suc q))))
from_lem (se ∷ rest) i (suc j) fits =
    let other : (i + suc j == i) ≡ false = ground arith in
    let e : i + suc j ≡ i + 1 + j = omega arith in
    alias_lem i se rest (i + suc j) (fits 0)
    ∙ rw other (rw e (from_lem rest (i + 1) j (λ q. fits (suc q))))

-- With blocks of 4096 bytes and entries whose `valid` has 32 bits, the aliases in the journal give
-- back every segment entry: looked up by the index of its block in the segment file and the slot in
-- that block, the word of the aliases is that of the entry, and 0 for a segment without an entry.
pub alias_loop-entry_word :
    (entries : List SegmentEntry) (i : ℕ)
    → ((q : ℕ) → (get_or entries q no_entry).valid < u32_mod)
    → read_alias (alias_loop 9 0 entries) (i / 512) (i % 512) ≡ entry_word entries i
alias_loop-entry_word entries i fits =
    let e : 0 + i ≡ i = omega arith in let same = from_lem entries 0 i fits in rw e at same
