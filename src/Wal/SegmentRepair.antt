-- ===== src/Wal/SegmentRepair.antt =====
-- Truncating a torn tail: the repaired file reads as the same entries, whatever bytes it holds.
use distr_hnsw.Common.{
  ok_injective, ℕ, zero, suc, ◌+◌, ◌-◌, ◌≤◌, ◌≡◌, sym, subst, ap, ◌∙◌, inl, inr, Bool, none, some,
  List, [], ◌∷◌, ◌++◌, take, drop, take-append-drop, length-take, ok, ◌>>=◌, arith,
}
use distr_hnsw.Wal.Entry.{Entry, Checksum}
use distr_hnsw.Wal.Frame.{parse_entry}
use distr_hnsw.Wal.FrameRead.{parse_entry_bounds, parse_entry-shrink}
use distr_hnsw.Wal.Segment.{next_u64, SegmentRead, push_front, read_entries}
use distr_hnsw.Wal.SegmentRead.{read_entries_entry, read_entries_pass}
use distr_hnsw.Wal.SegmentSound.{TornSound, step_ok, unreadable_ok, read_nil, read_entries_faithful}

module _ (c : Checksum) (active active' : Bool) (bytes bytes' : List ℕ) where
  torn_after :
      (rest : List ℕ) (skip offset expected at after : ℕ) (r : SegmentRead)
      → read_entries c active bytes skip rest offset expected ≡ ok r
      → r.torn_tail ≡ some (at, after)
      → offset + skip ≤ at
  torn_after rest skip offset expected at after r h torn =
      let sound = read_entries_faithful c active bytes rest skip offset expected r h in
      (subst (TornSound c active bytes (offset + skip)) torn sound.1).3

  parse_before_tear :
      (b : ℕ) (rest : List ℕ) (m n : ℕ) (e : Entry)
      → parse_entry c (b ∷ rest) ≡ ok (e, n)
      → n ≤ m + 1
      → parse_entry c (b ∷ take m rest) ≡ ok (e, n)
  parse_before_tear b rest m n e h fits =
      let whole : (b ∷ take m rest) ++ drop m rest ≡ b ∷ rest =
        ap (λ t. b ∷ t) (take-append-drop m rest) in
      parse_entry-shrink c (b ∷ take m rest) (drop m rest) e n (rw whole h)
        (omega (arith, parse_entry_bounds c (b ∷ rest) e n h, length-take m rest))

  -- The bytes before the tear read as the same entries, in any file.
  pub read_entries_repair :
      (rest : List ℕ) (skip offset expected at after : ℕ) (r : SegmentRead)
      → read_entries c active bytes skip rest offset expected ≡ ok r
      → r.torn_tail ≡ some (at, after)
      → read_entries c active' bytes' skip (take (at - offset) rest) offset expected
        ≡ ok (record { entries = r.entries; torn_tail = none })
  read_entries_repair [] skip offset expected at after r h torn =
      let eq = ok_injective (sym (read_nil c active bytes skip offset expected) ∙ h) in
      absurd (cc (torn, ap (λ (x : SegmentRead). x.torn_tail) eq))
  read_entries_repair (b ∷ rest) (suc skip) offset expected at after r h torn =
      let later = torn_after (b ∷ rest) (suc skip) offset expected at after r h torn in
      let cut : at - offset ≡ suc (at - (offset + 1)) = omega arith in
      rw cut (
        read_entries_pass c active' bytes' b (take (at - (offset + 1)) rest) skip offset expected
        ∙ read_entries_repair rest skip (offset + 1) expected at after r
            (sym (read_entries_pass c active bytes b rest skip offset expected) ∙ h) torn)
  read_entries_repair (b ∷ rest) zero offset expected at after r h torn =
      elim (step_ok c active bytes b rest offset expected r h) [
        | inl (e, n, r', parsed, due, more, eq) ↦
            let torn' = ap (λ (x : SegmentRead). x.torn_tail) eq ∙ torn in
            let later =
              torn_after rest (n - 1) (offset + 1) (next_u64 expected) at after r' more torn' in
            let cut : at - offset ≡ suc (at - (offset + 1)) = omega arith in
            let parsed' = parse_before_tear b rest (at - (offset + 1)) n e parsed (omega arith) in
            let ih =
              read_entries_repair rest (n - 1) (offset + 1) (next_u64 expected) at after r' more
                torn' in
            rw cut (
              read_entries_entry c active' bytes' b (take (at - (offset + 1)) rest) offset expected
                n e parsed' due
              ∙ (ap (λ m. m >>= λ x. ok (push_front e x)) ih
                  ∙ ap (λ (x : SegmentRead). ok (record { entries = x.entries; torn_tail = none }))
                      eq))
        | inr (reason, bad) ↦
            let (on, alone, no_more, here) = unreadable_ok c active bytes offset reason r bad in
            let cut : at - offset ≡ zero = ground (arith, here, torn) in
            rw cut (
              read_nil c active' bytes' zero offset expected
              ∙ ap (λ t. ok (record { entries = t; torn_tail = none })) (sym no_more))
      ]
