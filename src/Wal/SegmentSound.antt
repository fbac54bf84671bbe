-- ===== src/Wal/SegmentSound.antt =====
-- What `read_segment` promises on any bytes, written by the program or not.
use distr_hnsw.Common.{
  ok_injective, ℕ, zero, suc, ◌+◌, ◌-◌, ◌≤◌, ◌≡◌, refl, ◌∙◌, ◌⊎◌, inl, inr, String, Bool, true,
  false, ◌==◌, sym, subst, Option, none, some, List, [], ◌∷◌, length, ==_iff, Result, ok, err,
  arith, Bool-cases, >>=-eq-ok,
}
use distr_hnsw.Wal.Entry.{WalError, sequence_gap, plain, Entry, Checksum}
use distr_hnsw.Wal.Frame.{FrameError, unreadable, corrupt, parse_entry, next_valid_frame}
use distr_hnsw.Wal.Segment.{next_u64, SegmentRead, push_front, unreadable_at, read_entries}
use distr_hnsw.Wal.SegmentRead.{read_entries_entry, read_entries_pass, read_entries_unreadable}

-- The sequence numbers count up from `n` as a `u64` does.
abbrev pub Consecutive : ℕ → List Entry → Type 0
Consecutive n [] = Unit
Consecutive n (e ∷ es) = (e.seq ≡ n) × Consecutive (next_u64 n) es

parse_cases :
    (r : Result FrameError (Entry × ℕ))
    → ((e : Entry) × (n : ℕ) × (r ≡ ok (e, n)))
      ⊎ (((reason : String) × (r ≡ err (unreadable reason)))
          ⊎ ((reason : String) × (r ≡ err (corrupt reason))))
parse_cases (ok (e, n)) = inl (e, n, refl)
parse_cases (err (unreadable reason)) = inr (inl (reason, refl))
parse_cases (err (corrupt reason)) = inr (inr (reason, refl))

module _ (c : Checksum) (active : Bool) (bytes : List ℕ) where
  pub unreadable_ok :
      (offset : ℕ) (reason : String) (r : SegmentRead)
      → unreadable_at c active bytes offset reason ≡ ok r
      → (active ≡ true)
        × (next_valid_frame c bytes (offset + 1) ≡ none)
        × (r.entries ≡ [])
        × (r.torn_tail ≡ some (offset, length bytes - offset))
  unfolding unreadable_at
  unreadable_ok offset reason r h = ground arith

  step_gap :
      (b : ℕ) (rest : List ℕ) (offset expected n : ℕ) (e : Entry)
      → parse_entry c (b ∷ rest) ≡ ok (e, n)
      → (e.seq == expected) ≡ false
      → read_entries c active bytes zero (b ∷ rest) offset expected
        ≡ err (sequence_gap expected e.seq)
  unfolding read_entries
  step_gap b rest offset expected n e h off = rw (h, read_entries, off)

  step_corrupt :
      (b : ℕ) (rest : List ℕ) (offset expected : ℕ) (reason : String)
      → parse_entry c (b ∷ rest) ≡ err (corrupt reason)
      → read_entries c active bytes zero (b ∷ rest) offset expected
        ≡ err (WalError.corrupt offset (plain reason))
  unfolding read_entries
  step_corrupt b rest offset expected reason h = rw (h, read_entries)

  -- How a step of the loop can succeed.
  pub step_ok :
      (b : ℕ) (rest : List ℕ) (offset expected : ℕ) (r : SegmentRead)
      → read_entries c active bytes zero (b ∷ rest) offset expected ≡ ok r
      → ((e : Entry) × (n : ℕ) × (r' : SegmentRead) × (parse_entry c (b ∷ rest) ≡ ok (e, n))
          × (e.seq ≡ expected)
          × (read_entries c active bytes (n - 1) rest (offset + 1) (next_u64 expected) ≡ ok r')
          × (push_front e r' ≡ r))
        ⊎ ((reason : String) × (unreadable_at c active bytes offset reason ≡ ok r))
  step_ok b rest offset expected r h = elim (parse_cases (parse_entry c (b ∷ rest))) [
    | inl (e, n, parsed) ↦ elim (Bool-cases (e.seq == expected)) [
      | inl due ↦
          let same = (==_iff e.seq expected).0 due in
          let (r', more, eq) =
            >>=-eq-ok (read_entries c active bytes (n - 1) rest (offset + 1) (next_u64 expected)) _
              (sym (read_entries_entry c active bytes b rest offset expected n e parsed same)
                ∙ h) in
          inl (e, n, r', parsed, same, more, cc)
      | inr off ↦ absurd (cc (h, step_gap b rest offset expected n e parsed off))
    ]
    | inr (inl (reason, bad)) ↦ inr (
      reason,
      cc (
        h,
        read_entries_unreadable c active bytes (b ∷ rest) offset expected reason (λ p. cc p) bad,
      ),
    )
    | inr (inr (reason, bad)) ↦ absurd (cc (h, step_corrupt b rest offset expected reason bad))
  ]

  abbrev pub TornSound : ℕ → Option (ℕ × ℕ) → Type 0
  TornSound low none = Unit
  TornSound low (some (at, after)) =
      (active ≡ true)
      × (next_valid_frame c bytes (at + 1) ≡ none)
      × (after ≡ length bytes - at)
      × (low ≤ at)

  abbrev pub IsSound : ℕ → ℕ → SegmentRead → Type 0
  IsSound low expected r = Consecutive expected r.entries × TornSound low r.torn_tail

  TornSound-mono :
      (low low' : ℕ) (t : Option (ℕ × ℕ)) → low' ≤ low → TornSound low t → TornSound low' t
  TornSound-mono low low' none h s = tt
  TornSound-mono low low' (some (at, after)) h (a, b, d, e) = (a, b, d, omega arith)

  pub read_nil :
      (skip offset expected : ℕ)
      → read_entries c active bytes skip [] offset expected
        ≡ ok (record { entries = []; torn_tail = none })
  unfolding read_entries
  read_nil skip offset expected = refl

  pub read_entries_faithful :
      (rest : List ℕ) (skip offset expected : ℕ) (r : SegmentRead)
      → read_entries c active bytes skip rest offset expected ≡ ok r
      → IsSound (offset + skip) expected r
  read_entries_faithful [] skip offset expected r h =
      subst (IsSound (offset + skip) expected)
        (ok_injective (sym (read_nil skip offset expected) ∙ h)) (tt, tt)
  read_entries_faithful (b ∷ rest) (suc skip) offset expected r h =
      let (order, torn) =
        read_entries_faithful rest skip (offset + 1) expected r
          (sym (read_entries_pass c active bytes b rest skip offset expected) ∙ h) in
      (order, TornSound-mono (offset + 1 + skip) (offset + suc skip) r.torn_tail (omega arith) torn)
  read_entries_faithful (b ∷ rest) zero offset expected r h =
      elim (step_ok b rest offset expected r h) [
        | inl (e, n, r', parsed, due, more, eq) ↦
            let (order, torn) =
              read_entries_faithful rest (n - 1) (offset + 1) (next_u64 expected) r' more in
            subst (IsSound (offset + zero) expected) eq (
              (due, order),
              TornSound-mono (offset + 1 + (n - 1)) (offset + zero) r'.torn_tail (omega arith) torn,
            )
        | inr (reason, bad) ↦
            let (on, alone, no_more, at) = unreadable_ok offset reason r bad in
            (
              subst (Consecutive expected) (sym no_more) tt,
              subst (TornSound (offset + zero)) (sym at) (on, alone, refl, omega arith),
            )
      ]
