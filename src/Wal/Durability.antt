-- ===== src/Wal/Durability.antt =====
-- Runs of synced appends: what was acknowledged is in the files, in order and for good.
use distr_hnsw.Common.{
  ℕ, ◌+◌, ◌^◌, ◌≤◌, ◌≡◌, refl, sym, subst, true, false, List, [], ◌∷◌, ◌++◌, append-nil,
  append_assoc, length, length-append, All, Result, ok, err, Bool-cases, inl, inr, arith,
}
use distr_hnsw.Wal.Entry.{WalError, poisoned, io, Operation, Entry, Checksum}
use distr_hnsw.Wal.EntryCodec.{IsStorable, HasWords}
use distr_hnsw.Wal.Writer.{Outcome, WalWriter, poison, append_unsynced, sync, and_then_sync, append}
use distr_hnsw.Wal.WriterLaws.{Holds, IsOpen}
use distr_hnsw.Wal.WriterRuns.{
  next_entry, AppendOutcome, acknowledged, refused, failed, append_unsynced_outcome, poison_poisons,
  poison-Holds, partition_id-append_unsynced,
}

-- One call of `append`, with what the file system does in it.
pub record Request : Type 0 where
  pub outcome : Outcome
  pub op_id : List ℕ
  pub operation : Operation

abbrev pub IsRequest : Request → Type 0
IsRequest q = (length q.op_id ≡ 16) × HasWords q.operation

abbrev if_ok : Result WalError ℕ → Entry → List Entry → List Entry
if_ok (ok seq) e es = e ∷ es
if_ok (err x) e es = es

module _ (c : Checksum) where
  -- The writer after the requests, and the entries whose appends were acknowledged.
  unfoldable pub run : List Request → WalWriter → WalWriter × List Entry
  run [] w = (w, [])
  run (q ∷ qs) w =
      let (w', r) = append c q.outcome w q.op_id q.operation in
      let (w'', es) = run qs w' in (w'', if_ok r (next_entry w q.op_id q.operation) es)

  -- The files hold `es`, then `done`, then at most one entry that was not acknowledged.
  pub data Kept (start : ℕ) (es done : List Entry) (w : WalWriter) : Type 0 where
    running : IsOpen c start (es ++ done) w → Kept start es done w
    stopped :
        (extra : List Entry) (front : List ℕ)
        → w.is_poisoned ≡ true
        → length extra ≤ 1
        → Holds c start (es ++ (done ++ extra)) front w
        → Kept start es done w

  -- The ends of a synced append: acknowledged, refused, or stopped.
  data Ends (start : ℕ) (es : List Entry) (w : WalWriter) (e : Entry) (w' : WalWriter)
      (r : Result WalError ℕ) : Type 0 where
    acked : r ≡ ok e.seq → IsOpen c start (es ++ (e ∷ [])) w' → Ends start es w e w' r
    unchanged : (x : WalError) → r ≡ err x → w' ≡ w → Ends start es w e w' r
    stops :
        (x : WalError) (extra : List Entry) (front : List ℕ)
        → r ≡ err x
        → w'.is_poisoned ≡ true
        → length extra ≤ 1
        → Holds c start (es ++ extra) front w'
        → Ends start es w e w' r

  sync_done :
      (o : Outcome) (w : WalWriter) → w.is_poisoned ≡ false → o.syncs ≡ true → sync o w ≡ (w, ok tt)
  unfolding sync
  sync_done o w healthy done = simp (healthy, done)

  sync_fails :
      (o : Outcome) (w : WalWriter)
      → w.is_poisoned ≡ false
      → o.syncs ≡ false
      → sync o w ≡ (poison w, err io)
  unfolding sync
  sync_fails o w healthy fails = simp (healthy, fails)

  synced :
      (o : Outcome) (w : WalWriter) (seq : ℕ)
      → sync o w ≡ (w, ok tt)
      → and_then_sync o w (ok seq) ≡ (w, ok seq)
  unfolding and_then_sync
  synced o w seq h = simp h

  unsynced :
      (o : Outcome) (w w' : WalWriter) (seq : ℕ) (x : WalError)
      → sync o w ≡ (w', err x)
      → and_then_sync o w (ok seq) ≡ (w', err x)
  unfolding and_then_sync
  unsynced o w w' seq x h = simp h

  after_unsynced :
      (o : Outcome) (w : WalWriter) (start : ℕ) (es : List Entry) (e : Entry) (w' : WalWriter)
      (r : Result WalError ℕ)
      → AppendOutcome c start es w e w' r
      → Ends start es w e (and_then_sync o w' r).0 (and_then_sync o w' r).1
  unfolding and_then_sync
  after_unsynced o w start es e w' (err x) (acknowledged h op) = cc
  after_unsynced o w start es e w' (err x) (refused y h enc same) = unchanged x refl same
  after_unsynced o w start es e w' (err x) (failed front back h dead enc holds) =
      stops x [] front refl dead (omega arith)
        (subst (λ t. Holds c start t front w') (sym (append-nil es)) holds)
  after_unsynced o w start es e w' (ok seq) (refused y h enc same) = cc
  after_unsynced o w start es e w' (ok seq) (failed front back h dead enc holds) = cc
  after_unsynced o w start es e w' (ok seq) (acknowledged h op) = elim (Bool-cases o.syncs) [
    | inl done ↦
        subst (λ p. Ends start es w e p.0 p.1)
          (sym (synced o w' seq (sync_done o w' op.healthy done))) (acked h op)
    | inr fails ↦
        subst (λ p. Ends start es w e p.0 p.1)
          (sym (unsynced o w' (poison w') seq io (sync_fails o w' op.healthy fails)))
          (stops io (e ∷ []) [] refl (poison_poisons c w') (omega arith)
            (poison-Holds c start (es ++ (e ∷ [])) w' op.holds))
  ]

  append-Ends :
      (q : Request) (w : WalWriter) (start : ℕ) (es : List Entry)
      → length w.partition_id ≡ 16
      → IsOpen c start es w
      → IsStorable (next_entry w q.op_id q.operation)
      → Ends start es w
          (next_entry w q.op_id q.operation)
          (append c q.outcome w q.op_id q.operation).0
          (append c q.outcome w q.op_id q.operation).1
  unfolding append
  append-Ends q w start es hid op s =
      after_unsynced q.outcome w start es (next_entry w q.op_id q.operation)
        (append_unsynced c q.outcome w q.op_id q.operation).0
        (append_unsynced c q.outcome w q.op_id q.operation).1
        (append_unsynced_outcome c q.outcome w start es q.op_id q.operation hid op s)

  partition_id-append :
      (q : Request) (w : WalWriter)
      → (append c q.outcome w q.op_id q.operation).0.partition_id ≡ w.partition_id
  unfolding append and_then_sync sync
  partition_id-append q w =
      ground (arith, partition_id-append_unsynced c q.outcome w q.op_id q.operation)

  -- A poisoned writer acknowledges nothing and leaves its files alone.
  append_poisoned :
      (q : Request) (w : WalWriter)
      → w.is_poisoned ≡ true
      → append c q.outcome w q.op_id q.operation ≡ (w, err poisoned)
  unfolding append append_unsynced and_then_sync
  append_poisoned q w dead = simp dead

  run_poisoned : (qs : List Request) (w : WalWriter) → w.is_poisoned ≡ true → run qs w ≡ (w, [])
  unfolding run
  run_poisoned [] w dead = refl
  run_poisoned (q ∷ qs) w dead = simp (append_poisoned q w dead, run_poisoned qs w dead)

  later-Kept :
      (start : ℕ) (es done : List Entry) (e : Entry) (w : WalWriter)
      → Kept start (es ++ (e ∷ [])) done w
      → Kept start es (e ∷ done) w
  later-Kept start es done e w (running op) =
      running (subst (λ t. IsOpen c start t w) (append_assoc es (e ∷ []) done) op)
  later-Kept start es done e w (stopped extra front dead few holds) =
      stopped extra front dead few
        (subst (λ t. Holds c start t front w) (append_assoc es (e ∷ []) (done ++ extra)) holds)

  -- After any run of synced appends, whatever fails in it, the files of the writer hold the entries
  -- from before, then the acknowledged ones in order, and behind them one unacknowledged entry at
  -- most and a part of a frame at most, these two only if the writer is poisoned.
  pub acknowledged_survive :
      (qs : List Request) (w : WalWriter) (start : ℕ) (es : List Entry)
      → length w.partition_id ≡ 16
      → All IsRequest qs
      → start + length es + length qs ≤ 2 ^ 64
      → IsOpen c start es w
      → Kept start es (run qs w).1 (run qs w).0
  unfolding run
  acknowledged_survive [] w start es hid good room op =
      running (subst (λ t. IsOpen c start t w) (sym (append-nil es)) op)
  acknowledged_survive (q ∷ qs) w start es hid ((good_id, words), good) room op =
      let w' = (append c q.outcome w q.op_id q.operation).0 in
      let hid' : length w'.partition_id ≡ 16 = rw partition_id-append hid in
      let storable : IsStorable (next_entry w q.op_id q.operation) = record {
        seq = omega (arith, op.next);
        op_id = good_id;
        words = words;
      } in
      elim (append-Ends q w start es hid op storable) [
        | acked h op' ↦ rw h (
            later-Kept start es (run qs w').1 (next_entry w q.op_id q.operation) (run qs w').0 (
              acknowledged_survive qs w' start (es ++ (next_entry w q.op_id q.operation ∷ [])) hid'
                good (omega (arith, length-append es (next_entry w q.op_id q.operation ∷ []))) op'))
        | unchanged x h same ↦ rw h (
            acknowledged_survive qs w' start es hid' good (omega arith)
              (subst (IsOpen c start es) (sym same) op))
        | stops x extra front h dead few holds ↦
            simp (h, run_poisoned qs w' dead) (stopped extra front dead few holds)
      ]
