-- ===== src/MessageQueue/Recovered.antt =====
-- The constructor of memory/message_queue.cpp on the logs of earlier runs.
use yangkv_v.Base.{
  ℕ, zero, suc, ◌+◌, ◌^◌, ◌≤◌, ◌<◌, ◌≡◌, refl, ap, ◌∙◌, List, [], ◌∷◌, ◌++◌, length, append_assoc,
  append-nil, leb, le→leb, ◌==◌, ==_iff, true, Bool-cases, inl, inr, arith,
}
use yangkv_v.MemEntry.{MemEntry}
use yangkv_v.Log.{Reader, Pread, ReadsAll, at_end}
use yangkv_v.Log.Record.{log_record}
use yangkv_v.MessageQueue.{MessageQueue, k_queue_size}
use yangkv_v.MessageQueue.Replay.{replayed, stuck, replay_log}
use yangkv_v.MessageQueue.Rounds.{
  IsReading, next_reader, next_reader-IsReading, round_pushes, round_blocked,
}
use yangkv_v.MessageQueue.Reread.{IsReplaying, logged_bytes, scratch_end, max_seq}

module _ (pread : Pread) (reads_all : ReadsAll pread) (prior : List MemEntry) (first : ℕ) where
  -- Behind the last record the loop ends.
  replay_log_end :
      (n fuel : ℕ) (before : List ℕ) (seen : List MemEntry) (r : Reader) (q : MessageQueue)
      → IsReading n before seen [] r
      → replay_log pread (suc fuel) first r q ≡ replayed q
  unfolding replay_log at_end logged_bytes
  replay_log_end n fuel before seen r q h =
      let stop : leb (length r.content) (r.offset + 4) ≡ true =
        le→leb _ _ (omega (arith, ap (length {A = ℕ}) (h.content ∙ append-nil before), h.offset)) in
      rw stop

  pub replay_log-Replays :
      (n fuel : ℕ) (before : List ℕ) (seen es : List MemEntry) (r : Reader) (q : MessageQueue)
      → IsReading n before seen es r
      → IsReplaying r.buf prior seen first q
      → length es < fuel
      → q.w_ptr + length es ≤ q.r_ptr + k_queue_size
      → q.w_ptr + length es < 2 ^ 64
      → (q' : MessageQueue) × (replay_log pread fuel first r q ≡ replayed q')
        × IsReplaying (scratch_end r.buf es) prior (seen ++ es) first q'
        × (q'.w_ptr ≡ q.w_ptr + length es)
        × (q'.r_ptr ≡ q.r_ptr)
        × (q'.max_id ≡ max_seq q.max_id es)
        × (q'.log ≡ q.log)
  unfolding scratch_end
  replay_log-Replays n zero before seen es r q h s enough room below = absurd (omega arith)
  replay_log-Replays n (suc fuel) before seen [] r q h s enough room below =
      (q, replay_log_end n fuel before seen r q h, rw append-nil s, omega arith, refl, refl, refl)
  replay_log-Replays n (suc fuel) before seen (e ∷ es) r q h s enough room below =
      let (q₁, step, s₁, w₁, r₁, m₁, l₁) =
        round_pushes pread reads_all prior first n before seen e es r q fuel h s.shut s
          (omega arith) (omega arith) in
      let h₁ = next_reader-IsReading pread reads_all prior first n before seen e es r h in
      let (q₂, rest, s₂, w₂, r₂, m₂, l₂) =
        replay_log-Replays n fuel (before ++ log_record e) (seen ++ e ∷ []) es
          (next_reader pread reads_all prior first before e r) q₁ h₁ s₁ (omega arith) (omega arith)
          (omega arith) in
      (
        q₂,
        step ∙ rest,
        rw (append_assoc seen (e ∷ []) es) at s₂,
        omega arith,
        r₂ ∙ r₁,
        m₂ ∙ ap (λ (m : ℕ). max_seq m es) m₁,
        l₂ ∙ l₁,
      )

  pub replay_log-stuck :
      (n fuel : ℕ) (before : List ℕ) (seen es : List MemEntry) (r : Reader) (q : MessageQueue)
      → IsReading n before seen es r
      → IsReplaying r.buf prior seen first q
      → length es < fuel
      → q.r_ptr + k_queue_size < q.w_ptr + length es
      → q.r_ptr + k_queue_size < 2 ^ 64
      → (q' : MessageQueue) × (replay_log pread fuel first r q ≡ stuck q')
  replay_log-stuck n zero before seen es r q h s enough more below = absurd (omega arith)
  replay_log-stuck n (suc fuel) before seen [] r q h s enough more below =
      absurd (omega (arith, s.valid.fits))
  replay_log-stuck n (suc fuel) before seen (e ∷ es) r q h s enough more below =
      elim (Bool-cases (q.w_ptr == q.r_ptr + k_queue_size)) [
        | inl full ↦ (
          _,
          round_blocked pread reads_all prior first n before seen e es r q fuel h s.shut s
              ((==_iff q.w_ptr (q.r_ptr + k_queue_size)).0 full),
        )
        | inr free ↦
            let (q₁, step, s₁, w₁, r₁, _, _) =
              round_pushes pread reads_all prior first n before seen e es r q fuel h s.shut s
                (ground (arith, s.valid.fits)) (ground (arith, s.valid.fits)) in
            let h₁ = next_reader-IsReading pread reads_all prior first n before seen e es r h in
            let (q₂, rest) =
              replay_log-stuck n fuel (before ++ log_record e) (seen ++ e ∷ []) es
                (next_reader pread reads_all prior first before e r) q₁ h₁ s₁ (omega arith)
                (omega arith) (omega arith) in
            (q₂, step ∙ rest)
      ]
