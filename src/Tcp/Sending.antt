-- ===== src/Tcp/Sending.antt =====
-- What the segments that carry data hold (`tcp_data_send_segments` of src/tpg_tcp_data.c): the stored bytes
-- from an offset on, in their order, none left out and none twice.
use warp.Prelude.{
  ℕ, zero, suc, ◌+◌, ◌-◌, ◌*◌, ◌≤◌, ◌<◌, ◌≡◌, ◌∙◌, refl, sym, ap, inl, inr, Bool-cases, true, false,
  List, [], ◌∷◌, ◌++◌, length, take, drop, join, ltb, ◌==◌, length-append, drop-append_past,
  length-drop, take_split, drop_split, if◌then◌else◌, arith,
}
use mathlib.Core.List.{append-nil, append_assoc}
use warp.Prelude.Outcome.{ok, if_true, if_false, ok_then}
use warp.Tcp.{Tcb, Snd, Env, Segment, Flags, Effect, pkt, notif, inc, dec, data_sent}
use warp.Tcp.Seq.{seq_mod, seg_add}
use warp.Tcp.Send.{tcp_build_hdr, tcp_send_pkt, tcp_send_data_pkt}
use warp.Tcp.Data.{
  min, advance, segs_per_send, tcp_data_send_segment, send_segments, tcp_data_send_segments,
}

-- The texts of the segments among some effects, in the order in which they were sent.
abbrev pub texts : List Effect → List ℕ
texts [] = []
texts (pkt k ∷ es) = texts es ++ k.text
texts (notif n ∷ es) = texts es
texts (inc k n ∷ es) = texts es
texts (dec k ∷ es) = texts es
texts (data_sent n ∷ es) = texts es

abbrev pub first_length : List (List ℕ) → ℕ
first_length [] = 0
first_length (m ∷ ms) = length m

-- The walk to the end of a segment stands where the bytes after it begin.
advance_lem :
    (ms : List (List ℕ)) (offset len : ℕ)
    → 0 < length (join ms)
    → offset ≤ first_length ms
    → offset + len ≤ length (join ms)
    → (p : List (List ℕ) × ℕ × ℕ) × (advance ms offset len ≡ ok p)
      × (p.1 ≤ first_length p.0)
      × (drop p.1 (join p.0) ≡ drop (offset + len) (join ms))
unfolding advance
advance_lem [] offset len some_bytes h h' = absurd (omega arith)
advance_lem (m ∷ ms) offset len some_bytes h h' =
    let l = length-append m (join ms) in
    elim (Bool-cases (ltb (length m) (offset + len))) [
      | inl e ↦
          let past : length m < offset + len = ground arith in
          let n = len - (length m - offset) in
          let ih = advance_lem ms 0 n (omega (arith, l)) (omega arith) (omega (arith, l)) in
          let k : offset + len - length m ≡ 0 + n = omega arith in
          (
            ih.0,
            if_true (ltb (length m) (offset + len)) _ _ e ∙ ih.1,
            ih.2,
            ih.3
                ∙ sym (
                    drop-append_past (offset + len) m (join ms) (omega arith)
                    ∙ ap (λ (i : ℕ). drop i (join ms)) k),
          )
      | inr e ↦
          let within : offset + len ≤ length m = ground arith in
          (
            (m ∷ ms, offset + len, len),
            if_false (ltb (length m) (offset + len)) (advance ms 0 (len - (length m - offset))) _ e,
            within,
            refl,
          )
    ]

pub within_first : (ms : List (List ℕ)) (q : ℕ) → q ≤ first_length ms → q ≤ length (join ms)
within_first [] q h = h
within_first (m ∷ ms) q h = omega (arith, length-append m (join ms))

fits :
    (q total q' total' len k : ℕ)
    → q ≤ total
    → total - q ≡ total' - q'
    → q' + (len - k) ≤ total'
    → q + (len - k) ≤ total
fits q total q' total' len k h e h' = omega arith

suc_mul : (n m : ℕ) → suc n * m ≡ m + n * m
suc_mul n m = omega arith

min_split : (len m x : ℕ) → min len (m + x) ≡ min len m + min (len - min len m) x
min_split len m x = ground arith

seg_add_add : (s a b : ℕ) → seg_add (seg_add s a) b ≡ seg_add s (a + b)
seg_add_add s a b = omega arith

module _ (env : Env) (clones : (b : List ℕ) → env.clones b ≡ true)
    (builds : (k : Segment) → env.builds k ≡ true)
    (transmits : (k : Segment) → env.transmits k ≡ true) where
  -- A segment that is sent, when the driver and its buffers serve it.
  segment_lem :
      (bytes : List ℕ) (sseq : ℕ) (f : Flags) (c : Tcb)
      → (let r = tcp_data_send_segment env bytes sseq f c in
          (r.1 ≡ true) × (texts r.0.effects ≡ texts c.effects ++ bytes) × (r.0.tcb_snd ≡ c.tcb_snd))
  unfolding tcp_data_send_segment tcp_send_data_pkt tcp_send_pkt tcp_build_hdr
  segment_lem bytes sseq f c =
      let k = tcp_build_hdr c sseq f false bytes in
      (
        ground (arith, clones bytes, builds k, transmits k),
        ground (arith, clones bytes, builds k, transmits k),
        ground (arith, clones bytes, builds k, transmits k),
      )

  -- Some rounds of the loop, from the end of what was sent.
  send_segments_lem :
      (n : ℕ) (ms : List (List ℕ)) (len offset sseq : ℕ) (f : Flags) (sent : ℕ) (c : Tcb)
      → offset ≤ first_length ms
      → offset + len ≤ length (join ms)
      → c.tcb_snd.nxt ≡ sseq
      → sseq < seq_mod
      → (r : Tcb × ℕ) × (send_segments n env ms len offset sseq f sent c ≡ ok r)
        × (texts r.0.effects
            ≡ texts c.effects ++ take (min len (n * env.mtu)) (drop offset (join ms)))
        × (r.0.tcb_snd.nxt ≡ seg_add sseq (min len (n * env.mtu)))
  unfolding send_segments
  send_segments_lem zero ms len offset sseq f sent c h h' at small =
      let none : min len (0 * env.mtu) ≡ 0 = ground arith in
      ((c, sent), refl, rw none (sym (append-nil (texts c.effects))), rw none (omega arith))
  send_segments_lem (suc n) ms len offset sseq f sent c h h' at small =
      elim (Bool-cases (len == 0)) [
        | inl e ↦
            let none : min len (suc n * env.mtu) ≡ 0 = ground arith in
            (
              (c, sent),
              if_true (len == 0) _ _ e,
              rw none (sym (append-nil (texts c.effects))),
              rw none (omega arith),
            )
        | inr e ↦
            let k = min len env.mtu in
            let bytes = take k (drop offset (join ms)) in
            let s = tcp_data_send_segment env bytes sseq f c in
            let S = segment_lem bytes sseq f c in
            let nxt : s.0.tcb_snd.nxt ≡ sseq = ap (λ (t : Snd). t.nxt) S.2 ∙ at in
            let moved = record s.0 {
              tcb_snd = record s.0.tcb_snd { nxt = seg_add s.0.tcb_snd.nxt k };
            } in
            let c' = if sseq == s.0.tcb_snd.nxt then moved else s.0 in
            let test : (sseq == s.0.tcb_snd.nxt) ≡ true = ground (arith, nxt) in
            let steps : c' ≡ moved = if_true (sseq == s.0.tcb_snd.nxt) moved s.0 test in
            let a = advance_lem ms offset k (ground arith) h (ground arith) in
            let b = min (len - k) (n * env.mtu) in
            let l : length (join a.0.0) - a.0.1 ≡ length (join ms) - (offset + k) =
              sym (length-drop a.0.1 (join a.0.0))
              ∙ ap (λ (x : List ℕ). length x) a.3
              ∙ length-drop (offset + k) (join ms) in
            let ih =
              send_segments_lem n a.0.0 (len - k) a.0.1 (seg_add sseq k) f (sent + a.0.2) c' a.2
                (fits a.0.1 (length (join a.0.0)) (offset + k) (length (join ms)) len k
                  (within_first a.0.0 a.0.1 a.2) l (ground arith))
                (ap (λ (t : Tcb). t.tcb_snd.nxt) steps ∙ ap (λ (x : ℕ). seg_add x k) nxt)
                (omega arith) in
            let whole : min len (suc n * env.mtu) ≡ k + b =
              ap (λ (x : ℕ). min len x) (suc_mul n env.mtu) ∙ min_split len env.mtu (n * env.mtu) in
            (
              ih.0,
              if_false (len == 0) _ _ e
                  ∙ if_true s.1 _ _ S.0
                  ∙ ok_then (advance ms offset k) _ a.1 ih.1,
              ih.2
                  ∙ ap (λ (x : List ℕ). x ++ take b (drop a.0.1 (join a.0.0)))
                      (ap (λ (t : Tcb). texts t.effects) steps ∙ S.1)
                  ∙ ap (λ (x : List ℕ). texts c.effects ++ bytes ++ take b x)
                      (a.3 ∙ drop_split offset k (join ms))
                  ∙ append_assoc (texts c.effects) bytes (take b (drop k (drop offset (join ms))))
                  ∙ ap (λ (x : List ℕ). texts c.effects ++ x)
                      (sym (take_split k b (drop offset (join ms))))
                  ∙ ap (λ (i : ℕ). texts c.effects ++ take i (drop offset (join ms))) (sym whole),
              ih.3 ∙ seg_add_add sseq k b ∙ ap (λ (i : ℕ). seg_add sseq i) (sym whole),
            )
      ]

-- When buffers and driver serve it, the loop sends the bytes from an offset that stands in the first
-- buffer on, in their order, as many as are asked for but at most those of TCB_SEGS_PER_SEND + 1
-- segments, and SND.NXT, if the bytes were sent from there, comes after them.
pub send_segments-texts :
    (env : Env) (ms : List (List ℕ)) (len offset : ℕ) (f : Flags) (c : Tcb)
    → ((b : List ℕ) → env.clones b ≡ true)
    → ((k : Segment) → env.builds k ≡ true)
    → ((k : Segment) → env.transmits k ≡ true)
    → offset ≤ first_length ms
    → offset + len ≤ length (join ms)
    → c.tcb_snd.nxt < seq_mod
    → (r : Tcb × ℕ) × (tcp_data_send_segments env ms len offset c.tcb_snd.nxt f c ≡ ok r)
      × (texts r.0.effects
          ≡ texts c.effects ++ take (min len (suc segs_per_send * env.mtu)) (drop offset (join ms)))
      × (r.0.tcb_snd.nxt ≡ seg_add c.tcb_snd.nxt (min len (suc segs_per_send * env.mtu)))
unfolding tcp_data_send_segments
send_segments-texts env ms len offset f c clones builds transmits h h' small =
    send_segments_lem env clones builds transmits (suc segs_per_send) ms len offset c.tcb_snd.nxt f
      0 c h h' refl small
