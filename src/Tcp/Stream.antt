-- ===== src/Tcp/Stream.antt =====
-- A send of an application (`tcp_data_send` of src/tpg_tcp_data.c): its bytes are stored after those that
-- are there, and what is sent is what follows the bytes in flight.
use warp.Prelude.{
  ℕ, suc, ◌+◌, ◌-◌, ◌*◌, ◌≤◌, ◌<◌, ◌≡◌, ◌∙◌, refl, sym, ap, inl, inr, Bool, Bool-cases, true, ◌&&◌,
  not, List, [], ◌∷◌, ◌++◌, length, take, drop, join, ltb, leb, ◌==◌, length-append,
  drop-append_past, length-drop, arith,
}
use mathlib.Core.List.{append_assoc}
use warp.Prelude.Outcome.{ok, if_true, if_false, ok_then}
use warp.Tcp.{Tcb, Env, Segment, DataArg, Code, success}
use warp.Tcp.Seq.{seq_mod, seg_add, seg_diff}
use warp.Tcp.Send.{no_flags}
use warp.Tcp.Data.{
  min, pkt_len, segs_per_send, avail_send, skip_sent, sendable, report, tcp_data_store_send,
  tcp_data_get_unsent_size, tcp_data_send_segments, tcp_data_send, send_stored,
}
use warp.Tcp.Sending.{texts, first_length, within_first, send_segments-texts}

join-append : (xs ys : List (List ℕ)) → join (xs ++ ys) ≡ join xs ++ join ys
join-append [] ys = refl
join-append (x ∷ xs) ys =
    ap (λ (r : List ℕ). x ++ r) (join-append xs ys) ∙ sym (append_assoc x (join xs) (join ys))

-- The walk to an offset stands where the bytes from it on begin.
skip_sent_lem :
    (ms : List (List ℕ)) (offset : ℕ)
    → offset < length (join ms)
    → (p : List (List ℕ) × ℕ) × (skip_sent ms offset ≡ ok p)
      × (p.1 ≤ first_length p.0)
      × (drop p.1 (join p.0) ≡ drop offset (join ms))
unfolding skip_sent
skip_sent_lem [] offset h = absurd (omega arith)
skip_sent_lem (m ∷ ms) offset h =
    let l = length-append m (join ms) in
    elim (Bool-cases (leb (length m) offset)) [
      | inl e ↦
          let past : length m ≤ offset = ground arith in
          let ih = skip_sent_lem ms (offset - length m) (omega (arith, l)) in
          (
            ih.0,
            if_true (leb (length m) offset) _ (ok (m ∷ ms, offset)) e ∙ ih.1,
            ih.2,
            ih.3 ∙ sym (drop-append_past offset m (join ms) past),
          )
      | inr e ↦ (
        (m ∷ ms, offset),
        if_false (leb (length m) offset) (skip_sent ms (offset - length m)) _ e,
        ground arith,
        refl,
      )
    ]

-- The block when the bytes are stored.
abbrev stored : DataArg → Tcb → Tcb
stored d c = record c {
  tr_data_mbufs = c.tr_data_mbufs ++ d.tda_mbuf;
  tr_total_size = seg_add c.tr_total_size (pkt_len d.tda_mbuf);
}

stores :
    (env : Env) (d : DataArg) (c : Tcb)
    → pkt_len d.tda_mbuf ≤ avail_send env c
    → tcp_data_store_send env d.tda_mbuf c ≡ (stored d c, pkt_len d.tda_mbuf)
unfolding tcp_data_store_send
stores env d c h = if_false (ltb (avail_send env c) (pkt_len d.tda_mbuf)) _ _ (ground arith)

abbrev in_flight : Tcb → ℕ
in_flight c = seg_diff c.tcb_snd.nxt c.tcb_snd.una

-- The bytes stored after a send, and how many of those that are not in flight the window allows.
abbrev pub all_bytes : DataArg → Tcb → List ℕ
all_bytes d c = join c.tr_data_mbufs ++ join d.tda_mbuf

abbrev pub allowed : DataArg → Tcb → ℕ
allowed d c =
    min (length (all_bytes d c) - seg_diff c.tcb_snd.nxt c.tcb_snd.una)
      (c.tcb_snd.wnd - seg_diff c.tcb_snd.nxt c.tcb_snd.una)

room_for :
    (q total q' total' k : ℕ)
    → q ≤ total
    → total - q ≡ total' - q'
    → k ≤ total' - q'
    → q + k ≤ total
room_for q total q' total' k h e h' = omega arith

seg_diff_le : (a b : ℕ) → b ≤ a → a < seq_mod → seg_diff a b ≡ a - b
seg_diff_le a b h p = omega arith

min_le : (a b : ℕ) → min a b ≤ a
min_le a b = ground arith

module _ (env : Env) (d : DataArg) (c : Tcb)
    (counts : c.tr_total_size ≡ length (join c.tr_data_mbufs))
    (known : in_flight c ≤ c.tr_total_size) (some_bytes : 0 < pkt_len d.tda_mbuf)
    (small : c.tr_total_size + pkt_len d.tda_mbuf < seq_mod) where
  total_stored : (stored d c).tr_total_size ≡ c.tr_total_size + pkt_len d.tda_mbuf
  total_stored = omega arith

  length-all_bytes : length (all_bytes d c) ≡ c.tr_total_size + pkt_len d.tda_mbuf
  length-all_bytes =
      length-append (join c.tr_data_mbufs) (join d.tda_mbuf)
      ∙ ap (λ (n : ℕ). n + pkt_len d.tda_mbuf) (sym counts)

  unsent_stored :
      tcp_data_get_unsent_size (stored d c) ≡ c.tr_total_size + pkt_len d.tda_mbuf - in_flight c
  unfolding tcp_data_get_unsent_size
  unsent_stored =
      if_false ((stored d c).tr_total_size == 0) _ _ (ground (arith, total_stored))
      ∙ ap (λ (n : ℕ). seg_diff n (in_flight c)) total_stored
      ∙ seg_diff_le (c.tr_total_size + pkt_len d.tda_mbuf) (in_flight c) (omega arith) small

  offset_stored :
      seg_diff (stored d c).tr_total_size (tcp_data_get_unsent_size (stored d c)) ≡ in_flight c
  offset_stored =
      let t = c.tr_total_size + pkt_len d.tda_mbuf in
      let back : t - (t - in_flight c) ≡ in_flight c = omega arith in
      ap (λ (n : ℕ). seg_diff n (tcp_data_get_unsent_size (stored d c))) total_stored
      ∙ ap (λ (n : ℕ). seg_diff t n) unsent_stored
      ∙ seg_diff_le t (t - in_flight c) (omega arith) small
      ∙ back

  sendable-stored :
      in_flight c ≤ c.tcb_snd.wnd → c.tcb_snd.wnd < seq_mod → sendable (stored d c) ≡ allowed d c
  unfolding sendable
  sendable-stored w w' =
      let left = seg_diff_le c.tcb_snd.wnd (in_flight c) w w' in
      ap (λ (n : ℕ). min n (seg_diff c.tcb_snd.wnd (in_flight c))) unsent_stored
      ∙ ap (λ (n : ℕ). min (c.tr_total_size + pkt_len d.tda_mbuf - in_flight c) n) left
      ∙ ap (λ (n : ℕ). min (n - in_flight c) (c.tcb_snd.wnd - in_flight c)) (sym length-all_bytes)

-- When a block counts the bytes that it stores and has no more in flight, a send of a text that fits into
-- its buffer, with push, goes well and sends the bytes that follow those in flight, of the stored ones and
-- then of the text: as many as the window allows, at most those of TCB_SEGS_PER_SEND + 1 segments. The
-- window covers what is in flight, and buffers and driver serve the segments.
pub tcp_data_send-texts :
    (env : Env) (d : DataArg) (c : Tcb)
    → ((b : List ℕ) → env.clones b ≡ true)
    → ((k : Segment) → env.builds k ≡ true)
    → ((k : Segment) → env.transmits k ≡ true)
    → c.tr_total_size ≡ length (join c.tr_data_mbufs)
    → seg_diff c.tcb_snd.nxt c.tcb_snd.una ≤ c.tr_total_size
    → 0 < pkt_len d.tda_mbuf
    → pkt_len d.tda_mbuf ≤ avail_send env c
    → c.tr_total_size + pkt_len d.tda_mbuf < seq_mod
    → d.tda_push ≡ true
    → seg_diff c.tcb_snd.nxt c.tcb_snd.una ≤ c.tcb_snd.wnd
    → c.tcb_snd.wnd < seq_mod
    → c.tcb_snd.nxt < seq_mod
    → (r : Tcb × Code) × (tcp_data_send env d c ≡ ok r)
      × (r.1 ≡ success)
      × (texts r.0.effects
          ≡ texts c.effects
            ++ take
                (min (allowed d c) (suc segs_per_send * env.mtu))
                (drop (seg_diff c.tcb_snd.nxt c.tcb_snd.una) (all_bytes d c)))
      × (r.0.tcb_snd.nxt ≡ seg_add c.tcb_snd.nxt (min (allowed d c) (suc segs_per_send * env.mtu)))
unfolding tcp_data_send send_stored
tcp_data_send-texts env d c clones builds transmits counts known some_bytes fits small push w w'
      nxt =
    let s = stored d c in
    let n = pkt_len d.tda_mbuf in
    let flags = record no_flags { ack = true; psh = d.tda_push; urg = d.tda_urg } in
    let unsent = tcp_data_get_unsent_size s in
    let at = offset_stored env d c counts known some_bytes small in
    let all = join-append c.tr_data_mbufs d.tda_mbuf in
    let size : length (join s.tr_data_mbufs) ≡ c.tr_total_size + n =
      ap (λ (b : List ℕ). length b) all ∙ length-all_bytes env d c counts known some_bytes small in
    let P =
      skip_sent_lem s.tr_data_mbufs (seg_diff s.tr_total_size unsent)
        (omega (arith, at, size, known, some_bytes)) in
    let l : length (join P.0.0) - P.0.1
        ≡ length (join s.tr_data_mbufs) - seg_diff s.tr_total_size unsent =
      sym (length-drop P.0.1 (join P.0.0))
      ∙ ap (λ (x : List ℕ). length x) P.3
      ∙ length-drop (seg_diff s.tr_total_size unsent) (join s.tr_data_mbufs) in
    let k = sendable-stored env d c counts known some_bytes small w w' in
    let within : sendable s ≤ length (join s.tr_data_mbufs) - seg_diff s.tr_total_size unsent =
      omega (
        arith,
        k,
        size,
        at,
        length-all_bytes env d c counts known some_bytes small,
        min_le (length (all_bytes d c) - in_flight c) (c.tcb_snd.wnd - in_flight c),
      ) in
    let Q =
      send_segments-texts env P.0.0 (sendable s) P.0.1 flags s clones builds transmits P.2
        (room_for P.0.1 (length (join P.0.0)) (seg_diff s.tr_total_size unsent)
          (length (join s.tr_data_mbufs)) (sendable s) (within_first P.0.0 P.0.1 P.2) l within)
        nxt in
    (
      report n Q.0.0,
      ap (λ (x : Tcb × ℕ). send_stored env d x) (stores env d c fits)
          ∙ if_false (n == 0) _ _ (ground arith)
          ∙ if_false (not d.tda_push && ltb unsent env.mtu) _ _
              (ap (λ (b : Bool). not b && ltb unsent env.mtu) push)
          ∙ ok_then (skip_sent s.tr_data_mbufs (seg_diff s.tr_total_size unsent)) _ P.1 (
              ok_then (tcp_data_send_segments env P.0.0 (sendable s) P.0.1 s.tcb_snd.nxt flags s) _
                Q.1 refl),
      refl,
      Q.2
          ∙ ap
              (λ (x : List ℕ).
                texts c.effects ++ take (min (sendable s) (suc segs_per_send * env.mtu)) x)
              (P.3
                ∙ ap (λ (x : List ℕ). drop (seg_diff s.tr_total_size unsent) x) all
                ∙ ap (λ (i : ℕ). drop i (all_bytes d c)) at)
          ∙ ap
              (λ (m : ℕ).
                texts c.effects
                ++ take (min m (suc segs_per_send * env.mtu)) (drop (in_flight c) (all_bytes d c)))
              k,
      Q.3 ∙ ap (λ (m : ℕ). seg_add c.tcb_snd.nxt (min m (suc segs_per_send * env.mtu))) k,
    )
