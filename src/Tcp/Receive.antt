-- ===== src/Tcp/Receive.antt =====
-- The bytes that a connection receives: segments out of order are kept in a buffer, ordered by their first
-- numbers, and delivered when what was missing has come (src/tpg_tcp_data.c). The text of a received
-- segment is one buffer.
use warp.Prelude.{
  ℕ, Bool, true, false, ◌&&◌, not, List, [], ◌∷◌, ◌++◌, length, drop, ltb, ◌==◌, if◌then◌else◌,
}
use warp.Tcp.{Segment, Tcb, Env, RcvBuf, dec, tsms_missing_seq}
use warp.Tcp.Seq.{seg_lt, seg_le, seg_gt, seg_ge, seg_add, seg_diff}
use warp.Tcp.Send.{log, count}

abbrev pub seg_end : RcvBuf → ℕ
seg_end b = seg_add b.seg_seq (length b.seg_text)

-- TCB_RCVBUF_CONTAINED.
abbrev pub is_contained : RcvBuf → RcvBuf → Bool
is_contained a b = seg_ge a.seg_seq b.seg_seq && seg_le (seg_end a) (seg_end b)

-- `data_mbuf_merge`, and the buffer without its first bytes (`data_adj_chain`): its number stays.
abbrev pub merge : RcvBuf → List ℕ → RcvBuf
merge b bytes = record b { seg_text = b.seg_text ++ bytes }

abbrev pub adj : RcvBuf → ℕ → RcvBuf
adj b n = record b { seg_text = drop n b.seg_text }

-- The buffers that follow one that ends at a number, without what it includes.
unfoldable pub consume : ℕ → List RcvBuf → List RcvBuf
consume stop [] = []
consume stop (b ∷ bs) =
    let rest = consume stop bs in
    if seg_ge stop b.seg_seq
    then (if seg_lt stop (seg_end b) then adj b (seg_diff stop b.seg_seq) ∷ bs else rest)
    else b ∷ bs

-- The walk of `tcp_data_handle` over the buffers, to where a new one belongs.
unfoldable pub store : RcvBuf → List RcvBuf → List RcvBuf
store new [] = new ∷ []
store new (cur ∷ bs) =
    let rest = cur ∷ store new bs in
    let longer = merge cur new.seg_text in
    let tail = merge cur (drop (seg_diff (seg_end cur) new.seg_seq) new.seg_text) in
    if is_contained new cur
    then cur ∷ bs
    else if seg_lt new.seg_seq cur.seg_seq
    then new ∷ consume (seg_end new) (cur ∷ bs)
    else if seg_end cur == new.seg_seq
    then longer ∷ consume (seg_end longer) bs
    else if seg_le cur.seg_seq new.seg_seq && seg_lt new.seg_seq (seg_end cur)
    then tail ∷ consume (seg_end tail) bs
    else rest

-- What is delivered from the head of the buffers on: the buffers left, RCV.NXT, and the bytes delivered.
unfoldable pub deliver_data : (List ℕ → ℕ) → ℕ → List RcvBuf → List RcvBuf × ℕ × ℕ
deliver_data deliver nxt [] = ([], nxt, 0)
deliver_data deliver nxt (b ∷ bs) =
    let n = deliver b.seg_text in
    let rest = deliver_data deliver (seg_add nxt n) bs in
    if nxt == b.seg_seq
    then (if n == length b.seg_text
        then (rest.0, rest.1, seg_add n rest.2)
        else (adj b n ∷ bs, seg_add nxt n, n))
    else (b ∷ bs, nxt, 0)

-- The segment without what was received before.
unfoldable pub trim : ℕ → ℕ → List ℕ → RcvBuf
trim rcv_nxt seg_seq bytes =
    if seg_lt seg_seq rcv_nxt && seg_gt (seg_add seg_seq (length bytes)) rcv_nxt
    then record { seg_seq = rcv_nxt; seg_text = drop (seg_diff rcv_nxt seg_seq) bytes }
    else record { seg_seq = seg_seq; seg_text = bytes }

-- The text of a segment stored, and what can be delivered then.
unfoldable pub take_in : (List ℕ → ℕ) → ℕ → ℕ → List ℕ → List RcvBuf → List RcvBuf × ℕ × ℕ
unfolding trim store deliver_data
take_in deliver rcv_nxt seg_seq bytes bufs =
    deliver_data deliver rcv_nxt (store (trim rcv_nxt seg_seq bytes) bufs)

-- `tcp_data_handle`.
unfoldable pub tcp_data_handle : Env → ℕ → List ℕ → Tcb → Tcb × ℕ
unfolding take_in
tcp_data_handle env seg_seq bytes c =
    let r = take_in env.deliver c.tcb_rcv.nxt seg_seq bytes c.tcb_rcv_buf in
    if seg_le (seg_add seg_seq (length bytes)) c.tcb_rcv.nxt
    then (c, 0)
    else (record c { tcb_rcv_buf = r.0; tcb_rcv = record c.tcb_rcv { nxt = r.1 } }, r.2)

abbrev is_empty : List RcvBuf → Bool
is_empty [] = true
is_empty (b ∷ bs) = false

abbrev note_missing : Bool → Tcb → Tcb
note_missing was_missing c =
    if not was_missing && not (is_empty c.tcb_rcv_buf)
    then count tsms_missing_seq c
    else if was_missing && is_empty c.tcb_rcv_buf
    then log (dec tsms_missing_seq) c
    else c

-- `tsm_handle_incoming`: the bytes that were delivered.
unfoldable pub tsm_handle_incoming : Env → Segment → Tcb → Tcb × ℕ
tsm_handle_incoming env k c =
    let urgent = if ltb k.tcp_urp c.tcb_rcv.up then c.tcb_rcv.up else k.tcp_urp in
    let c' =
      if k.tcp_flags.urg then record c { tcb_rcv = record c.tcb_rcv { up = urgent } } else c in
    let r = tcp_data_handle env k.sent_seq k.text c' in
    (note_missing (not (is_empty c.tcb_rcv_buf)) r.0, r.1)
