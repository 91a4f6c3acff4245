-- ===== src/Concurrent/Alone.antt =====
-- Where nothing comes between, the accesses make up the functions of the source.
use proc_bridge.Base.{
  ℕ, zero, suc, ◌+◌, ◌≡◌, refl, arith, List, [], ◌∷◌, ◌++◌, Bool-cases, inl, inr, Mem, is_zero, not,
  ◌||◌, ◌==◌, some, pos, ℤ, if◌then◌else◌, ltb_ℤ, leb_ℤ, sub_ℕ, int32, pos_part, slice,
}
use proc_bridge.Ring.{ring_space}
use proc_bridge.Package.{Package, head_len}
use proc_bridge.Hub.{Hub, get_snd_bit}
use proc_bridge.Channel.{send_to_hub, send_checked, send_copy, fetch_send_channel}
use proc_bridge.Concurrent.{
  Call, Move, call_send, step_send, call_fetch, step_fetch, send_start, send_step, fetch_start,
  fetch_step, begin_send, begin_fetch, log_sent, log_fetched, move, run,
}
use proc_bridge.Concurrent.Invariant.{call_package}
use proc_bridge.Concurrent.Fifo.{at_rest}

abbrev pub repeat : ℕ → Move → List Move
repeat zero m = []
repeat (suc n) m = m ∷ repeat n m

abbrev pub sent_call : Hub → Call → Hub × ℤ
sent_call h c = send_to_hub h (pos c.target_id) (some c.sending_data) (pos c.len) c.curr_ms

not_positive : (n : ℕ) → leb_ℤ (pos n) (pos 0) ≡ (n == 0)
not_positive n = ground arith

send_alone :
    (h : Hub) (q : List Package) (c : Call)
    → run (call_send c ∷ repeat 7 step_send) (at_rest h q) ≡ (
        let (h', ret) = sent_call h c in
        record (at_rest h q) {
          hub = h';
          sent = if leb_ℤ (pos 0) ret then q ++ call_package h c ∷ [] else q;
        })
unfolding run move begin_send send_start send_step log_sent send_to_hub send_checked send_copy
send_alone h q c =
    rw (not_positive c.target_id, not_positive c.len)
      (elim (Bool-cases (c.target_id == 0 || c.len == 0)) [
        | inl bad ↦ rw bad refl
        | inr good ↦ rw good (elim (Bool-cases (not (is_zero (get_snd_bit h c.target_id)))) [
          | inl shut ↦ rw shut refl
          | inr clear ↦
              rw clear
                (elim (Bool-cases (
                  ltb_ℤ (sub_ℕ (ring_space h.send_buff_size h.send_head h.send_tail) 1)
                    (int32 (head_len + c.len)))) [
                      | inl full ↦ rw full refl
                      | inr room ↦ rw room refl
                    ])
        ])
      ])

fetch_alone :
    (h : Hub) (q : List Package) (buff : Mem)
    → run (call_fetch buff ∷ repeat 6 step_fetch) (at_rest h q) ≡ (
        let (h', buff', ret) = fetch_send_channel h buff in
        record (at_rest h q) {
          hub = h';
          fetched = if h.send_head == h.send_tail then [] else slice buff' 0 (pos_part ret) ∷ [];
        })
unfolding run move begin_fetch fetch_start fetch_step log_fetched fetch_send_channel
fetch_alone h q buff = elim (Bool-cases (h.send_head == h.send_tail)) [
  | inl e ↦ rw e refl
  | inr e ↦ rw e refl
]

-- A call of `_send_to_bridge` on data that are not null, or of `fetch_send_channel`, whose accesses
-- follow one another with none of the other side between them does what the function does: the hub,
-- the package sent or the bytes fetched, and whether there are any, are the same.
pub run-alone :
    (h : Hub) (q : List Package) (c : Call) (buff : Mem)
    → (run (call_send c ∷ repeat 7 step_send) (at_rest h q) ≡ (
        let (h', ret) = sent_call h c in
        record (at_rest h q) {
          hub = h';
          sent = if leb_ℤ (pos 0) ret then q ++ call_package h c ∷ [] else q;
        }))
      × (run (call_fetch buff ∷ repeat 6 step_fetch) (at_rest h q) ≡ (
          let (h', buff', ret) = fetch_send_channel h buff in
          record (at_rest h q) {
            hub = h';
            fetched = if h.send_head == h.send_tail then [] else slice buff' 0 (pos_part ret) ∷ [];
          }))
run-alone h q c buff = (send_alone h q c, fetch_alone h q buff)
