-- ===== src/Dispatch/Loop.antt =====
-- The loop of `dispatch_bridge` of src/carrier/bridge_carrier.c: one package after the other is taken
-- off the send queue and dispatched, until the queue is empty or the time is over.
use proc_bridge.Base.{ℕ, zero, suc, Bool, List, [], ◌∷◌, ◌++◌, slice, ℤ, pos, negsuc, Mem}
use proc_bridge.Hub.{Hub}
use proc_bridge.Stlv.{Stlv}
use proc_bridge.Channel.{fetch_send_channel}
use proc_bridge.Carrier.{Carrier}
use proc_bridge.Sending.{Outside}
use proc_bridge.Dispatch.{dispatch_pkg}

-- The carrier and the local array. For the statements, `taken` lists the bytes of the packages that
-- were taken, oldest first.
pub record Round : Type 0 where
  pub carrier : Carrier
  pub buff : Mem
  pub taken : List (List ℕ)

abbrev pub with_hub : Carrier → Hub → Carrier
with_hub c h = record c { env = record c.env { hub = h } }

-- What follows a fetch: the loop ends where nothing was fetched.
abbrev pub after_fetch :
    (Round → Round) → Stlv → (ℕ → Bool) → Outside → Round → Hub × Mem × ℤ → Round
after_fetch go_on stlv calloc_ok out s (h, buff, negsuc n) = record s {
  carrier = with_hub s.carrier h;
  buff = buff;
}
after_fetch go_on stlv calloc_ok out s (h, buff, pos zero) = record s {
  carrier = with_hub s.carrier h;
  buff = buff;
}
after_fetch go_on stlv calloc_ok out s (h, buff, pos (suc n)) = go_on (record {
  carrier = (dispatch_pkg stlv calloc_ok out (with_hub s.carrier h) buff (suc n)).0;
  buff = buff;
  taken = s.taken ++ slice buff 0 (suc n) ∷ [];
})

-- `dispatch_bridge`, over what the outside does in each of the rounds that begin in time.
unfoldable pub dispatch_bridge : Stlv → (ℕ → Bool) → List Outside → Round → Round
dispatch_bridge stlv calloc_ok [] s = s
dispatch_bridge stlv calloc_ok (out ∷ more) s =
    after_fetch (dispatch_bridge stlv calloc_ok more) stlv calloc_ok out s
      (fetch_send_channel s.carrier.env.hub s.buff)
