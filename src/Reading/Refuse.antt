-- ===== src/Reading/Refuse.antt =====
-- What a client that is not verified sends to the process does not arrive there.
use mathlib.Core.Path.{subst}
use proc_bridge.Base.{
  ℕ, ◌≡◌, refl, ap, sym, ◌∙◌, Bool, true, false, some, List, [], ◌∷◌, ◌++◌, map, Every, inl, inr, ℤ,
  Mem,
}
use proc_bridge.Package.{Package, encode}
use proc_bridge.Hub.{Hub}
use proc_bridge.Channel.Append.{Carries, load_head_of_Carries}
use proc_bridge.Client.{RecvBuffer}
use proc_bridge.Carrier.{Traffic}
use proc_bridge.Stlv.{Stlv, IsWaiting, IsWhole, write}
use proc_bridge.Reading.{Reader, Feed, Recv, freed, handle_pkg, with_value, read_client_socket}
use proc_bridge.Reading.Stream.{packs, AllPacked, handle_pkg-SameBytes}
use proc_bridge.Reading.Whole
use proc_bridge.Reading.Whole.{received, Stops}
use proc_bridge.Reading.Values.{read_client_socket-values}
use proc_bridge.Reading.Keeps.{Step, Kept, read_client_socket-Kept}
use proc_bridge.Reading.Deliver.{ForProcess, written-Carries, last_package, Every-split, split_map}

-- A package for the process, from a client that is not verified.
refused :
    (w : Feed) (r : Reader) (pkg : Mem) (p : Package)
    → ForProcess p
    → Carries pkg p
    → r.verify ≡ false
    → handle_pkg w r pkg ≡ (freed r, true)
unfolding handle_pkg
refused w r pkg p f c v =
    let kind = ap (λ h. h.pkg_type) (load_head_of_Carries pkg p f.fits c) in
    rw (kind, f.no_msg, f.no_inner, v) refl

-- Nothing has changed for the process, if all that was cut off are packages for it.
abbrev Same :
    Hub → RecvBuffer → Traffic → Hub → RecvBuffer → Bool → Traffic → List (List ℕ) → Type 0
Same hub0 recv_buffer0 recv0 hub recv_buffer verify recv log =
    (ps : List Package)
    → Every ForProcess ps
    → log ≡ map encode ps
    → (verify ≡ false) × (hub ≡ hub0) × (recv_buffer ≡ recv_buffer0) × (recv ≡ recv0)

module _ (stlv : Stlv) (w : Feed) (hub0 : Hub) (recv_buffer0 : RecvBuffer) (recv0 : Traffic) where
  refused-Step : Step stlv w (Same hub0 recv_buffer0 recv0)
  refused-Step r value told ps for_process e =
      let r0 = with_value r value in
      let same = handle_pkg-SameBytes w r0 r0.pack_buff in
      let (qs, p, eq, front, here) = last_package r.handled value ps (sym (same.0.3) ∙ e) in
      let (before, last) =
        Every-split ForProcess qs (p ∷ []) (subst (Every ForProcess) eq for_process) in
      let carries : Carries r0.pack_buff p =
        subst (λ x. Carries (write r.pack_buff 0 x) p) (sym here) (written-Carries r.pack_buff p) in
      let was = told qs before front in
      rw (refused w r0 r0.pack_buff p last.0 carries was.0) (unfold freed in was)

-- read_client_socket, with an unpacker that gives each value packed back when its pack is whole
-- and nothing before, on a client that is not verified and has no bytes that wait, where the calls
-- of recv give the packs of a list of packages for the process, each no longer than
-- BRIDGE_PACK_LEN, cut in any way, and one of the calls gives no data: it ends, and the client is
-- not verified afterwards, and the hub, the receive buffer and the counts of what was received are
-- as they were.
pub read_client_socket_unverified :
    (stlv : Stlv) (w : Feed) (calls : List Recv) (r : Reader) (ps : List Package)
    → Stops calls
    → IsWaiting stlv
    → IsWhole stlv
    → r.verify ≡ false
    → r.handled ≡ []
    → Whole.held r ≡ []
    → Every ForProcess ps
    → AllPacked stlv (map encode ps)
    → received calls ≡ packs stlv (map encode ps)
    → (r' : Reader) × (ret : ℤ) × (read_client_socket stlv w calls r ≡ some (r', ret))
      × (r'.verify ≡ false)
      × (r'.hub ≡ r.hub)
      × (r'.recv_buffer ≡ r.recv_buffer)
      × (r'.recv ≡ r.recv)
read_client_socket_unverified stlv w calls r ps stops waiting whole v no_log bare fp packed bytes =
    let (r', ret, e, how) =
      read_client_socket-values stlv w calls r (map encode ps) stops waiting whole (rw no_log tt)
        packed bare bytes in
    let kept : Same r.hub r.recv_buffer r.recv r'.hub r'.recv_buffer r'.verify r'.recv r'.handled =
      subst (Kept stlv w (Same r.hub r.recv_buffer r.recv)) e (
        read_client_socket-Kept stlv w (Same r.hub r.recv_buffer r.recv)
          (refused-Step stlv w r.hub r.recv_buffer r.recv) calls r
          (λ xs for_process log. (v, refl, refl, refl))) in
    let result : (r'.verify ≡ false)
        × (r'.hub ≡ r.hub)
        × (r'.recv_buffer ≡ r.recv_buffer)
        × (r'.recv ≡ r.recv) =
      elim how [
        | inl (ok, all) ↦ kept ps fp (all ∙ ap (λ l. l ++ map encode ps) no_log)
        | inr (bad, dead, (later, eq)) ↦
            let (done, more, parts, log) =
              split_map ps r'.handled later (ap (λ l. l ++ map encode ps) (sym no_log) ∙ eq) in
            let first = Every-split ForProcess done more (subst (Every ForProcess) parts fp) in
            kept done first.0 log
      ] in
    (r', ret, e, result.0, result.1, result.2, result.3)
