-- ===== src/Usm/Incoming/Replay.antt =====
-- The time window of a peer's message: the peer's clock is taken over from the message before the message
-- is compared with it.
use pysnmp.Base.Eq.{list_beq, list_beq-ne, list_beq_iff, list_eq, nat_eq}
use pysnmp.Base.Dict.{lookup, lookup-insert}
use pysnmp.Base.{arith, false, refl, some, true, ◌+◌, ◌∙◌, ◌≡◌, ◌≢◌, ◌≤◌}
use pysnmp.Usm.Mac.{Hashes}
use pysnmp.Usm.State.{Engine, Library, SecurityParameters, UserInfo, Usm, ok}
use pysnmp.Usm.User.{Incoming, is_authenticated}
use pysnmp.Usm.Checks.{
  authenticate_step, estimate_of, is_newer, outside_peer_window, peer_window, window_step,
}
use pysnmp.Usm.Checks.Returns.{authenticate-returns, synchronized}

module _ {S P : Type 0} (hashes : Hashes) (library : Library S P) (engine : Engine)
    (call : Incoming S) where
  synchronized-lookup :
      (p : SecurityParameters) (s : Usm)
      → is_authenticated call.security_level ≡ true
      → lookup p.engine_id (synchronized hashes library engine call p s).timeline
        ≡ some (estimate_of hashes library engine call p engine.synchronized_at)
  synchronized-lookup p s asked = rw asked (
      lookup-insert p.engine_id p.engine_id
        (estimate_of hashes library engine call p engine.synchronized_at) s.timeline
      ∙ rw ((list_beq_iff p.engine_id p.engine_id).1 refl) refl)

  own_estimate :
      (p : SecurityParameters) (s : Usm)
      → p.boots ≢ 2147483647
      → engine.compared_at ≤ engine.synchronized_at + 150
      → engine.synchronized_at ≤ engine.compared_at + 150
      → peer_window hashes library engine call p
          (some (estimate_of hashes library engine call p engine.synchronized_at))
          s
        ≡ (ok tt, s)
  own_estimate p s countable slow back =
      let older : is_newer hashes library engine call p
            (estimate_of hashes library engine call p engine.synchronized_at)
          ≡ false =
        ground arith in
      let inside : outside_peer_window hashes library engine call p
            (estimate_of hashes library engine call p engine.synchronized_at)
          ≡ false =
        ground arith in
      rw (older, inside) refl

  -- An authenticated message from a peer passes the time window whatever the peer's clock was known to
  -- be, and that clock is then the one of the message: if its boots are below the maximum and the
  -- check takes at most 150 seconds, an old message is accepted and turns the clock back.
  pub old_message_passes :
      (p : SecurityParameters) (info : UserInfo) (s s1 : Usm)
      → authenticate_step hashes library engine call p info s ≡ (ok tt, s1)
      → is_authenticated call.security_level ≡ true
      → p.engine_id ≢ engine.engine_id
      → p.boots ≢ 2147483647
      → engine.compared_at ≤ engine.synchronized_at + 150
      → engine.synchronized_at ≤ engine.compared_at + 150
      → (window_step hashes library engine call p s1 ≡ (ok tt, s1))
        × (lookup p.engine_id s1.timeline
            ≡ some (estimate_of hashes library engine call p engine.synchronized_at))
  unfolding window_step
  old_message_passes p info s s1 h asked foreign countable slow back =
      let (digest, e) = authenticate-returns hashes library engine call p info s s1 h in
      let known = synchronized-lookup p s asked in
      let differ : list_beq p.engine_id engine.engine_id ≡ false =
        list_beq-ne p.engine_id engine.engine_id foreign in
      let read : lookup p.engine_id s1.timeline
          ≡ some (estimate_of hashes library engine call p engine.synchronized_at) =
        rw e known in
      (rw (asked, differ, read) (own_estimate p s1 countable slow back), read)
