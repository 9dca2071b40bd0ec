-- ===== src/Usm/Exchange.antt =====
-- `processIncomingMsg` and `__generateRequestOrResponseMsg` together: the response to an accepted message,
-- and the clock that a request claims when it reaches its peer.
use pysnmp.Base.Eq.{list_beq, list_beq_iff, list_eq, nat_eq}
use pysnmp.Base.{==_iff, ap, arith, false, none, refl, some, sym, true, ℕ, ◌+◌, ◌<◌, ◌∙◌, ◌≡◌}
use pysnmp.Base.Dict.{lookup, lookup-remove, remove}
use pysnmp.Usm.Mac.{Hashes, Octets, not_in_time_window}
use pysnmp.Usm.State.{
  Engine, Estimate, Library, SecurityParameters, UserInfo, Usm, decoded, not_in_time_windows, ok,
  protocol_exception, raise_usm_error, raised,
}
use pysnmp.Usm.User.{Incoming, is_authenticated, report_of}
use pysnmp.Usm.Checks.{outside_own_window, window_step}
use pysnmp.Usm.Incoming.{Accepted, process_incoming_msg}
use pysnmp.Usm.User.Returns.{IsUser}
use pysnmp.Usm.Incoming.Accepts.{process_incoming_msg-IsVouched}
use pysnmp.Usm.Sender.{Localizer}
use pysnmp.Usm.Outgoing.{
  Encoder, Outgoing, Sending, clock_of, is_unconfirmed_class, parameters_sent, sender_step,
}

late_is_refused :
    {S P : Type 0} (hashes : Hashes) (library : Library S P) (peer : Engine) (received : Incoming S)
    (p : SecurityParameters) (u : Usm)
    → is_authenticated received.security_level ≡ true
    → p.engine_id ≡ peer.engine_id
    → p.time + 150 < peer.time
    → window_step hashes library peer received p u
      ≡ raise_usm_error not_in_time_windows not_in_time_window
          (some p.user_name)
          (report_of peer received not_in_time_windows peer.second_reference 2)
          u
unfolding window_step
late_is_refused hashes library peer received p u asked same late =
    let own_engine : list_beq p.engine_id peer.engine_id ≡ true =
      (list_beq_iff p.engine_id peer.engine_id).1 same in
    let outside : outside_own_window hashes library peer received p ≡ true = ground arith in
    rw (asked, own_engine, outside) refl

module _ {G S P : Type 0} (hashes : Hashes) (library : Library S P) (encoder : Encoder G P)
    (localizer : Localizer) (engine : Engine) where
  -- A response to an accepted message is sent with the protocols and keys of the user that the message
  -- was accepted from, in the name that it gave and from the own engine; and only once, since a
  -- second response by the same reference raises `ProtocolError`.
  pub accepted_is_answered_once :
      (request : Incoming S) (s s' : Usm) (a : Accepted P) (header : G)
      (engine_id security_name : Octets) (level : ℕ) (pdu : P)
      → process_incoming_msg hashes library engine request s ≡ (ok a, s')
      → let answer : Outgoing G P = record {
        global_data = header;
        security_engine_id = engine_id;
        security_name = security_name;
        security_level = level;
        scoped_pdu = pdu;
        state_reference = some a.state_reference;
      } in
        (p : SecurityParameters) × (info : UserInfo) × (t : Usm) × (library.decode_parameters
            request.security_parameters
          ≡ decoded p)
        × IsUser s.users s.user_keys p info
        × (sender_step hashes library encoder localizer engine answer s' ≡ (
          ok (record {
            header = header;
            engine_id = engine.engine_id;
            level = level;
            pdu = pdu;
            user = record info { user_name = p.user_name };
          }),
          t,
        ))
        × (sender_step hashes library encoder localizer engine answer t
            ≡ (raised protocol_exception, t))
  unfolding sender_step
  accepted_is_answered_once request s s' a header engine_id security_name level pdu h =
      let v = process_incoming_msg-IsVouched hashes library engine request s s' a h in
      let t : Usm = record s' { cache = remove a.state_reference s'.cache } in
      let gone : lookup a.state_reference t.cache ≡ none =
        lookup-remove a.state_reference a.state_reference s'.cache
        ∙ rw ((==_iff a.state_reference a.state_reference).1 refl) refl in
      (v.parameters, v.info, t, v.parsed, v.user, rw v.remembered refl, rw gone refl)

  clock_heard :
      (x : Sending G P) (s : Usm) (e : Estimate)
      → is_authenticated x.level ≡ true
      → is_unconfirmed_class (encoder.pdu_type x.pdu) ≡ false
      → lookup x.engine_id s.timeline ≡ some e
      → clock_of hashes library encoder localizer engine x s ≡ (e.boots, e.time)
  unfolding clock_of
  clock_heard x s e asked confirmed heard = rw (asked, confirmed, heard) refl

  -- A request claims the time that was last heard of its peer, however long ago: if the peer's clock has
  -- run on by more than 150 seconds, the peer refuses the request as outside its time window.
  pub idle_request_is_late :
      (x : Sending G P) (s : Usm) (e : Estimate) (salt digest : Octets) (peer : Engine)
      (received : Incoming S) (u : Usm)
      → is_authenticated x.level ≡ true
      → is_unconfirmed_class (encoder.pdu_type x.pdu) ≡ false
      → lookup x.engine_id s.timeline ≡ some e
      → received.security_level ≡ x.level
      → peer.engine_id ≡ x.engine_id
      → e.time + 150 < peer.time
      → let p =
          parameters_sent hashes library encoder localizer engine x
            (clock_of hashes library encoder localizer engine x s)
            salt
            digest in
        window_step hashes library peer received p u
        ≡ raise_usm_error not_in_time_windows not_in_time_window
            (some x.user.user_name)
            (report_of peer received not_in_time_windows peer.second_reference 2)
            u
  idle_request_is_late x s e salt digest peer received u asked confirmed heard same_level
        same_engine late =
      late_is_refused hashes library peer received
        (parameters_sent hashes library encoder localizer engine x
          (clock_of hashes library encoder localizer engine x s) salt digest)
        u (ap is_authenticated same_level ∙ asked) (sym same_engine)
        (rw (clock_heard x s e asked confirmed heard) late)
