-- ===== src/Pcscf/Anchoring.antt =====
-- p-cscf/pcscf_service.cpp: what the P-CSCF does with media sessions, rtpengine and the PCF when calls
-- end, and the handler of responses to an INVITE.
use sim_ims.Prelude.{
  ℕ, Bool, true, false, not, ◌&&◌, Option, none, some, List, [], ◌∷◌, is_empty, leb, ltb, eqb,
  if◌then◌else◌, ◌==◌,
}
use sim_ims.Prelude.Text.{Text, codes, text_instance}
use sim_ims.Common.{Result, ok, err}
use sim_ims.Message.{SipMessage, is_response, cseq_method, status_code}
use sim_ims.Media.{MediaSession, MediaSessionKey, MediaTerminationPlan, Sessions}
use sim_ims.Media.Invite.{
  begin_invite_response, commit_invite_response, mark_invite_final_success,
  mark_invite_final_failure, mark_terminating, complete_termination,
}
use sim_ims.Pcscf.{
  PcscfService, PcscfState, RtpengineFlags, RtpengineResult, RtpengineClient, PcfClient,
  sanitize_for_ue_egress, media_key_for,
}

abbrev pub flags : RtpengineFlags
flags = record {
  direction_from = codes "internal";
  direction_to = codes "internal";
  transport_protocol = [];
  ice_remove = true;
  rtcp_mux_demux = false;
  replace = none;
  record_call = none;
}

-- An SDP that is not empty replaces the body; its content type is not in the model.
abbrev pub with_sdp : Text → SipMessage → SipMessage
with_sdp sdp m = if is_empty sdp then m else record m { body = some sdp }

abbrev pub is_2xx : ℕ → Bool
is_2xx status = leb 200 status && ltb status 300

module _ {ℓ} {E : Type ℓ} (s : PcscfService E) where
  abbrev delete_media : Option (RtpengineClient E) → MediaSession → E → E
  delete_media none session e = e
  delete_media (some r) session e = (r.delete_session session e).1

  abbrev terminate_rx : Option (PcfClient E) → Text → E → E
  terminate_rx none session_id e = e
  terminate_rx (some p) session_id e =
      if is_empty session_id
      then e
      else (p.terminate_session (record { session_id = session_id; termination_cause = 1 }) e).1

  -- The calls for one plan; their failures are logged only.
  unfoldable pub release : MediaTerminationPlan → E → E
  release plan e = terminate_rx s.pcf plan.rx_session_id (delete_media s.rtpengine plan.session e)

  unfoldable pub complete_media_terminations :
      List MediaTerminationPlan → Sessions → E → Sessions × E
  unfolding release complete_termination
  complete_media_terminations [] media e = (media, e)
  complete_media_terminations (plan ∷ plans) media e =
      complete_media_terminations plans (complete_termination plan.key media) (release plan e)

  -- Plans to complete, with the table that has them.
  abbrev pub completed : List MediaTerminationPlan × Sessions → PcscfState E → PcscfState E
  completed r st =
      let done = complete_media_terminations r.0 r.1 st.outside in
      record st { media = done.0; outside = done.1 }

  -- After a session was looked for to be terminated.
  abbrev pub ended : Option MediaTerminationPlan × Sessions → PcscfState E → PcscfState E
  ended (none, media) st = record st { media = media }
  ended (some plan, media) st = record st {
    media = complete_termination plan.key media;
    outside = release plan st.outside;
  }

  unfoldable pub terminate_media_for_request : SipMessage → PcscfState E → PcscfState E
  unfolding mark_terminating release complete_termination
  terminate_media_for_request m st = ended (mark_terminating (media_key_for m) st.media) st

  -- After the answer of rtpengine to an INVITE response with this SDP.
  abbrev pub after_answer :
      Result RtpengineResult
      → MediaSessionKey
      → Text
      → SipMessage
      → PcscfState E
      → SipMessage × PcscfState E
  after_answer (err x) key sdp m st = (m, st)
  after_answer (ok r) key sdp m st =
      let is_final = is_2xx (status_code m) in
      let committed = commit_invite_response key sdp is_final st.media in
      let media_done = record st { media = committed } in
      (
        with_sdp r.sdp m,
        if is_final
            then completed (mark_invite_final_success key committed) media_done
            else media_done,
      )

  abbrev pub update_media :
      RtpengineClient E → Text → SipMessage → PcscfState E → SipMessage × PcscfState E
  update_media r sdp m st =
      let begun = begin_invite_response (media_key_for m) st.media in
      elim begun.0 [
        | none ↦ (m, record st { media = begun.1 })
        | some update ↦
            let a = r.answer update.session sdp flags st.outside in
            after_answer a.0 update.key sdp m (record st { media = begun.1; outside = a.1 })
      ]

  abbrev pub without_media : SipMessage → PcscfState E → SipMessage × PcscfState E
  without_media m st =
      if is_2xx (status_code m)
      then (m, completed (mark_invite_final_success (media_key_for m) st.media) st)
      else (m, st)

  abbrev pub with_media :
      Option (RtpengineClient E)
      → Option Text
      → SipMessage
      → PcscfState E
      → SipMessage × PcscfState E
  with_media (some r) (some sdp) m st = update_media r sdp m st
  with_media none sdp m st = without_media m st
  with_media (some r) none m st = without_media m st

  -- An INVITE's response, whose Via headers but the bottom one are taken off.
  abbrev pub sanitized_response : SipMessage → PcscfState E → SipMessage × PcscfState E
  sanitized_response m st =
      let status = status_code m in
      if leb 300 status && leb status 699
      then (m, completed (mark_invite_final_failure (media_key_for m) st.media) st)
      else if not (eqb status 183) && not (is_2xx status)
      then (m, st)
      else with_media s.rtpengine m.body m st

  -- The response that goes on, and the state.
  unfoldable pub on_invite_response : SipMessage → PcscfState E → SipMessage × PcscfState E
  unfolding is_response cseq_method mark_invite_final_failure complete_media_terminations
      mark_invite_final_success begin_invite_response commit_invite_response status_code
  on_invite_response m st =
      if is_response m && cseq_method m == codes "INVITE"
      then sanitized_response (sanitize_for_ue_egress m) st
      else (m, st)
