-- ===== src/Scscf.antt =====
-- s-cscf/scscf_service.cpp, sip/reg_event_notifier.hpp: the S-CSCF's providers, its subscriptions to
-- registration events and the cleanup of its store. REGISTER is Registrar, the requests of calls are
-- Router.
pub mod Events
pub mod Examples
use sim_ims.Prelude.{
  ℕ, ◌+◌, ◌%◌, ◌^◌, Bool, true, false, not, ◌&&◌, ◌||◌, Option, none, some, List, [], ◌∷◌, ◌++◌,
  is_empty, is_some, eqb, if◌then◌else◌, ◌==◌,
}
use sim_ims.Prelude.Text.{Text, codes, text_instance}
use sim_ims.Common.{Result, ok, err}
use sim_ims.Uri.{extract_uri_from_name_addr}
use sim_ims.Uri.Endpoints.{OsipUri, normalize_impu_uri}
use sim_ims.Bencode.{decimal}
use sim_ims.Auth.{after_word}
use sim_ims.Message.{SipMessage, to_tag_of}
use sim_ims.Message.Forwarding.{create_response, sent, with_headers, add_record_route, request_uri}
use sim_ims.Message.Headers.{
  Osip, get_header, get_headers, contact, cseq_number, add_header, set_contact,
}
use sim_ims.Store.Memory.{Bindings, lookup, purge_expired}
use sim_ims.Registrar.{Moment}
use mathlib.Core.List.{reverse}

abbrev add_digest {ℓ} : {P : Type ℓ} → Option P → List P
add_digest none = []
add_digest (some p) = p ∷ []

-- `ims` and `digest` make the two providers; the second needs a credential store.
unfoldable pub build_auth_providers {ℓ} : {P : Type ℓ} → Text → P → Option P → List P
build_auth_providers auth_mode ims digest =
    if auth_mode == codes "digest_only"
    then add_digest digest
    else if auth_mode == codes "hybrid_fallback"
    then ims ∷ add_digest digest
    else ims ∷ []

pub record InitialRegNotifyContext : Type 0 where
  pub request_uri : Text
  pub from_header : Text
  pub to_header : Text
  pub call_id : Text
  pub cseq : ℕ
  pub event : Text
  pub subscription_state : Text
  pub route_set : List Text
  pub contact : Text
  pub body : Text
  pub content_type : Text

pub record ScscfService : Type 0 where
  pub osip : Osip
  pub uri_parse : Text → Option OsipUri
  pub domain : Text
  pub listen_addr : Text
  pub listen_port : ℕ
  pub exosip_port : ℕ

abbrev text_or : Option Text → Text → Text
text_or none d = d
text_or (some t) d = t

abbrev pub sip_address : Text → ℕ → Text
sip_address host port = codes "<sip:" ++ host ++ b':' ∷ decimal port ++ codes ">"

abbrev reginfo : Text → Text
reginfo aor =
    codes "<?xml version=\"1.0\"?>\r\n"
    ++ codes "<reginfo xmlns=\"urn:ietf:params:xml:ns:reginfo\" version=\"0\" state=\"full\">\r\n"
    ++ codes "  <registration aor=\""
    ++ aor
    ++ codes "\" id=\"1\" state=\"active\">\r\n"
    ++ codes "    <contact id=\"1\" state=\"active\" event=\"registered\" />\r\n"
    ++ codes "  </registration>\r\n"
    ++ codes "</reginfo>\r\n"

abbrev pub with_tag : Text → Text → Text
with_tag from to_tag =
    if not (is_some (after_word (codes ";tag=") from)) && not (is_empty to_tag)
    then from ++ codes ";tag=" ++ to_tag
    else from

-- The responses that are sent, the store after, and the NOTIFY that is asked for.
-- What sendInitialNotify asks the notifier for, which does nothing where none is configured.
pub data NotifyRequest : Type 0 where
  asked : InitialRegNotifyContext → NotifyRequest
  no_contact cseq_throws not_reached : NotifyRequest

pub record Subscribed : Type 0 where
  pub responses : List SipMessage
  pub store : Bindings
  pub notify : NotifyRequest

module _ (s : ScscfService) (at : Moment) where
  unfoldable pub initial_notify : SipMessage → Text → NotifyRequest
  unfolding contact get_headers get_header extract_uri_from_name_addr cseq_number after_word decimal
  initial_notify subscribe to_tag = elim (contact subscribe) [
    | none ↦ no_contact
    | some text ↦ elim (cseq_number subscribe) [
      | none ↦ cseq_throws
      | some number ↦ asked record {
        request_uri = extract_uri_from_name_addr text;
        from_header = with_tag subscribe.to_header to_tag;
        to_header = subscribe.from_header;
        call_id = subscribe.call_id;
        cseq = (number + 1) % 2 ^ 32;
        event = text_or (get_header s.osip (codes "Event") subscribe) (codes "reg");
        subscription_state =
            codes "active;expires="
            ++ text_or (get_header s.osip (codes "Expires") subscribe) (codes "3600");
        route_set = reverse (get_headers s.osip (codes "Record-Route") subscribe);
        contact = sip_address s.domain s.exosip_port;
        body = reginfo (extract_uri_from_name_addr subscribe.to_header);
        content_type = codes "application/reginfo+xml";
      }
    ]
  ]

  abbrev add_record_routes : List Text → SipMessage → SipMessage
  add_record_routes [] m = m
  add_record_routes (t ∷ ts) m = add_record_routes ts (add_record_route t m)

  unfoldable pub subscribe_ok : SipMessage → Result SipMessage
  unfolding create_response add_header set_contact get_headers get_header decimal
  subscribe_ok m =
      let expires = text_or (get_header s.osip (codes "Expires") m) (codes "3600") in
      with_headers
        (λ made.
          let resp =
            set_contact s.osip (sip_address s.listen_addr s.listen_port)
              (add_header (codes "Expires") expires made) in
          add_record_routes (get_headers s.osip (codes "Record-Route") m) resp)
        (create_response at.created at.tag at.tagged_to m 200 (codes "OK"))

  abbrev refuse : SipMessage → ℕ → Text → Bindings → Subscribed
  refuse m code reason store = record {
    responses = sent (create_response at.created at.tag at.tagged_to m code reason);
    store = store;
    notify = not_reached;
  }

  abbrev is_reg : Option Text → Bool
  is_reg none = false
  is_reg (some event) = event == codes "reg"

  -- The NOTIFY is asked for after a response that was made.
  abbrev notify_after : SipMessage → Result SipMessage → NotifyRequest
  notify_after m (err x) = not_reached
  notify_after m (ok resp) = initial_notify m (to_tag_of resp)

  unfoldable pub on_reg_subscribe : SipMessage → Bindings → Subscribed
  unfolding get_header lookup normalize_impu_uri subscribe_ok initial_notify create_response
      to_tag_of
  on_reg_subscribe m store =
      let found = lookup at.now (normalize_impu_uri s.uri_parse (request_uri m)) store in
      if is_reg (get_header s.osip (codes "Event") m)
      then elim found.0 [
        | err x ↦ refuse m 404 (codes "Not Found") found.1
        | ok b ↦
            let resp = subscribe_ok m in
            record { responses = sent resp; store = found.1; notify = notify_after m resp }
      ]
      else refuse m 489 (codes "Bad Event") store

  unfoldable pub run_registration_cleanup : Bindings → Bindings
  unfolding purge_expired
  run_registration_cleanup store = (purge_expired at.now store).1
