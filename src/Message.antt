-- ===== src/Message.antt =====
-- sip/message.hpp and .cpp: a SIP message as osip has parsed it, and the accessors that the
-- transaction layer uses. Texts are bytes; a parameter that osip reports as absent is `none`.
pub mod Forwarding
pub mod Headers
use sim_ims.Prelude.{ℕ, Bool, true, false, Option, none, some, List, [], ◌∷◌, length}
use sim_ims.Prelude.Text.{Text}

pub data StartLine : Type 0 where
  request : Text → Text → StartLine
  response : ℕ → Text → StartLine

-- The parts of a Via header that the program reads.
pub record Via : Type 0 where
  pub protocol : Text
  pub host : Text
  pub port : Option Text
  pub branch : Option Text
  pub received : Option Text
  pub rport : Option Text

pub record CSeq : Type 0 where
  pub number : Option Text
  pub method : Text

-- A Contact as osip prints it, its URI as osip prints that, and the value osip reports for a
-- parameter's name.
pub record Contact : Type 0 where
  pub text : Text
  pub url : Option Text
  pub params : Text → Option Text

-- A header that osip keeps as a name and a value.
pub record Header : Type 0 where
  pub name : Text
  pub value : Option Text

-- `from_url` and `to_url` are the URIs in From and To as osip prints them. Max-Forwards is not among
-- `headers`.
pub record SipMessage : Type 0 where
  pub start : StartLine
  pub vias : List Via
  pub cseq : Option CSeq
  pub call_id : Text
  pub from_header : Text
  pub from_tag : Option Text
  pub to_header : Text
  pub to_tag : Option Text
  pub max_forwards_header : Option Text
  pub route_headers : List Text
  pub record_routes : List Text
  pub from_url : Option Text
  pub to_url : Option Text
  pub contacts : List Contact
  pub authorizations : List Text
  pub proxy_authorizations : List Text
  pub www_authenticates : List Text
  pub proxy_authenticates : List Text
  pub headers : List Header
  pub body : Option Text

unfoldable pub is_request : SipMessage → Bool
is_request m = elim m.start [ request method uri ↦ true | response code reason ↦ false ]

unfoldable pub is_response : SipMessage → Bool
is_response m = elim m.start [ request method uri ↦ false | response code reason ↦ true ]

unfoldable pub method : SipMessage → Text
method m = elim m.start [ request name uri ↦ name | response code reason ↦ [] ]

unfoldable pub status_code : SipMessage → ℕ
status_code m = elim m.start [ request name uri ↦ 0 | response code reason ↦ code ]

unfoldable pub cseq_method : SipMessage → Text
cseq_method m = elim m.cseq [ none ↦ [] | some c ↦ c.method ]

abbrev pub or_empty : Option Text → Text
or_empty none = []
or_empty (some t) = t

first_branch : List Via → Text
first_branch [] = []
first_branch (via ∷ vias) = or_empty via.branch

unfoldable pub via_branch : SipMessage → Text
unfolding first_branch
via_branch m = first_branch m.vias

unfoldable pub via_count : SipMessage → ℕ
via_count m = length m.vias

unfoldable pub from_tag_of : SipMessage → Text
from_tag_of m = or_empty m.from_tag

unfoldable pub to_tag_of : SipMessage → Text
to_tag_of m = or_empty m.to_tag
