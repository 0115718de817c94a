-- ===== src/Commands/Agrees.antt =====
-- protocol/commands.py: the check by command, beside the policy of the controller and the network.
use openframetap.Prelude.{
  ◌&&◌, ==_iff, not, none, ap, ◌∙◌, reject_if, Option, Option-cases, refl, inl, inr, arith,
  Result-cases, some, ok, ◌≡◌, ℕ, List, Bool, false, true,
}
use openframetap.Commands.{live_url_policy, CommandDefinition}
use openframetap.Commands.Payloads.{
  is_empty_text, is_port_1935, validate_gimbal_speed, validate_rtmp_url, is_within_lan_policy,
  is_lan_target,
}
use openframetap.Commands.Validate.{
  validate_command_frame, validate_by_name, get_command_definition,
}
use openframetap.Commands.Frames.{plain_request}
use openframetap.Duml.{DumlFrame, decode_duml_frame}
use openframetap.Gimbal.{
  pocket3_speed_profile, validate_gimbal_control_frame, validate_decoded, ControlRate,
}
use openframetap.Network.{ipv6, ipv4, Readers, SplitUrl, is_rfc1918, in_rfc1918}
use openframetap.Texts.{text, starts_with}
use openframetap.Bytes.{same_bytes}

decoded_passes :
    (d : DumlFrame) (live : Bool) (rate : ControlRate)
    → validate_decoded pocket3_speed_profile live d ≡ ok rate
    → (validate_gimbal_speed d ≡ ok tt) × (d.flags ≡ 0x40)
unfolding validate_decoded validate_gimbal_speed
decoded_passes d live rate e = (ground arith, ground arith)

by_gimbal :
    (r : Readers) (d : DumlFrame)
    → validate_by_name r (text "gimbal_speed_control") d ≡ validate_gimbal_speed d
unfolding validate_by_name same_bytes
by_gimbal r d = refl

-- A frame that the controller's policy accepts for the Pocket 3 passes the check of the command for
-- the gimbal's speed as well.
pub policy-validates :
    (r : Readers) (raw : List ℕ) (live : Bool) (rate : ControlRate)
    → validate_gimbal_control_frame raw pocket3_speed_profile live ≡ ok rate
    → (d : DumlFrame) × (command : CommandDefinition) × (decode_duml_frame raw false ≡ ok d)
      × (get_command_definition (text "gimbal_speed_control") ≡ some command)
      × (validate_command_frame r command d ≡ ok tt)
unfolding validate_gimbal_control_frame get_command_definition same_bytes
policy-validates r raw live rate e = elim (Result-cases (decode_duml_frame raw false)) [
  | inr (bad, failed) ↦ absurd (cc (rw failed at e))
  | inl (d, decoded) ↦
      let (passes, flags) = decoded_passes d live rate (rw decoded at e) in
      (d, _, decoded, refl, plain_request r _ d flags refl refl ∙ by_gimbal r d ∙ passes)
]

-- What is known of a URL that the check accepts.
pub record OnTheLan (r : Readers) (url_bytes : List ℕ) : Type 0 where
  pub rtmp_url : List ℕ
  pub parsed : SplitUrl
  pub host : List ℕ
  pub address : ℕ
  pub decoded : r.decode_utf8 url_bytes ≡ some rtmp_url
  pub split : r.urlsplit rtmp_url ≡ some parsed
  pub hostname : parsed.hostname ≡ some host
  pub resolved : r.ip_address host ≡ some (ipv4 address)
  pub private : in_rfc1918 address ≡ true
  pub port : parsed.port ≡ some (some 1935)
  pub path : starts_with parsed.path (text "/live/") ≡ true

allowed : (b : Bool) → reject_if (not b) live_url_policy ≡ ok tt → b ≡ true
allowed true h = refl
allowed false h = absurd (cc h)

both_hold : {a b : Bool} → (a && b) ≡ true → (a ≡ true) × (b ≡ true)
both_hold {a = true} h = (refl, h)
both_hold {a = false} h = absurd (cc h)

parts :
    (r : Readers) (parsed : SplitUrl) (port : Option ℕ)
    → is_within_lan_policy r parsed port ≡ true
    → (is_lan_target r parsed.hostname ≡ true)
      × (is_port_1935 port ≡ true)
      × (starts_with parsed.path (text "/live/") ≡ true)
parts r parsed port h =
    let (no_username, password) = both_hold h in
    let (no_fragment, username) = both_hold no_username in
    let (no_query, fragment) = both_hold no_fragment in
    let (segments, query) = both_hold no_query in
    let (three, filled) = both_hold segments in
    let (rooted, count) = both_hold three in
    let (target, path) = both_hold rooted in
    let (host, at_port) = both_hold target in
    let (scheme, lan) = both_hold host in (lan, at_port, path)

port_lem : (port : Option ℕ) → is_port_1935 port ≡ true → port ≡ some 1935
port_lem none h = absurd (cc h)
port_lem (some n) h = ap (λ t. some t) ((==_iff n 1935).0 h)

second_holds : (a : Bool) {b : Bool} → (not a && b) ≡ true → b ≡ true
second_holds true h = absurd (cc h)
second_holds false h = h

none_found : (a : Bool) → (not a && false) ≡ true → ⊥
none_found true h = cc h
none_found false h = cc h

lan_lem :
    (r : Readers) (h : Option (List ℕ))
    → is_lan_target r h ≡ true
    → (host : List ℕ) × (address : ℕ) × (h ≡ some host)
      × (r.ip_address host ≡ some (ipv4 address))
      × (in_rfc1918 address ≡ true)
unfolding is_rfc1918
lan_lem r none e = absurd (cc e)
lan_lem r (some host) e = elim (Option-cases (r.ip_address host)) [
  | inl bad ↦ absurd (none_found (is_empty_text host) (rw bad at e))
  | inr (ipv4 n, found) ↦ (host, n, refl, found, second_holds (is_empty_text host) (rw found at e))
  | inr (ipv6 n, found) ↦ absurd (none_found (is_empty_text host) (rw found at e))
]

-- A URL that the check accepts names an IPv4 address of a private network, port 1935 and a path under
-- /live/.
pub validate_rtmp_url-OnTheLan :
    (r : Readers) (url_bytes : List ℕ)
    → validate_rtmp_url r url_bytes ≡ ok tt
    → OnTheLan r url_bytes
unfolding validate_rtmp_url is_rfc1918
validate_rtmp_url-OnTheLan r url_bytes e = elim (Option-cases (r.decode_utf8 url_bytes)) [
  | inl bad ↦ absurd (cc (rw bad at e))
  | inr (rtmp_url, decoded) ↦ elim (Option-cases (r.urlsplit rtmp_url)) [
    | inl bad ↦ absurd (cc (rw (decoded, bad) at e))
    | inr (parsed, split) ↦ elim (Option-cases parsed.port) [
      | inl bad ↦ absurd (cc (rw (decoded, split, bad) at e))
      | inr (port, ported) ↦
          let policy : is_within_lan_policy r parsed port ≡ true =
            allowed (is_within_lan_policy r parsed port) (rw (decoded, split, ported) at e) in
          let (lan, at_port, path) = parts r parsed port policy in
          let (host, address, hostname, resolved, private) = lan_lem r parsed.hostname lan in
          record {
            rtmp_url = rtmp_url;
            parsed = parsed;
            host = host;
            address = address;
            decoded = decoded;
            split = split;
            hostname = hostname;
            resolved = resolved;
            private = private;
            port = ported ∙ ap (λ t. some t) (port_lem port at_port);
            path = path;
          }
    ]
  ]
]
