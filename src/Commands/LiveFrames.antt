-- ===== src/Commands/LiveFrames.antt =====
-- protocol/livestream_commands.py: the frame that configures the livestream, and its check.
use openframetap.Prelude.{
  none, ◌∙◌, inl, inr, Bool-cases, Option, ok, ==_refl, get_or, ltb, take, some, refl, drop, arith,
  length, ◌≤◌, ◌&&◌, leb, ◌||◌, ◌==◌, [], ◌∷◌, ◌≡◌, List, ℕ, false, true,
}
use openframetap.Commands.Livestream.{
  LivestreamError, build_configure_live_stream_frame, configure_with, configure_live_stream,
  request, live_stream_payload, resolution_byte, fps_byte,
}
use openframetap.Commands.Payloads.{
  validate_configure_live_stream, validate_rtmp_url, is_resolution_head,
}
use openframetap.Commands.Validate.{validate_command_frame, validate_by_name}
use openframetap.Commands.Frames.{decoded_again, map_err-ok, plain_request}
use openframetap.Duml.{DumlFrame, decode_duml_frame}
use openframetap.Network.{Readers}
use openframetap.Bytes.{same_bytes, from_little, to_little, from-to_little}

-- The payload of a configuration passes all the checks but the one of its URL.
configures :
    (r : Readers) (res fps bitrate : ℕ) (url : List ℕ) (d : DumlFrame)
    → d.payload ≡ live_stream_payload res fps bitrate url
    → is_resolution_head (0x00 ∷ 0x2E ∷ 0x00 ∷ res ∷ []) ≡ true
    → (fps == 0x02 || fps == 0x03) ≡ true
    → (leb 500 bitrate && leb bitrate 20000) ≡ true
    → 1 ≤ length url
    → length url ≤ 0xFFFF
    → validate_configure_live_stream r d ≡ validate_rtmp_url r url
unfolding validate_configure_live_stream same_bytes to_little
configures r res fps bitrate url d e head rate speed some_text short =
    let sized : from_little (to_little 2 (length url)) ≡ length url =
      from-to_little (length url) (omega arith) in
    let spoken : from_little (to_little 2 bitrate) ≡ bitrate =
      from-to_little bitrate (ground arith) in
    let bits : from_little (drop 4 (take 6 d.payload)) ≡ bitrate = rw e spoken in
    let count : from_little (drop 12 (take 14 d.payload)) ≡ length url = rw e sized in
    let rest : drop 14 d.payload ≡ url = rw e refl in
    let whole : ltb (length d.payload) 15 ≡ false = rw e (ground arith) in
    let top : is_resolution_head (take 4 d.payload) ≡ true = rw e head in
    let two : same_bytes (drop 6 (take 8 d.payload)) (0x02 ∷ 0x00 ∷ []) ≡ true = rw e refl in
    let three : same_bytes (drop 9 (take 12 d.payload)) (0x00 ∷ 0x00 ∷ 0x00 ∷ []) ≡ true =
      rw e refl in
    let frames : get_or d.payload 8 0 ≡ fps = rw e refl in
    rw (whole, top, bits, speed, two, frames, rate, three, count, rest, ==_refl (length url)) refl

by_configure :
    (r : Readers) (d : DumlFrame)
    → validate_by_name r configure_live_stream.name d ≡ validate_configure_live_stream r d
unfolding validate_by_name same_bytes
by_configure r d = refl

heads :
    (resolution res : ℕ)
    → resolution_byte resolution ≡ some res
    → is_resolution_head (0x00 ∷ 0x2E ∷ 0x00 ∷ res ∷ []) ≡ true
unfolding same_bytes
heads resolution res e = ground arith

rates : (fps code : ℕ) → fps_byte fps ≡ some code → (code == 0x02 || code == 0x03) ≡ true
rates fps code e = ground arith

-- The frame that configures the livestream is decoded to one that the check accepts exactly when it
-- accepts the URL.
pub build_configure-validates :
    (r : Readers) (url : List ℕ) (sequence resolution fps bitrate : ℕ) (raw : List ℕ)
    → build_configure_live_stream_frame url sequence resolution fps bitrate ≡ ok raw
    → (d : DumlFrame) × (decode_duml_frame raw false ≡ ok d)
      × (validate_command_frame r configure_live_stream d ≡ validate_rtmp_url r url)
unfolding build_configure_live_stream_frame
build_configure-validates r url sequence resolution fps bitrate raw e =
    known (resolution_byte resolution) (fps_byte fps) (heads resolution) (rates fps) e
  where
    known :
        (o p : Option ℕ)
        → ((res : ℕ) → o ≡ some res → is_resolution_head (0x00 ∷ 0x2E ∷ 0x00 ∷ res ∷ []) ≡ true)
        → ((code : ℕ) → p ≡ some code → (code == 0x02 || code == 0x03) ≡ true)
        → configure_with o p url sequence bitrate ≡ ok raw
        → (d : DumlFrame) × (decode_duml_frame raw false ≡ ok d)
          × (validate_command_frame r configure_live_stream d ≡ validate_rtmp_url r url)
    known none p h k e = absurd (cc e)
    known (some res) none h k e = absurd (cc e)
    known (some res) (some code) h k e = elim (Bool-cases (leb 500 bitrate && leb bitrate 20000)) [
      | inr bad ↦ absurd (cc (rw bad at e))
      | inl speed ↦ elim (Bool-cases (length url == 0 || ltb 0xFFFF (length url))) [
        | inl bad ↦ absurd (cc (rw (speed, bad) at e))
        | inr fits ↦
            let payload = live_stream_payload res code bitrate url in
            let (d, dec, c) =
              decoded_again (request configure_live_stream sequence payload) raw
                (map_err-ok LivestreamError.encode_failed _ raw (rw (speed, fits) at e)) in
            (
              d,
              dec,
              plain_request r configure_live_stream d c.flags refl refl
                  ∙ by_configure r d
                  ∙ configures r res code bitrate url d c.payload (h res refl) (k code refl) speed
                      (ground (arith, fits)) (ground (arith, fits)),
            )
      ]
    ]
