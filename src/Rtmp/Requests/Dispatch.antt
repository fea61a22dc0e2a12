-- ===== src/Rtmp/Requests/Dispatch.antt =====
-- Which object decode_msg of rtmp_transport.cc makes for the name of a command.
use librtmp_client.Prelude.{
  All, true, Bool, ◌∷◌, ◌⊎◌, inl, inr, bytes_eq→eq, ℕ, ◌≡◌, refl, false, List, [], ◌==◌, ◌||◌, ok,
  bytes_eq,
}
use librtmp_client.Rtmp.Command.{
  RtmpCommand, connect, connect_response, call, call_response, create_stream,
  create_stream_response, close_stream, fmle_start, fmle_start_response, publish, pause_stream,
  play, play_response, on_bw_done, on_status_call, on_status_data, sample_access, on_meta_data,
  codes, rtmp_msg_amf3_command_message, rtmp_msg_amf0_command_message,
}
use librtmp_client.Rtmp.Command.RoundTrip.{IsDecodable}
use librtmp_client.Rtmp.Command.Decode.{is_fmle_name}
use librtmp_client.Rtmp.Command.Codec.{fresh_of}
use librtmp_client.Rtmp.Requests.{command_packet}

abbrev pub name_of : RtmpCommand → List ℕ
name_of (connect name n obj) = name
name_of (connect_response name n obj info) = name
name_of (call name n obj args) = name
name_of (create_stream name n) = name
name_of (create_stream_response name n streamid) = name
name_of (fmle_start name n stream) = name
name_of (fmle_start_response name n) = name
name_of (publish name n stream type) = name
name_of (play name n stream start duration reset) = name
name_of (on_meta_data name metadata) = name
name_of _ = []

-- The names that decode_msg knows.
abbrev pub known_names : List (List ℕ)
known_names =
    codes "_result"
    ∷ codes "_error"
    ∷ codes "connect"
    ∷ codes "createStream"
    ∷ codes "play"
    ∷ codes "pause"
    ∷ codes "releaseStream"
    ∷ codes "FCPublish"
    ∷ codes "publish"
    ∷ codes "FCUnpublish"
    ∷ codes "@setDataFrame"
    ∷ codes "onMetaData"
    ∷ codes "closeStream"
    ∷ []

-- A packet of a class that the protocol has for its name: RtmpOnMetaDataPacket for onMetaData, and
-- RtmpCallPacket for any name that is not known, in a command message. The names of the other classes
-- are in IsDecodable. A createStream is left out, as are responses.
abbrev pub IsRequest : ℕ → RtmpCommand → Type 0
IsRequest type (connect name n obj) = Unit {0}
IsRequest type (play name n stream start duration reset) = Unit {0}
IsRequest type (publish name n stream type') = Unit {0}
IsRequest type (fmle_start name n stream) = Unit {0}
IsRequest type (on_meta_data name metadata) = name ≡ codes "onMetaData"
IsRequest type (call name n obj args) =
    All (λ k. bytes_eq name k ≡ false) known_names
    × ((type == rtmp_msg_amf0_command_message || type == rtmp_msg_amf3_command_message) ≡ true)
IsRequest type _ = ⊥

-- decode_msg makes an object of the class of `p` for the name, which is not that of a response.
abbrev pub IsChosen : ℕ → RtmpCommand → List ℕ → Type 0
IsChosen type p name =
    (command_packet type name ≡ ok (fresh_of p))
    × (bytes_eq name (codes "_result") ≡ false)
    × (bytes_eq name (codes "_error") ≡ false)

or_cases : (a b : Bool) → (a || b) ≡ true → (a ≡ true) ⊎ (b ≡ true)
or_cases true b h = inl refl
or_cases false b h = inr h

fmle_start-IsChosen :
    (type : ℕ) (name : List ℕ) (n : ℕ) (stream : List ℕ)
    → is_fmle_name name ≡ true
    → IsChosen type (fmle_start name n stream) name
unfolding command_packet bytes_eq
fmle_start-IsChosen type name n stream h =
    elim (or_cases (bytes_eq name (codes "releaseStream")) _ h) [
      | inl e ↦ rw (bytes_eq→eq name _ e) (refl, refl, refl)
      | inr h' ↦ elim (or_cases (bytes_eq name (codes "FCPublish")) _ h') [
        | inl e ↦ rw (bytes_eq→eq name _ e) (refl, refl, refl)
        | inr e ↦ rw (bytes_eq→eq name _ e) (refl, refl, refl)
      ]
    ]

pub request-IsChosen :
    (type : ℕ) (p : RtmpCommand) → IsDecodable p → IsRequest type p → IsChosen type p (name_of p)
unfolding command_packet
request-IsChosen type (connect name n obj) h r = rw h.0 (unfold bytes_eq in (refl, refl, refl))
request-IsChosen type (play name n stream start duration reset) h r =
    rw h.0 (unfold bytes_eq in (refl, refl, refl))
request-IsChosen type (publish name n stream type') h r =
    rw h.0 (unfold bytes_eq in (refl, refl, refl))
request-IsChosen type (fmle_start name n stream) h r = fmle_start-IsChosen type name n stream h.1
request-IsChosen type (on_meta_data name metadata) h r =
    rw r (unfold bytes_eq in (refl, refl, refl))
request-IsChosen type (call name n obj args) h (others, t) =
    let (r, k0) = others in
    let (e, k1) = k0 in
    let (c, k2) = k1 in
    let (cs, k3) = k2 in
    let (pl, k4) = k3 in
    let (pa, k5) = k4 in
    let (rs, k6) = k5 in
    let (fp, k7) = k6 in
    let (pb, k8) = k7 in
    let (fu, k9) = k8 in
    let (sd, k10) = k9 in
    let (md, k11) = k10 in (rw (c, cs, pl, pa, rs, fp, pb, fu, sd, md, k11.0, t) refl, r, e)
request-IsChosen type (connect_response name n obj info) h r = elim r [ ]
request-IsChosen type (call_response name n obj response) h r = elim r [ ]
request-IsChosen type (create_stream name n) h r = elim r [ ]
request-IsChosen type (create_stream_response name n streamid) h r = elim r [ ]
request-IsChosen type (close_stream name n) h r = elim r [ ]
request-IsChosen type (fmle_start_response name n) h r = elim r [ ]
request-IsChosen type (pause_stream name n pause time) h r = elim r [ ]
request-IsChosen type (play_response name n desc) h r = elim r [ ]
request-IsChosen type (on_bw_done name n) h r = elim r [ ]
request-IsChosen type (on_status_call name n data') h r = elim r [ ]
request-IsChosen type (on_status_data name data') h r = elim r [ ]
request-IsChosen type (sample_access name video audio) h r = elim r [ ]
