-- ===== src/Rtmp/Media/RoundTrip.antt =====
-- Reading back the media packets of net/app_protocol/rtmp/rtmp_stack_packet.cc.
use librtmp_client.Prelude.{
  ℕ, zero, suc, ◌+◌, ◌%◌, ◌≤◌, ◌<◌, ◌^◌, ◌≡◌, refl, sym, ap, ◌∙◌, Bool, true, false, List, [], ◌∷◌,
  ◌++◌, ◌==◌, if◌then◌else◌, length, drop, arith, length-append, append-nil, take-append,
  drop-append, drop-drop, take_all, if-true, if-false, le→leb, lt→leb, le→ltb, some, ok,
}
use librtmp_client.NetIo.{write_int16, write_int32, read_int16}
use librtmp_client.NetIo.Laws.{read_int16-write_int16, read_int32-write_int32}
use librtmp_client.Rtmp.Media.{
  RtmpMedia, audio, avc, video, media_msg_type, media_len, media_bytes, encode_media, copy_out,
  copy_nalu, decode_nalus, decode_video, decode_avc, decode_media_msg, or_blank,
}

copy_out_lem : (s rest : List ℕ) → copy_out (length s) (s ++ rest) ≡ ok s
unfolding copy_out
copy_out_lem s rest =
    if-true _ _ (le→leb (length s) (length (s ++ rest)) (omega (arith, length-append s rest)))
    ∙ ap ok (take-append s rest)

copy_nalu_lem : (s rest : List ℕ) → length s < 2 ^ 31 → copy_nalu (length s) (s ++ rest) ≡ ok s
unfolding copy_nalu
copy_nalu_lem s rest h = if-false _ _ (lt→leb _ _ h) ∙ (unfold copy_out in copy_out_lem s rest)

-- NAL units as a video packet holds them, each behind its length.
abbrev pub nalu_bytes : List (List ℕ) → List ℕ
nalu_bytes [] = []
nalu_bytes (nalu ∷ nalus) = write_int32 (length nalu) ++ (nalu ++ nalu_bytes nalus)

abbrev pub AreNalus : List (List ℕ) → Type 0
AreNalus [] = Unit {0}
AreNalus (nalu ∷ nalus) = (length nalu < 2 ^ 31) × AreNalus nalus

drop_nalu :
    (nalu rest : List ℕ)
    → drop (4 + length nalu) (write_int32 (length nalu) ++ (nalu ++ rest)) ≡ rest
unfolding write_int32
drop_nalu nalu rest =
    sym (drop-drop 4 (length nalu) _ (write_int32 (length nalu) ++ (nalu ++ rest)) refl)
    ∙ drop-append nalu rest

size_nalu :
    (nalu rest : List ℕ)
    → length (write_int32 (length nalu) ++ (nalu ++ rest)) ≡ 4 + length nalu + length rest
unfolding write_int32
size_nalu nalu rest = omega (arith, length-append nalu rest)

decode_nalus-nalu_bytes :
    (f : ℕ) (nalus : List (List ℕ))
    → AreNalus nalus
    → length (nalu_bytes nalus) < f
    → decode_nalus f (nalu_bytes nalus) ≡ ok nalus
unfolding decode_nalus
decode_nalus-nalu_bytes zero nalus h lt = absurd (omega arith)
decode_nalus-nalu_bytes (suc f) [] h lt = refl
decode_nalus-nalu_bytes (suc f) (nalu ∷ nalus) h lt =
    let size = size_nalu nalu (nalu_bytes nalus) in
    let some_left : (length (nalu_bytes (nalu ∷ nalus)) == 0) ≡ false = ground (arith, size) in
    let rest = nalu ++ nalu_bytes nalus in
    rw (
      some_left,
      read_int32-write_int32 (length nalu) rest (omega (arith, h.0)),
      dropped rest,
      copy_nalu_lem nalu (nalu_bytes nalus) h.0,
      drop_nalu nalu (nalu_bytes nalus),
      decode_nalus-nalu_bytes f nalus h.1 (omega (arith, size, lt)),
    )
  where
    dropped : (rest : List ℕ) → drop 4 (write_int32 (length nalu) ++ rest) ≡ rest
    dropped rest = unfold write_int32 in refl

-- Any NAL units behind the five bytes that begin a video packet are taken out of it in their order.
pub decode_video-nalu_bytes :
    (t val a b c d : ℕ) (nalus : List (List ℕ))
    → AreNalus nalus
    → decode_video t (val ∷ a ∷ b ∷ c ∷ d ∷ nalu_bytes nalus) ≡ ok (video t (val == 0x17) nalus)
unfolding decode_video
decode_video-nalu_bytes t val a b c d nalus h = rw (
    decode_nalus-nalu_bytes (suc (length (a ∷ b ∷ c ∷ d ∷ nalu_bytes nalus))) nalus h (omega arith))

-- Two parameter sets behind eleven bytes, each behind its length.
decode_avc_parts :
    (data' sps pps : List ℕ)
    → 11 ≤ length data'
    → read_int16 (drop 11 data') ≡ ok (length sps)
    → drop 13 data' ≡ sps ++ (1 ∷ (write_int16 (length pps) ++ pps))
    → length pps < 2 ^ 16
    → decode_avc data' ≡ ok (avc sps pps)
unfolding decode_avc
decode_avc_parts data' sps pps long first behind h =
    let n = length sps in
    let tail = write_int16 (length pps) ++ pps in
    let at14 : drop (14 + n) data' ≡ tail =
      sym (drop-drop 13 (n + 1) _ data' (omega arith))
      ∙ ap (drop (n + 1)) behind
      ∙ sym (drop-drop n 1 _ (sps ++ 1 ∷ tail) refl)
      ∙ ap (drop 1) (drop-append sps (1 ∷ tail)) in
    let at16 : drop (16 + n) data' ≡ pps =
      sym (drop-drop (14 + n) 2 _ data' (omega arith))
      ∙ ap (drop 2) at14
      ∙ (unfold write_int16 in refl) in
    rw (
      le→ltb (length data') 11 long,
      first,
      behind,
      copy_out_lem sps (1 ∷ tail),
      at14,
      read_int16-write_int16 (length pps) pps h,
      at16,
      whole_copy pps,
    )
  where
    whole_copy : (s : List ℕ) → copy_out (length s) s ≡ ok s
    whole_copy s =
        unfold copy_out in
        if-true _ _ (le→leb (length s) (length s) (omega arith))
        ∙ ap ok (take_all (length s) s (omega arith))

-- A packet as the client makes it: it has what `encode_pkg` looks at, in sizes that its lengths hold.
abbrev pub IsFrame : RtmpMedia → Type 0
IsFrame (audio flag t data') = (flag ≡ 0x82)
IsFrame (avc sps pps) = (4 ≤ length sps) × (length sps < 2 ^ 16) × (length pps < 2 ^ 16)
IsFrame (video t keyframe []) = ⊥
IsFrame (video t keyframe (nalu ∷ [])) = length nalu < 2 ^ 31
IsFrame (video t keyframe (nalu ∷ other ∷ nalus)) = ⊥

-- The time that is not in the packet but in the header of its message.
abbrev pub time_of : RtmpMedia → ℕ
time_of (audio flag t data') = t
time_of (avc sps pps) = 0
time_of (video t keyframe nalus) = t

abbrev frame_bytes : RtmpMedia → List ℕ
frame_bytes (audio flag t data') = 0x82 ∷ data'
frame_bytes (avc (a ∷ b ∷ c ∷ d ∷ sps) pps) =
    0x17
    ∷ 0
    ∷ 0
    ∷ 0
    ∷ 0
    ∷ 1
    ∷ b
    ∷ c
    ∷ d
    ∷ 0xff
    ∷ 0xe1
    ∷ (write_int16 (length (a ∷ b ∷ c ∷ d ∷ sps))
        ++ ((a ∷ b ∷ c ∷ d ∷ sps) ++ (1 ∷ (write_int16 (length pps) ++ pps))))
frame_bytes (video t keyframe (nalu ∷ nalus)) =
    (if keyframe then 0x17 else 0x27) ∷ 1 ∷ 0 ∷ 0 ∷ 0 ∷ (write_int32 (length nalu) ++ nalu)
frame_bytes _ = []

media_bytes-frame_bytes : (p : RtmpMedia) → IsFrame p → media_bytes p ≡ ok (frame_bytes p)
unfolding media_bytes
media_bytes-frame_bytes (audio flag t data') h = refl
media_bytes-frame_bytes (avc [] pps) h = absurd (omega (arith, h.0))
media_bytes-frame_bytes (avc (a ∷ []) pps) h = absurd (omega (arith, h.0))
media_bytes-frame_bytes (avc (a ∷ b ∷ []) pps) h = absurd (omega (arith, h.0))
media_bytes-frame_bytes (avc (a ∷ b ∷ c ∷ []) pps) h = absurd (omega (arith, h.0))
media_bytes-frame_bytes (avc (a ∷ b ∷ c ∷ d ∷ sps) pps) h =
    let e : length (a ∷ b ∷ c ∷ d ∷ sps) % 2 ^ 16 ≡ length (a ∷ b ∷ c ∷ d ∷ sps) =
      omega (arith, h.1) in
    let e' : length pps % 2 ^ 16 ≡ length pps = omega (arith, h.2) in rw (e, e') refl
media_bytes-frame_bytes (video t keyframe []) h = absurd h
media_bytes-frame_bytes (video t keyframe (nalu ∷ [])) h =
    let e : length nalu % 2 ^ 32 ≡ length nalu = omega arith in rw e refl
media_bytes-frame_bytes (video t keyframe (nalu ∷ other ∷ nalus)) h = absurd h

length-frame_bytes : (p : RtmpMedia) → IsFrame p → media_len p ≡ ok (length (frame_bytes p))
unfolding media_len write_int16 write_int32
length-frame_bytes (audio flag t data') h = ap ok (omega arith)
length-frame_bytes (avc [] pps) h = absurd (omega (arith, h.0))
length-frame_bytes (avc (a ∷ []) pps) h = absurd (omega (arith, h.0))
length-frame_bytes (avc (a ∷ b ∷ []) pps) h = absurd (omega (arith, h.0))
length-frame_bytes (avc (a ∷ b ∷ c ∷ []) pps) h = absurd (omega (arith, h.0))
length-frame_bytes (avc (a ∷ b ∷ c ∷ d ∷ sps) pps) h =
    ap ok (omega (arith, length-append sps (1 ∷ (write_int16 (length pps) ++ pps))))
length-frame_bytes (video t keyframe []) h = absurd h
length-frame_bytes (video t keyframe (nalu ∷ [])) h = ap ok (omega arith)
length-frame_bytes (video t keyframe (nalu ∷ other ∷ nalus)) h = absurd h

keyframe_bit : (b : Bool) → ((if b then 0x17 else 0x27) == 0x17) ≡ b
keyframe_bit true = refl
keyframe_bit false = refl

video_frame :
    (t : ℕ) (keyframe : Bool) (nalu : List ℕ)
    → length nalu < 2 ^ 31
    → decode_video t (frame_bytes (video t keyframe (nalu ∷ [])))
      ≡ ok (video t keyframe (nalu ∷ []))
video_frame t keyframe nalu h =
    let val : ℕ = if keyframe then 0x17 else 0x27 in
    ap (λ s. decode_video t (val ∷ 1 ∷ 0 ∷ 0 ∷ 0 ∷ (write_int32 (length nalu) ++ s)))
      (sym (append-nil nalu))
    ∙ decode_video-nalu_bytes t val 1 0 0 0 (nalu ∷ []) (h, tt)
    ∙ ap (λ b. ok (video t b (nalu ∷ []))) (keyframe_bit keyframe)

decode_media_msg-frame_bytes :
    (p : RtmpMedia)
    → IsFrame p
    → decode_media_msg (media_msg_type p) (time_of p) (frame_bytes p) ≡ ok (some p)
unfolding decode_media_msg media_msg_type
decode_media_msg-frame_bytes (audio flag t data') h = rw h refl
decode_media_msg-frame_bytes (avc [] pps) h = absurd (omega (arith, h.0))
decode_media_msg-frame_bytes (avc (a ∷ []) pps) h = absurd (omega (arith, h.0))
decode_media_msg-frame_bytes (avc (a ∷ b ∷ []) pps) h = absurd (omega (arith, h.0))
decode_media_msg-frame_bytes (avc (a ∷ b ∷ c ∷ []) pps) h = absurd (omega (arith, h.0))
decode_media_msg-frame_bytes (avc (a ∷ b ∷ c ∷ d ∷ sps) pps) h =
    let s = a ∷ b ∷ c ∷ d ∷ sps in
    ap (λ r. or_blank r (avc [] []))
      (decode_avc_parts (frame_bytes (avc s pps)) s pps (omega arith)
        (read_int16-write_int16 (length s) _ h.1) (unfold write_int16 in refl) h.2)
decode_media_msg-frame_bytes (video t keyframe []) h = absurd h
decode_media_msg-frame_bytes (video t keyframe (nalu ∷ [])) h =
    ap (λ r. or_blank r (video t false [])) (video_frame t keyframe nalu h)
decode_media_msg-frame_bytes (video t keyframe (nalu ∷ other ∷ nalus)) h = absurd h

-- A frame of the client is written into its get_pkg_len bytes, exactly, and the message with these bytes
-- and the time of the packet is decoded into the packet again.
pub decode_media_msg-encode_media :
    (p : RtmpMedia)
    → IsFrame p
    → (n : ℕ) × (written : List ℕ) × (media_len p ≡ ok n)
      × (encode_media p n ≡ ok written)
      × (length written ≡ n)
      × (decode_media_msg (media_msg_type p) (time_of p) written ≡ ok (some p))
unfolding encode_media
decode_media_msg-encode_media p h = (
  length (frame_bytes p),
  frame_bytes p,
  length-frame_bytes p h,
  rw (media_bytes-frame_bytes p h)
      (if-true _ _ (le→leb (length (frame_bytes p)) (length (frame_bytes p)) (omega arith))),
  refl,
  decode_media_msg-frame_bytes p h,
)
