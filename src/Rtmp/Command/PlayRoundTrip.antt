-- ===== src/Rtmp/Command/PlayRoundTrip.antt =====
-- Reading back RtmpPlayPacket and RtmpOnMetaDataPacket of net/app_protocol/rtmp/rtmp_stack_packet.cc.
use librtmp_client.Rtmp.Command.RoundTrip.{IsDecodable, IsWord, kept, or_kept_other, encode_long}
use librtmp_client.Prelude.{
  ℕ, ◌≡◌, refl, Bool, true, false, List, [], ◌∷◌, ◌++◌, not, if◌then◌else◌, arith, append-nil,
  Option, none, some, bytes_eq_self,
}
use librtmp_client.Amf0.Value.{RtmpAmf0Any, Properties, number, boolean, object, no_properties}
use librtmp_client.Amf0.Read.{rtmp_amf0_read_number, rtmp_amf0_read_any}
use librtmp_client.Amf0.Encoding.{encode}
use librtmp_client.Rtmp.Command.{
  RtmpCommand, play, on_meta_data, codes, double_minus_one, double_minus_two,
}
use librtmp_client.Rtmp.Command.Takes.{
  Takes, Takes->>=, Takes-pure, Takes-string, Takes-number, Takes-null, Takes-any, Takes-if_more,
  Takes-if_none, check_then,
}
use librtmp_client.Rtmp.Command.Reader.{Reader, ◌>>=◌, pure, if_more}
use librtmp_client.Rtmp.Command.Fields.{fields, encode_fields}
use librtmp_client.Rtmp.Command.Decode.{decode_play, decode_on_meta_data, reset_of, metadata_of}
use librtmp_client.Rtmp.Command.Size.{has_start, has_duration}

abbrev when : Bool → RtmpAmf0Any → Option RtmpAmf0Any
when b v = if b then some v else none

-- The optional fields of RtmpPlayPacket as `decode` reads them, into an object that is new.
play_options : (ℕ → ℕ → Bool → RtmpCommand) → Reader RtmpCommand
play_options p = do
  start ← if_more double_minus_two rtmp_amf0_read_number
  duration ← if_more double_minus_one rtmp_amf0_read_number
  reset ← if_more true (rtmp_amf0_read_any >>= reset_of)
  pure (p start duration reset)

Takes-reset : (b : Bool) → Takes (rtmp_amf0_read_any >>= reset_of) (encode (boolean b)) b []
Takes-reset b =
    rw (← append-nil (encode (boolean b)))
      (Takes->>= _ (Takes-any (boolean b) tt) (unfold reset_of in Takes-pure))

number_then :
    (old n : ℕ) (k : ℕ → Reader RtmpCommand) {bytes rest : List ℕ} {p : RtmpCommand}
    → IsWord n
    → Takes (k n) bytes p rest
    → Takes (if_more old rtmp_amf0_read_number >>= k) (encode (number n) ++ bytes) p rest
number_then old n k h t =
    Takes->>= k (Takes-if_more old (encode_long (number n)) (Takes-number n h)) t

nothing_then :
    {A : Type 0} (old : A) (r : Reader A) (k : A → Reader RtmpCommand) {p : RtmpCommand}
    → Takes (k old) [] p []
    → Takes (if_more old r >>= k) [] p []
nothing_then old r k t = Takes->>= k {bytes = []} (Takes-if_none old r) t

-- `a` and `b` are the tests before the first two of them.
play_options-Takes :
    (a b reset : Bool) (start duration : ℕ) (p : ℕ → ℕ → Bool → RtmpCommand)
    → IsWord start
    → IsWord duration
    → (a ≡ false → (start ≡ double_minus_two) × (b ≡ false))
    → (b ≡ false → (duration ≡ double_minus_one) × (reset ≡ true))
    → Takes
        (play_options p)
        (encode_fields (
          when a (number start) ∷ when b (number duration) ∷ when (not reset) (boolean reset) ∷ []))
        (p start duration reset)
        []
unfolding play_options
play_options-Takes true true true start duration p hs hd ea eb =
    number_then _ start _ hs (number_then _ duration _ hd (nothing_then _ _ _ Takes-pure))
play_options-Takes true true false start duration p hs hd ea eb = number_then _ start _ hs (
    number_then _ duration _ hd (
      Takes->>= _ (Takes-if_more true (encode_long (boolean false)) (Takes-reset false))
        Takes-pure))
play_options-Takes true false true start duration p hs hd ea eb =
    number_then _ start _ hs (rw ((eb refl).0) (nothing_then _ _ _ (nothing_then _ _ _ Takes-pure)))
play_options-Takes true false false start duration p hs hd ea eb =
    absurd (let e : false ≡ true = (eb refl).1 in cc)
play_options-Takes false true reset start duration p hs hd ea eb =
    absurd (let e : true ≡ false = (ea refl).1 in cc)
play_options-Takes false false false start duration p hs hd ea eb =
    absurd (let e : false ≡ true = (eb refl).1 in cc)
play_options-Takes false false true start duration p hs hd ea eb =
    rw ((ea refl).0, (eb refl).0)
      (nothing_then _ _ _ (nothing_then _ _ _ (nothing_then _ _ _ Takes-pure)))

pub play-Takes :
    (n : ℕ) (stream : List ℕ) (start duration : ℕ) (reset : Bool)
    → IsDecodable (play (codes "play") n stream start duration reset)
    → Takes
        (decode_play (codes "play") [] double_minus_two double_minus_one true)
        (encode_fields (fields (play (codes "play") n stream start duration reset)))
        (play (codes "play") n stream start duration reset)
        []
unfolding decode_play play_options
play-Takes n stream start duration reset h =
    Takes->>= _ (Takes-string _ (codes "play") (omega arith) refl) (
      check_then _ _ (bytes_eq_self (codes "play")) (
        Takes->>= _ (Takes-number n h.1) (
          Takes->>= _ Takes-null (
            Takes->>= _ (Takes-string _ stream h.2 (kept stream)) (
              play_options-Takes (has_start start duration reset) (has_duration duration reset)
                reset start duration (λ s d r. play (codes "play") n stream s d r) h.3 h.4
                (no_start start duration reset) (no_duration duration reset))))))
  where
    no_start :
        (s d : ℕ) (r : Bool)
        → has_start s d r ≡ false
        → (s ≡ double_minus_two) × (has_duration d r ≡ false)
    no_start s d r e = unfold has_start has_duration in ground (arith, e)

    no_duration :
        (d : ℕ) (r : Bool) → has_duration d r ≡ false → (d ≡ double_minus_one) × (r ≡ true)
    no_duration d r e = unfold has_duration in ground (arith, e)

pub on_meta_data-Takes :
    (name : List ℕ) (metadata : Properties)
    → IsDecodable (on_meta_data name metadata)
    → Takes
        (decode_on_meta_data (codes "onMetaData") no_properties)
        (encode_fields (fields (on_meta_data name metadata)))
        (on_meta_data name metadata)
        []
unfolding decode_on_meta_data metadata_of
on_meta_data-Takes name metadata h =
    Takes->>= _ (Takes-string _ name h.0 (or_kept_other name _ h.1)) (
      Takes->>= _ {bytes = []} (rw h.2 Takes-pure) (
        Takes->>= _
          (Takes-if_more _ (encode_long (object metadata)) (
            rw (← append-nil (encode (object metadata)))
              (Takes->>= _ (Takes-any (object metadata) h.3) Takes-pure)))
          Takes-pure))
