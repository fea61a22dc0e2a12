-- ===== src/Client/Bounds.antt =====
-- recvRtmpMessage of rtmp_transport.cc, with the packet it makes, on any bytes.
use librtmp_client.Prelude.{ℕ, ◌≡◌, Option, some, Result, ok, fault}
use librtmp_client.Rtmp.Transport.{RtmpMessage}
use librtmp_client.Rtmp.Requests.{Requests}
use librtmp_client.Client.Packets.{Transport, packet_of}

-- The message is complete, and making its packet is what goes wrong.
abbrev pub IsMisread : Requests → Result (ℕ × Option RtmpMessage) → Type 0
IsMisread requests r =
    (n : ℕ) × (msg : RtmpMessage) × (r ≡ ok (n, some msg)) × (packet_of requests msg ≡ fault)
