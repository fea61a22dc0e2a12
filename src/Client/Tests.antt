-- ===== src/Client/Tests.antt =====
-- Runs of the client on small inputs.
use librtmp_client.Prelude.{
  ℕ, ◌≡◌, refl, ap, false, List, [], ◌∷◌, ◌++◌, take, length, replicate, length-replicate, Option,
  none, ok, fault, arith,
}
use librtmp_client.DataBuf.Cache.{init, sized, contents, push_data}
use librtmp_client.DataBuf.Cache.Laws.{IsValid, init-IsValid}
use librtmp_client.Rtmp.Transport.{new_transport}
use librtmp_client.Rtmp.Command.{codes}
use librtmp_client.Rtmp.Handshake.Tests.{new_handshake}
use librtmp_client.Prelude.{length}
use librtmp_client.Client.Packets.{Transport, recv_packet, send_packet}
use librtmp_client.Client.{connect_app, process_data, on_recv_data}
use librtmp_client.Client.State.{
  RtmpClient, client_start, HandshakeStatus, send_c0c1, client_done, connecting_app, sent, then_run,
}
use librtmp_client.Client.Handled.{Then}
use librtmp_client.Client.Order.{Follows, on_recv_data-Follows}
use librtmp_client.Client.Loop.{IsSpent, Drains, process_data_ends}
use librtmp_client.Client.Address.{new_client}
use librtmp_client.Client.Address.Laws.{port_text, new_client-address}
use librtmp_client.Client.Answers.{on_recv_data-s0s1s2, on_recv_data-longer}

abbrev no_hmac : List ℕ → List ℕ → Option (List ℕ)
no_hmac fp message = none

-- A client that pushes, in a state of the handshake.
abbrev client_in : HandshakeStatus → RtmpClient Transport
client_in s = record {
  rtmp_app = codes "live";
  rtmp_stream = codes "cam";
  ip = codes "127.0.0.1";
  port = 1935;
  dir = 0;
  status = s;
  push_pull_status = connecting_app;
  transport = (new_transport 0, []);
  data_cache = init;
  handshake = new_handshake;
  streamid = 0;
  havestop = false;
}

contents-init : contents init ≡ []
unfolding init sized
contents-init = refl

on_recv_data-Follows_example :
    Then
      (Unit {0})
      (Follows (recv_packet 0) send_packet (client_in send_c0c1))
      (on_recv_data (recv_packet 0) send_packet no_hmac 7 (client_in send_c0c1) (3 ∷ []))
on_recv_data-Follows_example =
    on_recv_data-Follows (recv_packet 0) send_packet no_hmac 7 (client_in send_c0c1) (3 ∷ [])
      λ n. refl

process_data_ends_example :
    Then
      (IsSpent send_packet)
      (Drains (push_data init (2 ∷ 0 ∷ [])).length_)
      (process_data (recv_packet 0) send_packet (client_in client_done) (2 ∷ 0 ∷ []))
process_data_ends_example = process_data_ends send_packet 0 (client_in client_done) (2 ∷ 0 ∷ [])

on_recv_data-s0s1s2_example :
    (c' : RtmpClient Transport) × (on_recv_data
        (recv_packet 0)
        send_packet
        no_hmac
        7
        (client_in send_c0c1)
        (3 ∷ replicate 3072 7)
      ≡ then_run
          (ok (c', sent (take 1536 (replicate 3072 7)) ∷ []))
          (connect_app (recv_packet 0) send_packet))
    × (c'.status ≡ client_done)
    × (contents c'.data_cache ≡ [])
    × IsValid c'.data_cache
on_recv_data-s0s1s2_example =
    on_recv_data-s0s1s2 (recv_packet 0) send_packet no_hmac 7 (client_in send_c0c1)
      (3 ∷ replicate 3072 7) (replicate 3072 7) init-IsValid refl
      (ap (λ s. s ++ (3 ∷ replicate 3072 7)) contents-init) (length-replicate {A = ℕ} 3072 7)

on_recv_data-longer_example :
    on_recv_data (recv_packet 0) send_packet no_hmac 7 (client_in send_c0c1) (replicate 3074 3)
    ≡ fault
on_recv_data-longer_example =
    on_recv_data-longer (recv_packet 0) send_packet no_hmac 7 (client_in send_c0c1)
      (replicate 3074 3) init-IsValid refl
      (omega (
        arith,
        length-replicate {A = ℕ} 3074 3,
        ap length (ap (λ s. s ++ replicate 3074 3) contents-init),
      ))

-- An address without the port.
new_client-address_example :
    new_client new_handshake
      (new_transport 0, [])
      0
      false
      (codes "rtmp://"
        ++ ((codes "h" ++ port_text none) ++ (47 ∷ (codes "a" ++ (47 ∷ codes "live")))))
      1
    ≡ ok (record (client_in client_start) {
      rtmp_app = codes "live";
      rtmp_stream = codes "a";
      ip = codes "h";
      dir = 1;
    })
new_client-address_example =
    new_client-address new_handshake (new_transport 0, []) 0 false (codes "h") (codes "a")
      (codes "live") none 1 ((λ e. absurd (omega (arith, e))), tt)
      ((λ e. absurd (omega (arith, e))), tt) ((λ e. absurd (omega (arith, e))), tt) tt

-- A video message of 3 bytes in one chunk.
abbrev after_first : List ℕ
after_first = 0 ∷ 0 ∷ 40 ∷ 0 ∷ 0 ∷ 3 ∷ 9 ∷ 1 ∷ 0 ∷ 0 ∷ 0 ∷ 7 ∷ 8 ∷ 9 ∷ []
