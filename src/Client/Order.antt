-- ===== src/Client/Order.antt =====
-- The order in which the client of rtmpclient.cc goes through its states.
use librtmp_client.Prelude.{
  ℕ, zero, suc, ◌≡◌, ◌≢◌, refl, sym, ◌∙◌, false, List, ◌==◌, Option, Result, ok, err, fault,
  out_of_fuel, if_both, subst, subst₂, pos,
}
use librtmp_client.DataBuf.Cache.{contents, require, push_data, pop_data}
use librtmp_client.Rtmp.Handshake.{create_c0c1, create_c2, process_s0s1s2}
use librtmp_client.Client.Packets.{RtmpBasePacket}
use librtmp_client.Client.{
  hello, answer, handshake_by, recv_data_by, connect_app, received, process_loop, process_data,
  on_s0s1s2, do_handshake, on_recv_data, bytes_of,
}
use librtmp_client.Client.State.{
  HandshakeStatus, client_start, send_c0c1, client_done, connecting_app, Action, RtmpClient, Run,
}
use librtmp_client.Client.Messages.{connect_packets}
use librtmp_client.Client.Handled.{
  Steps, stay, Steps-trans, HandshakeStep, hello_sent, hello_answered, no_step, Then, gives_,
  faults, spent, Then->>=, Then-map, start-done, sent-done, Any, sent-Then, on_packet_if-Handled,
}

module _ {T : Type 0} (recv : T → List ℕ → T × Result (ℕ × Option RtmpBasePacket))
    (send : T → RtmpBasePacket → ℕ → Result (T × List (List ℕ))) where
  -- The client moves on along its states, and the handshake stays where it is.
  abbrev Moved : RtmpClient T → RtmpClient T × List Action → Type 0
  Moved c (c', acts) = (c'.status ≡ c.status) × Steps c.push_pull_status c'.push_pull_status

  received-Moved :
      (next : RtmpClient T → Run T) (c : RtmpClient T) (r : Result (ℕ × Option RtmpBasePacket))
      → ((c' : RtmpClient T) → Then (Unit {0}) (Moved c') (next c'))
      → Then (Unit {0}) (Moved c) (received recv send next c r)
  unfolding received
  received-Moved next c (ok (n, packet)) k = Then->>= (Any (pop_data c.data_cache n)) λ cache _.
      Then->>=
        (on_packet_if-Handled recv send (Unit {0}) (λ t p id. Any (send t p id))
          (record c { data_cache = cache }) packet)
        λ (c', acts) h. Then->>= (k c') λ (c'', acts') h'. gives_ (h'.0 ∙ h.0, Steps-trans h.2 h'.1)
  received-Moved next c (err n) k = gives_ (refl, stay)
  received-Moved next c fault k = faults
  received-Moved next c out_of_fuel k = spent tt

  process_loop-Moved :
      (f : ℕ) (c : RtmpClient T) → Then (Unit {0}) (Moved c) (process_loop recv send f c)
  unfolding process_loop
  process_loop-Moved zero c = spent tt
  process_loop-Moved (suc f) c =
      let (t, r) = recv c.transport (contents c.data_cache) in
      if_both (Then (Unit {0}) (Moved c)) (c.data_cache.length_ == 0) _ _ (gives_ (refl, stay)) (
        received-Moved (λ c'. process_loop recv send f c') (record c { transport = t }) r
          λ c'. process_loop-Moved f c')

  -- Before the handshake is over, no response to connect has been taken.
  abbrev pub IsOrdered : RtmpClient T → Type 0
  IsOrdered c = c.status ≢ client_done → c.push_pull_status ≡ connecting_app

  -- What is received moves the handshake on by at most one step, and the client along its states, one
  -- after the other and never back, and it keeps the order of the two.
  abbrev pub Follows : RtmpClient T → RtmpClient T × List Action → Type 0
  Follows c (c', acts) =
      HandshakeStep c.status c'.status × Steps c.push_pull_status c'.push_pull_status × IsOrdered c'

  -- The two states of a client that is not through its handshake.
  connect_app-Follows :
      (c : RtmpClient T)
      → c.status ≡ client_done
      → c.push_pull_status ≡ connecting_app
      → Then
          (Unit {0})
          (λ ((c', acts) : RtmpClient T × List Action).
            (c'.status ≡ client_done) × (c'.push_pull_status ≡ connecting_app))
          (connect_app recv send c)
  unfolding connect_app
  connect_app-Follows c done_ e =
      sent-Then recv send (Unit {0}) (λ t p id. Any (send t p id)) c (connect_packets c)
        connecting_app λ c' acts h. (h.0 ∙ done_, refl)

  on_s0s1s2-Follows :
      (c : RtmpClient T)
      → c.status ≡ send_c0c1
      → c.push_pull_status ≡ connecting_app
      → Then (Unit {0}) (Follows c) (on_s0s1s2 recv send c)
  unfolding on_s0s1s2
  on_s0s1s2-Follows c sent_ e =
      Then->>= (Any (process_s0s1s2 (contents c.data_cache) c.handshake)) λ (h, ret) _.
        Then->>= (Any (pop_data c.data_cache 3073)) λ cache _. Then->>= (Any (create_c2 h)) λ h' _.
          Then->>= (Any (bytes_of h'.c2)) λ c2 _.
            Then->>=
              (connect_app-Follows
                (record c { data_cache = cache; handshake = h'; status = client_done }) refl e)
              λ (c', acts) k. gives_ (
                subst₂ HandshakeStep (sym sent_) (sym k.0) hello_answered,
                subst₂ Steps (sym e) (sym k.1) stay,
                (λ n. absurd (n k.0)),
              )

  hello-Follows :
      (hmac : List ℕ → List ℕ → Option (List ℕ)) (now : ℕ) (c : RtmpClient T)
      → c.status ≡ client_start
      → c.push_pull_status ≡ connecting_app
      → Then (Unit {0}) (Follows c) (hello recv send hmac now c)
  unfolding hello
  hello-Follows hmac now c start e =
      Then->>= (Any (bytes_of (create_c0c1 hmac now false c.handshake).c0c1)) λ c0c1 _.
        gives_ (subst (λ s. HandshakeStep s send_c0c1) (sym start) hello_sent, stay, (λ n. e))

  answer-Follows :
      (c : RtmpClient T) (data' : List ℕ)
      → c.status ≡ send_c0c1
      → c.push_pull_status ≡ connecting_app
      → Then (Unit {0}) (Follows c) (answer recv send c data')
  unfolding answer
  answer-Follows c data' sent_ e =
      let c' : RtmpClient T = record c { data_cache = push_data c.data_cache data' } in
      if_both (Then (Unit {0}) (Follows c)) (require c'.data_cache (pos 3073)) _ _
        (on_s0s1s2-Follows c' sent_ e) (gives_ (no_step, stay, (λ n. e)))

  process_data-Follows :
      (c : RtmpClient T) (data' : List ℕ)
      → c.status ≡ client_done
      → Then (Unit {0}) (Follows c) (process_data recv send c data')
  unfolding process_data
  process_data-Follows c data' done_ =
      let c' : RtmpClient T = record c { data_cache = push_data c.data_cache data' } in
      Then-map (process_loop-Moved (suc c'.data_cache.length_) c') λ (c'', acts) h. (
        subst (λ s. HandshakeStep c.status s) (sym h.0) no_step,
        h.1,
        (λ n. absurd (n (h.0 ∙ done_))),
      )

  recv_data_by-Follows :
      (hmac : List ℕ → List ℕ → Option (List ℕ)) (now : ℕ) (s : HandshakeStatus) (c : RtmpClient T)
      (data' : List ℕ)
      → c.status ≡ s
      → IsOrdered c
      → Then (Unit {0}) (Follows c) (recv_data_by recv send hmac now s c data')
  unfolding recv_data_by do_handshake
  recv_data_by-Follows hmac now client_start c data' e o =
      subst (λ s. Then (Unit {0}) (Follows c) (handshake_by recv send hmac now s c data')) (sym e)
        (unfold handshake_by in hello-Follows hmac now c e (o (λ d. start-done (sym e ∙ d))))
  recv_data_by-Follows hmac now send_c0c1 c data' e o =
      subst (λ s. Then (Unit {0}) (Follows c) (handshake_by recv send hmac now s c data')) (sym e)
        (unfold handshake_by in answer-Follows c data' e (o (λ d. sent-done (sym e ∙ d))))
  recv_data_by-Follows hmac now client_done c data' e o = process_data-Follows c data' e

  -- What is received moves the handshake on by at most one step, and the client along its states one
  -- after the other and never back. A client that has not left its first state before the handshake is
  -- over keeps to that. This is said of the calls that return.
  pub on_recv_data-Follows :
      (hmac : List ℕ → List ℕ → Option (List ℕ)) (now : ℕ) (c : RtmpClient T) (data' : List ℕ)
      → IsOrdered c
      → Then (Unit {0}) (Follows c) (on_recv_data recv send hmac now c data')
  unfolding on_recv_data
  on_recv_data-Follows hmac now c data' o = recv_data_by-Follows hmac now c.status c data' refl o
