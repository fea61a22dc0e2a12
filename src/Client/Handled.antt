-- ===== src/Client/Handled.antt =====
-- What the client of rtmpclient.cc does with one packet: the states it moves through.
use librtmp_client.Prelude.{
  ◌+◌, ◌/◌, ◌%◌, ◌^◌, ltb, leb, ℕ, ◌≡◌, ◌≢◌, refl, sym, ◌∙◌, Bool, true, false, List, [], ◌∷◌, ◌==◌,
  if◌then◌else◌, Option, none, some, Result, ok, err, fault, out_of_fuel, ◌>>=◌, bytes_eq, if_both,
  subst,
}
use librtmp_client.Rtmp.Command.{codes}
use librtmp_client.Client.Packets.{RtmpBasePacket}
use librtmp_client.Amf0.Value.{
  RtmpAmf0Any, string, boolean, number, null, undefined, object, object_eof, ecma_array,
  strict_array, date,
}
use librtmp_client.Amf0.Hashtable.{get_property}
use librtmp_client.Client.{
  code_of, after_send, on_call, is_connect_response, created_stream, as_call, send_rtmp_packet,
  send_packets, create_stream_of, start_stream, on_connecting, on_creating, on_push_or_pull,
  on_packet, on_packet_if, to_int, status_code,
}
use librtmp_client.Client.State.{
  HandshakeStatus, client_start, send_c0c1, client_done, PushPullStatus, connecting_app,
  creating_stream, push_or_pull, Action, RtmpClient,
}
use librtmp_client.Client.Messages.{Outgoing, create_packets, publish_packets, play_packets}

-- One step of the client: the response to connect, and the one to createStream.
pub data Step : PushPullStatus → PushPullStatus → Type 0 where
  app_connected : Step connecting_app creating_stream
  stream_created : Step creating_stream push_or_pull

pub data Steps (s : PushPullStatus) : PushPullStatus → Type 0 where
  stay : Steps s s
  step : {t u : PushPullStatus} → Steps s t → Step t u → Steps s u

pub Steps-trans : {s t u : PushPullStatus} → Steps s t → Steps t u → Steps s u
Steps-trans a stay = a
Steps-trans a (step b c) = step (Steps-trans a b) c

-- A step of the handshake.
pub data HandshakeStep : HandshakeStatus → HandshakeStatus → Type 0 where
  hello_sent : HandshakeStep client_start send_c0c1
  hello_answered : HandshakeStep send_c0c1 client_done
  no_step : {s : HandshakeStatus} → HandshakeStep s s

-- What holds of the value, if the call comes back with one; `S` holds if it runs out of its fuel.
pub data Then (S : Type 0) {A : Type 0} (P : A → Type 0) : Result A → Type 0 where
  gives_ : {a : A} → P a → Then S P (ok a)
  refuses_ : (n : ℕ) → Then S P (err n)
  faults : Then S P fault
  spent : S → Then S P out_of_fuel

pub Then->>= :
    {S A B : Type 0} {P : A → Type 0} {Q : B → Type 0} {m : Result A} {f : A → Result B}
    → Then S P m
    → ((a : A) → P a → Then S Q (f a))
    → Then S Q (m >>= f)
Then->>= (gives_ {a} h) k = k a h
Then->>= (refuses_ n) k = refuses_ n
Then->>= faults k = faults
Then->>= (spent s) k = spent s

pub Then-if :
    {S A : Type 0} {P : A → Type 0} (b : Bool) {x y : Result A}
    → Then S P x
    → Then S P y
    → Then S P (if b then x else y)
Then-if true hx hy = hx
Then-if false hx hy = hy

pub Then-map :
    {S A : Type 0} {P Q : A → Type 0} {m : Result A}
    → Then S P m
    → ((a : A) → P a → Q a)
    → Then S Q m
Then-map (gives_ {a} h) k = gives_ (k a h)
Then-map (refuses_ n) k = refuses_ n
Then-map faults k = faults
Then-map (spent s) k = spent s

pub start-done : client_start ≢ client_done
start-done e = cc

pub sent-done : send_c0c1 ≢ client_done
sent-done e = cc

-- The call comes back with a value, or not.
abbrev pub Ends : Type 0 → {A : Type 0} → Result A → Type 0
Ends S = Then S (λ a. Unit {0})

pub Any : {A : Type 0} (r : Result A) → Ends (Unit {0}) r
Any (ok a) = gives_ tt
Any (err n) = refuses_ n
Any fault = faults
Any out_of_fuel = spent tt

to_int_ends : {S : Type 0} (x : ℕ) → Ends S (to_int x)
unfolding to_int
to_int_ends {S} x =
    let exponent = x / 2 ^ 52 % 2 ^ 11 in
    if_both (Ends S) (ltb exponent 1023) _ _ (gives_ tt) (
      if_both (Ends S) (leb (1023 + 31) exponent) _ _ faults
        (if_both (Ends S) (ltb x (2 ^ 63)) _ _ (gives_ tt) (gives_ tt)))

code_of_ends : {S : Type 0} (v : Option RtmpAmf0Any) → Ends S (code_of v)
unfolding code_of
code_of_ends none = faults
code_of_ends (some (string s)) = gives_ tt
code_of_ends (some (boolean b)) = faults
code_of_ends (some (number n)) = faults
code_of_ends (some null) = faults
code_of_ends (some undefined) = faults
code_of_ends (some object_eof) = faults
code_of_ends (some (ecma_array n ps)) = faults
code_of_ends (some (strict_array n xs)) = faults
code_of_ends (some (date n z)) = faults
code_of_ends (some (object ps)) = faults

status_code_ends : {S : Type 0} (args : Option RtmpAmf0Any) → Ends S (status_code args)
unfolding status_code
status_code_ends none = faults
status_code_ends (some (object ps)) = code_of_ends (get_property (codes "code") ps)
status_code_ends (some (string s)) = faults
status_code_ends (some (boolean b)) = faults
status_code_ends (some (number n)) = faults
status_code_ends (some null) = faults
status_code_ends (some undefined) = faults
status_code_ends (some object_eof) = faults
status_code_ends (some (ecma_array n ps)) = faults
status_code_ends (some (strict_array n xs)) = faults
status_code_ends (some (date n z)) = faults

module _ {T : Type 0} (recv : T → List ℕ → T × Result (ℕ × Option RtmpBasePacket))
    (send : T → RtmpBasePacket → ℕ → Result (T × List (List ℕ))) (S : Type 0)
    (sends : (t : T) (p : RtmpBasePacket) (id : ℕ) → Ends S (send t p id)) where
  -- Neither state has changed, and no cached byte.
  abbrev pub Same : RtmpClient T → RtmpClient T × List Action → Type 0
  Same c (c', acts) =
      (c'.status ≡ c.status)
      × (c'.data_cache ≡ c.data_cache)
      × (c'.push_pull_status ≡ c.push_pull_status)

  after_send-Same :
      (c : RtmpClient T) (r : Result (T × List (List ℕ)))
      → Ends S r
      → Then S (Same c) (after_send c r)
  unfolding after_send
  after_send-Same c (ok (t, blocks)) w = gives_ (refl, refl, refl)
  after_send-Same c (err n) w = gives_ (refl, refl, refl)
  after_send-Same c fault w = faults
  after_send-Same c out_of_fuel (spent s) = spent s

  pub send_packets-Same :
      (c : RtmpClient T) (ps : List Outgoing) → Then S (Same c) (send_packets recv send c ps)
  unfolding send_packets send_rtmp_packet
  send_packets-Same c [] = gives_ (refl, refl, refl)
  send_packets-Same c ((packet, streamid) ∷ ps) =
      Then->>=
        (after_send-Same c (send c.transport packet streamid) (sends c.transport packet streamid))
        λ (c', acts) h.
          Then->>= (send_packets-Same c' ps)
            λ (c'', acts') h'. gives_ (h'.0 ∙ h.0, h'.1 ∙ h.1, h'.2 ∙ h.2)

  -- A packet that is handled moves the client on by at most one step.
  abbrev pub Handled : RtmpClient T → RtmpClient T × List Action → Type 0
  Handled c (c', acts) =
      (c'.status ≡ c.status)
      × (c'.data_cache ≡ c.data_cache)
      × Steps c.push_pull_status c'.push_pull_status

  -- Packets are sent, and a state is set.
  pub sent-Then :
      {P : RtmpClient T × List Action → Type 0} (c : RtmpClient T) (ps : List Outgoing)
      (s : PushPullStatus)
      → ((c' : RtmpClient T) (acts : List Action)
          → Same c (c', acts)
          → P (record c' { push_pull_status = s }, acts))
      → Then S P (do
        (c', acts) ← send_packets recv send c ps
        ok (record c' { push_pull_status = s }, acts))
  sent-Then c ps s k = Then->>= (send_packets-Same c ps) λ (c', acts) h. gives_ (k c' acts h)

  on_connecting-Handled :
      (c : RtmpClient T) (b : Bool)
      → c.push_pull_status ≡ connecting_app
      → Then S (Handled c) (on_connecting recv send c b)
  unfolding on_connecting create_stream_of
  on_connecting-Handled c true e =
      sent-Then {P = Handled c} c (create_packets c.dir c.rtmp_app) creating_stream λ c' acts h.
        (h.0, h.1, subst (λ s. Steps s creating_stream) (sym e) (step stay app_connected))
  on_connecting-Handled c false e = gives_ (refl, refl, stay)

  on_creating-Handled :
      (c : RtmpClient T) (id : Option ℕ)
      → c.push_pull_status ≡ creating_stream
      → Then S (Handled c) (on_creating recv send c id)
  unfolding on_creating start_stream
  on_creating-Handled c (some id) e = Then->>= (to_int_ends id) λ streamid _.
      sent-Then {P = Handled c} (record c { streamid = streamid })
        (if c.dir == 0
          then publish_packets c.rtmp_stream streamid
          else play_packets c.rtmp_app c.rtmp_app streamid)
        push_or_pull
        λ c' acts h.
          (h.0, h.1, subst (λ s. Steps s push_or_pull) (sym e) (step stay stream_created))
  on_creating-Handled c none e = gives_ (refl, refl, stay)

  on_push_or_pull-Handled :
      (c : RtmpClient T) (packet : RtmpBasePacket) (called : Option (List ℕ × Option RtmpAmf0Any))
      → Then S (Handled c) (on_push_or_pull recv send c packet called)
  unfolding on_push_or_pull on_call
  on_push_or_pull-Handled c packet (some (name, args)) =
      if_both (Then S (Handled c)) (bytes_eq name (codes "onStatus")) _ _
        (Then->>= (status_code_ends args) λ value _. gives_ (refl, refl, stay))
        (gives_ (refl, refl, stay))
  on_push_or_pull-Handled c packet none = gives_ (refl, refl, stay)

  on_packet-Handled :
      (s : PushPullStatus) (c : RtmpClient T) (packet : RtmpBasePacket)
      → c.push_pull_status ≡ s
      → Then S (Handled c) (on_packet recv send s c packet)
  unfolding on_packet
  on_packet-Handled connecting_app c packet e =
      on_connecting-Handled c (is_connect_response packet) e
  on_packet-Handled creating_stream c packet e = on_creating-Handled c (created_stream packet) e
  on_packet-Handled push_or_pull c packet e = on_push_or_pull-Handled c packet (as_call packet)

  pub on_packet_if-Handled :
      (c : RtmpClient T) (packet : Option RtmpBasePacket)
      → Then S (Handled c) (on_packet_if recv send c packet)
  unfolding on_packet_if
  on_packet_if-Handled c none = gives_ (refl, refl, stay)
  on_packet_if-Handled c (some packet) = on_packet-Handled c.push_pull_status c packet refl
