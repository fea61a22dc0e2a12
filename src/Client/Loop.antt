-- ===== src/Client/Loop.antt =====
-- The loop of processData of rtmpclient.cc ends.
use librtmp_client.Prelude.{
  ℕ, zero, suc, ◌+◌, ◌≡◌, refl, sym, List, ◌==◌, Option, Result, ok, err, fault, out_of_fuel,
  if_both, Bool-cases, inl, inr, subst,
}
use librtmp_client.DataBuf.Cache.{DataCacheBuf, contents, push_data, pop_data}
use librtmp_client.Client.Packets.{RtmpBasePacket}
use librtmp_client.Client.{received, process_loop, process_data}
use librtmp_client.Client.State.{RtmpClient, Run, Action}
use librtmp_client.Client.Handled.{
  Ends, Then->>=, Then, gives_, refuses_, faults, spent, on_packet_if-Handled,
}
use librtmp_client.Client.Receiving.{recv_packet_takes}
use librtmp_client.Client.Packets.{Transport, recv_packet}
use librtmp_client.Prelude.{ltb, ◌<◌, ◌≤◌, arith, ltb→le}

popped :
    {S : Type 0} (b : DataCacheBuf) (n : ℕ)
    → 1 ≤ n
    → Then S (λ (b' : DataCacheBuf). b'.length_ + 1 ≤ b.length_) (pop_data b n)
unfolding pop_data
popped b n h = elim (Bool-cases (ltb b.length_ n)) [
  | inl e ↦ rw e faults
  | inr e ↦ rw e (gives_ (omega (arith, ltb→le b.length_ n e)))
]

-- At most so many bytes are left in the cache.
abbrev pub Drains : {T : Type 0} → ℕ → RtmpClient T × List Action → Type 0
Drains n (c, acts) = c.data_cache.length_ ≤ n

module _ {T : Type 0} (recv : T → List ℕ → T × Result (ℕ × Option RtmpBasePacket))
    (send : T → RtmpBasePacket → ℕ → Result (T × List (List ℕ))) (S : Type 0)
    (sends : (t : T) (p : RtmpBasePacket) (id : ℕ) → Ends S (send t p id))
    (takes : (t : T) (d : List ℕ)
      → Then S (λ ((n, p) : ℕ × Option RtmpBasePacket). 1 ≤ n) (recv t d).1) where
  received_ends :
      (next : RtmpClient T → Run T) (c : RtmpClient T) (r : Result (ℕ × Option RtmpBasePacket))
      → Then S (λ ((n, p) : ℕ × Option RtmpBasePacket). 1 ≤ n) r
      → ((c' : RtmpClient T)
          → c'.data_cache.length_ + 1 ≤ c.data_cache.length_
          → Then S (Drains c'.data_cache.length_) (next c'))
      → Then S (Drains c.data_cache.length_) (received recv send next c r)
  unfolding received
  received_ends next c (ok (n, packet)) (gives_ h) k =
      Then->>= (popped c.data_cache n h) λ cache le.
        Then->>= (on_packet_if-Handled recv send S sends (record c { data_cache = cache }) packet)
          λ (c', acts) w.
            let less : c'.data_cache.length_ + 1 ≤ c.data_cache.length_ =
              subst (λ (b : DataCacheBuf). b.length_ + 1 ≤ c.data_cache.length_) (sym w.1) le in
            Then->>= (k c' less) λ (c'', more) w'. gives_ (omega (arith, w', less))
  received_ends next c (err n) h k = gives_ (omega arith)
  received_ends next c fault h k = faults
  received_ends next c out_of_fuel (spent s) k = spent s

  pub process_loop_ends :
      (f : ℕ) (c : RtmpClient T)
      → c.data_cache.length_ < f
      → Then S (Drains c.data_cache.length_) (process_loop recv send f c)
  unfolding process_loop
  process_loop_ends zero c h = absurd (omega arith)
  process_loop_ends (suc f) c h =
      let (t, r) = recv c.transport (contents c.data_cache) in
      if_both (Then S (Drains c.data_cache.length_)) (c.data_cache.length_ == 0) _ _
        (gives_ (omega arith))
        (received_ends (λ c'. process_loop recv send f c') (record c { transport = t }) r
          (takes c.transport (contents c.data_cache))
          λ c' le. process_loop_ends f c' (omega (arith, le, h)))

-- A call of the sender that does not end.
abbrev pub IsSpent : (Transport → RtmpBasePacket → ℕ → Result (Transport × List (List ℕ))) → Type 0
IsSpent send = (t : Transport) × (p : RtmpBasePacket) × (id : ℕ) × (send t p id ≡ out_of_fuel)

send_ends :
    (send : Transport → RtmpBasePacket → ℕ → Result (Transport × List (List ℕ))) (t : Transport)
    (p : RtmpBasePacket) (id : ℕ)
    → Ends (IsSpent send) (send t p id)
send_ends send t p id = by_result (send t p id) refl
  where
    by_result : (r : Result (Transport × List (List ℕ))) → send t p id ≡ r → Ends (IsSpent send) r
    by_result (ok x) e = gives_ tt
    by_result (err n) e = refuses_ n
    by_result fault e = faults
    by_result out_of_fuel e = spent (t, p, id, e)

-- processData ends within the rounds it is given, whatever has been received and whatever is used to
-- send: it runs out of them only if a call of the sender does not end. If it returns, there are at most
-- as many bytes in the cache as after the new ones were added.
pub process_data_ends :
    (send : Transport → RtmpBasePacket → ℕ → Result (Transport × List (List ℕ))) (garbage : ℕ)
    (c : RtmpClient Transport) (data' : List ℕ)
    → Then
        (IsSpent send)
        (Drains (push_data c.data_cache data').length_)
        (process_data (recv_packet garbage) send c data')
unfolding process_data
process_data_ends send garbage c data' =
    process_loop_ends (recv_packet garbage) send (IsSpent send) (send_ends send)
      (recv_packet_takes (IsSpent send) garbage) (suc (push_data c.data_cache data').length_)
      (record c { data_cache = push_data c.data_cache data' }) (omega arith)
