-- ===== src/Client/Answers.antt =====
-- What the client of rtmpclient.cc makes of the server's side of the handshake.
use librtmp_client.Prelude.{
  ℕ, suc, ◌≤◌, ◌<◌, ◌≡◌, refl, sym, ap, ◌∙◌, List, [], ◌∷◌, ◌++◌, length, take, drop, arith,
  if-true, le→leb, le→ltb, lt→ltb, Option, some, Result, ok, fault, drop_all, take_all, length-take,
}
use librtmp_client.DataBuf.Cache.{DataCacheBuf, contents, require, push_data, pop_data}
use librtmp_client.DataBuf.Cache.Laws.{IsValid, push_data_lem, pop_data_lem, length-contents}
use librtmp_client.Rtmp.Handshake.{RtmpHandshake, create_c2, process_s0s1s2}
use librtmp_client.Rtmp.Handshake.Exchange.{process_s0s1s2-create_c2}
use librtmp_client.Client.Packets.{RtmpBasePacket}
use librtmp_client.Client.{
  bytes_of, connect_app, on_s0s1s2, answer, handshake_by, do_handshake, recv_data_by, on_recv_data,
}
use librtmp_client.Client.State.{RtmpClient, send_c0c1, client_done, sent, then_run}

length-push_data :
    (b : DataCacheBuf) (d : List ℕ) → IsValid b → (push_data b d).length_ ≡ length (contents b ++ d)
length-push_data b d v =
    let (e, w) = push_data_lem b v d in sym (length-contents (push_data b d) w) ∙ ap length e

-- The answer, from what its calls come to.
on_s0s1s2_run :
    {T : Type 0} (recv : T → List ℕ → T × Result (ℕ × Option RtmpBasePacket))
    (send : T → RtmpBasePacket → ℕ → Result (T × List (List ℕ))) (c : RtmpClient T)
    (h : RtmpHandshake) (n : Result ℕ) (cache : DataCacheBuf) (c2 : List ℕ)
    → process_s0s1s2 (contents c.data_cache) c.handshake ≡ ok (h, n)
    → pop_data c.data_cache 3073 ≡ ok cache
    → create_c2 h ≡ ok (record h { c2 = some c2 })
    → on_s0s1s2 recv send c
      ≡ then_run
          (ok (
            record c {
              data_cache = cache;
              handshake = record h { c2 = some c2 };
              status = client_done;
            },
            sent (take 1536 c2) ∷ [],
          ))
          (connect_app recv send)
unfolding on_s0s1s2 bytes_of
on_s0s1s2_run recv send c h n cache c2 e e' e'' = rw (e, e', e'') refl

module _ {T : Type 0} (recv : T → List ℕ → T × Result (ℕ × Option RtmpBasePacket))
    (send : T → RtmpBasePacket → ℕ → Result (T × List (List ℕ)))
    (hmac : List ℕ → List ℕ → Option (List ℕ)) (now : ℕ) (c : RtmpClient T) (data' : List ℕ) where
  on_recv_data-answer :
      c.status ≡ send_c0c1 → on_recv_data recv send hmac now c data' ≡ answer recv send c data'
  unfolding on_recv_data recv_data_by do_handshake handshake_by
  on_recv_data-answer e =
      ap (λ s. recv_data_by recv send hmac now s c data') e
      ∙ ap (λ s. handshake_by recv send hmac now s c data') e

  answer_whole :
      3073 ≤ (push_data c.data_cache data').length_
      → answer recv send c data'
        ≡ on_s0s1s2 recv send (record c { data_cache = push_data c.data_cache data' })
  unfolding answer require
  answer_whole h = if-true _ _ (le→leb 3073 (push_data c.data_cache data').length_ h)

  -- When the bytes of S0, S1 and S2 are there, and no others, the client answers with S1 as c2, has no
  -- cached byte left, and goes on to connect in a state in which the handshake is done.
  pub on_recv_data-s0s1s2 :
      (rest : List ℕ)
      → IsValid c.data_cache
      → c.status ≡ send_c0c1
      → contents c.data_cache ++ data' ≡ 0x03 ∷ rest
      → length rest ≡ 3072
      → (c' : RtmpClient T) × (on_recv_data recv send hmac now c data'
          ≡ then_run (ok (c', sent (take 1536 rest) ∷ [])) (connect_app recv send))
        × (c'.status ≡ client_done)
        × (contents c'.data_cache ≡ [])
        × IsValid c'.data_cache
  on_recv_data-s0s1s2 rest v e bytes size =
      let b = push_data c.data_cache data' in
      let (held, w) = push_data_lem c.data_cache v data' in
      let all_ : b.length_ ≡ 3073 =
        length-push_data c.data_cache data' v ∙ ap length bytes ∙ ap suc size in
      let (cache, popped, left_, valid) = pop_data_lem b w 3073 (omega (arith, all_)) in
      let (h, processed, _, _, made) = process_s0s1s2-create_c2 rest c.handshake size in
      let c' : RtmpClient T = record c {
        data_cache = cache;
        handshake = record h { c2 = some (take 1536 rest) };
        status = client_done;
      } in
      (
        c',
        on_recv_data-answer e
            ∙ answer_whole (omega (arith, all_))
            ∙ on_s0s1s2_run recv send (record c { data_cache = b }) h (ok 1537) cache
                (take 1536 rest) (ap (λ s. process_s0s1s2 s c.handshake) (held ∙ bytes) ∙ processed)
                popped made
            ∙ ap (λ (s : List ℕ). then_run (ok (c', sent s ∷ [])) (connect_app recv send))
                (take_all 1536 (take 1536 rest) (omega (arith, length-take 1536 rest, size))),
        refl,
        left_ ∙ ap (drop 3073) (held ∙ bytes) ∙ drop_all 3073 (0x03 ∷ rest) (omega (arith, size)),
        valid,
      )

  -- One byte more than S0, S1 and S2 in the cache, and the copy of them leaves its buffer.
  pub on_recv_data-longer :
      IsValid c.data_cache
      → c.status ≡ send_c0c1
      → 3073 < length (contents c.data_cache ++ data')
      → on_recv_data recv send hmac now c data' ≡ fault
  unfolding on_s0s1s2 process_s0s1s2
  on_recv_data-longer v e longer =
      let b = push_data c.data_cache data' in
      let (held, w) = push_data_lem c.data_cache v data' in
      let size = length-push_data c.data_cache data' v in
      let all_ = length-contents b w in
      on_recv_data-answer e
      ∙ answer_whole (omega (arith, size, longer))
      ∙ rw
          (
            le→ltb (length (contents b)) 3073 (omega (arith, size, all_, longer)),
            lt→ltb 3073 (length (contents b)) (omega (arith, size, all_, longer)),
          )
          refl
