-- ===== src/Client/Address.antt =====
-- The constructor of RtmpClient in rtmpclient.cc, which takes the address of the server apart. A
-- std::string is the list of its bytes.
pub mod Laws
use librtmp_client.Prelude.{
  ℕ, zero, suc, ◌+◌, ◌-◌, ◌*◌, ◌%◌, ◌^◌, Bool, true, false, List, [], ◌∷◌, ◌==◌, ◌||◌, ◌&&◌, ltb,
  leb, if◌then◌else◌, length, take, drop, Option, none, some, Result, ok, err, fault, ◌>>=◌,
}
use librtmp_client.DataBuf.Cache.{init}
use librtmp_client.Rtmp.Command.{codes}
use librtmp_client.Rtmp.Handshake.{RtmpHandshake}
use librtmp_client.Client.State.{RtmpClient, client_start, connecting_app}

-- std::string::find and find_first_of; npos is `none`.
unfoldable pub starts_with : List ℕ → List ℕ → Bool
starts_with [] s = true
starts_with (c ∷ cs) [] = false
starts_with (c ∷ cs) (d ∷ s) = (c == d) && starts_with cs s

-- A place in the rest of a string, as one in the string.
unfoldable pub next_place : Option ℕ → Option ℕ
next_place none = none
next_place (some p) = some (suc p)

unfoldable pub find : List ℕ → List ℕ → Option ℕ
unfolding starts_with next_place
find needle [] = if starts_with needle [] then some 0 else none
find needle (c ∷ s) =
    let later = find needle s in if starts_with needle (c ∷ s) then some 0 else next_place later

unfoldable pub find_first_of : ℕ → List ℕ → Option ℕ
unfolding next_place
find_first_of c [] = none
find_first_of c (d ∷ s) =
    let later = find_first_of c s in if c == d then some 0 else next_place later

-- `substr(0, pos)`, and `substr(pos + 1)`, where npos + 1 is 0.
unfoldable pub up_to : Option ℕ → List ℕ → List ℕ
up_to none s = s
up_to (some p) s = take p s

unfoldable pub behind : Option ℕ → List ℕ → List ℕ
behind none s = s
behind (some p) s = drop (suc p) s

-- Behind the scheme; npos + 7 is 6. An exception of substr leaves the constructor.
unfoldable pub scheme_end : Option ℕ → ℕ
scheme_end none = 6
scheme_end (some p) = p + 7

unfoldable pub after_scheme : List ℕ → Result (List ℕ)
unfolding find scheme_end
after_scheme rtmpurl =
    let at = scheme_end (find (codes "rtmp://") rtmpurl) in
    if ltb (length rtmpurl) at then err 1 else ok (drop at rtmpurl)

-- atoi, whose result is undefined where the number is no int.
unfoldable pub read_digits : ℕ → List ℕ → ℕ
read_digits n [] = n
read_digits n (c ∷ s) =
    let rest = read_digits (n * 10 + (c - 48)) s in if leb 48 c && leb c 57 then rest else n

unfoldable pub skip_spaces : List ℕ → List ℕ
skip_spaces [] = []
skip_spaces (c ∷ s) =
    let rest = skip_spaces s in if c == 32 || (leb 9 c && leb c 13) then rest else c ∷ s

unfoldable pub positive : ℕ → Result ℕ
positive n = if ltb n (2 ^ 31) then ok n else fault

unfoldable pub negative : ℕ → Result ℕ
negative n = if leb n (2 ^ 31) then ok ((2 ^ 32 - n) % 2 ^ 32) else fault

unfoldable pub signed : List ℕ → Result ℕ
unfolding read_digits positive negative
signed [] = ok 0
signed (c ∷ s) =
    if c == 45
    then negative (read_digits 0 s)
    else if c == 43
    then positive (read_digits 0 s)
    else positive (read_digits 0 (c ∷ s))

unfoldable pub atoi : List ℕ → Result ℕ
unfolding signed skip_spaces
atoi s = signed (skip_spaces s)

-- The host, and the port, of 16 bits; by the place of the colon.
unfoldable pub host_and_port_at : Option ℕ → List ℕ → Result (List ℕ × ℕ)
unfolding atoi
host_and_port_at (some p) addr =
    atoi (drop (suc p) addr) >>= λ port. ok (take p addr, port % 2 ^ 16)
host_and_port_at none addr = ok (addr, 1935)

unfoldable pub host_and_port : List ℕ → Result (List ℕ × ℕ)
unfolding find_first_of host_and_port_at
host_and_port addr = host_and_port_at (find_first_of 58 addr) addr

-- `transport` is what start() makes; the constructor leaves `streamid` and `havestop` unset.
unfoldable pub new_client :
    {T : Type 0} → RtmpHandshake → T → ℕ → Bool → List ℕ → ℕ → Result (RtmpClient T)
unfolding after_scheme host_and_port find_first_of up_to behind
new_client handshake transport streamid havestop rtmpurl dir = do
  addr ← after_scheme rtmpurl
  let slash = find_first_of 47 addr
  let url = behind slash addr
  (ip, port) ← host_and_port (up_to slash addr)
  ok (record {
    rtmp_app = behind (find_first_of 47 url) url;
    rtmp_stream = up_to (find_first_of 47 url) url;
    ip = ip;
    port = port;
    dir = dir;
    status = client_start;
    push_pull_status = connecting_app;
    transport = transport;
    data_cache = init;
    handshake = handshake;
    streamid = streamid;
    havestop = havestop;
  })
