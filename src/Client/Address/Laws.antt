-- ===== src/Client/Address/Laws.antt =====
-- Which server and stream the constructor of RtmpClient in rtmpclient.cc finds in an address.
use librtmp_client.Prelude.{
  ℕ, zero, suc, ◌+◌, ◌-◌, ◌*◌, ◌/◌, ◌%◌, ◌^◌, ◌≤◌, ◌<◌, ◌≡◌, ◌≢◌, refl, sym, ap, ◌∙◌, Bool, true,
  false, List, [], ◌∷◌, ◌++◌, ◌==◌, ltb, leb, ◌&&◌, ◌||◌, length, drop, arith, All, Option, none,
  some, ok, Bool-cases, inl, inr, ltb→lt, append-nil, take-append, if-true, if-false, le→ltb,
  lt→ltb, length-append,
}
use librtmp_client.Rtmp.Command.{codes}
use librtmp_client.Rtmp.Handshake.{RtmpHandshake}
use librtmp_client.DataBuf.Cache.{init}
use librtmp_client.Client.State.{client_start, connecting_app}
use librtmp_client.Client.Messages.{digits}
use librtmp_client.Client.Address.{
  starts_with, next_place, find, find_first_of, up_to, behind, after_scheme, scheme_end,
  read_digits, skip_spaces, positive, signed, atoi, host_and_port_at, host_and_port, new_client,
}

-- No such byte is in the string.
abbrev pub Lacks : ℕ → List ℕ → Type 0
Lacks c s = All (λ d. c ≢ d) s

eq_self : (n : ℕ) → (n == n) ≡ true
eq_self n = ground arith

not_eq : (a b : ℕ) → a ≢ b → (a == b) ≡ false
not_eq a b n = ground arith

find_first_of-append :
    (c : ℕ) (s rest : List ℕ) → Lacks c s → find_first_of c (s ++ (c ∷ rest)) ≡ some (length s)
unfolding find_first_of next_place
find_first_of-append c [] rest h = if-true _ _ (eq_self c)
find_first_of-append c (d ∷ s) rest h =
    if-false _ _ (not_eq c d h.0) ∙ ap next_place (find_first_of-append c s rest h.1)

drop_past : (c : ℕ) (s rest : List ℕ) → drop (suc (length s)) (s ++ (c ∷ rest)) ≡ rest
drop_past c [] rest = refl
drop_past c (d ∷ s) rest = drop_past c s rest

after_scheme-append : (s : List ℕ) → after_scheme (codes "rtmp://" ++ s) ≡ ok s
unfolding after_scheme scheme_end find starts_with
after_scheme-append s =
    if-false _ _
      (le→ltb (length (codes "rtmp://" ++ s)) 7 (omega (arith, length-append (codes "rtmp://") s)))

-- Decimal digits.
abbrev IsDigit : ℕ → Type 0
IsDigit d = (48 ≤ d) × (d ≤ 57)

abbrev power_of_ten : ℕ → ℕ
power_of_ten zero = 1
power_of_ten (suc f) = 10 * power_of_ten f

digits_snoc : (s : List ℕ) (d : ℕ) → All IsDigit s → IsDigit d → All IsDigit (s ++ (d ∷ []))
digits_snoc [] d h k = (k, tt)
digits_snoc (c ∷ s) d h k = (h.0, digits_snoc s d h.1 k)

digits-IsDigit : (f n : ℕ) → All IsDigit (digits f n)
unfolding digits
digits-IsDigit zero n = tt
digits-IsDigit (suc f) n = elim (Bool-cases (ltb n 10)) [
  | inl e ↦ rw (e) ((omega arith, omega (arith, ltb→lt n 10 e)), tt)
  | inr e ↦ rw (e) (
      digits_snoc (digits f (n / 10)) (48 + n % 10) (digits-IsDigit f (n / 10))
        (omega arith, omega arith))
]

digit_test : (c : ℕ) → IsDigit c → (leb 48 c && leb c 57) ≡ true
digit_test c h = ground (arith, h.0, h.1)

read_digit :
    (a c : ℕ) (s : List ℕ) → IsDigit c → read_digits a (c ∷ s) ≡ read_digits (a * 10 + (c - 48)) s
unfolding read_digits
read_digit a c s h = if-true _ _ (digit_test c h)

read_digits-snoc :
    (s : List ℕ) (a k : ℕ)
    → All IsDigit s
    → k < 10
    → read_digits a (s ++ ((48 + k) ∷ [])) ≡ read_digits a s * 10 + k
read_digits-snoc [] a k h lt =
    read_digit a (48 + k) [] (omega arith, omega (arith, lt)) ∙ unfold read_digits in omega arith
read_digits-snoc (c ∷ s) a k h lt =
    read_digit a c (s ++ ((48 + k) ∷ [])) h.0
    ∙ read_digits-snoc s (a * 10 + (c - 48)) k h.1 lt
    ∙ ap (λ (m : ℕ). m * 10 + k) (sym (read_digit a c s h.0))

read_digits-digits : (f n : ℕ) → n < power_of_ten f → read_digits 0 (digits f n) ≡ n
unfolding digits
read_digits-digits zero n lt = unfold read_digits in omega arith
read_digits-digits (suc f) n lt = elim (Bool-cases (ltb n 10)) [
  | inl e ↦ rw (e) (
      read_digit 0 (48 + n) [] (omega arith, omega (arith, ltb→lt n 10 e))
      ∙ unfold read_digits in omega arith)
  | inr e ↦ rw (e) (
      read_digits-snoc (digits f (n / 10)) 0 (n % 10) (digits-IsDigit f (n / 10)) (omega arith)
      ∙ ap (λ (m : ℕ). m * 10 + n % 10) (read_digits-digits f (n / 10) (omega arith))
      ∙ omega arith)
]

space_test : (c : ℕ) → IsDigit c → (c == 32 || (leb 9 c && leb c 13)) ≡ false
space_test c h = ground (arith, h.0, h.1)

not_this : (c d : ℕ) → d < 48 → IsDigit c → (c == d) ≡ false
not_this c d lt h = ground (arith, lt, h.0)

signed-digits : (s : List ℕ) → All IsDigit s → signed (skip_spaces s) ≡ positive (read_digits 0 s)
unfolding skip_spaces
signed-digits [] h = unfold signed read_digits positive in refl
signed-digits (c ∷ s) h =
    ap signed (if-false _ _ (space_test c h.0))
    ∙ unfold signed in
      (if-false _ _ (not_this c 45 (omega arith) h.0)
        ∙ if-false _ _ (not_this c 43 (omega arith) h.0))

-- What atoi makes of digits that are a port.
atoi-digits : (f n : ℕ) → n < power_of_ten f → n < 2 ^ 16 → atoi (digits f n) ≡ ok n
unfolding atoi
atoi-digits f n h lt =
    signed-digits (digits f n) (digits-IsDigit f n)
    ∙ ap positive (read_digits-digits f n h)
    ∙ unfold positive in if-true _ _ (lt→ltb n (2 ^ 31) (omega (arith, lt)))

-- A port, if the address names one.
abbrev pub port_text : Option ℕ → List ℕ
port_text none = []
port_text (some n) = 58 ∷ digits 10 n

abbrev pub port_or_default : Option ℕ → ℕ
port_or_default none = 1935
port_or_default (some n) = n

abbrev pub IsPort : Option ℕ → Type 0
IsPort none = Unit {0}
IsPort (some n) = n < 2 ^ 16

digits-Lacks : (s : List ℕ) → All IsDigit s → Lacks 47 s
digits-Lacks [] h = tt
digits-Lacks (c ∷ s) h = ((λ e. absurd (omega (arith, h.0.0, e))), digits-Lacks s h.1)

Lacks-append : (c : ℕ) (s t : List ℕ) → Lacks c s → Lacks c t → Lacks c (s ++ t)
Lacks-append c [] t hs ht = ht
Lacks-append c (d ∷ s) t hs ht = (hs.0, Lacks-append c s t hs.1 ht)

port_text-Lacks : (port : Option ℕ) → Lacks 47 (port_text port)
port_text-Lacks none = tt
port_text-Lacks (some n) =
    ((λ e. absurd (omega (arith, e))), digits-Lacks (digits 10 n) (digits-IsDigit 10 n))

find_first_of-none : (c : ℕ) (s : List ℕ) → Lacks c s → find_first_of c s ≡ none
unfolding find_first_of
find_first_of-none c [] h = refl
find_first_of-none c (d ∷ s) h =
    if-false _ _ (not_eq c d h.0)
    ∙ ap next_place (find_first_of-none c s h.1)
    ∙ unfold next_place in refl

host_and_port-text :
    (ip : List ℕ) (port : Option ℕ)
    → Lacks 58 ip
    → IsPort port
    → host_and_port (ip ++ port_text port) ≡ ok (ip, port_or_default port)
unfolding host_and_port
host_and_port-text ip none h w =
    ap host_and_port (append-nil ip)
    ∙ ap (λ p. host_and_port_at p ip) (find_first_of-none 58 ip h)
    ∙ unfold host_and_port_at in refl
host_and_port-text ip (some n) h w =
    ap (λ p. host_and_port_at p (ip ++ (58 ∷ digits 10 n)))
      (find_first_of-append 58 ip (digits 10 n) h)
    ∙ unfold host_and_port_at in
      rw
        (
          drop_past 58 ip (digits 10 n),
          atoi-digits 10 n (omega (arith, w)) w,
          take-append ip (58 ∷ digits 10 n),
        )
        (ap (λ (m : ℕ). ok (ip, m)) (omega (arith, w)))

-- Of an address with a scheme, a host, a port or none, and a path of two parts, a client is made for
-- that host and port, by default 1935, before its handshake; its `rtmp_stream_` is the first part of
-- the path, and its `rtmp_app_` what stands behind it.
pub new_client-address :
    {T : Type 0} (handshake : RtmpHandshake) (transport : T) (streamid : ℕ) (havestop : Bool)
    (ip first rest : List ℕ) (port : Option ℕ) (dir : ℕ)
    → Lacks 58 ip
    → Lacks 47 ip
    → Lacks 47 first
    → IsPort port
    → new_client handshake transport streamid havestop
        (codes "rtmp://" ++ ((ip ++ port_text port) ++ (47 ∷ (first ++ (47 ∷ rest)))))
        dir
      ≡ ok (record {
        rtmp_app = rest;
        rtmp_stream = first;
        ip = ip;
        port = port_or_default port;
        dir = dir;
        status = client_start;
        push_pull_status = connecting_app;
        transport = transport;
        data_cache = init;
        handshake = handshake;
        streamid = streamid;
        havestop = havestop;
      })
unfolding new_client up_to behind
new_client-address handshake transport streamid havestop ip first rest port dir colon slash slash'
      w =
    let path = first ++ (47 ∷ rest) in
    let host = ip ++ port_text port in
    rw
      (
        after_scheme-append (host ++ (47 ∷ path)),
        find_first_of-append 47 host path
            (Lacks-append 47 ip (port_text port) slash (port_text-Lacks port)),
        take-append host (47 ∷ path),
        drop_past 47 host path,
        host_and_port-text ip port colon w,
        find_first_of-append 47 first rest slash',
        take-append first (47 ∷ rest),
        drop_past 47 first rest,
      )
      refl
