-- ===== src/Rtmp/Command/Reader.antt =====
-- How the methods `decode` of net/app_protocol/rtmp/rtmp_stack_packet.cc go through their buffer: a
-- call reads at `data + offset` and its result is added to `offset`.
use librtmp_client.Prelude.{
  ℕ, ◌+◌, ◌-◌, ◌≤◌, ◌≡◌, ◌∙◌, refl, Bool, true, false, List, [], ◌∷◌, ◌++◌, ◌==◌, if◌then◌else◌,
  length, drop, drop-append, drop-drop, length-drop, arith, Result, ok, err, fault, out_of_fuel,
  Returns, gives, refuses, ap,
}
use librtmp_client.Amf0.Read.{Read}
use librtmp_client.Amf0.Write.{minus_one}
use librtmp_client.Prelude

abbrev pub Reader : Type 0 → Type 0
Reader A = List ℕ → Read A

infixl 5 ◌>>=◌
unfoldable pub ◌>>=◌ : {A B : Type 0} → Reader A → (A → Reader B) → Reader B
◌>>=◌ r k data' =
    Prelude.◌>>=◌ (r data') λ (n, a). Prelude.◌>>=◌ (k a (drop n data')) λ (m, b). ok (n + m, b)

-- No bytes taken.
unfoldable pub pure : {A : Type 0} → A → Reader A
pure a data' = ok (0, a)

-- `if (!b) return -n;`
unfoldable pub check : Bool → ℕ → Reader (Unit {0})
check b n data' = if b then ok (0, tt) else err n

-- `if (offset < len)`, and otherwise the field as it is.
unfoldable pub if_more : {A : Type 0} → A → Reader A → Reader A
if_more a r data' = if length data' == 0 then ok (0, a) else r data'

-- A reader without a value.
unfoldable pub skip : (List ℕ → Result ℕ) → Reader (Unit {0})
skip r data' = Prelude.◌>>=◌ (r data') λ n. ok (n, tt)

-- Every error is -1.
unfoldable pub or_minus_one : {A : Type 0} → Reader A → Reader A
or_minus_one r data' = minus_one (r data')
