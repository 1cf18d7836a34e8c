-- ===== src/Core/Tcp/Honest.antt =====
-- A read that fails says so: its status is never MU_STATUS_GOOD.
use muc_opcua.Common.{ℕ, ◌≢◌, List, arith}
use muc_opcua.Status.{good}
use muc_opcua.Encoding.State.{Outcome, done, fail, M, ◌>>=◌, ◌>>◌}
use muc_opcua.Encoding.Le.{get_u32}
use muc_opcua.Encoding.Reader.{Reader, ensure_bytes, fetch, read_int32, read_uint32, reader_fail}
use muc_opcua.Encoding.Text.{ensure_string_payload, read_string_payload, read_string}
use muc_opcua.Core.Tcp.{read_hello, read_limits, check_size}

abbrev pub IsHonest : {A : Type 0} → Outcome Reader A → Type 0
IsHonest (done a r) = Unit
IsHonest (fail e r) = e ≢ good

pub record Honest {A : Type 0} (m : M Reader A) : Type 0 where
  pub run : (r : Reader) → IsHonest (m r)

Honest-then :
    {A B : Type 0} (o : Outcome Reader A) (f : A → M Reader B)
    → IsHonest o
    → ((a : A) → Honest (f a))
    → IsHonest (elim o [ done a s' ↦ f a s' | fail e s' ↦ fail e s' ])
Honest-then (done a r) f h hf = (hf a).run r
Honest-then (fail e r) f h hf = h

Honest-bind :
    {A B : Type 0} (m : M Reader A) (f : A → M Reader B)
    → Honest m
    → ((a : A) → Honest (f a))
    → Honest (m >>= f)
Honest-bind m f hm hf = record { run = λ r. Honest-then (m r) f (hm.run r) hf }

ensure_bytes-IsHonest : (n : ℕ) (r : Reader) → IsHonest (ensure_bytes n r)
unfolding ensure_bytes
ensure_bytes-IsHonest n r = ground arith

Honest-word : (get : List ℕ → ℕ → ℕ) (n : ℕ) → Honest (ensure_bytes n >> fetch get n)
Honest-word get n =
    Honest-bind (ensure_bytes n) (λ _. fetch get n) (record { run = ensure_bytes-IsHonest n })
      (λ _. record { run = λ r. tt })

Honest-int32 : Honest read_int32
unfolding read_int32
Honest-int32 = Honest-word get_u32 4

Honest-uint32 : Honest read_uint32
unfolding read_uint32
Honest-uint32 = Honest-word get_u32 4

payload-IsHonest : (n : ℕ) (r : Reader) → IsHonest (read_string_payload n r)
unfolding read_string_payload ensure_string_payload reader_fail
payload-IsHonest n r = ground arith

Honest-string : Honest read_string
unfolding read_string
Honest-string =
    Honest-bind read_int32 read_string_payload Honest-int32
      (λ n. record { run = payload-IsHonest n })

check_size-IsHonest : (n m : ℕ) (r : Reader) → IsHonest (check_size n m r)
unfolding check_size
check_size-IsHonest n m r = ground arith

Honest-limits : Honest read_limits
unfolding read_limits
Honest-limits = Honest-bind read_uint32 _ Honest-uint32 (λ _.
    Honest-bind read_uint32 _ Honest-uint32 (λ _. Honest-bind read_uint32 _ Honest-uint32 (λ _.
      Honest-bind read_uint32 _ Honest-uint32 (λ _.
        Honest-bind read_uint32 _ Honest-uint32
          (λ _. Honest-bind read_string _ Honest-string (λ _. record { run = λ r. tt }))))))

pub Honest-hello : (n : ℕ) → Honest (read_hello n)
unfolding read_hello
Honest-hello n = Honest-bind read_int32 _ Honest-int32 (λ size.
    Honest-bind (check_size n size) _ (record { run = check_size-IsHonest n size })
      (λ _. Honest-limits))
